-- ===== src/Lib.antt =====
-- A verification library of mapache, a deduplicating backup program.
--
-- A snapshot runs through the program as follows. The chunker (crates/chunker) splits a file into
-- chunks by their content. Each chunk is a blob: the storage compresses and encrypts it, and a packer
-- collects blobs into a pack, a file that ends in an encrypted footer with one entry for each blob. The
-- footer is read again to rebuild the index. A bundle is an archive file of its own with blobs, an
-- index and a trailer. The index maps each blob to its pack and finds blobs that are stored
-- already. Retention rules decide which snapshots `forget` keeps.
--
-- Which file models what (paths from the repository's root):
--   Chunker/Tables     crates/chunker/src/lookup.rs: the tables `GEAR`, `GEAR_LS` and `MASKS`
--   Chunker/Config     crates/chunker/src/lib.rs: `Chunker::new`; a panic is `none`
--   Chunker/Cut        crates/chunker/src/lib.rs: `Chunker::cut`. The search loops are `align` and
--                      `phase`, on 64-bit words that wrap; a read out of the slice is `fault`
--   Chunker/Reader     a source behind `std::io::Read`, a parameter with its documented behaviour
--   Chunker/Stream     crates/chunker/src/lib.rs: `ChunkStream::next`, as state passing over the
--                      source, the buffer and the offset
--   Common, Binary     crates/mapache/src/common/mod.rs (`ID`, `BlobType`) and
--                      crates/mapache/src/utils/binary.rs (little-endian readers and writers)
--   Hex                crates/mapache/src/common/mod.rs and crates/mapache/src/utils/mod.rs: IDs as
--                      hexadecimal strings
--   Storage            crates/mapache/src/repository/storage.rs: `SecureStorage`. The cipher and the
--                      compression (`aes-gcm-siv`, `zstd`) are the parameter `Primitives`; a random
--                      nonce is an argument
--   Packer             crates/mapache/src/repository/packer.rs: `Packer` and its footer. The hash and
--                      the random padding are arguments
--   Packer/Saver       the same file: the request loop of `PackSaver`. What the worker pool answers
--                      to a dispatch is an argument; the packers sent are kept in a list
--   Bundle             crates/mapache/src/bundle/format.rs: header, trailer and index of a bundle
--   Retention          crates/mapache/src/repository/retention.rs: the rules, their cutoffs
--                      (Retention/Cutoff) over the crate `chrono` (the parameter `Chrono`), the
--                      minimum and the filter by hosts; `has_tags` of
--                      crates/mapache/src/repository/snapshot.rs
--   Collections        crates/mapache/src/utils/collections: `IndexSet`, which the index numbers its
--                      packs with, `BloomFilter`, `ShardedIdSet` and `Lru`; a hash map is a list of
--                      entries (Collections/Maps). Collections/DedupFilter is what the index asks of
--                      its filter, with `BloomFilter` as the implementation
--   Index              crates/mapache/src/repository/index.rs: `BlobMap` (Index/BlobMap), `Index`
--                      (Index/State), its file (Index/File), `MasterIndex` (Index/Master) and the
--                      operations on all indices (Index/Merge). The JSON text and `save_file` are one
--                      parameter; the clock's answer and the counter of instances are arguments. The
--                      code under one lock is one step; Index/History is the relation of these steps and
--                      of the calls
--   Base64             crates/mapache/src/utils/base64.rs
--   Prelude            the standard library's sort and binary search (Prelude/Search), orders, bits
--
-- How the index interacts with the rest: a packer's descriptors reach it by `add_pack` when a pack is
-- saved; before that a blob's ID waits in a `ShardedIdSet`. Both are asked, behind the filter, whether
-- a blob has to be stored again.
--
-- Conventions. A byte, a word and a size are natural numbers, with the wrap-around of the machine
-- written out; arithmetic wraps as in a release build. An ID is its list of bytes. A fallible function
-- returns `Result`, in which `panicked` stands for a panic. A `HashSet` is a list without repetition.
--
-- Fuel. `phase` takes as many rounds as its slice has bytes, and one more; a round moves on by two
-- bytes. `fill` takes as many rounds as the source has interruptions and the buffer has free bytes, and
-- one more; each round uses up one of them. `parse_descriptors` takes as many rounds as there are
-- bytes, and a round reads 41 of them. The binary search takes as many rounds as its vector is long.
-- The theorems prove that this much is enough.
--
-- Not modelled: a run of `PackSaver` in which a worker fails; a filter of more than 2 ^ 60 bytes, at
-- whose size the source overflows; offsets of a stream of 2 ^ 64 bytes and more; capacities of buffers,
-- log messages and the texts of errors; threads, channels and asynchronous I/O; garbage collection,
-- locks, trees and the restorer; backends, commands, user interfaces and mounts.
pub mod Prelude
pub mod Common
pub mod Binary
pub mod Storage
pub mod Chunker
pub mod Packer
pub mod Bundle
pub mod Retention
pub mod Collections
pub mod Hex
pub mod Index
pub mod Base64
