-- ===== src/Chunker/Tests.antt =====
-- Runs of the chunker on small inputs, and its theorems at inputs that meet their hypotheses.
use mapache.Prelude.{
  ℕ, zero, suc, ◌≤◌, ◌<◌, ◌≡◌, ◌≢◌, refl, sym, ap, min, List, [], ◌∷◌, ◌++◌, map, concat, some,
  none, length, take, drop, replicate, take-append-drop, length-take, ok, arith,
}
use mapache.Chunker.Tables.{gear_table, gear_ls_table}
use mapache.Chunker.Config.{Chunker, l2, new, ilog2, bits, sizes_allowed}
use mapache.Chunker.Config.New.{Built, new_allowed}
use mapache.Chunker.Cut.{cut, search_cut, finish}
use mapache.Chunker.Cut.Reference.{IsWellFormed, reference_cut}
use mapache.Chunker.Cut.Correct.{cut-reference_cut}
use mapache.Chunker.Cut.Bounds.{InBounds, cut_bounds}
use mapache.Chunker.Cut.Local.{cut-append}
use mapache.Chunker.Reader.{Reader, ReadResult, got, interrupted, failed}
use mapache.Chunker.Stream.{Chunk, open_stream, next}
use mapache.Chunker.Stream.Filling.{SourceFails}
use mapache.Chunker.Stream.Next.{Delivers, next-Delivers}
use mapache.Chunker.Stream.Run.{collect, all_chunks, collect-all_chunks}
use mapache.Chunker.Stream.Chunks.{AreChunks, collect_reconstructs}

abbrev tiny : Chunker
tiny = record {
  min_size = 64;
  normal_size = 80;
  max_size = 128;
  gear = gear_table;
  gear_ls = gear_ls_table;
  mask_s = 0x0000000100010044;
  mask_l = 0x0000000000002000;
  mask_s_ls = 0x0000000200020088;
  mask_l_ls = 0x0000000000004000;
}

tiny-IsWellFormed : IsWellFormed tiny
unfolding gear_table gear_ls_table
tiny-IsWellFormed = record {
  min_bound = omega arith;
  min_normal = omega arith;
  normal_max = omega arith;
  doubled_gear = refl;
  small_mask = omega arith;
  large_mask = omega arith;
  doubled_small = refl;
  doubled_large = refl;
}

abbrev bytes : List ℕ
bytes = replicate 50 1 ++ replicate 50 7 ++ replicate 100 9

-- A cut by the hash, and one at the maximum.
cuts : (cut tiny bytes ≡ some 73) × (cut tiny (replicate 300 0) ≡ some 64)
unfolding cut search_cut finish gear_table gear_ls_table
cuts = (refl, refl)

new_runs : new 64 50 1024 l2 ≡ none
unfolding new ilog2 bits sizes_allowed
new_runs = refl

-- A source that delivers seven bytes in a call at most, after some interruptions.
record Trickle : Type 0 where
  bytes_left : List ℕ
  signals : ℕ

trickle_read : ℕ → List ℕ → ℕ → ReadResult × Trickle
trickle_read zero left n =
    (got (take (min n 7) left), record { bytes_left = drop (min n 7) left; signals = 0 })
trickle_read (suc k) left n = (interrupted, record { bytes_left = left; signals = k })

trickle_got :
    (k : ℕ) (left : List ℕ) (n : ℕ) (bs : List ℕ)
    → (trickle_read k left n).0 ≡ got bs
    → (left ≡ bs ++ (trickle_read k left n).1.bytes_left)
      × (length bs ≤ n)
      × ((trickle_read k left n).1.signals ≤ k)
unfolding trickle_read
trickle_got zero left n bs e =
    let e' : take (min n 7) left ≡ bs = cc in
    (
      rw (← e') (sym (take-append-drop (min n 7) left)),
      rw (← e') (omega (arith, length-take (min n 7) left)),
      omega arith,
    )
trickle_got (suc k) left n bs e = absurd (let no' : interrupted ≡ got bs → ⊥ = λ q. cc in no' e)

trickle_end :
    (k : ℕ) (left : List ℕ) (n : ℕ) → 0 < n → (trickle_read k left n).0 ≡ got [] → left ≡ []
unfolding trickle_read
trickle_end zero [] n h e = refl
trickle_end zero (x ∷ left) n h e =
    let e' : take (min n 7) (x ∷ left) ≡ [] = cc in
    absurd (omega (arith, ap length e', length-take (min n 7) (x ∷ left)))
trickle_end (suc k) left n h e = absurd (let no' : interrupted ≡ got [] → ⊥ = λ q. cc in no' e)

trickle_interrupted :
    (k : ℕ) (left : List ℕ) (n : ℕ)
    → (trickle_read k left n).0 ≡ interrupted
    → ((trickle_read k left n).1.bytes_left ≡ left) × ((trickle_read k left n).1.signals < k)
unfolding trickle_read
trickle_interrupted zero left n e =
    absurd (let no' : got (take (min n 7) left) ≡ interrupted → ⊥ = λ q. cc in no' e)
trickle_interrupted (suc k) left n e = (refl, omega arith)

never_fails : (k : ℕ) (left : List ℕ) (n : ℕ) → (trickle_read k left n).0 ≢ failed
unfolding trickle_read
never_fails zero left n = λ q. cc
never_fails (suc k) left n = λ q. cc

abbrev trickle : Reader
trickle = record {
  State = Trickle;
  read = λ s n. trickle_read s.signals s.bytes_left n;
  content = λ s. s.bytes_left;
  patience = λ s. s.signals;
  read_got = λ s n bs e. trickle_got s.signals s.bytes_left n bs e;
  read_end = λ s n h e. trickle_end s.signals s.bytes_left n h e;
  read_interrupted = λ s n e. trickle_interrupted s.signals s.bytes_left n e;
  read_failed = λ s n e. absurd (never_fails s.signals s.bytes_left n e);
}

trickle_steady : ¬ SourceFails trickle
trickle_steady (s, n, e) = never_fails s.signals s.bytes_left n e

abbrev source : Trickle
source = record { bytes_left = bytes; signals = 2 }

sizes : List Chunk → List ℕ
sizes ks = map (λ k. k.size) ks

stream_runs :
    (ks : List Chunk) × (collect trickle tiny 201 131 (open_stream trickle source) ≡ ok ks)
    × (sizes ks ≡ 73 ∷ 64 ∷ 63 ∷ [])
unfolding sizes collect next cut search_cut finish gear_table gear_ls_table trickle_read
stream_runs = (_, refl, refl)

new_allowed_example : (c : Chunker) × (new 64 300 1024 l2 ≡ some c) × Built 64 300 1024 c
new_allowed_example = new_allowed 64 300 1024 l2 (omega arith)

cut-reference_cut_example : cut tiny bytes ≡ some (reference_cut tiny bytes)
cut-reference_cut_example = cut-reference_cut tiny bytes tiny-IsWellFormed

cut_bounds_example : (r : ℕ) × (cut tiny bytes ≡ some r) × InBounds tiny bytes r
cut_bounds_example = cut_bounds tiny bytes tiny-IsWellFormed

cut-append_example : cut tiny (bytes ++ (1 ∷ [])) ≡ cut tiny bytes
cut-append_example = cut-append tiny bytes (1 ∷ []) tiny-IsWellFormed (omega arith)

next-Delivers_example :
    Delivers trickle tiny
      (open_stream trickle source)
      (next trickle 131 tiny (open_stream trickle source)).0
      (next trickle 131 tiny (open_stream trickle source)).1
next-Delivers_example =
    next-Delivers trickle tiny tiny-IsWellFormed 131 (open_stream trickle source) (omega arith)
      (omega arith)

collect-all_chunks_example :
    collect trickle tiny 201 131 (open_stream trickle source) ≡ ok (all_chunks tiny bytes)
collect-all_chunks_example =
    collect-all_chunks trickle tiny 201 131 source tiny-IsWellFormed trickle_steady (omega arith)
      (omega arith)

collect_reconstructs_example :
    (ks : List Chunk) × (collect trickle tiny 201 131 (open_stream trickle source) ≡ ok ks)
    × (concat (map (λ k. k.payload) ks) ≡ bytes)
    × AreChunks tiny 0 ks
collect_reconstructs_example =
    collect_reconstructs trickle tiny 201 131 source tiny-IsWellFormed trickle_steady (omega arith)
      (omega arith)
