-- ===== src/Index/File/Loaded.antt =====
-- An index read from any file is well-formed (`from_index_file` of crates/mapache/src/repository/index.rs).
use mapache.Prelude.{
  ℕ, ◌^◌, ◌<◌, ◌≤◌, ◌≡◌, List, sym, ◌∙◌, some, length, list_eq, nat_eq, none-ne-some, get_elem?-lt,
}
use mapache.Prelude.Order.{list_order, nat_order}
use mapache.Common.{ContentId, BlobType, data_blob, tree_blob, padding}
use mapache.Collections.DedupFilter.{DedupFilter}
use mapache.Index.BlobMap as BlobMap
use mapache.Index.BlobMap.{BlobLocationInternal}
use mapache.Index.BlobMap.Lookup.{IsWellFormed, nil-IsMap, frozen-IsWellFormed}
use mapache.Index.AddPack.{map_of}
use mapache.Index.Validity.{IsValid, get-new, data-ne-padding, tree-ne-padding}
use mapache.Index.File.{IndexFile, load_packs, from_index_file}
use mapache.Index.File.Load.{load_packs-IsIndexed}
use mapache.Index.File.Read.{index, start, fits, get-Loaded}

module _ (F : Type 0) ⦃filter : DedupFilter F⦄ (instance_id : ℕ) (file : IndexFile)
    (file_id : ContentId) (room : length file.packs ≤ 2 ^ 32) where
  pub from_index_file-IsValid : IsValid (from_index_file {F = F} instance_id file file_id)
  unfolding from_index_file
  from_index_file-IsValid = record {
    formed = formed;
    indexed = load_packs-IsIndexed file.packs start (fits F instance_id file file_id room);
    packs = packs;
  }
    where
      values : List ContentId
      values = (index F instance_id file file_id room).pack_ids.values

      formed : (t : BlobType) → IsWellFormed (map_of t (index F instance_id file file_id room))
      formed data_blob = frozen-IsWellFormed F (load_packs file.packs start).1.0
      formed tree_blob = frozen-IsWellFormed F (load_packs file.packs start).1.1
      formed padding = nil-IsMap

      packs :
          (t : BlobType) (k : ContentId) (loc : BlobLocationInternal)
          → BlobMap.get (map_of t (index F instance_id file file_id room)) k ≡ some loc
          → loc.pack_array_index < length (index F instance_id file file_id room).pack_ids.values
      packs data_blob k loc q =
          let l = get-Loaded F instance_id file file_id room data_blob k loc data-ne-padding q in
          get_elem?-lt values loc.pack_array_index l.known
      packs tree_blob k loc q =
          let l = get-Loaded F instance_id file file_id room tree_blob k loc tree-ne-padding q in
          get_elem?-lt values loc.pack_array_index l.known
      packs padding k loc q = absurd (none-ne-some (sym (get-new F k) ∙ q))
