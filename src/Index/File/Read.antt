-- ===== src/Index/File/Read.antt =====
-- What an index read from its file knows (`from_index_file` of crates/mapache/src/repository/index.rs).
use mathlib.Core.List.Memᴰ
use mapache.Prelude.{
  ℕ, ◌^◌, ◌≤◌, ◌≡◌, ◌≢◌, refl, sym, ap, subst, ◌∙◌, inl, inr, [], Memᴰ, Option, none, some,
  and_then, length, list_eq, nat_eq, none-ne-some, some-injective, arith,
}
use mapache.Prelude.Order.{list_order, nat_order}
use mapache.Prelude.Search.{Memᴰ-sort_by_key}
use mapache.Common.{ContentId, BlobType, data_blob, tree_blob, padding}
use mapache.Collections.IndexSet as IndexSet
use mapache.Collections.IndexSet.Insert.{new-IsIndexed}
use mapache.Collections.DedupFilter.{DedupFilter}
use mapache.Index.BlobMap as BlobMap
use mapache.Index.BlobMap.{BlobLocationInternal, Entry, id_of}
use mapache.Index.BlobMap.Lookup.{get-Memᴰ, get-finds, frozen-IsWellFormed, iter-frozen}
use mapache.Index.State.{Index, BlobLocator, resolve_location}
use mapache.Index.AddPack.{map_of}
use mapache.Index.Validity.{located_as}
use mapache.Index.File.{IndexFile, load_packs, from_index_file}
use mapache.Index.File.Entries.{pick, file_locator, Written}
use mapache.Index.File.Load.{Loaded, Fits, State, load_packs-Loaded, load_packs-Memᴰ}

abbrev pub start : State
start = (IndexSet.new, ([], []))

start_pick : (t : BlobType) → pick t ([], []) ≡ []
start_pick data_blob = refl
start_pick tree_blob = refl
start_pick padding = refl

module _ (F : Type 0) ⦃filter : DedupFilter F⦄ (instance_id : ℕ) (file : IndexFile)
    (file_id : ContentId) (room : length file.packs ≤ 2 ^ 32) where
  pub fits : Fits file.packs start
  fits = (new-IsIndexed, omega (arith, room))

  abbrev pub index : Index F
  index = from_index_file instance_id file file_id

  map_of-index :
      (t : BlobType)
      → t ≢ padding
      → map_of t index ≡ BlobMap.frozen (pick t (load_packs file.packs start).1)
  unfolding from_index_file
  map_of-index data_blob typed = refl
  map_of-index tree_blob typed = refl
  map_of-index padding typed = absurd (typed refl)

  values-index : index.pack_ids.values ≡ (load_packs file.packs start).0.values
  unfolding from_index_file
  values-index = refl

  -- A location of the index stands for a blob of the file.
  pub get-Loaded :
      (t : BlobType) (k : ContentId) (loc : BlobLocationInternal)
      → t ≢ padding
      → BlobMap.get (map_of t index) k ≡ some loc
      → Loaded file.packs index.pack_ids.values t k loc
  get-Loaded t k loc typed q =
      let entries = pick t (load_packs file.packs start).1 in
      let m =
        get-Memᴰ (BlobMap.frozen entries) k
          (ap (λ m. BlobMap.get m k) (sym (map_of-index t typed)) ∙ q) in
      let m' =
        (Memᴰ-sort_by_key id_of (k, loc) entries).0
          (subst (Memᴰ (k, loc)) (iter-frozen F entries) m) in
      elim (load_packs-Loaded file.packs start t k loc typed fits m') [
        | inl old ↦ absurd (Memᴰ.not-nil (subst (Memᴰ (k, loc)) (start_pick t) old))
        | inr l ↦ subst (λ values. Loaded file.packs values t k loc) (sym values-index) l
      ]

  located_as-Loaded :
      (t : BlobType) (k : ContentId) (loc : BlobLocationInternal)
      → BlobMap.get (map_of t index) k ≡ some loc
      → (l : Loaded file.packs index.pack_ids.values t k loc)
      → located_as t index k ≡ some (file_locator l.pack.id l.blob)
  located_as-Loaded t k loc q l =
      ap (λ o. and_then o λ loc. resolve_location index loc t) q
      ∙ ap (λ loc. resolve_location index loc t) l.at
      ∙ ap (λ (o : Option ContentId). and_then o λ pack_id. some (in_pack pack_id t)) l.known
      ∙ ap (λ u. some (in_pack l.pack.id u)) (sym l.typed)
    where
      in_pack : ContentId → BlobType → BlobLocator
      in_pack pack_id u = record {
        pack_id = pack_id;
        offset = l.blob.offset;
        length = l.blob.length;
        raw_length = l.blob.raw_length;
        blob_type = u;
      }

  -- A blob is found only where the file has it.
  pub located_as-Written :
      (t : BlobType) (k : ContentId) (l : BlobLocator)
      → t ≢ padding
      → located_as t index k ≡ some l
      → Written file.packs t k l
  located_as-Written t k l typed q = by_get (BlobMap.get (map_of t index) k) refl
    where
      by_get :
          (found : Option BlobLocationInternal)
          → BlobMap.get (map_of t index) k ≡ found
          → Written file.packs t k l
      by_get none r =
          absurd
            (none-ne-some (sym (ap (λ o. and_then o λ loc. resolve_location index loc t) r) ∙ q))
      by_get (some loc) r =
          let loaded = get-Loaded t k loc typed r in
          record {
            pack = loaded.pack;
            blob = loaded.blob;
            in_file = loaded.in_file;
            in_pack = loaded.in_pack;
            typed = loaded.typed;
            of_id = loaded.of_id;
            at = some-injective (sym q ∙ located_as-Loaded t k loc r loaded);
          }

  -- Every blob of the file is found.
  pub Written-located_as :
      (t : BlobType) (k : ContentId) (l : BlobLocator)
      → t ≢ padding
      → Written file.packs t k l
      → (found : BlobLocator) × (located_as t index k ≡ some found)
  Written-located_as t k l typed w =
      let entries = pick t (load_packs file.packs start).1 in
      let (loc, m) =
        load_packs-Memᴰ file.packs start t w.pack w.blob typed fits w.in_file w.in_pack w.typed in
      let m' : Memᴰ (k, loc) entries = subst (λ j. Memᴰ (j, loc) entries) w.of_id m in
      let m'' =
        subst (Memᴰ (k, loc)) (sym (iter-frozen F entries))
          ((Memᴰ-sort_by_key id_of (k, loc) entries).1 m') in
      let (found, q) =
        get-finds (BlobMap.frozen entries) k loc (frozen-IsWellFormed F entries) m'' in
      let r = ap (λ m. BlobMap.get m k) (map_of-index t typed) ∙ q in
      let loaded = get-Loaded t k found typed r in
      (file_locator loaded.pack.id loaded.blob, located_as-Loaded t k found r loaded)
