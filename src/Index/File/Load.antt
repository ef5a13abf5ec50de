-- ===== src/Index/File/Load.antt =====
-- The loops of `from_index_file` (crates/mapache/src/repository/index.rs).
use mathlib.Core.List.Memᴰ
use mapache.Prelude.{
  ℕ, suc, ◌+◌, ◌%◌, ◌^◌, ◌≤◌, ◌≡◌, ◌≢◌, refl, sym, ap, subst, ◌∙◌, ◌⊎◌, inl, inr, List, [], ◌∷◌,
  ◌++◌, Memᴰ, Option, none, some, length, get_elem?, list_eq, nat_eq, length-append, arith,
}
use mapache.Prelude.Order.{list_order, nat_order}
use mapache.Common.{ContentId, BlobType, padding}
use mapache.Collections.Maps as Maps
use mapache.Collections.IndexSet as IndexSet
use mapache.Collections.IndexSet.Insert.{IsIndexed, insert-Inserts}
use mapache.Index.BlobMap.{BlobLocationInternal, Entry}
use mapache.Index.AddPack.{insert-le}
use mapache.Index.File.{IndexFilePack, IndexFileBlob, file_location, load_blobs, load_packs}
use mapache.Index.File.Entries.{
  pick, new_entries, pick-load_blobs, Memᴰ-new_entries, new_entries-Memᴰ,
}

-- One pack at most is added.
pub insert-length :
    (s : IndexSet.IndexSet ContentId) (item : ContentId)
    → length (IndexSet.insert s item).1.values ≤ suc (length s.values)
unfolding IndexSet.insert
insert-length s item = by_index (Maps.get s.map item) refl
  where
    by_index :
        (found : Option ℕ)
        → Maps.get s.map item ≡ found
        → length (IndexSet.insert s item).1.values ≤ suc (length s.values)
    by_index none q = rw (q, IndexSet.insert) (omega (arith, length-append s.values (item ∷ [])))
    by_index (some i) q = rw (q, IndexSet.insert) (omega arith)

-- An entry that stands for a blob of the packs.
pub record Loaded (packs : List IndexFilePack) (values : List ContentId) (t : BlobType)
    (k : ContentId) (loc : BlobLocationInternal) : Type 0 where
  pub pack : IndexFilePack
  pub blob : IndexFileBlob
  pub in_file : Memᴰ pack packs
  pub in_pack : Memᴰ blob pack.blobs
  pub typed : blob.blob_type ≡ t
  pub of_id : blob.id ≡ k
  pub known : get_elem? values loc.pack_array_index ≡ some pack.id
  pub at : loc ≡ file_location loc.pack_array_index blob

abbrev pub State : Type 0
State = IndexSet.IndexSet ContentId × (List Entry × List Entry)

-- The state after one pack.
abbrev after : IndexFilePack → State → State
after pack (pack_ids, entries) =
    let inserted = IndexSet.insert pack_ids pack.id in
    (inserted.1, load_blobs (inserted.0 % 2 ^ 32) pack.blobs entries)

-- The packs still fit the 32 bits of an index.
abbrev pub Fits : List IndexFilePack → State → Type 0
Fits packs state = IsIndexed state.0 × (length state.0.values + length packs ≤ 2 ^ 32)

after-Fits :
    (pack : IndexFilePack) (packs : List IndexFilePack) (state : State)
    → Fits (pack ∷ packs) state
    → Fits packs (after pack state)
after-Fits pack packs (pack_ids, entries) (indexed, room) = (
  (insert-Inserts pack_ids pack.id indexed).0,
  omega (arith, room, insert-length pack_ids pack.id),
)

pub load_packs-IsIndexed :
    (packs : List IndexFilePack) (state : State)
    → Fits packs state
    → IsIndexed (load_packs packs state).0
load_packs-IsIndexed [] state fits = fits.0
load_packs-IsIndexed (pack ∷ packs) (pack_ids, entries) fits =
    load_packs-IsIndexed packs (after pack (pack_ids, entries))
      (after-Fits pack packs (pack_ids, entries) fits)

load_packs_known :
    (packs : List IndexFilePack) (state : State) (i : ℕ) {p : ContentId}
    → Fits packs state
    → get_elem? state.0.values i ≡ some p
    → get_elem? (load_packs packs state).0.values i ≡ some p
load_packs_known [] state i fits q = q
load_packs_known (pack ∷ packs) (pack_ids, entries) i {p} fits q =
    load_packs_known packs (after pack (pack_ids, entries)) i
      (after-Fits pack packs (pack_ids, entries) fits)
      ((insert-Inserts pack_ids pack.id fits.0).2 p i q)

pick-after :
    (pack : IndexFilePack) (packs : List IndexFilePack) (state : State) (t : BlobType)
    → t ≢ padding
    → Fits (pack ∷ packs) state
    → pick t (after pack state).1
      ≡ pick t state.1 ++ new_entries (IndexSet.insert state.0 pack.id).0 t pack.blobs
pick-after pack packs (pack_ids, entries) t typed (indexed, room) =
    let low = insert-le pack_ids pack.id indexed in
    let small : (IndexSet.insert pack_ids pack.id).0 % 2 ^ 32
        ≡ (IndexSet.insert pack_ids pack.id).0 =
      omega (arith, low, room) in
    pick-load_blobs ((IndexSet.insert pack_ids pack.id).0 % 2 ^ 32) pack.blobs t entries typed
    ∙ ap (λ i. pick t entries ++ new_entries i t pack.blobs) small

-- Every entry that is loaded was there, or stands for a blob of the file.
pub load_packs-Loaded :
    (packs : List IndexFilePack) (state : State) (t : BlobType) (k : ContentId)
    (loc : BlobLocationInternal)
    → t ≢ padding
    → Fits packs state
    → Memᴰ (k, loc) (pick t (load_packs packs state).1)
    → Memᴰ (k, loc) (pick t state.1) ⊎ Loaded packs (load_packs packs state).0.values t k loc
load_packs-Loaded [] state t k loc typed fits m = inl m
load_packs-Loaded (pack ∷ packs) (pack_ids, entries) t k loc typed fits m =
    let state' = after pack (pack_ids, entries) in
    let fits' = after-Fits pack packs (pack_ids, entries) fits in
    elim (load_packs-Loaded packs state' t k loc typed fits' m) [
      | inr l ↦ inr (record {
        pack = l.pack;
        blob = l.blob;
        in_file = Memᴰ.tail l.in_file;
        in_pack = l.in_pack;
        typed = l.typed;
        of_id = l.of_id;
        known = l.known;
        at = l.at;
      })
      | inl old ↦
          let i = (IndexSet.insert pack_ids pack.id).0 in
          let m' =
            subst (Memᴰ (k, loc)) (pick-after pack packs (pack_ids, entries) t typed fits) old in
          elim (Memᴰ.append_cases (pick t entries) m') [
            | inl older ↦ inl older
            | inr new ↦
                let r = Memᴰ-new_entries i t pack.blobs k loc new in
                let index : loc.pack_array_index ≡ i =
                  ap (λ (l : BlobLocationInternal). l.pack_array_index) r.4 in
                let stands =
                  load_packs_known packs state' i fits'
                    (insert-Inserts pack_ids pack.id fits.0).1 in
                inr (record {
                  pack = pack;
                  blob = r.0;
                  in_file = Memᴰ.head refl;
                  in_pack = r.1;
                  typed = r.2;
                  of_id = r.3;
                  known = ap (get_elem? (load_packs packs state').0.values) index ∙ stands;
                  at = r.4 ∙ ap (λ i. file_location i r.0) (sym index);
                })
          ]
    ]

load_packs_keeps :
    (packs : List IndexFilePack) (state : State) (t : BlobType) {entry : Entry}
    → t ≢ padding
    → Fits packs state
    → Memᴰ entry (pick t state.1)
    → Memᴰ entry (pick t (load_packs packs state).1)
load_packs_keeps [] state t typed fits m = m
load_packs_keeps (pack ∷ packs) (pack_ids, entries) t {entry} typed fits m =
    let here =
      subst (Memᴰ entry) (sym (pick-after pack packs (pack_ids, entries) t typed fits))
        (Memᴰ.append_left (new_entries (IndexSet.insert pack_ids pack.id).0 t pack.blobs) m) in
    load_packs_keeps packs (after pack (pack_ids, entries)) t typed
      (after-Fits pack packs (pack_ids, entries) fits) here

-- Every blob of the file is loaded.
pub load_packs-Memᴰ :
    (packs : List IndexFilePack) (state : State) (t : BlobType) (pack : IndexFilePack)
    (blob : IndexFileBlob)
    → t ≢ padding
    → Fits packs state
    → Memᴰ pack packs
    → Memᴰ blob pack.blobs
    → blob.blob_type ≡ t
    → (loc : BlobLocationInternal) × Memᴰ (blob.id, loc) (pick t (load_packs packs state).1)
load_packs-Memᴰ [] state t pack blob typed fits m b of_type = absurd (Memᴰ.not-nil m)
load_packs-Memᴰ (p ∷ packs) (pack_ids, entries) t pack blob typed fits m b of_type =
    let state' = after p (pack_ids, entries) in
    let fits' = after-Fits p packs (pack_ids, entries) fits in
    elim (Memᴰ.cases_cons m) [
      | inr later ↦ load_packs-Memᴰ packs state' t pack blob typed fits' later b of_type
      | inl here ↦
          let i = (IndexSet.insert pack_ids p.id).0 in
          let b' : Memᴰ blob p.blobs = subst (λ (q : IndexFilePack). Memᴰ blob q.blobs) here b in
          let new = new_entries-Memᴰ i t p.blobs blob b' of_type in
          let now =
            subst (Memᴰ (blob.id, file_location i blob))
              (sym (pick-after p packs (pack_ids, entries) t typed fits))
              (Memᴰ.append_right (pick t entries) new) in
          (file_location i blob, load_packs_keeps packs state' t typed fits' now)
    ]
