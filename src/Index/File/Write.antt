-- ===== src/Index/File/Write.antt =====
-- The loops of `persist` (crates/mapache/src/repository/index.rs): which blob goes into which pack.
use mathlib.Core.List.Memᴰ
use mapache.Prelude.{
  ℕ, zero, suc, ◌<◌, ◌≤◌, ◌≡◌, refl, sym, ap, subst, ◌∙◌, ◌⊎◌, inl, inr, true, false, List, [], ◌∷◌,
  ◌++◌, map, Memᴰ, ok, if◌then◌else◌, length, list_eq, nat_eq, ◌==◌, ==_iff, Bool-cases,
  true-ne-false, append_assoc, append-nil, arith,
}
use mapache.Prelude.Order.{list_order, nat_order}
use mapache.Prelude.Search.{length-sort_by_key, sort_by_key, Memᴰ-sort_by_key}
use mapache.Common.{BlobType}
use mapache.Index.BlobMap.{Entry}
use mapache.Index.File.{
  IndexFilePack, IndexFileBlob, file_blob, with_file_blobs, push_at, add_to_entries, pack_id_of,
  blob_id, sort_blobs, retain_packs, is_nil,
}

-- The blobs of the pack at a position.
abbrev pub blobs_at : List IndexFilePack → ℕ → List IndexFileBlob
blobs_at [] j = []
blobs_at (pack ∷ packs) zero = pack.blobs
blobs_at (pack ∷ packs) (suc j) = blobs_at packs j

-- The entries with a pack's index, as blobs.
abbrev pub picked : BlobType → ℕ → List Entry → List IndexFileBlob
picked t j [] = []
picked t j (entry ∷ entries) =
    if entry.1.pack_array_index == j
    then file_blob t entry ∷ picked t j entries
    else picked t j entries

-- The packs stay, and each has some more blobs.
pub record Extends (packs packs' : List IndexFilePack) (more : ℕ → List IndexFileBlob)
    : Type 0 where
  pub same_ids : map pack_id_of packs' ≡ map pack_id_of packs
  pub blobs : (j : ℕ) → blobs_at packs' j ≡ blobs_at packs j ++ more j

push_at-Extends :
    (packs : List IndexFilePack) (i : ℕ) (blob : IndexFileBlob)
    → i < length packs
    → (packs' : List IndexFilePack) × (push_at packs i blob ≡ ok packs')
      × Extends packs packs' (λ j. if i == j then blob ∷ [] else [])
push_at-Extends [] i blob h = absurd (omega arith)
push_at-Extends (pack ∷ packs) zero blob h = (
  with_file_blobs pack (pack.blobs ++ (blob ∷ [])) ∷ packs,
  refl,
  record { same_ids = refl; blobs = at_first },
)
  where
    at_first :
        (j : ℕ)
        → blobs_at (with_file_blobs pack (pack.blobs ++ (blob ∷ [])) ∷ packs) j
          ≡ blobs_at (pack ∷ packs) j ++ (if 0 == j then blob ∷ [] else [])
    at_first zero = refl
    at_first (suc j) =
        sym (append-nil (blobs_at packs j))
        ∙ ap (λ b. blobs_at packs j ++ (if b then blob ∷ [] else []))
            (let other : false ≡ (0 == suc j) = ground arith in other)
push_at-Extends (pack ∷ packs) (suc i) blob h =
    let (packs', run, e) = push_at-Extends packs i blob (omega arith) in
    (
      pack ∷ packs',
      rw run refl,
      record { same_ids = ap (◌∷◌ pack.id) e.same_ids; blobs = at_position packs' e.blobs },
    )
  where
    at_position :
        (packs' : List IndexFilePack)
        → ((j : ℕ) → blobs_at packs' j ≡ blobs_at packs j ++ (if i == j then blob ∷ [] else []))
        → (j : ℕ)
        → blobs_at (pack ∷ packs') j
          ≡ blobs_at (pack ∷ packs) j ++ (if suc i == j then blob ∷ [] else [])
    at_position packs' q zero =
        sym (append-nil pack.blobs)
        ∙ ap (λ b. pack.blobs ++ (if b then blob ∷ [] else []))
            (let other : false ≡ (suc i == 0) = ground arith in other)
    at_position packs' q (suc j) =
        q j
        ∙ ap (λ b. blobs_at packs j ++ (if b then blob ∷ [] else []))
            (let same : (i == j) ≡ (suc i == suc j) = ground arith in same)

pub length-ids :
    (packs packs' : List IndexFilePack)
    → map pack_id_of packs' ≡ map pack_id_of packs
    → length packs' ≡ length packs
length-ids packs packs' q = sym (length-map packs') ∙ ap length q ∙ length-map packs
  where
    length-map : (ps : List IndexFilePack) → length (map pack_id_of ps) ≡ length ps
    length-map [] = refl
    length-map (p ∷ ps) = ap suc (length-map ps)

-- The loop ends when every index is that of a pack, with every entry in its pack.
pub add_to_entries-Extends :
    (t : BlobType) (entries : List Entry) (packs : List IndexFilePack)
    → ((entry : Entry) → Memᴰ entry entries → entry.1.pack_array_index < length packs)
    → (packs' : List IndexFilePack) × (add_to_entries t entries packs ≡ ok packs')
      × Extends packs packs' (λ j. picked t j entries)
add_to_entries-Extends t [] packs h =
    (packs, refl, record { same_ids = refl; blobs = λ j. sym (append-nil (blobs_at packs j)) })
add_to_entries-Extends t (entry ∷ entries) packs h =
    let (packs', run, e) =
      push_at-Extends packs entry.1.pack_array_index (file_blob t entry)
        (h entry (Memᴰ.head refl)) in
    let h' : (x : Entry) → Memᴰ x entries → x.1.pack_array_index < length packs' =
      λ x m. omega (arith, h x (Memᴰ.tail m), length-ids packs packs' e.same_ids) in
    let (packs'', run', e') = add_to_entries-Extends t entries packs' h' in
    (
      packs'',
      rw run run',
      record {
        same_ids = e'.same_ids ∙ e.same_ids;
        blobs = λ j.
            e'.blobs j
            ∙ ap (λ xs. xs ++ picked t j entries) (e.blobs j)
            ∙ one_more j (Bool-cases (entry.1.pack_array_index == j));
      },
    )
  where
    one_more :
        (j : ℕ)
        → ((entry.1.pack_array_index == j) ≡ true) ⊎ ((entry.1.pack_array_index == j) ≡ false)
        → (blobs_at packs j
              ++ (if entry.1.pack_array_index == j then file_blob t entry ∷ [] else []))
            ++ picked t j entries
          ≡ blobs_at packs j
            ++ (if entry.1.pack_array_index == j
                then file_blob t entry ∷ picked t j entries
                else picked t j entries)
    one_more j (inl q) =
        rw q (append_assoc (blobs_at packs j) (file_blob t entry ∷ []) (picked t j entries))
    one_more j (inr q) = rw q (ap (λ xs. xs ++ picked t j entries) (append-nil (blobs_at packs j)))

-- A blob of a pack is an entry with the pack's index.
pub Memᴰ-picked :
    (t : BlobType) (j : ℕ) (entries : List Entry) {blob : IndexFileBlob}
    → Memᴰ blob (picked t j entries)
    → (entry : Entry) × Memᴰ entry entries
      × (entry.1.pack_array_index ≡ j)
      × (blob ≡ file_blob t entry)
Memᴰ-picked t j [] m = absurd (Memᴰ.not-nil m)
Memᴰ-picked t j (entry ∷ entries) {blob} m = elim (Bool-cases (entry.1.pack_array_index == j)) [
  | inl q ↦
      let m' =
        subst
          (λ b.
            Memᴰ blob (if b then file_blob t entry ∷ picked t j entries else picked t j entries))
          q m in
      elim (Memᴰ.cases_cons m') [
        | inl here ↦ (entry, Memᴰ.head refl, (==_iff entry.1.pack_array_index j).0 q, here)
        | inr later ↦ let r = Memᴰ-picked t j entries later in (r.0, Memᴰ.tail r.1, r.2, r.3)
      ]
  | inr q ↦
      let m' =
        subst
          (λ b.
            Memᴰ blob (if b then file_blob t entry ∷ picked t j entries else picked t j entries))
          q m in
      let r = Memᴰ-picked t j entries m' in (r.0, Memᴰ.tail r.1, r.2, r.3)
]

pub picked-Memᴰ :
    (t : BlobType) (entries : List Entry) (entry : Entry)
    → Memᴰ entry entries
    → Memᴰ (file_blob t entry) (picked t entry.1.pack_array_index entries)
picked-Memᴰ t [] entry m = absurd (Memᴰ.not-nil m)
picked-Memᴰ t (e ∷ entries) entry m = elim (Memᴰ.cases_cons m) [
  | inl here ↦
      let q : (e.1.pack_array_index == entry.1.pack_array_index) ≡ true =
        (==_iff e.1.pack_array_index entry.1.pack_array_index).1
          (ap (λ (x : Entry). x.1.pack_array_index) (sym here)) in
      rw q (Memᴰ.head (ap (file_blob t) here))
  | inr later ↦ elim (Bool-cases (e.1.pack_array_index == entry.1.pack_array_index)) [
    | inl q ↦ rw q (Memᴰ.tail (picked-Memᴰ t entries entry later))
    | inr q ↦ rw q (picked-Memᴰ t entries entry later)
  ]
]

-- Only empty packs are left out.
Memᴰ-retain_packs :
    (packs : List IndexFilePack) (pack : IndexFilePack)
    → Memᴰ pack (retain_packs packs)
    → Memᴰ pack packs
Memᴰ-retain_packs [] pack m = m
Memᴰ-retain_packs (p ∷ packs) pack m = elim (Bool-cases (is_nil p.blobs)) [
  | inl q ↦ Memᴰ.tail (
      Memᴰ-retain_packs packs pack
        (subst (λ b. Memᴰ pack (if b then retain_packs packs else p ∷ retain_packs packs)) q m))
  | inr q ↦
      elim (Memᴰ.cases_cons
        (subst (λ b. Memᴰ pack (if b then retain_packs packs else p ∷ retain_packs packs)) q m)) [
          | inl here ↦ Memᴰ.head here
          | inr later ↦ Memᴰ.tail (Memᴰ-retain_packs packs pack later)
        ]
]

retain_packs-Memᴰ :
    (packs : List IndexFilePack) (pack : IndexFilePack) {blob : IndexFileBlob}
    → Memᴰ blob pack.blobs
    → Memᴰ pack packs
    → Memᴰ pack (retain_packs packs)
retain_packs-Memᴰ [] pack b m = m
retain_packs-Memᴰ (p ∷ packs) pack {blob} b m = elim (Bool-cases (is_nil p.blobs)) [
  | inr q ↦ elim (Memᴰ.cases_cons m) [
    | inl here ↦ rw q (Memᴰ.head here)
    | inr later ↦ rw q (Memᴰ.tail (retain_packs-Memᴰ packs pack b later))
  ]
  | inl q ↦ elim (Memᴰ.cases_cons m) [
    | inl here ↦
        absurd (not_nil p.blobs q (subst (λ (x : IndexFilePack). Memᴰ blob x.blobs) here b))
    | inr later ↦ rw q (retain_packs-Memᴰ packs pack b later)
  ]
]
  where
    not_nil : (blobs : List IndexFileBlob) → is_nil blobs ≡ true → Memᴰ blob blobs → ⊥
    not_nil [] h m = Memᴰ.not-nil m
    not_nil (x ∷ xs) h m = true-ne-false (sym h)

-- The packs as they are written: sorted, with sorted blobs, and none empty.
abbrev pub written : List IndexFilePack → List IndexFilePack
written packs = sort_by_key pack_id_of (retain_packs (map sort_blobs packs))

-- A blob of a written pack is one of the pack it was made of, and every blob is written.
pub Memᴰ-written :
    (packs : List IndexFilePack) (pack : IndexFilePack) (blob : IndexFileBlob)
    → Memᴰ pack (written packs)
    → Memᴰ blob pack.blobs
    → (from_pack : IndexFilePack) × Memᴰ from_pack packs
      × (from_pack.id ≡ pack.id)
      × Memᴰ blob from_pack.blobs
Memᴰ-written packs pack blob m b =
    let kept = (Memᴰ-sort_by_key pack_id_of pack (retain_packs (map sort_blobs packs))).0 m in
    let (p, m', same) =
      Memᴰ.of_map sort_blobs packs (Memᴰ-retain_packs (map sort_blobs packs) pack kept) in
    let b' = subst (λ (x : IndexFilePack). Memᴰ blob x.blobs) (sym same) b in
    (p, m', ap pack_id_of same, (Memᴰ-sort_by_key blob_id blob p.blobs).0 b')

pub written-Memᴰ :
    (packs : List IndexFilePack) (pack : IndexFilePack) (blob : IndexFileBlob)
    → Memᴰ pack packs
    → Memᴰ blob pack.blobs
    → Memᴰ (sort_blobs pack) (written packs) × Memᴰ blob (sort_blobs pack).blobs
written-Memᴰ packs pack blob m b =
    let b' = (Memᴰ-sort_by_key blob_id blob pack.blobs).1 b in
    let kept =
      retain_packs-Memᴰ (map sort_blobs packs) (sort_blobs pack) b' (Memᴰ.map sort_blobs m) in
    (
      (Memᴰ-sort_by_key pack_id_of (sort_blobs pack) (retain_packs (map sort_blobs packs))).1 kept,
      b',
    )

-- No pack is added.
pub length-written : (packs : List IndexFilePack) → length (written packs) ≤ length packs
length-written packs = omega (
  arith,
  length-sort_by_key pack_id_of (retain_packs (map sort_blobs packs)),
  length-retain packs,
)
  where
    length-retain :
        (ps : List IndexFilePack) → length (retain_packs (map sort_blobs ps)) ≤ length ps
    length-retain [] = omega arith
    length-retain (p ∷ ps) = elim (Bool-cases (is_nil (sort_blobs p).blobs)) [
      | inl q ↦ rw q (omega (arith, length-retain ps))
      | inr q ↦ rw q (omega (arith, length-retain ps))
    ]
