-- ===== src/Index/Master/Opened.antt =====
-- A `MasterIndex` with a pending index for the next pack (crates/mapache/src/repository/index.rs).
use mapache.Prelude.{
  ℕ, ◌≡◌, refl, sym, ap, ◌∙◌, inl, inr, Bool, true, false, List, [], ◌∷◌, ◌++◌, none, if◌then◌else◌,
  is_some, All, list_eq, nat_eq, Bool-cases, none-ne-some, All-append,
}
use mapache.Prelude.Order.{list_order, nat_order}
use mapache.Common.{ContentId, BlobType, data_blob, tree_blob, padding}
use mapache.Collections.DedupFilter.{DedupFilter}
use mapache.Index.BlobMap as BlobMap
use mapache.Index.BlobMap.{BlobLocationInternal}
use mapache.Collections.IndexSet.Insert.{new-IsIndexed}
use mapache.Index.BlobMap.Lookup.{IsWellFormed, nil-IsMap, contains-get}
use mapache.Index.State as Index
use mapache.Index.State.{Index, is_pending}
use mapache.Index.AddPack.{map_of}
use mapache.Index.Validity.{get-new}
use mapache.Index.Master.{any_pending, any_contains, with_pending}
use mapache.Index.Master.Known.{IsReady, any_contains-append}

pub contains-new :
    (F : Type 0) ⦃filter : DedupFilter F⦄ (instance_id : ℕ) (k : ContentId)
    → Index.contains {F = F} (Index.new instance_id) k ≡ false
contains-new F instance_id k = rw absent refl
  where
    absent : BlobMap.contains {F = F} BlobMap.new_mutable k ≡ false
    absent = contains-get BlobMap.new_mutable k ∙ ap is_some (get-new F k)

module _ {F : Type 0} ⦃filter : DedupFilter F⦄ where
  -- There is a pending index.
  pub any_pending-with_pending :
      (next_instance_id : ℕ) (indices : List (Index F))
      → any_pending (with_pending next_instance_id indices) ≡ true
  any_pending-with_pending next_instance_id indices = elim (Bool-cases (any_pending indices)) [
    | inl q ↦ rw q q
    | inr q ↦ rw q (at_end indices)
  ]
    where
      at_end :
          (indices : List (Index F))
          → any_pending (indices ++ (Index.new next_instance_id ∷ [])) ≡ true
      at_end [] = refl
      at_end (idx ∷ indices) = elim (Bool-cases (is_pending idx)) [
        | inl q ↦ rw q refl
        | inr q ↦ rw q (at_end indices)
      ]

  pub with_pending-All :
      (P : Index F → Type 0) (next_instance_id : ℕ) (indices : List (Index F))
      → P (Index.new next_instance_id)
      → All P indices
      → All P (with_pending next_instance_id indices)
  with_pending-All P next_instance_id indices fresh h = elim (Bool-cases (any_pending indices)) [
    | inl q ↦ rw q h
    | inr q ↦ rw q (All-append P indices (Index.new next_instance_id ∷ []) h (fresh, tt))
  ]

  -- The new index has no blob.
  pub any_contains-with_pending :
      (next_instance_id : ℕ) (indices : List (Index F)) (k : ContentId)
      → any_contains (with_pending next_instance_id indices) k ≡ any_contains indices k
  any_contains-with_pending next_instance_id indices k = elim (Bool-cases (any_pending indices)) [
    | inl q ↦ rw q refl
    | inr q ↦ rw q (
        any_contains-append indices (Index.new next_instance_id ∷ []) k
        ∙ ap (λ t. if any_contains indices k then true else (if t then true else false))
            (contains-new F next_instance_id k)
        ∙ or_false (any_contains indices k))
  ]
    where
      or_false : (p : Bool) → (if p then true else false) ≡ p
      or_false true = refl
      or_false false = refl

pub new-IsReady :
    (F : Type 0) ⦃filter : DedupFilter F⦄ (instance_id : ℕ)
    → IsReady {F = F} (Index.new instance_id)
new-IsReady F instance_id = (
  record {
    formed = formed;
    indexed = new-IsIndexed;
    packs = λ t k loc q. absurd (none-ne-some (sym (nowhere t k) ∙ q));
  },
  λ q. (tt, tt),
)
  where
    formed : (t : BlobType) → IsWellFormed (map_of {F = F} t (Index.new instance_id))
    formed data_blob = nil-IsMap
    formed tree_blob = nil-IsMap
    formed padding = nil-IsMap

    nowhere :
        (t : BlobType) (k : ContentId)
        → BlobMap.get (map_of {F = F} t (Index.new instance_id)) k ≡ none
    nowhere data_blob k = get-new F k
    nowhere tree_blob k = get-new F k
    nowhere padding k = get-new F k
