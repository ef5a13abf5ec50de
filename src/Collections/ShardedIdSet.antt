-- ===== src/Collections/ShardedIdSet.antt =====
-- crates/mapache/src/utils/collections/sharded_id_set.rs: `ShardedIdSet`, a set of IDs in 256 shards by
-- the first byte. Each shard's lock makes one call atomic, so a run is a sequence of calls.
use mapache.Prelude.{
  ℕ, zero, suc, ◌<◌, ◌≡◌, refl, sym, ap, ◌∙◌, inl, inr, Bool, true, false, List, [], ◌∷◌, not,
  if◌then◌else◌, length, get_or, set, replicate, length-set, Bool-cases, beq-cases, true-ne-false,
  contains as among, insert as include, contains-insert as among-include, list_eq, nat_eq, arith,
  ==_refl, ◌==◌,
}
use mapache.Common.{ContentId}

abbrev pub ShardedIdSet : Type 0
ShardedIdSet = List (List ContentId)

abbrev pub new : ShardedIdSet
new = replicate 256 []

-- `id.0[0] as usize`
abbrev pub shard_of : ContentId → ℕ
shard_of id = get_or id 0 0

abbrev pub get_shard : ShardedIdSet → ContentId → List ContentId
get_shard s id = get_or s (shard_of id) []

-- `HashSet::remove`
abbrev pub discard : List ContentId → ContentId → List ContentId
discard [] id = []
discard (x ∷ xs) id = if list_eq.beq x id then discard xs id else x ∷ discard xs id

abbrev pub contains : ShardedIdSet → ContentId → Bool
contains s id = among (get_shard s id) id

unfoldable pub insert : ShardedIdSet → ContentId → Bool × ShardedIdSet
insert s id = (not (contains s id), set s (shard_of id) (include (get_shard s id) id))

unfoldable pub remove : ShardedIdSet → ContentId → Bool × ShardedIdSet
remove s id = (contains s id, set s (shard_of id) (discard (get_shard s id) id))

abbrev pub clear : ShardedIdSet → ShardedIdSet
clear [] = []
clear (shard ∷ shards) = [] ∷ clear shards

-- Every first byte has its shard.
abbrev pub HasShards : ShardedIdSet → Type 0
HasShards s = length s ≡ 256

pub new-HasShards : HasShards new
new-HasShards = refl

pub insert-HasShards : (s : ShardedIdSet) (id : ContentId) → HasShards s → HasShards (insert s id).1
unfolding insert
insert-HasShards s id h = length-set s (shard_of id) (include (get_shard s id) id) ∙ h

pub remove-HasShards : (s : ShardedIdSet) (id : ContentId) → HasShards s → HasShards (remove s id).1
unfolding remove
remove-HasShards s id h = length-set s (shard_of id) (discard (get_shard s id) id) ∙ h

pub clear-HasShards : (s : ShardedIdSet) → HasShards s → HasShards (clear s)
clear-HasShards s h = length-clear s ∙ h
  where
    length-clear : (s : ShardedIdSet) → length (clear s) ≡ length s
    length-clear [] = refl
    length-clear (shard ∷ shards) = ap suc (length-clear shards)

get_or-set :
    (s : ShardedIdSet) (i j : ℕ) (v : List ContentId)
    → i < length s
    → get_or (set s i v) j [] ≡ (if i == j then v else get_or s j [])
get_or-set [] i j v h = absurd (omega arith)
get_or-set (x ∷ xs) zero zero v h = refl
get_or-set (x ∷ xs) zero (suc j) v h = ground arith
get_or-set (x ∷ xs) (suc i) zero v h = ground arith
get_or-set (x ∷ xs) (suc i) (suc j) v h =
    get_or-set xs i j v (omega arith)
    ∙ ap (λ b. if b then v else get_or xs j [])
        (let same : (i == j) ≡ (suc i == suc j) = ground arith in same)

among-discard :
    (xs : List ContentId) (a b : ContentId)
    → among (discard xs a) b ≡ (if list_eq.beq a b then false else among xs b)
among-discard [] a b = elim (Bool-cases (list_eq.beq a b)) [ inl q ↦ rw q | inr q ↦ rw q ]
among-discard (x ∷ xs) a b =
    let rest = among-discard xs a b in
    elim (beq-cases x a) [
      | inl (same, q) ↦ elim (Bool-cases (list_eq.beq a b)) [
        | inl p ↦ rw q (rest ∙ rw p)
        | inr p ↦
            let p' : list_eq.beq x b ≡ false = ap (λ t. list_eq.beq t b) same ∙ p in
            rw q (rest ∙ rw (p, p'))
      ]
      | inr (other, q) ↦ elim (beq-cases x b) [
        | inl (same, p) ↦
            let p' : list_eq.beq a b ≡ false = elim (beq-cases a b) [
              | inl (same', r) ↦ absurd (other (same ∙ sym same'))
              | inr (differ, r) ↦ r
            ] in
            rw (q, p, p')
        | inr (differ, p) ↦ rw (q, p) rest
      ]
    ]

-- A call on one shard, seen by an ID.
shard_call :
    (s : ShardedIdSet) (id k : ContentId) (v : List ContentId) (hit : Bool)
    → shard_of id < length s
    → ((k : ContentId) → among v k ≡ (if list_eq.beq id k then hit else among (get_shard s id) k))
    → contains (set s (shard_of id) v) k ≡ (if list_eq.beq id k then hit else contains s k)
shard_call s id k v hit inside h = elim (Bool-cases (shard_of id == shard_of k)) [
  | inl q ↦
      ap (λ t. among t k)
        (get_or-set s (shard_of id) (shard_of k) v inside
          ∙ ap (λ b. if b then v else get_shard s k) q)
      ∙ h k
      ∙ ap (λ i. if list_eq.beq id k then hit else among (get_or s i []) k)
          (let same : shard_of id ≡ shard_of k = ground arith in same)
  | inr q ↦
      let other : list_eq.beq id k ≡ false = elim (beq-cases id k) [
        | inl (same, p) ↦
            let clash : (shard_of id == shard_of k) ≡ true =
              ap (λ t. shard_of id == shard_of t) (sym same) ∙ ==_refl (shard_of id) in
            absurd (true-ne-false (sym clash ∙ q))
        | inr (differ, p) ↦ p
      ] in
      ap (λ t. among t k)
        (get_or-set s (shard_of id) (shard_of k) v inside
          ∙ ap (λ b. if b then v else get_shard s k) q)
      ∙ ap (λ b. if b then hit else contains s k) (sym other)
]

-- The shards together are one set: an insertion adds the ID, and no other.
pub contains-insert :
    (s : ShardedIdSet) (id k : ContentId)
    → HasShards s
    → shard_of id < 256
    → contains (insert s id).1 k ≡ (if list_eq.beq id k then true else contains s k)
unfolding insert
contains-insert s id k h byte =
    shard_call s id k (include (get_shard s id) id) true (omega (arith, h, byte))
      (among-include (get_shard s id) id)

-- A removal takes the ID out, and no other.
pub contains-remove :
    (s : ShardedIdSet) (id k : ContentId)
    → HasShards s
    → shard_of id < 256
    → contains (remove s id).1 k ≡ (if list_eq.beq id k then false else contains s k)
unfolding remove
contains-remove s id k h byte =
    shard_call s id k (discard (get_shard s id) id) false (omega (arith, h, byte))
      (among-discard (get_shard s id) id)

pub contains-clear : (s : ShardedIdSet) (k : ContentId) → contains (clear s) k ≡ false
contains-clear s k = by_shard s (shard_of k)
  where
    by_shard : (s : ShardedIdSet) (i : ℕ) → among (get_or (clear s) i []) k ≡ false
    by_shard [] i = refl
    by_shard (x ∷ xs) zero = refl
    by_shard (x ∷ xs) (suc i) = by_shard xs i

insert_flag : (s : ShardedIdSet) (id : ContentId) → (insert s id).0 ≡ not (contains s id)
unfolding insert
insert_flag s id = refl

remove_flag : (s : ShardedIdSet) (id : ContentId) → (remove s id).0 ≡ contains s id
unfolding remove
remove_flag s id = refl

-- The shards together are one set, for any ID whose first byte is one: an insertion adds the ID and tells whether
-- it was new, a removal takes it out and tells whether it was there, both leave the other IDs alone, and
-- nothing is left after `clear`.
pub shards_act_as_set :
    (s : ShardedIdSet) (id k : ContentId)
    → HasShards s
    → shard_of id < 256
    → ((insert s id).0 ≡ not (contains s id))
      × (contains (insert s id).1 k ≡ (if list_eq.beq id k then true else contains s k))
      × ((remove s id).0 ≡ contains s id)
      × (contains (remove s id).1 k ≡ (if list_eq.beq id k then false else contains s k))
      × (contains (clear s) k ≡ false)
shards_act_as_set s id k h byte = (
  insert_flag s id,
  contains-insert s id k h byte,
  remove_flag s id,
  contains-remove s id k h byte,
  contains-clear s k,
)
