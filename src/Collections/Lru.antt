-- ===== src/Collections/Lru.antt =====
-- crates/mapache/src/utils/collections/lru.rs: `Lru`, a cache that evicts the entry not used for longest.
-- `order_map`, whose order counts, is the list of its entries by ascending key.
pub mod Recency
pub mod Refines
use mapache.Prelude.{
  ℕ, zero, suc, ◌+◌, ◌%◌, ◌^◌, Bool, true, false, List, [], ◌∷◌, Option, none, some, ltb, ◌==◌,
  if◌then◌else◌, length, Eq, nat_eq,
}
use mapache.Collections.Maps.{get, put, erase}

pub record Lru (K V : Type 0) : Type 0 where
  pub entries : List (K × (V × ℕ))
  pub order_map : List (ℕ × K)
  pub next_timestamp : ℕ

-- `BTreeMap::insert`
abbrev pub insert_ordered : {K : Type 0} → List (ℕ × K) → ℕ → K → List (ℕ × K)
insert_ordered [] ts key = (ts, key) ∷ []
insert_ordered ((t, k) ∷ order) ts key =
    if ltb ts t
    then (ts, key) ∷ (t, k) ∷ order
    else if t == ts
    then (ts, key) ∷ order
    else (t, k) ∷ insert_ordered order ts key

module _ {K V : Type 0} ⦃e : Eq K⦄ where
  abbrev pub new : Lru K V
  new = record { entries = []; order_map = []; next_timestamp = 0 }

  -- With the entry that the key had.
  abbrev pub hit_entry : Lru K V → K → Option (V × ℕ) → Option V × Lru K V
  hit_entry lru key none = (none, lru)
  hit_entry lru key (some (value, old_ts)) =
      let ts = lru.next_timestamp in
      (
        some value,
        record {
          entries = put lru.entries key (value, ts);
          order_map = insert_ordered (erase lru.order_map old_ts) ts key;
          next_timestamp = (ts + 1) % 2 ^ 64;
        },
      )

  unfoldable pub record_hit : Lru K V → K → Option V × Lru K V
  record_hit lru key = hit_entry lru key (get lru.entries key)

  -- The entry of the evicted key; without one the key is lost from the order all the same.
  abbrev pub evict_entry : Lru K V → List (ℕ × K) → K → Option (V × ℕ) → Option (K × V) × Lru K V
  evict_entry lru order key none = (
    none,
    record { entries = lru.entries; order_map = order; next_timestamp = lru.next_timestamp },
  )
  evict_entry lru order key (some (value, ts)) = (
    some (key, value),
    record {
      entries = erase lru.entries key;
      order_map = order;
      next_timestamp = lru.next_timestamp;
    },
  )

  abbrev pub evict_first : Lru K V → List (ℕ × K) → Option (K × V) × Lru K V
  evict_first lru [] = (none, lru)
  evict_first lru ((ts, key) ∷ order) = evict_entry lru order key (get lru.entries key)

  unfoldable pub evict_one : Lru K V → Option (K × V) × Lru K V
  evict_one lru = evict_first lru lru.order_map

  -- The order without the entry that was replaced.
  abbrev pub without_old : List (ℕ × K) → Option (V × ℕ) → List (ℕ × K)
  without_old order none = order
  without_old order (some (value, old_ts)) = erase order old_ts

  unfoldable pub insert : Lru K V → K → V → Lru K V
  insert lru key value =
      let ts = lru.next_timestamp in
      record {
        entries = put lru.entries key (value, ts);
        order_map = insert_ordered (without_old lru.order_map (get lru.entries key)) ts key;
        next_timestamp = (ts + 1) % 2 ^ 64;
      }
