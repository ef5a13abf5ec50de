-- ===== src/Collections/IndexSet.antt =====
-- crates/mapache/src/utils/collections/index_set.rs: `IndexSet`, a set that can be enumerated by index.
pub mod Insert
pub mod Remove
use mapache.Prelude.{
  ℕ, ◌-◌, Bool, true, false, List, [], ◌∷◌, ◌++◌, Option, none, some, Result, ok, err, panicked,
  ◌==◌, if◌then◌else◌, length, get_elem?, set, take, Eq,
}
use mapache.Collections.Maps.{get, erase, put}

pub record IndexSet {ℓ} (T : Type ℓ) : Type ℓ where
  pub values : List T
  pub map : List (T × ℕ)

module _ {ℓ} {T : Type ℓ} ⦃e : Eq T⦄ where
  -- `new` and `new_id_set`
  abbrev pub new : IndexSet T
  new = record { values = []; map = [] }

  -- The index of the item, and the set with it.
  unfoldable pub insert : IndexSet T → T → ℕ × IndexSet T
  insert s item = elim (get s.map item) [
    | some idx ↦ (idx, s)
    | none ↦ (
      length s.values,
      record { values = s.values ++ (item ∷ []); map = put s.map item (length s.values) },
    )
  ]

  -- `swap_remove`, of an index below the last one: the last value takes the place.
  abbrev pub swap_remove : List T → ℕ → T → List T
  swap_remove values index moved = take (length values - 1) (set values index moved)

  -- The entry of the moved item is corrected; `expect` panics where there is none.
  put_back : List T → List (T × ℕ) → ℕ → T → Option ℕ → Result (Bool × IndexSet T)
  put_back values map index moved none = err panicked
  put_back values map index moved (some old) =
      ok (true, record { values = values; map = put map moved index })

  moved_to : List T → List (T × ℕ) → ℕ → Option T → Result (Bool × IndexSet T)
  unfolding put_back
  moved_to values map index none = err panicked
  moved_to values map index (some moved) = put_back values map index moved (get map moved)

  swap_out : IndexSet T → List (T × ℕ) → ℕ → Option T → Result (Bool × IndexSet T)
  unfolding moved_to
  swap_out s map index none = err panicked
  swap_out s map index (some moved) =
      let values = swap_remove s.values index moved in
      moved_to values map index (get_elem? values index)

  -- With the index that the map held for the item.
  remove_at : IndexSet T → T → Option ℕ → Result (Bool × IndexSet T)
  unfolding swap_out
  remove_at s item none = ok (false, s)
  remove_at s item (some value_index) =
      let last_index = length s.values - 1 in
      if value_index == last_index
      then ok (true, record { values = take last_index s.values; map = erase s.map item })
      else swap_out s (erase s.map item) value_index (get_elem? s.values last_index)

  unfoldable pub remove : IndexSet T → T → Result (Bool × IndexSet T)
  unfolding remove_at
  remove s item = remove_at s item (get s.map item)

  unfoldable pub contains : IndexSet T → T → Bool
  contains s value = elim (get s.map value) [ none ↦ false | some i ↦ true ]

  abbrev pub get_index : IndexSet T → T → Option ℕ
  get_index s item = get s.map item

  abbrev pub get_value : IndexSet T → ℕ → Option T
  get_value s index = get_elem? s.values index
