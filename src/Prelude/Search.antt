-- ===== src/Prelude/Search.antt =====
-- The standard library's `sort_unstable_by_key`, as an insertion sort, and `binary_search_by_key`, as
-- its loop over a base and a size.
use Prim.Native.Nat.{ℕ, zero, suc, ◌+◌, ◌-◌, ◌/◌, ◌≤◌, ◌<◌}
use mathlib.Core.Path.{◌≡◌, refl, sym, ap, subst, ◌∙◌}
use mathlib.Core.Logic.{◌↔◌, ◌⊎◌, inl, inr}
use mathlib.Core.Bool.{true}
use mathlib.Core.List.{List, [], ◌∷◌, Memᴰ}
use mathlib.Core.List.Memᴰ
use mathlib.Core.Option.{Option, none, some}
use native.Mathlib.Omega.{arith}
use mapache.Prelude.Tests.{ltb, if◌then◌else◌, Eq, Bool-cases, Option-cases, le-cases}
use mapache.Prelude.Lists.{length, get_elem?, All, get_elem?-lt, none-ne-some, some-injective}
use mapache.Prelude.Sets.{true-ne-false, beq-cases}
use mapache.Prelude.Order.{Order, le_refl}

module _ {ℓ} {A : Type ℓ} where
  pub Memᴰ-get_elem? : (xs : List A) (i : ℕ) {a : A} → get_elem? xs i ≡ some a → Memᴰ a xs
  Memᴰ-get_elem? [] i {a} q = absurd (none-ne-some q)
  Memᴰ-get_elem? (x ∷ xs) zero {a} q = let same : a ≡ x = cc in Memᴰ.head same
  Memᴰ-get_elem? (x ∷ xs) (suc i) q = Memᴰ.tail (Memᴰ-get_elem? xs i q)

  pub position : {a : A} (xs : List A) → Memᴰ a xs → (i : ℕ) × (get_elem? xs i ≡ some a)
  position [] m = absurd (Memᴰ.not-nil m)
  position (x ∷ xs) (Memᴰ.head same) = (0, ap some (sym same))
  position (x ∷ xs) (Memᴰ.tail m) = let (i, q) = position xs m in (suc i, q)

  pub All_mem {κ} : (P : A → Type κ) (xs : List A) {a : A} → All P xs → Memᴰ a xs → P a
  All_mem P [] h m = absurd (Memᴰ.not-nil m)
  All_mem P (x ∷ xs) h (Memᴰ.head same) = subst P (sym same) h.0
  All_mem P (x ∷ xs) h (Memᴰ.tail m) = All_mem P xs h.1 m

  pub All-of_mem {κ} : (P : A → Type κ) (xs : List A) → ((a : A) → Memᴰ a xs → P a) → All P xs
  All-of_mem P [] h = tt
  All-of_mem P (x ∷ xs) h = (h x (Memᴰ.head refl), All-of_mem P xs (λ a m. h a (Memᴰ.tail m)))

module _ {ℓ κ} {A : Type ℓ} {K : Type κ} ⦃o : Order K⦄ (key : A → K) where
  abbrev pub insert_by_key : A → List A → List A
  insert_by_key x [] = x ∷ []
  insert_by_key x (y ∷ ys) = if o.le (key x) (key y) then x ∷ y ∷ ys else y ∷ insert_by_key x ys

  abbrev pub sort_by_key : List A → List A
  sort_by_key [] = []
  sort_by_key (x ∷ xs) = insert_by_key x (sort_by_key xs)

  abbrev pub IsSorted : List A → Type κ
  IsSorted [] = Unit
  IsSorted (x ∷ xs) = All (λ y. o.le (key x) (key y) ≡ true) xs × IsSorted xs

  Memᴰ-insert_by_key : (a x : A) (ys : List A) → Memᴰ a (insert_by_key x ys) ↔ ((a ≡ x) ⊎ Memᴰ a ys)
  Memᴰ-insert_by_key a x [] =
      (Memᴰ.cases_cons, λ c. elim c [ inl q ↦ Memᴰ.head q | inr m ↦ Memᴰ.tail m ])
  Memᴰ-insert_by_key a x (y ∷ ys) = elim (Bool-cases (o.le (key x) (key y))) [
    | inl q ↦ rw q (Memᴰ.cases_cons, λ c. elim c [ inl q ↦ Memᴰ.head q | inr m ↦ Memᴰ.tail m ])
    | inr q ↦
        let rest = Memᴰ-insert_by_key a x ys in
        rw q (
          λ m. elim (Memᴰ.cases_cons m) [
            | inl here ↦ inr (Memᴰ.head here)
            | inr later ↦ elim (rest.0 later) [ inl new ↦ inl new | inr old ↦ inr (Memᴰ.tail old) ]
          ],
          λ c. elim c [
            | inl new ↦ Memᴰ.tail (rest.1 (inl new))
            | inr old ↦ elim (Memᴰ.cases_cons old) [
              | inl here ↦ Memᴰ.head here
              | inr later ↦ Memᴰ.tail (rest.1 (inr later))
            ]
          ],
        )
  ]

  -- Sorting keeps the members.
  pub Memᴰ-sort_by_key : (a : A) (xs : List A) → Memᴰ a (sort_by_key xs) ↔ Memᴰ a xs
  Memᴰ-sort_by_key a [] = (λ m. m, λ m. m)
  Memᴰ-sort_by_key a (x ∷ xs) =
      let here = Memᴰ-insert_by_key a x (sort_by_key xs) in
      let rest = Memᴰ-sort_by_key a xs in
      (
        λ m. elim (here.0 m) [ inl q ↦ Memᴰ.head q | inr later ↦ Memᴰ.tail (rest.0 later) ],
        λ m. elim (Memᴰ.cases_cons m) [
          | inl q ↦ here.1 (inl q)
          | inr later ↦ here.1 (inr (rest.1 later))
        ],
      )

  insert_by_key-IsSorted : (x : A) (ys : List A) → IsSorted ys → IsSorted (insert_by_key x ys)
  insert_by_key-IsSorted x [] h = (tt, tt)
  insert_by_key-IsSorted x (y ∷ ys) h = elim (Bool-cases (o.le (key x) (key y))) [
    | inl q ↦
        let above : All (λ z. o.le (key x) (key z) ≡ true) ys =
          All-of_mem _ ys λ z m. o.le_trans (key x) (key y) (key z) q (All_mem _ ys h.0 m) in
        rw q ((q, above), h)
    | inr q ↦
        let below : o.le (key y) (key x) ≡ true = elim (o.le_total (key x) (key y)) [
          | inl p ↦ absurd (true-ne-false (sym p ∙ q))
          | inr p ↦ p
        ] in
        let above : All (λ z. o.le (key y) (key z) ≡ true) (insert_by_key x ys) =
          All-of_mem _ (insert_by_key x ys) λ z m. elim ((Memᴰ-insert_by_key z x ys).0 m) [
            | inl same ↦ ap (λ t. o.le (key y) (key t)) same ∙ below
            | inr old ↦ All_mem _ ys h.0 old
          ] in
        rw q (above, insert_by_key-IsSorted x ys h.1)
  ]

  pub sort_by_key-IsSorted : (xs : List A) → IsSorted (sort_by_key xs)
  sort_by_key-IsSorted [] = tt
  sort_by_key-IsSorted (x ∷ xs) =
      insert_by_key-IsSorted x (sort_by_key xs) (sort_by_key-IsSorted xs)

  length-insert_by_key : (x : A) (xs : List A) → length (insert_by_key x xs) ≡ suc (length xs)
  length-insert_by_key x [] = refl
  length-insert_by_key x (y ∷ ys) = elim (Bool-cases (o.le (key x) (key y))) [
    | inl q ↦ rw q refl
    | inr q ↦ rw q (ap suc (length-insert_by_key x ys))
  ]

  pub length-sort_by_key : (xs : List A) → length (sort_by_key xs) ≡ length xs
  length-sort_by_key [] = refl
  length-sort_by_key (x ∷ xs) =
      length-insert_by_key x (sort_by_key xs) ∙ ap suc (length-sort_by_key xs)

  -- Positions in order hold keys in order.
  IsSorted-le :
      (xs : List A) (i j : ℕ) {a b : A}
      → IsSorted xs
      → i ≤ j
      → get_elem? xs i ≡ some a
      → get_elem? xs j ≡ some b
      → o.le (key a) (key b) ≡ true
  IsSorted-le [] i j {a} h le p q = absurd (none-ne-some p)
  IsSorted-le (x ∷ xs) zero zero {a} {b} h le p q =
      let same : a ≡ b = cc in ap (o.le (key a)) (ap key (sym same)) ∙ le_refl (key a)
  IsSorted-le (x ∷ xs) zero (suc j) {a} {b} h le p q =
      let same : x ≡ a = cc in
      subst (λ t. o.le (key t) (key b) ≡ true) same (All_mem _ xs h.0 (Memᴰ-get_elem? xs j q))
  IsSorted-le (x ∷ xs) (suc i) zero h le p q = absurd (omega arith)
  IsSorted-le (x ∷ xs) (suc i) (suc j) h le p q = IsSorted-le xs i j h.1 (omega arith) p q

module _ {ℓ κ} {A : Type ℓ} {K : Type κ} ⦃e : Eq K⦄ ⦃o : Order K⦄ (key : A → K) where
  -- Where the loop goes on, with the element in the middle.
  abbrev pub next_base : K → ℕ → ℕ → Option A → ℕ
  next_base k base mid none = base
  next_base k base mid (some a) = if o.le (key a) k then mid else base

  -- `while size > 1`
  abbrev pub search_loop : ℕ → List A → K → ℕ → ℕ → ℕ
  search_loop zero xs k base size = base
  search_loop (suc fuel) xs k base size =
      let mid = base + size / 2 in
      let rest =
        search_loop fuel xs k (next_base k base mid (get_elem? xs mid)) (size - size / 2) in
      if ltb 1 size then rest else base

  abbrev pub check_at : K → ℕ → Option A → Option ℕ
  check_at k base none = none
  check_at k base (some a) = if e.beq (key a) k then some base else none

  -- `binary_search_by_key(..).ok()`
  abbrev pub binary_search_by_key : List A → K → Option ℕ
  binary_search_by_key xs k =
      let base = search_loop (length xs) xs k 0 (length xs) in check_at k base (get_elem? xs base)

  -- An element with the key, from a base on, below a bound.
  abbrev Between : List A → K → ℕ → ℕ → Type (ℓ ⊔ κ)
  Between xs k lo hi =
      (i : ℕ) × (a : A) × (lo ≤ i) × (i < hi) × (get_elem? xs i ≡ some a) × (key a ≡ k)

  at_bound : (xs : List A) (i : ℕ) → i < length xs → (a : A) × (get_elem? xs i ≡ some a)
  at_bound [] i h = absurd (omega arith)
  at_bound (x ∷ xs) zero h = (x, refl)
  at_bound (x ∷ xs) (suc i) h = at_bound xs i (omega arith)

  search_loop-finds :
      (fuel : ℕ) (xs : List A) (k : K) (base size : ℕ)
      → IsSorted key xs
      → base + size ≤ length xs
      → size ≤ suc fuel
      → Between xs k base (base + size)
      → (a : A) × (get_elem? xs (search_loop fuel xs k base size) ≡ some a) × (key a ≡ k)
  search_loop-finds zero xs k base size h inside short (i, a, lo, hi, q, same) =
      let at_base : i ≡ base = omega arith in (a, ap (get_elem? xs) (sym at_base) ∙ q, same)
  search_loop-finds (suc fuel) xs k base size h inside short (i, a, lo, hi, q, same) =
      elim (Bool-cases (ltb 1 size)) [
        | inr small ↦
            let at_base : i ≡ base = ground arith in
            rw small (a, ap (get_elem? xs) (sym at_base) ∙ q, same)
        | inl large ↦
            let two : 1 < size = ground arith in
            let mid = base + size / 2 in
            let (b, r) = at_bound xs mid (omega arith) in
            rw (large, r)
              (elim (Bool-cases (o.le (key b) k)) [
                | inl up ↦
                    let later : Between xs k mid (mid + (size - size / 2)) = elim (le-cases mid i) [
                      | inl le ↦ (i, a, le, omega arith, q, same)
                      | inr lt ↦
                          let back : o.le (key a) (key b) ≡ true =
                            IsSorted-le key xs i mid h (omega arith) q r in
                          let back' : o.le k (key b) ≡ true =
                            ap (λ t. o.le t (key b)) (sym same) ∙ back in
                          (mid, b, omega arith, omega arith, r, o.le_antisymm (key b) k up back')
                    ] in
                    rw up (
                      search_loop-finds fuel xs k mid (size - size / 2) h (omega arith)
                        (omega arith) later)
                | inr down ↦
                    let before : i < mid = elim (le-cases mid i) [
                      | inr lt ↦ lt
                      | inl le ↦
                          let up : o.le (key b) (key a) ≡ true =
                            IsSorted-le key xs mid i h le r q in
                          absurd (true-ne-false (sym up ∙ ap (o.le (key b)) same ∙ down))
                    ] in
                    rw down (
                      search_loop-finds fuel xs k base (size - size / 2) h (omega arith)
                        (omega arith) (i, a, lo, omega arith, q, same))
              ])
      ]

  -- A key that stands in a sorted list is found, with an element of that key.
  pub binary_search_by_key-finds :
      (xs : List A) (k : K) (a : A)
      → IsSorted key xs
      → Memᴰ a xs
      → key a ≡ k
      → (j : ℕ) × (b : A) × (binary_search_by_key xs k ≡ some j)
        × (get_elem? xs j ≡ some b)
        × (key b ≡ k)
  binary_search_by_key-finds xs k a h m same =
      let (i, q) = position xs m in
      let inside = get_elem?-lt xs i q in
      let (b, r, hit) =
        search_loop-finds (length xs) xs k 0 (length xs) h (omega arith) (omega arith)
          (i, a, omega arith, omega arith, q, same) in
      let test : e.beq (key b) k ≡ true = (e.beq_iff (key b) k).1 hit in
      (search_loop (length xs) xs k 0 (length xs), b, rw (r, test) refl, r, hit)

  -- What is found has the key.
  pub binary_search_by_key_sound :
      (xs : List A) (k : K) (j : ℕ)
      → binary_search_by_key xs k ≡ some j
      → (b : A) × (get_elem? xs j ≡ some b) × (key b ≡ k)
  binary_search_by_key_sound xs k j found =
      from_check (search_loop (length xs) xs k 0 (length xs)) (Option-cases _) found
    where
      from_check :
          (base : ℕ)
          → (get_elem? xs base ≡ none) ⊎ ((b : A) × (get_elem? xs base ≡ some b))
          → check_at k base (get_elem? xs base) ≡ some j
          → (b : A) × (get_elem? xs j ≡ some b) × (key b ≡ k)
      from_check base (inl q) f = absurd (none-ne-some (sym (ap (check_at k base) q) ∙ f))
      from_check base (inr (b, q)) f =
          let f' : (if e.beq (key b) k then some base else none) ≡ some j =
            sym (ap (check_at k base) q) ∙ f in
          elim (beq-cases (key b) k) [
            | inl (same, hit) ↦
                let at : base ≡ j =
                  some-injective (subst (λ t. (if t then some base else none) ≡ some j) hit f') in
                (b, ap (get_elem? xs) (sym at) ∙ q, same)
            | inr (other, miss) ↦
                absurd
                  (none-ne-some (subst (λ t. (if t then some base else none) ≡ some j) miss f'))
          ]
