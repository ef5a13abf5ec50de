-- ===== src/Collections/Lru/Recency.antt =====
-- The order of an `Lru` by timestamps, and what it is as a list of keys (crates/mapache/src/utils/collections/lru.rs).
use mathlib.Core.List.Memᴰ
use mapache.Prelude.{
  ℕ, ◌<◌, ◌≡◌, ◌≢◌, refl, sym, ap, ◌∙◌, ◌↔◌, inl, inr, true, false, List, [], ◌∷◌, ◌++◌, map, Memᴰ,
  ltb, ◌==◌, ==_iff, if◌then◌else◌, Eq, nat_eq, All, All-append, Bool-cases, beq-cases,
  true-ne-false, arith,
}
use mapache.Prelude.Search.{All_mem}
use mapache.Collections.Maps.{erase}
use mapache.Collections.Lru.{insert_ordered}

module _ {K : Type 0} ⦃e : Eq K⦄ where
  -- The list without a key.
  abbrev pub without_key : List K → K → List K
  without_key [] k = []
  without_key (x ∷ xs) k = if e.beq x k then without_key xs k else x ∷ without_key xs k

  -- The specification's step: the key is the most recent one.
  abbrev pub touch : List K → K → List K
  touch recent k = without_key recent k ++ (k ∷ [])

abbrev pub second : {K : Type 0} → ℕ × K → K
second entry = entry.1

module _ {K : Type 0} where
  abbrev pub IsAscending : List (ℕ × K) → Type 0
  IsAscending [] = Unit
  IsAscending ((t, k) ∷ order) = All (λ (entry : ℕ × K). t < entry.0) order × IsAscending order

  pub insert_ordered-last :
      (order : List (ℕ × K)) (ts : ℕ) (key : K)
      → All (λ (entry : ℕ × K). entry.0 < ts) order
      → insert_ordered order ts key ≡ order ++ ((ts, key) ∷ [])
  insert_ordered-last [] ts key h = refl
  insert_ordered-last ((t, k) ∷ order) ts key h =
      let above : ltb ts t ≡ false = ground (arith, h.0) in
      let other : (t == ts) ≡ false = ground (arith, h.0) in
      rw (above, other) (ap (◌∷◌ (t, k)) (insert_ordered-last order ts key h.1))

  pub IsAscending-append :
      (order : List (ℕ × K)) (ts : ℕ) (key : K)
      → IsAscending order
      → All (λ (entry : ℕ × K). entry.0 < ts) order
      → IsAscending (order ++ ((ts, key) ∷ []))
  IsAscending-append [] ts key h below = (tt, tt)
  IsAscending-append ((t, k) ∷ order) ts key h below = (
    All-append _ order ((ts, key) ∷ []) h.0 (below.0, tt),
    IsAscending-append order ts key h.1 below.1,
  )

  pub erase-All :
      (P : ℕ × K → Type 0) (order : List (ℕ × K)) (ts : ℕ) → All P order → All P (erase order ts)
  erase-All P [] ts h = tt
  erase-All P ((t, k) ∷ order) ts h = elim (Bool-cases (t == ts)) [
    | inl q ↦ rw q (erase-All P order ts h.1)
    | inr q ↦ rw q (h.0, erase-All P order ts h.1)
  ]

  pub erase-IsAscending :
      (order : List (ℕ × K)) (ts : ℕ) → IsAscending order → IsAscending (erase order ts)
  erase-IsAscending [] ts h = tt
  erase-IsAscending ((t, k) ∷ order) ts h = elim (Bool-cases (t == ts)) [
    | inl q ↦ rw q (erase-IsAscending order ts h.1)
    | inr q ↦ rw q (erase-All _ order ts h.0, erase-IsAscending order ts h.1)
  ]

  -- Members of a list without a timestamp.
  pub Memᴰ-erase :
      (order : List (ℕ × K)) (ts t : ℕ) {k : K}
      → Memᴰ (t, k) (erase order ts) ↔ (Memᴰ (t, k) order × (t ≢ ts))
  Memᴰ-erase [] ts t {k} = (λ m. absurd (Memᴰ.not-nil m), λ m. absurd (Memᴰ.not-nil m.0))
  Memᴰ-erase ((t', k') ∷ order) ts t {k} =
      let rest = Memᴰ-erase order ts t {k = k} in
      elim (Bool-cases (t' == ts)) [
        | inl q ↦ rw q (
          λ m. let r = rest.0 m in (Memᴰ.tail r.0, r.1),
          λ m. elim (Memᴰ.cases_cons m.0) [
            | inl here ↦ absurd (m.1 (ap (λ x. x.0) here ∙ (==_iff t' ts).0 q))
            | inr later ↦ rest.1 (later, m.1)
          ],
        )
        | inr q ↦ rw q (
          λ m. elim (Memᴰ.cases_cons m) [
            | inl here ↦ (
              Memᴰ.head here,
              λ same. true-ne-false (sym ((==_iff t' ts).1 (ap (λ x. x.0) (sym here) ∙ same)) ∙ q),
            )
            | inr later ↦ let r = rest.0 later in (Memᴰ.tail r.0, r.1)
          ],
          λ m. elim (Memᴰ.cases_cons m.0) [
            | inl here ↦ Memᴰ.head here
            | inr later ↦ Memᴰ.tail (rest.1 (later, m.1))
          ],
        )
      ]

module _ {K : Type 0} ⦃e : Eq K⦄ where
  -- Without the timestamp of a key, the keys are those without the key.
  pub keys-erase :
      (order : List (ℕ × K)) (ts : ℕ) (k : K)
      → ((t : ℕ) (j : K) → Memᴰ (t, j) order → (t ≡ ts) ↔ (j ≡ k))
      → map second (erase order ts) ≡ without_key (map second order) k
  keys-erase [] ts k h = refl
  keys-erase ((t, j) ∷ order) ts k h =
      let rest = keys-erase order ts k (λ t j m. h t j (Memᴰ.tail m)) in
      let here = h t j (Memᴰ.head refl) in
      elim (beq-cases j k) [
        | inl (same, q) ↦
            let at : (t == ts) ≡ true = (==_iff t ts).1 (here.1 same) in rw (q, at) rest
        | inr (other, q) ↦
            let off : (t == ts) ≡ false = elim (Bool-cases (t == ts)) [
              | inl p ↦ absurd (other (here.0 ((==_iff t ts).0 p)))
              | inr p ↦ p
            ] in
            rw (q, off) (ap (◌∷◌ j) rest)
      ]

  pub keys_absent :
      (order : List (ℕ × K)) (k : K)
      → ((t : ℕ) (j : K) → Memᴰ (t, j) order → j ≢ k)
      → map second order ≡ without_key (map second order) k
  keys_absent [] k h = refl
  keys_absent ((t, j) ∷ order) k h =
      let rest = keys_absent order k (λ t j m. h t j (Memᴰ.tail m)) in
      elim (beq-cases j k) [
        | inl (same, q) ↦ absurd (h t j (Memᴰ.head refl) same)
        | inr (other, q) ↦ rw q (ap (◌∷◌ j) rest)
      ]

module _ {K : Type 0} where
  -- A timestamp has one key.
  pub one_key :
      (order : List (ℕ × K)) (t : ℕ) {j k : K}
      → IsAscending order
      → Memᴰ (t, j) order
      → Memᴰ (t, k) order
      → j ≡ k
  one_key [] t h m n = absurd (Memᴰ.not-nil m)
  one_key ((t', k') ∷ order) t h m n = elim (Memᴰ.cases_cons m) [
    | inl here ↦ elim (Memᴰ.cases_cons n) [
      | inl here' ↦ ap (λ x. x.1) here ∙ sym (ap (λ x. x.1) here')
      | inr later ↦
          let low = All_mem _ order h.0 later in
          let same : t ≡ t' = ap (λ x. x.0) here in absurd (omega (arith, low, same))
    ]
    | inr later ↦ elim (Memᴰ.cases_cons n) [
      | inl here' ↦
          let low = All_mem _ order h.0 later in
          let same : t ≡ t' = ap (λ x. x.0) here' in absurd (omega (arith, low, same))
      | inr later' ↦ one_key order t h.1 later later'
    ]
  ]
