-- ===== src/Prelude/Sets.antt =====
-- Sets and maps with keys that have an equality test: the standard library's `HashSet`, `HashMap` and
-- `BTreeMap`, as far as no order of iteration counts.
use mapache.Prelude.Tests.{if◌then◌else◌, Eq, Bool-cases}
use mapache.Prelude.Lists.{length}
use Prim.Native.Nat.{suc, ◌≤◌}
use mathlib.Core.Path.{◌≡◌, refl, sym, ap, subst, ◌∙◌}
use mathlib.Core.Logic.{◌≢◌, ◌⊎◌, inl, inr}
use mathlib.Core.Bool.{Bool, true, false}
use mathlib.Core.List.{List, [], ◌∷◌}
use native.Mathlib.Omega.{arith}

pub true-ne-false : true ≢ false
true-ne-false q = cc

module _ {ℓ} {A : Type ℓ} ⦃e : Eq A⦄ where
  pub beq_refl : (a : A) → e.beq a a ≡ true
  beq_refl a = (e.beq_iff a a).1 refl

  pub beq-cases : (a b : A) → ((a ≡ b) × (e.beq a b ≡ true)) ⊎ ((a ≢ b) × (e.beq a b ≡ false))
  beq-cases a b = elim (Bool-cases (e.beq a b)) [
    | inl q ↦ inl ((e.beq_iff a b).0 q, q)
    | inr q ↦ inr ((λ same. true-ne-false (sym ((e.beq_iff a b).1 same) ∙ q)), q)
  ]

  abbrev pub contains : List A → A → Bool
  contains [] a = false
  contains (x ∷ xs) a = if e.beq x a then true else contains xs a

  abbrev pub insert : List A → A → List A
  insert xs a = if contains xs a then xs else a ∷ xs

  -- `extend`
  abbrev pub extend : List A → List A → List A
  extend xs [] = xs
  extend xs (y ∷ ys) = extend (insert xs y) ys

  abbrev pub Distinct : List A → Type 0
  Distinct [] = Unit
  Distinct (x ∷ xs) = (contains xs x ≡ false) × Distinct xs

  pub contains-insert :
      (xs : List A) (a b : A)
      → contains (insert xs a) b ≡ (if e.beq a b then true else contains xs b)
  contains-insert xs a b = elim (Bool-cases (contains xs a)) [
    | inl old ↦ elim (beq-cases a b) [
      | inl (same, q) ↦ rw (old, q) (ap (contains xs) (sym same) ∙ old)
      | inr (other, q) ↦ rw (old, q)
    ]
    | inr new ↦ rw new
  ]

  pub insert-Distinct : (xs : List A) (a : A) → Distinct xs → Distinct (insert xs a)
  insert-Distinct xs a h = elim (Bool-cases (contains xs a)) [
    | inl old ↦ rw old h
    | inr new ↦ rw new (new, h)
  ]

  pub extend-Distinct : (xs ys : List A) → Distinct xs → Distinct (extend xs ys)
  extend-Distinct xs [] h = h
  extend-Distinct xs (y ∷ ys) h = extend-Distinct (insert xs y) ys (insert-Distinct xs y h)

  pub contains-extend :
      (xs ys : List A) (b : A)
      → contains (extend xs ys) b ≡ (if contains ys b then true else contains xs b)
  contains-extend xs [] b = refl
  contains-extend xs (y ∷ ys) b =
      contains-extend (insert xs y) ys b
      ∙ ap (λ t. if contains ys b then true else t) (contains-insert xs y b)
      ∙ swap (e.beq y b) (contains ys b) (contains xs b)
    where
      swap :
          (p q r : Bool)
          → (if q then true else (if p then true else r))
            ≡ (if (if p then true else q) then true else r)
      swap true true r = refl
      swap true false r = refl
      swap false q r = refl

  -- The list without the first `a`.
  without : List A → A → List A
  without [] a = []
  without (x ∷ xs) a = if e.beq x a then xs else x ∷ without xs a

  length-without :
      (xs : List A) (a : A) → contains xs a ≡ true → length xs ≡ suc (length (without xs a))
  unfolding without
  length-without [] a h = absurd (true-ne-false (sym h))
  length-without (x ∷ xs) a h = elim (Bool-cases (e.beq x a)) [
    | inl q ↦ rw q
    | inr q ↦
        let rest : contains xs a ≡ true =
          subst (λ t. (if t then true else contains xs a) ≡ true) q h in
        rw q (ap suc (length-without xs a rest))
  ]

  contains-without :
      (xs : List A) (a b : A)
      → e.beq a b ≡ false
      → contains xs b ≡ true
      → contains (without xs a) b ≡ true
  unfolding without
  contains-without [] a b h q = q
  contains-without (x ∷ xs) a b h q = elim (beq-cases x a) [
    | inl (same, p) ↦
        rw p
          (subst (λ t. (if t then true else contains xs b) ≡ true) (ap (λ t. e.beq t b) same ∙ h) q)
    | inr (other, p) ↦ rw p (elim (Bool-cases (e.beq x b)) [
      | inl r ↦ rw r
      | inr r ↦
          rw r (
            contains-without xs a b h (subst (λ t. (if t then true else contains xs b) ≡ true) r q))
    ])
  ]

  -- A list without repetition is no longer than one that has all its elements.
  pub Distinct-length-le :
      (xs ys : List A)
      → Distinct xs
      → ((a : A) → contains xs a ≡ true → contains ys a ≡ true)
      → length xs ≤ length ys
  Distinct-length-le [] ys h sub = omega arith
  Distinct-length-le (x ∷ xs) ys (new, h) sub =
      let here : contains ys x ≡ true = sub x (rw (beq_refl x)) in
      let later : (a : A) → contains xs a ≡ true → contains (without ys x) a ≡ true = λ a q.
        elim (beq-cases x a) [
          | inl (same, p) ↦ absurd (true-ne-false (sym q ∙ ap (contains xs) (sym same) ∙ new))
          | inr (other, p) ↦ contains-without ys x a p (sub a (rw p q))
        ] in
      omega (arith, length-without ys x here, Distinct-length-le xs (without ys x) h later)
