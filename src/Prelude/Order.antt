-- ===== src/Prelude/Order.antt =====
-- Sorting and binary search of the standard library: `sort_unstable_by_key` as an insertion sort, and
-- `binary_search_by_key` as its loop over a base and a size.
use Prim.Native.Nat.{ℕ}
use mathlib.Core.Path.{◌≡◌, refl, sym, ap, subst, ◌∙◌}
use mathlib.Core.Logic.{◌⊎◌, inl, inr}
use mathlib.Core.Bool.{Bool, true, false}
use mathlib.Core.List.{List, [], ◌∷◌}
use native.Mathlib.Omega.{arith}
use mapache.Prelude.Tests.{leb, if◌then◌else◌, Eq, nat_eq, list_eq}
use mapache.Prelude.Sets.{true-ne-false, beq-cases}

-- A total order by its test.
pub record Order {ℓ} (A : Type ℓ) : Type ℓ where
  pub le : A → A → Bool
  pub le_total : (a b : A) → (le a b ≡ true) ⊎ (le b a ≡ true)
  pub le_trans : (a b c : A) → le a b ≡ true → le b c ≡ true → le a c ≡ true
  pub le_antisymm : (a b : A) → le a b ≡ true → le b a ≡ true → a ≡ b

pub le_refl {ℓ} : {A : Type ℓ} ⦃o : Order A⦄ (a : A) → o.le a a ≡ true
le_refl ⦃o⦄ a = elim (o.le_total a a) [ inl q ↦ q | inr q ↦ q ]

pub leb_total : (a b : ℕ) → (leb a b ≡ true) ⊎ (leb b a ≡ true)
leb_total a b = ground arith

pub leb_trans : (a b c : ℕ) → leb a b ≡ true → leb b c ≡ true → leb a c ≡ true
leb_trans a b c p q = ground arith

pub leb_antisymm : (a b : ℕ) → leb a b ≡ true → leb b a ≡ true → a ≡ b
leb_antisymm a b p q = ground arith

instance abbrev pub nat_order : Order ℕ
nat_order = record {
  le = leb;
  le_total = leb_total;
  le_trans = leb_trans;
  le_antisymm = leb_antisymm;
}

-- The lexicographic order of slices.
module _ {ℓ} {A : Type ℓ} ⦃e : Eq A⦄ ⦃o : Order A⦄ where
  abbrev pub list_le : List A → List A → Bool
  list_le [] ys = true
  list_le (x ∷ xs) [] = false
  list_le (x ∷ xs) (y ∷ ys) = if e.beq x y then list_le xs ys else o.le x y

  pub list_le_total : (xs ys : List A) → (list_le xs ys ≡ true) ⊎ (list_le ys xs ≡ true)
  list_le_total [] ys = inl refl
  list_le_total (x ∷ xs) [] = inr refl
  list_le_total (x ∷ xs) (y ∷ ys) = elim (beq-cases x y) [
    | inl (same, q) ↦
        let back : e.beq y x ≡ true = (e.beq_iff y x).1 (sym same) in
        elim (list_le_total xs ys) [ inl p ↦ inl (rw q p) | inr p ↦ inr (rw back p) ]
    | inr (other, q) ↦ elim (beq-cases y x) [
      | inl (same, r) ↦ absurd (other (sym same))
      | inr (other', r) ↦ elim (o.le_total x y) [ inl p ↦ inl (rw q p) | inr p ↦ inr (rw r p) ]
    ]
  ]

  pub list_le_antisymm : (xs ys : List A) → list_le xs ys ≡ true → list_le ys xs ≡ true → xs ≡ ys
  list_le_antisymm [] [] p q = refl
  list_le_antisymm [] (y ∷ ys) p q = absurd (true-ne-false (sym q))
  list_le_antisymm (x ∷ xs) [] p q = absurd (true-ne-false (sym p))
  list_le_antisymm (x ∷ xs) (y ∷ ys) p q = elim (beq-cases x y) [
    | inl (same, h) ↦
        let back : e.beq y x ≡ true = (e.beq_iff y x).1 (sym same) in
        let p' : list_le xs ys ≡ true =
          subst (λ t. (if t then list_le xs ys else o.le x y) ≡ true) h p in
        let q' : list_le ys xs ≡ true =
          subst (λ t. (if t then list_le ys xs else o.le y x) ≡ true) back q in
        let rest = list_le_antisymm xs ys p' q' in cc
    | inr (other, h) ↦ elim (beq-cases y x) [
      | inl (same, r) ↦ absurd (other (sym same))
      | inr (other', r) ↦ absurd (
          other (
            o.le_antisymm x y (subst (λ t. (if t then list_le xs ys else o.le x y) ≡ true) h p)
              (subst (λ t. (if t then list_le ys xs else o.le y x) ≡ true) r q)))
    ]
  ]

  pub list_le_trans :
      (xs ys zs : List A) → list_le xs ys ≡ true → list_le ys zs ≡ true → list_le xs zs ≡ true
  list_le_trans [] ys zs p q = refl
  list_le_trans (x ∷ xs) [] zs p q = absurd (true-ne-false (sym p))
  list_le_trans (x ∷ xs) (y ∷ ys) [] p q = absurd (true-ne-false (sym q))
  list_le_trans (x ∷ xs) (y ∷ ys) (z ∷ zs) p q = elim (beq-cases x y) [
    | inl (same, h) ↦
        let p' : list_le xs ys ≡ true =
          subst (λ t. (if t then list_le xs ys else o.le x y) ≡ true) h p in
        elim (beq-cases y z) [
          | inl (same', k) ↦
              let q' : list_le ys zs ≡ true =
                subst (λ t. (if t then list_le ys zs else o.le y z) ≡ true) k q in
              let both : e.beq x z ≡ true = (e.beq_iff x z).1 (same ∙ same') in
              rw both (list_le_trans xs ys zs p' q')
          | inr (other', k) ↦
              let q' : o.le y z ≡ true =
                subst (λ t. (if t then list_le ys zs else o.le y z) ≡ true) k q in
              let both : e.beq x z ≡ false = ap (λ t. e.beq t z) same ∙ k in
              rw both (ap (λ t. o.le t z) same ∙ q')
        ]
    | inr (other, h) ↦
        let p' : o.le x y ≡ true =
          subst (λ t. (if t then list_le xs ys else o.le x y) ≡ true) h p in
        elim (beq-cases y z) [
          | inl (same', k) ↦
              let both : e.beq x z ≡ false = ap (e.beq x) (sym same') ∙ h in
              rw both (ap (o.le x) (sym same') ∙ p')
          | inr (other', k) ↦
              let q' : o.le y z ≡ true =
                subst (λ t. (if t then list_le ys zs else o.le y z) ≡ true) k q in
              let through = o.le_trans x y z p' q' in
              elim (beq-cases x z) [
                | inl (same, r) ↦
                    absurd
                      (other' (sym (o.le_antisymm z y (ap (λ t. o.le t y) (sym same) ∙ p') q')))
                | inr (differ, r) ↦ rw r through
              ]
        ]
  ]

instance abbrev pub list_order {ℓ} : {A : Type ℓ} ⦃e : Eq A⦄ ⦃o : Order A⦄ → Order (List A)
list_order = record {
  le = list_le;
  le_total = list_le_total;
  le_trans = list_le_trans;
  le_antisymm = list_le_antisymm;
}
