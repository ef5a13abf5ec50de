-- ===== src/Prelude/Tests.antt =====
-- Boolean tests on the native numbers, the conditional, and case splits that keep the equation.
use Prim.Native.Nat.{ℕ, ◌≤◌, ◌<◌, compare, Ordering}
use mathlib.Core.Path.{◌≡◌, refl, sym, ap, ap₂}
use mathlib.Core.Logic.{◌≢◌, ◌↔◌, ◌⊎◌, inl, inr}
use mathlib.Core.Bool.{Bool, true, false}
use mathlib.Core.List.{List, [], ◌∷◌}
use mathlib.Core.Option.{Option, none, some}
use native.Mathlib.Omega.{arith}

abbrev pub ltb : ℕ → ℕ → Bool
ltb a b = elim (compare a b) [ Ordering.lt ↦ true | _ ↦ false ]

abbrev pub leb : ℕ → ℕ → Bool
leb a b = elim (compare a b) [ Ordering.gt ↦ false | _ ↦ true ]

infix 50 ◌==◌
abbrev pub ◌==◌ : ℕ → ℕ → Bool
a == b = elim (compare a b) [ Ordering.eq ↦ true | _ ↦ false ]

infix 1 if◌then◌else◌
abbrev pub if◌then◌else◌ {ℓ} : {A : Type ℓ} → Bool → A → A → A
if true then x else y = x
if false then x else y = y

pub ==_iff : (a b : ℕ) → ((a == b) ≡ true) ↔ (a ≡ b)
==_iff a b = ground arith

pub ==_refl : (a : ℕ) → (a == a) ≡ true
==_refl a = ground arith

pub Bool-cases : (b : Bool) → (b ≡ true) ⊎ (b ≡ false)
Bool-cases true = inl refl
Bool-cases false = inr refl

pub Option-cases {ℓ} : {A : Type ℓ} (o : Option A) → (o ≡ none) ⊎ ((a : A) × (o ≡ some a))
Option-cases none = inl refl
Option-cases (some a) = inr (a, refl)

pub le-cases : (a b : ℕ) → (a ≤ b) ⊎ (b < a)
le-cases a b = grind arith

-- An equality test of a key type, with its law.
pub record Eq {ℓ} (A : Type ℓ) : Type ℓ where
  pub beq : A → A → Bool
  pub beq_iff : (a b : A) → (beq a b ≡ true) ↔ (a ≡ b)

instance abbrev pub nat_eq : Eq ℕ
nat_eq = record { beq = ◌==◌; beq_iff = ==_iff }

false-ne-true : false ≢ true
false-ne-true q = cc

nil-ne-cons {ℓ} : {A : Type ℓ} {x : A} {xs : List A} → [] ≢ x ∷ xs
nil-ne-cons q = cc

abbrev pair_beq {ℓ κ} : {A : Type ℓ} {B : Type κ} ⦃e : Eq A⦄ ⦃f : Eq B⦄ → A × B → A × B → Bool
pair_beq ⦃e⦄ ⦃f⦄ p q = if e.beq p.0 q.0 then f.beq p.1 q.1 else false

pub pair_beq_iff {ℓ κ} :
    {A : Type ℓ} {B : Type κ} ⦃e : Eq A⦄ ⦃f : Eq B⦄ (p q : A × B) → (pair_beq p q ≡ true) ↔ (p ≡ q)
pair_beq_iff ⦃e⦄ ⦃f⦄ p q =
    both (e.beq p.0 q.0) (f.beq p.1 q.1) (e.beq_iff p.0 q.0) (f.beq_iff p.1 q.1)
  where
    both :
        (s t : Bool)
        → (s ≡ true) ↔ (p.0 ≡ q.0)
        → (t ≡ true) ↔ (p.1 ≡ q.1)
        → ((if s then t else false) ≡ true) ↔ (p ≡ q)
    both true t h k = (λ r. ap₂ (λ x y. (x, y)) (h.0 refl) (k.0 r), λ r. k.1 (ap (λ x. x.1) r))
    both false t h k = (λ r. absurd (false-ne-true r), λ r. h.1 (ap (λ x. x.0) r))

instance abbrev pub pair_eq {ℓ κ} : {A : Type ℓ} {B : Type κ} ⦃e : Eq A⦄ ⦃f : Eq B⦄ → Eq (A × B)
pair_eq = record { beq = pair_beq; beq_iff = pair_beq_iff }

abbrev list_beq {ℓ} : {A : Type ℓ} → (A → A → Bool) → List A → List A → Bool
list_beq beq [] [] = true
list_beq beq [] (y ∷ ys) = false
list_beq beq (x ∷ xs) [] = false
list_beq beq (x ∷ xs) (y ∷ ys) = if beq x y then list_beq beq xs ys else false

pub list_beq_iff {ℓ} :
    {A : Type ℓ} ⦃e : Eq A⦄ (xs ys : List A) → (list_beq e.beq xs ys ≡ true) ↔ (xs ≡ ys)
list_beq_iff [] [] = (λ r. refl, λ r. refl)
list_beq_iff [] (y ∷ ys) = (λ r. absurd (false-ne-true r), λ r. absurd (nil-ne-cons r))
list_beq_iff (x ∷ xs) [] = (λ r. absurd (false-ne-true r), λ r. absurd (nil-ne-cons (sym r)))
list_beq_iff ⦃e⦄ (x ∷ xs) (y ∷ ys) =
    both (e.beq x y) (list_beq e.beq xs ys) (e.beq_iff x y) (list_beq_iff xs ys)
  where
    both :
        (s t : Bool)
        → (s ≡ true) ↔ (x ≡ y)
        → (t ≡ true) ↔ (xs ≡ ys)
        → ((if s then t else false) ≡ true) ↔ (x ∷ xs ≡ y ∷ ys)
    both true t h k = (λ r. ap₂ (◌∷◌) (h.0 refl) (k.0 r), λ r. k.1 cc)
    both false t h k = (λ r. absurd (false-ne-true r), λ r. h.1 cc)

instance abbrev pub list_eq {ℓ} : {A : Type ℓ} ⦃e : Eq A⦄ → Eq (List A)
list_eq ⦃e⦄ = record { beq = list_beq e.beq; beq_iff = list_beq_iff }

-- `Option::and_then`, `or_else` and `is_some`.
abbrev pub and_then {ℓ κ} : {A : Type ℓ} {B : Type κ} → Option A → (A → Option B) → Option B
and_then none next = none
and_then (some a) next = next a

abbrev pub or_else {ℓ} : {A : Type ℓ} → Option A → Option A → Option A
or_else none other = other
or_else (some a) other = some a

abbrev pub is_some {ℓ} : {A : Type ℓ} → Option A → Bool
is_some none = false
is_some (some a) = true
