-- ===== src/Collections/Maps.antt =====
-- `std::collections::HashMap`, as far as no order of iteration counts: a list of entries, and the laws
-- of its lookup.
use mathlib.Core.List.Memᴰ
use mapache.Prelude.{
  Memᴰ, subst, none-ne-some, some-injective, ◌≡◌, sym, ap, ◌∙◌, inl, inr, false, List, [], ◌∷◌,
  Option, none, some, if◌then◌else◌, Eq, Bool-cases, beq-cases,
}

module _ {ℓ κ} {K : Type ℓ} {V : Type κ} ⦃e : Eq K⦄ where
  abbrev pub get : List (K × V) → K → Option V
  get [] k = none
  get ((k', v) ∷ m) k = if e.beq k' k then some v else get m k

  abbrev pub erase : List (K × V) → K → List (K × V)
  erase [] k = []
  erase ((k', v) ∷ m) k = if e.beq k' k then erase m k else (k', v) ∷ erase m k

  abbrev pub put : List (K × V) → K → V → List (K × V)
  put m k v = (k, v) ∷ erase m k

  pub get-erase :
      (m : List (K × V)) (k j : K) → get (erase m k) j ≡ (if e.beq k j then none else get m j)
  get-erase [] k j = elim (Bool-cases (e.beq k j)) [ inl q ↦ rw q | inr q ↦ rw q ]
  get-erase ((k', v) ∷ m) k j =
      let rest = get-erase m k j in
      elim (beq-cases k' k) [
        | inl (same, q) ↦ rw q (elim (Bool-cases (e.beq k j)) [
          | inl hit ↦ rest ∙ rw hit
          | inr miss ↦
              let miss' : e.beq k' j ≡ false = ap (λ t. e.beq t j) same ∙ miss in
              rest ∙ rw (miss, miss')
        ])
        | inr (other, q) ↦ rw q (elim (beq-cases k' j) [
          | inl (same, hit) ↦ elim (beq-cases k j) [
            | inl (same', hit') ↦ absurd (other (same ∙ sym same'))
            | inr (other', miss') ↦ rw (hit, miss')
          ]
          | inr (other', miss) ↦ rw miss rest
        ])
      ]

  pub get-put :
      (m : List (K × V)) (k j : K) (v : V)
      → get (put m k v) j ≡ (if e.beq k j then some v else get m j)
  get-put m k j v = elim (Bool-cases (e.beq k j)) [
    | inl hit ↦ rw hit
    | inr miss ↦ rw miss (get-erase m k j ∙ rw miss)
  ]

  -- What a lookup gives is an entry.
  pub Memᴰ-of_get : (m : List (K × V)) (k : K) {v : V} → get m k ≡ some v → Memᴰ (k, v) m
  Memᴰ-of_get [] k q = absurd (none-ne-some q)
  Memᴰ-of_get ((k', v') ∷ m) k {v} q = elim (beq-cases k' k) [
    | inl (same, hit) ↦
        let q' : some v' ≡ some v = subst (λ t. (if t then some v' else get m k) ≡ some v) hit q in
        let value = some-injective q' in Memᴰ.head cc
    | inr (other, miss) ↦
        Memᴰ.tail (Memᴰ-of_get m k (subst (λ t. (if t then some v' else get m k) ≡ some v) miss q))
  ]

  -- An entry that is left when a key is erased was there, with another key.
  pub Memᴰ-erase :
      (m : List (K × V)) (k j : K) {v : V}
      → Memᴰ (j, v) (erase m k)
      → Memᴰ (j, v) m × (e.beq k j ≡ false)
  Memᴰ-erase [] k j h = absurd (Memᴰ.not-nil h)
  Memᴰ-erase ((k', v') ∷ m) k j {v} h = elim (beq-cases k' k) [
    | inl (same, hit) ↦
        let h' = subst (λ t. Memᴰ (j, v) (if t then erase m k else (k', v') ∷ erase m k)) hit h in
        let rest = Memᴰ-erase m k j h' in (Memᴰ.tail rest.0, rest.1)
    | inr (other, miss) ↦
        let h' = subst (λ t. Memᴰ (j, v) (if t then erase m k else (k', v') ∷ erase m k)) miss h in
        elim (Memᴰ.cases_cons h') [
          | inl here ↦
              let same : j ≡ k' = ap (λ x. x.0) here in
              let differ : e.beq k j ≡ false = elim (beq-cases k j) [
                | inl (same', p) ↦ absurd (other (sym (same' ∙ same)))
                | inr (other', p) ↦ p
              ] in
              (Memᴰ.head here, differ)
          | inr later ↦ let rest = Memᴰ-erase m k j later in (Memᴰ.tail rest.0, rest.1)
        ]
  ]
