-- ===== src/Retention/Rules.antt =====
-- `apply_retention_rules` as a union: a snapshot stays where at least one rule keeps it.
use mapache.Prelude.{
  ℕ, ◌≡◌, refl, sym, ◌∙◌, subst, ◌↔◌, ◌⊎◌, inl, inr, Bool, true, false, List, [], ◌∷◌, none, Result,
  ok, err, ◌>>=◌, if◌then◌else◌, contains, extend, contains-extend, true-ne-false, list_eq, nat_eq,
  Bool-cases,
}
use mapache.Common.{ContentId}
use mapache.Retention.Cutoff.{Chrono}
use mapache.Retention.{
  SnapshotEntry, RetentionRule, ids_to_keep, apply_rules, apply_retention_rules, ensure_min,
}

module _ (c : Chrono) (mark : List ℕ) (es : List (SnapshotEntry c)) (now : c.DateTime) where
  -- One of the rules keeps the ID.
  abbrev pub KeptByOne : List (RetentionRule c) → ContentId → Type 0
  KeptByOne [] id = ⊥
  KeptByOne (rule ∷ rules) id =
      ((ids : List ContentId) × (ids_to_keep c mark es now rule ≡ ok ids)
        × (contains ids id ≡ true))
      ⊎ KeptByOne rules id

  -- A first rule that was applied, and the other ones behind it.
  apply_rules_cons :
      (kept0 kept : List ContentId) (rule : RetentionRule c) (rules : List (RetentionRule c))
      → apply_rules c mark es now kept0 (rule ∷ rules) ≡ ok kept
      → (ids : List ContentId) × (ids_to_keep c mark es now rule ≡ ok ids)
        × (apply_rules c mark es now (extend kept0 ids) rules ≡ ok kept)
  apply_rules_cons kept0 kept rule rules e =
      by_case (ids_to_keep c mark es now rule) refl (unfold apply_rules in e)
    where
      by_case :
          (r : Result (List ContentId))
          → ids_to_keep c mark es now rule ≡ r
          → (r >>= (λ ids. apply_rules c mark es now (extend kept0 ids) rules)) ≡ ok kept
          → (ids : List ContentId) × (ids_to_keep c mark es now rule ≡ ok ids)
            × (apply_rules c mark es now (extend kept0 ids) rules ≡ ok kept)
      by_case (err x) step q = let no : err x ≡ ok kept → ⊥ = λ q'. cc in absurd (no q)
      by_case (ok ids) step q = (ids, step, q)

  apply_rules_nil :
      (kept0 kept : List ContentId) → apply_rules c mark es now kept0 [] ≡ ok kept → kept0 ≡ kept
  unfolding apply_rules
  apply_rules_nil kept0 kept e = cc

  or-cases : (s t : Bool) → (if s then true else t) ≡ true → (s ≡ true) ⊎ (t ≡ true)
  or-cases true t h = inl refl
  or-cases false t h = inr h

  ok-injective : {a b : List ContentId} → ok a ≡ ok b → a ≡ b
  ok-injective h = cc

  apply_rules-union :
      (rules : List (RetentionRule c)) (kept0 kept : List ContentId) (id : ContentId)
      → apply_rules c mark es now kept0 rules ≡ ok kept
      → (contains kept id ≡ true) ↔ (KeptByOne rules id ⊎ (contains kept0 id ≡ true))
  apply_rules-union [] kept0 kept id e =
      let same = apply_rules_nil kept0 kept e in
      (
        λ h. inr (subst (λ t. contains t id ≡ true) (sym same) h),
        λ h. elim h [
          | inl none_left ↦ absurd none_left
          | inr old ↦ subst (λ t. contains t id ≡ true) same old
        ],
      )
  apply_rules-union (rule ∷ rules) kept0 kept id e =
      let (ids, applied, rest) = apply_rules_cons kept0 kept rule rules e in
      let rec = apply_rules-union rules (extend kept0 ids) kept id rest in
      let both = contains-extend kept0 ids id in
      (
        λ h. elim (rec.0 h) [
          | inl later ↦ inl (inr later)
          | inr here ↦ elim (or-cases (contains ids id) (contains kept0 id) (sym both ∙ here)) [
            | inl new ↦ inl (inl (ids, applied, new))
            | inr old ↦ inr old
          ]
        ],
        λ h. elim h [
          | inl some_rule ↦ elim some_rule [
            | inl (ids', applied', new) ↦
                let same : ids' ≡ ids = ok-injective (sym applied' ∙ applied) in
                rec.1 (inr (both ∙ by_new ids (subst (λ t. contains t id ≡ true) same new)))
            | inr later ↦ rec.1 (inl later)
          ]
          | inr old ↦ rec.1 (inr (both ∙ by_old ids old))
        ],
      )
    where
      by_new :
          (ids : List ContentId)
          → contains ids id ≡ true
          → (if contains ids id then true else contains kept0 id) ≡ true
      by_new ids q = rw q

      by_old :
          (ids : List ContentId)
          → contains kept0 id ≡ true
          → (if contains ids id then true else contains kept0 id) ≡ true
      by_old ids q = elim (Bool-cases (contains ids id)) [ inl p ↦ rw p | inr p ↦ rw (p, q) ]

  -- Where the rules are applied without a panic and no minimum is asked for: an ID is kept if and
  -- only if at least one of the rules keeps it.
  pub apply_retention_rules-union :
      (rules : List (RetentionRule c)) (kept : List ContentId) (id : ContentId)
      → apply_retention_rules c mark es now rules none ≡ ok kept
      → (contains kept id ≡ true) ↔ KeptByOne rules id
  apply_retention_rules-union rules kept id e =
      let applied =
        without_min (apply_rules c mark es now [] rules) (unfold apply_retention_rules in e) in
      let both = apply_rules-union rules [] kept id applied in
      (
        λ h. elim (both.0 h) [ inl k ↦ k | inr h' ↦ absurd (true-ne-false (sym h')) ],
        λ k. both.1 (inl k),
      )
    where
      without_min :
          (r : Result (List ContentId))
          → (r >>= (λ t. ok (ensure_min c mark es now none t))) ≡ ok kept
          → r ≡ ok kept
      without_min (ok t) q = unfold ensure_min in q
      without_min (err x) q = let no : err x ≡ ok kept → ⊥ = λ q'. cc in absurd (no q)
