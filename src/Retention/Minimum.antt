-- ===== src/Retention/Minimum.antt =====
-- `keep_min` of `apply_retention_rules`: enough snapshots stay, and no rule is overruled.
use mapache.Prelude.{
  ℕ, ◌≤◌, ◌≡◌, refl, sym, ap, ◌∙◌, subst, ◌⊎◌, inl, inr, Bool, true, false, List, [], ◌∷◌, reverse,
  Option, none, some, suc, reverse_aux, Result, ok, err, ◌>>=◌, if◌then◌else◌, length, min, ltb,
  leb, contains, insert, contains-insert, Distinct, Distinct-length-le, true-ne-false, list_eq,
  nat_eq, Bool-cases, beq_refl, arith,
}
use mapache.Common.{ContentId}
use mapache.Retention.Cutoff.{Chrono}
use mapache.Retention.{
  SnapshotEntry, RetentionRule, apply_rules, fill_up, ensure_min, apply_retention_rules,
}

module _ (c : Chrono) where
  abbrev pub ids : List (SnapshotEntry c) → List ContentId
  ids [] = []
  ids (e ∷ es) = e.id ∷ ids es

  contains-insert_old :
      (xs : List ContentId) (a b : ContentId)
      → contains xs b ≡ true
      → contains (insert xs a) b ≡ true
  contains-insert_old xs a b h = contains-insert xs a b ∙ by_test (list_eq.beq a b)
    where
      by_test : (t : Bool) → (if t then true else contains xs b) ≡ true
      by_test true = refl
      by_test false = h

  contains-insert_new : (xs : List ContentId) (a : ContentId) → contains (insert xs a) a ≡ true
  contains-insert_new xs a =
      contains-insert xs a a ∙ ap (λ t. if t then true else contains xs a) (beq_refl a)

  fill_up_keeps :
      (target : ℕ) (kept : List ContentId) (es : List (SnapshotEntry c)) (id : ContentId)
      → contains kept id ≡ true
      → contains (fill_up c target kept es) id ≡ true
  unfolding fill_up
  fill_up_keeps target kept [] id h = h
  fill_up_keeps target kept (e ∷ es) id h =
      let rest =
        fill_up_keeps target (insert kept e.id) es id (contains-insert_old kept e.id id h) in
      elim (Bool-cases (leb target (length kept))) [ inl q ↦ rw q h | inr q ↦ rw q rest ]

  -- The loop ends with enough IDs, or with those of all its entries.
  fill_up_enough :
      (target : ℕ) (kept : List ContentId) (es : List (SnapshotEntry c))
      → (target ≤ length (fill_up c target kept es))
        ⊎ ((id : ContentId)
            → contains (ids es) id ≡ true
            → contains (fill_up c target kept es) id ≡ true)
  unfolding fill_up
  fill_up_enough target kept [] = inr (λ id h. absurd (true-ne-false (sym h)))
  fill_up_enough target kept (e ∷ es) =
      let rest = fill_up_enough target (insert kept e.id) es in
      let here = fill_up_keeps target (insert kept e.id) es e.id (contains-insert_new kept e.id) in
      elim (Bool-cases (leb target (length kept))) [
        | inl q ↦ rw q (inl (enough q))
        | inr q ↦ rw q (elim rest [
          | inl large ↦ inl large
          | inr all ↦ inr (λ id h. elim (Bool-cases (list_eq.beq e.id id)) [
            | inl same ↦
                subst (λ t. contains (fill_up c target (insert kept e.id) es) t ≡ true)
                  ((list_eq.beq_iff e.id id).0 same) here
            | inr other ↦
                all id (subst (λ t. (if t then true else contains (ids es) id) ≡ true) other h)
          ])
        ])
      ]
    where
      enough : leb target (length kept) ≡ true → target ≤ length kept
      enough q = ground arith

  -- An ID is that of an entry, in whatever order.
  contains-reverse_aux :
      (es rest : List (SnapshotEntry c)) (id : ContentId)
      → (if contains (ids es) id then true else contains (ids rest) id) ≡ true
      → contains (ids (reverse_aux es rest)) id ≡ true
  contains-reverse_aux [] rest id h = h
  contains-reverse_aux (e ∷ es) rest id h =
      contains-reverse_aux es (e ∷ rest) id
        (swap (list_eq.beq e.id id) (contains (ids es) id) (contains (ids rest) id) h)
    where
      swap :
          (p q r : Bool)
          → (if (if p then true else q) then true else r) ≡ true
          → (if q then true else (if p then true else r)) ≡ true
      swap true true r h = refl
      swap true false r h = refl
      swap false q r h = h

  contains-reverse :
      (es : List (SnapshotEntry c)) (id : ContentId)
      → contains (ids es) id ≡ true
      → contains (ids (reverse es)) id ≡ true
  contains-reverse es id h = contains-reverse_aux es [] id (rw h)

  length-ids : (es : List (SnapshotEntry c)) → length (ids es) ≡ length es
  length-ids [] = refl
  length-ids (e ∷ es) = ap suc (length-ids es)

  module _ (mark : List ℕ) (es : List (SnapshotEntry c)) (now : c.DateTime) where
    ensure_min_keeps :
        (keep_min : Option ℕ) (kept : List ContentId) (id : ContentId)
        → contains kept id ≡ true
        → contains (ensure_min c mark es now keep_min kept) id ≡ true
    unfolding ensure_min
    ensure_min_keeps none kept id h = h
    ensure_min_keeps (some n) kept id h =
        let filled = fill_up_keeps (min n (length es)) kept (reverse es) id h in
        elim (Bool-cases (ltb (length kept) (min n (length es)))) [
          | inl q ↦ rw q filled
          | inr q ↦ rw q h
        ]

    ensure_min_enough :
        (n : ℕ) (kept : List ContentId)
        → Distinct (ids es)
        → min n (length es) ≤ length (ensure_min c mark es now (some n) kept)
    unfolding ensure_min
    ensure_min_enough n kept distinct = elim (Bool-cases (ltb (length kept) (min n (length es)))) [
      | inl q ↦ rw q (elim (fill_up_enough (min n (length es)) kept (reverse es)) [
        | inl large ↦ large
        | inr all ↦ omega (
          arith,
          length-ids es,
          Distinct-length-le (ids es) (fill_up c (min n (length es)) kept (reverse es)) distinct
              (λ id h. all id (contains-reverse es id h)),
        )
      ])
      | inr q ↦ rw q (enough q)
    ]
      where
        enough : ltb (length kept) (min n (length es)) ≡ false → min n (length es) ≤ length kept
        enough q = ground arith

    with_min :
        (rules : List (RetentionRule c)) (keep_min : Option ℕ) (kept : List ContentId)
        → apply_retention_rules c mark es now rules keep_min ≡ ok kept
        → (by_rules : List ContentId) × (apply_rules c mark es now [] rules ≡ ok by_rules)
          × (ensure_min c mark es now keep_min by_rules ≡ kept)
    with_min rules keep_min kept e =
        by_case (apply_rules c mark es now [] rules) refl (unfold apply_retention_rules in e)
      where
        by_case :
            (r : Result (List ContentId))
            → apply_rules c mark es now [] rules ≡ r
            → (r >>= (λ t. ok (ensure_min c mark es now keep_min t))) ≡ ok kept
            → (by_rules : List ContentId) × (apply_rules c mark es now [] rules ≡ ok by_rules)
              × (ensure_min c mark es now keep_min by_rules ≡ kept)
        by_case (err x) applied q = let no' : err x ≡ ok kept → ⊥ = λ q'. cc in absurd (no' q)
        by_case (ok t) applied q = (t, applied, cc)

    -- For snapshots with different IDs and a minimum of `n`: at least `n` of them are kept, or all
    -- where there are fewer, and every ID that is kept without the minimum is kept.
    pub apply_retention_rules-keep_min :
        (rules : List (RetentionRule c)) (n : ℕ) (kept : List ContentId)
        → Distinct (ids es)
        → apply_retention_rules c mark es now rules (some n) ≡ ok kept
        → (min n (length es) ≤ length kept)
          × (by_rules : List ContentId) × (apply_retention_rules c mark es now rules none
              ≡ ok by_rules)
          × ((id : ContentId) → contains by_rules id ≡ true → contains kept id ≡ true)
    apply_retention_rules-keep_min rules n kept distinct e =
        let (by_rules, applied, filled) = with_min rules (some n) kept e in
        (
          subst (λ t. min n (length es) ≤ length t) filled (ensure_min_enough n by_rules distinct),
          by_rules,
          unfold apply_retention_rules in rw applied (unfold ensure_min in refl),
          λ id h.
              subst (λ t. contains t id ≡ true) filled (ensure_min_keeps (some n) by_rules id h),
        )
