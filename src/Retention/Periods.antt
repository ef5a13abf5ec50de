-- ===== src/Retention/Periods.antt =====
-- `keep_latest_per_period`: of each period, the latest snapshot that is not before the cutoff.
use mapache.Prelude.{
  ◌≡◌, ◌≢◌, refl, sym, ap, ◌∙◌, subst, ◌↔◌, inl, inr, Bool, true, false, List, [], ◌∷◌, reverse,
  Option, none, some, if◌then◌else◌, contains, contains-extend, true-ne-false, list_eq, nat_eq,
  Bool-cases, Option-cases, Eq, beq-cases, beq_refl,
}
use mapache.Common.{ContentId}
use mapache.Retention.Cutoff.{Chrono}
use mapache.Retention.{
  Snapshot, SnapshotEntry, on_or_after, lookup, or_insert, keep_periods, values,
  keep_latest_per_period,
}

module _ (c : Chrono) {K : Type 0} ⦃k : Eq K⦄ (key : Snapshot c → K) (cut_off : c.DateTime) where
  -- The ID of the first entry of a period that is not before the cutoff.
  abbrev pub first_of_period : K → List (SnapshotEntry c) → Option ContentId
  first_of_period period [] = none
  first_of_period period (e ∷ es) =
      if on_or_after c cut_off e
      then if k.beq (key e.snapshot) period then some e.id else first_of_period period es
      else first_of_period period es

  abbrev or_else : Option ContentId → Option ContentId → Option ContentId
  or_else (some a) b = some a
  or_else none b = b

  none-ne-some : {a : ContentId} → none ≢ some a
  none-ne-some q = cc

  some-injective : {a b : ContentId} → some a ≡ some b → a ≡ b
  some-injective q = cc

  or_insert-new :
      (m : List (K × ContentId)) (p : K) (id : ContentId)
      → lookup c m p ≡ none
      → or_insert c m p id ≡ (p, id) ∷ m
  or_insert-new m p id q = rw (q, or_insert)

  or_insert-old :
      (m : List (K × ContentId)) (p : K) (id old : ContentId)
      → lookup c m p ≡ some old
      → or_insert c m p id ≡ m
  or_insert-old m p id old q = rw (q, or_insert)

  lookup-or_insert :
      (m : List (K × ContentId)) (p q : K) (id : ContentId)
      → lookup c (or_insert c m p id) q
        ≡ or_else (lookup c m q) (if k.beq p q then some id else none)
  lookup-or_insert m p q id = elim (Option-cases (lookup c m p)) [
    | inr (old, found) ↦
        ap (λ t. lookup c t q) (or_insert-old m p id old found) ∙ elim (beq-cases p q) [
          | inl (same, b) ↦ old_stays old (sym (ap (lookup c m) same) ∙ found) b
          | inr (other, b) ↦ rw b (or_else-none (lookup c m q))
        ]
    | inl new ↦ ap (λ t. lookup c t q) (or_insert-new m p id new) ∙ elim (beq-cases p q) [
      | inl (same, b) ↦
          let absent : lookup c m q ≡ none = sym (ap (lookup c m) same) ∙ new in rw (b, absent)
      | inr (other, b) ↦ rw b (or_else-none (lookup c m q))
    ]
  ]
    where
      or_else-none : (o : Option ContentId) → o ≡ or_else o none
      or_else-none none = refl
      or_else-none (some a) = refl

      old_stays :
          (old : ContentId)
          → lookup c m q ≡ some old
          → k.beq p q ≡ true
          → lookup c m q ≡ or_else (lookup c m q) (if k.beq p q then some id else none)
      old_stays old found b = rw found

  lookup-keep_periods :
      (m : List (K × ContentId)) (es : List (SnapshotEntry c)) (p : K)
      → lookup c (keep_periods c key cut_off m es) p ≡ or_else (lookup c m p) (first_of_period p es)
  unfolding keep_periods
  lookup-keep_periods m [] p = elim (Option-cases (lookup c m p)) [
    | inl q ↦ rw q
    | inr (a, q) ↦ rw q
  ]
  lookup-keep_periods m (e ∷ es) p =
      let skipped = lookup-keep_periods m es p in
      let inserted = lookup-keep_periods (or_insert c m (key e.snapshot) e.id) es p in
      elim (Bool-cases (on_or_after c cut_off e)) [
        | inr old ↦ rw old skipped
        | inl recent ↦ rw recent (
            inserted
            ∙ ap (λ t. or_else t (first_of_period p es))
                (lookup-or_insert m (key e.snapshot) p e.id)
            ∙ assoc (lookup c m p) (k.beq (key e.snapshot) p))
      ]
    where
      assoc :
          (o : Option ContentId) (b : Bool)
          → or_else (or_else o (if b then some e.id else none)) (first_of_period p es)
            ≡ or_else o (if b then some e.id else first_of_period p es)
      assoc (some a) b = refl
      assoc none true = refl
      assoc none false = refl

  -- Every period stands once.
  abbrev KeysDistinct : List (K × ContentId) → Type 0
  KeysDistinct [] = Unit
  KeysDistinct ((p, id) ∷ m) = (lookup c m p ≡ none) × KeysDistinct m

  or_insert-KeysDistinct :
      (m : List (K × ContentId)) (p : K) (id : ContentId)
      → KeysDistinct m
      → KeysDistinct (or_insert c m p id)
  or_insert-KeysDistinct m p id h = elim (Option-cases (lookup c m p)) [
    | inl new ↦ subst KeysDistinct (sym (or_insert-new m p id new)) (new, h)
    | inr (old, q) ↦ subst KeysDistinct (sym (or_insert-old m p id old q)) h
  ]

  keep_periods-KeysDistinct :
      (m : List (K × ContentId)) (es : List (SnapshotEntry c))
      → KeysDistinct m
      → KeysDistinct (keep_periods c key cut_off m es)
  unfolding keep_periods
  keep_periods-KeysDistinct m [] h = h
  keep_periods-KeysDistinct m (e ∷ es) h =
      keep_periods-KeysDistinct
        (if on_or_after c cut_off e then or_insert c m (key e.snapshot) e.id else m) es
        (elim (Bool-cases (on_or_after c cut_off e)) [
          | inl recent ↦ rw recent (or_insert-KeysDistinct m (key e.snapshot) e.id h)
          | inr old ↦ rw old h
        ])

  period_of_value :
      (m : List (K × ContentId)) (id : ContentId)
      → KeysDistinct m
      → contains (values c m) id ≡ true
      → (p : K) × (lookup c m p ≡ some id)
  period_of_value [] id h q = absurd (true-ne-false (sym q))
  period_of_value ((p', id') ∷ m) id (new, h) q = elim (beq-cases id' id) [
    | inl (same, b) ↦ (p', rw (beq_refl p') (ap some same))
    | inr (other, b) ↦
        let (p, found) =
          period_of_value m id h
            (subst (λ t. (if t then true else contains (values c m) id) ≡ true) b q) in
        elim (beq-cases p' p) [
          | inl (clash, b') ↦ absurd (none-ne-some (sym new ∙ ap (lookup c m) clash ∙ found))
          | inr (apart, b') ↦ (p, rw b' found)
        ]
  ]

  value_of_period :
      (m : List (K × ContentId)) (p : K) (id : ContentId)
      → lookup c m p ≡ some id
      → contains (values c m) id ≡ true
  value_of_period [] p id q = absurd (none-ne-some q)
  value_of_period ((p', id') ∷ m) p id q = elim (Bool-cases (k.beq p' p)) [
    | inl b ↦
        let same : id' ≡ id =
          some-injective (subst (λ t. (if t then some id' else lookup c m p) ≡ some id) b q) in
        rw same (rw (beq_refl id))
    | inr b ↦ elim (Bool-cases (list_eq.beq id' id)) [
      | inl here ↦ rw here
      | inr elsewhere ↦ rw elsewhere (
          value_of_period m p id
            (subst (λ t. (if t then some id' else lookup c m p) ≡ some id) b q))
    ]
  ]

  -- An ID is kept if and only if, for some period, it is the ID of the last entry in the list that
  -- belongs to the period and is not before the cutoff. For a list in ascending order of time this is
  -- the period's latest snapshot.
  pub keep_latest_per_period-first_of_period :
      (es : List (SnapshotEntry c)) (id : ContentId)
      → (contains (keep_latest_per_period c es key cut_off) id ≡ true)
        ↔ ((period : K) × (first_of_period period (reverse es) ≡ some id))
  keep_latest_per_period-first_of_period es id =
      let m = keep_periods c key cut_off [] (reverse es) in
      let all : contains (keep_latest_per_period c es key cut_off) id ≡ contains (values c m) id =
        unfold keep_latest_per_period in
        (contains-extend [] (values c m) id ∙ plain (contains (values c m) id)) in
      (
        λ h.
            let (p, found) =
              period_of_value m id (keep_periods-KeysDistinct [] (reverse es) tt) (sym all ∙ h) in
            (p, sym (lookup-keep_periods [] (reverse es) p) ∙ found),
        λ (p, found). all ∙ value_of_period m p id (lookup-keep_periods [] (reverse es) p ∙ found),
      )
    where
      plain : (b : Bool) → (if b then true else false) ≡ b
      plain true = refl
      plain false = refl
