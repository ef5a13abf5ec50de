-- ===== src/Retention/Years.antt =====
-- `RetentionRule::KeepYearly` at its two kinds of number: a count, and the `usize::MAX` that
-- `parse_retention_number` (crates/mapache/src/commands/cmd_forget.rs) makes of "all".
use mapache.Prelude.{
  Option, Result, none, err, format, ltb, ◌&&◌, if◌then◌else◌, ℕ, ◌+◌, ◌-◌, ◌^◌, ◌≤◌, ◌<◌, ◌≡◌,
  refl, ap, false, List, [], ◌∷◌, reverse, reverse_aux, some, ok, All, extend, list_eq, nat_eq, Eq,
  arith,
}
use mapache.Common.{ContentId}
use mapache.Retention.Cutoff.{Chrono, yearly, local_start, sub_i32, pred_usize}
use mapache.Retention.{
  Text, Snapshot, SnapshotEntry, keep_yearly, ids_to_keep, on_or_after, keep_periods,
  keep_latest_per_period, values,
}

-- "all", as `parse_retention_number` returns it.
abbrev pub usize_max : ℕ
usize_max = 2 ^ 64 - 1

-- `parse_retention_number`; `parse` is `str::parse::<isize>`, with the bits of its result.
unfoldable pub parse_retention_number : (Text → Option ℕ) → Text → Result ℕ
parse_retention_number parse s =
    if list_eq.beq s (97 ∷ 108 ∷ 108 ∷ []) then ok usize_max else elim (parse s) [
      | none ↦ err format
      | some n ↦ if ltb 0 n && ltb n (2 ^ 63) then ok n else err format
    ]

module _ (c : Chrono) (mark : List ℕ) (now : c.DateTime) where
  -- The cutoff is the first instant of a year.
  abbrev pub StartsYear : ℕ → c.DateTime → Type 0
  StartsYear y cutoff =
      (day : c.NaiveDate) × (t : c.NaiveDateTime) × (c.from_ymd_opt y 1 1 ≡ some day)
      × (c.and_hms_opt day 0 0 0 ≡ some t)
      × (c.earliest t ≡ some cutoff)

  local_start-earliest :
      (t : c.NaiveDateTime) (cutoff : c.DateTime)
      → c.earliest t ≡ some cutoff
      → local_start c t ≡ ok cutoff
  unfolding local_start
  local_start-earliest t cutoff e = rw (e, local_start)

  yearly-start :
      (n y : ℕ) (cutoff : c.DateTime)
      → sub_i32 (c.year now) (pred_usize n) ≡ y
      → StartsYear y cutoff
      → yearly c now n ≡ ok cutoff
  unfolding yearly
  yearly-start n y cutoff target (day, t, d, m, e) =
      rw (target, d, m) (local_start-earliest t cutoff e)

  -- In a year from 0 on, with a count of at least 1 that does not reach back before year 0: the
  -- cutoff is the start of the year `n - 1` years ago, where the calendar has it.
  pub yearly_count :
      (n : ℕ) (cutoff : c.DateTime)
      → c.year now < 2 ^ 31
      → 1 ≤ n
      → n ≤ c.year now + 1
      → StartsYear (c.year now - (n - 1)) cutoff
      → yearly c now n ≡ ok cutoff
  yearly_count n cutoff recent one inside start =
      yearly-start n (c.year now - (n - 1)) cutoff (omega arith) start

  keep_periods-none :
      {K : Type 0} ⦃k : Eq K⦄ (key : Snapshot c → K) (cutoff : c.DateTime)
      (kept : List (K × ContentId)) (es : List (SnapshotEntry c))
      → All (λ e. on_or_after c cutoff e ≡ false) es
      → keep_periods c key cutoff kept es ≡ kept
  unfolding keep_periods
  keep_periods-none key cutoff kept [] h = refl
  keep_periods-none key cutoff kept (e ∷ es) h =
      let rest = keep_periods-none key cutoff kept es h.1 in rw h.0 rest

  All-reverse_aux :
      (P : SnapshotEntry c → Type 0) (es rest : List (SnapshotEntry c))
      → All P es
      → All P rest
      → All P (reverse_aux es rest)
  All-reverse_aux P [] rest h k = k
  All-reverse_aux P (e ∷ es) rest h k = All-reverse_aux P es (e ∷ rest) h.1 (h.0, k)

  -- `KeepYearly(usize::MAX)`, the rule for "all", in a year from 0 on: where the calendar has the
  -- start of the year after the next one, and every snapshot is older than that, the rule keeps no
  -- snapshot at all.
  pub ids_to_keep-endless :
      (es : List (SnapshotEntry c)) (cutoff : c.DateTime)
      → c.year now + 2 < 2 ^ 31
      → StartsYear (c.year now + 2) cutoff
      → All (λ e. on_or_after c cutoff e ≡ false) es
      → ids_to_keep c mark es now (keep_yearly usize_max) ≡ ok []
  ids_to_keep-endless es cutoff recent start older =
      let at_cutoff = yearly-start usize_max (c.year now + 2) cutoff (omega arith) start in
      let nothing : keep_latest_per_period c es (λ s. c.year s.timestamp) cutoff ≡ [] =
        unfold keep_latest_per_period in
        (ap (λ t. extend [] (values c t))
          (keep_periods-none (λ s. c.year s.timestamp) cutoff [] (reverse es)
            (All-reverse_aux (λ e. on_or_after c cutoff e ≡ false) es [] older tt))) in
      unfold ids_to_keep in rw (at_cutoff, nothing)
