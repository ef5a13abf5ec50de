-- ===== src/Retention.antt =====
-- crates/mapache/src/repository/retention.rs: which snapshots `forget` keeps.
pub mod Cutoff
pub mod Periods
pub mod Rules
pub mod Minimum
pub mod Years
mod Tests
use mapache.Prelude.{
  ℕ, zero, suc, ◌+◌, ◌-◌, ◌%◌, ◌^◌, Bool, true, false, ◌&&◌, List, [], ◌∷◌, map, reverse, Option,
  none, some, Result, ok, err, MapacheError, ◌>>=◌, panicked, ltb, leb, ◌==◌, if◌then◌else◌, length,
  take, Eq, min, contains, insert, extend, nat_eq, pair_eq, list_eq,
}
use mapache.Common.{ContentId}
use mapache.Retention.Cutoff.{Chrono, yearly, monthly, weekly, daily, hourly, or_panic}

-- A tag or a host name; the program only compares them.
abbrev pub Text : Type 0
Text = List ℕ

module _ (c : Chrono) where
  open c use {DateTime, Duration, not_before, sub, date_naive, day_key, year, month, iso_week, hour}

  pub record Snapshot : Type 0 where
    pub timestamp : DateTime
    pub tags : List Text
    pub hostname : Option Text

  pub record SnapshotEntry : Type 0 where
    pub id : ContentId
    pub snapshot : Snapshot

  pub data RetentionRule : Type 0 where
    keep_last : ℕ → RetentionRule
    keep_within : Duration → RetentionRule
    keep_yearly keep_monthly keep_weekly keep_daily keep_hourly : ℕ → RetentionRule
    keep_tags : List Text → RetentionRule

  abbrev pub is_empty : List Text → Bool
  is_empty [] = true
  is_empty (t ∷ ts) = false

  abbrev pub any_tag : List Text → List Text → Bool
  any_tag tags [] = false
  any_tag tags (t ∷ ts) = if contains tags t then true else any_tag tags ts

  -- `Snapshot::has_tags`; `empty_tag_mark` is the constant of the commands.
  unfoldable pub has_tags : Text → Snapshot → List Text → Bool
  has_tags empty_tag_mark s tags =
      if contains tags empty_tag_mark && is_empty s.tags then true else any_tag tags s.tags

  -- The IDs of the entries that pass a test, in their order.
  abbrev pub ids_where : (SnapshotEntry → Bool) → List SnapshotEntry → List ContentId
  ids_where test [] = []
  ids_where test (e ∷ es) = if test e then e.id ∷ ids_where test es else ids_where test es

  abbrev pub on_or_after : DateTime → SnapshotEntry → Bool
  on_or_after cutoff e = not_before e.snapshot.timestamp cutoff

  module _ {K : Type 0} ⦃k : Eq K⦄ where
    abbrev pub lookup : List (K × ContentId) → K → Option ContentId
    lookup [] key = none
    lookup ((k', id) ∷ m) key = if k.beq k' key then some id else lookup m key

    -- `entry(key).or_insert(id)`
    abbrev pub or_insert : List (K × ContentId) → K → ContentId → List (K × ContentId)
    or_insert m key id = elim (lookup m key) [ some old ↦ m | none ↦ (key, id) ∷ m ]

    -- The loop over the entries, the latest first.
    unfoldable pub keep_periods :
        (Snapshot → K) → DateTime → List (K × ContentId) → List SnapshotEntry → List (K × ContentId)
    keep_periods key_extractor cut_off kept_periods [] = kept_periods
    keep_periods key_extractor cut_off kept_periods (e ∷ es) =
        keep_periods key_extractor cut_off
          (if on_or_after cut_off e
            then or_insert kept_periods (key_extractor e.snapshot) e.id
            else kept_periods)
          es

    abbrev pub values : List (K × ContentId) → List ContentId
    values [] = []
    values ((k', id) ∷ m) = id ∷ values m

    unfoldable pub keep_latest_per_period :
        List SnapshotEntry → (Snapshot → K) → DateTime → List ContentId
    unfolding keep_periods
    keep_latest_per_period snapshots_sorted key_extractor cut_off =
        extend [] (values (keep_periods key_extractor cut_off [] (reverse snapshots_sorted)))

  -- The loop that fills up to `target`, the latest snapshot first.
  unfoldable pub fill_up : ℕ → List ContentId → List SnapshotEntry → List ContentId
  fill_up target kept [] = kept
  fill_up target kept (e ∷ es) =
      if leb target (length kept) then kept else fill_up target (insert kept e.id) es

  module _ (empty_tag_mark : Text) (snapshots_sorted : List SnapshotEntry) (now : DateTime) where
    -- The IDs that one rule keeps.
    unfoldable pub ids_to_keep : RetentionRule → Result (List ContentId)
    ids_to_keep (keep_last n) = ok (ids_where (λ e. true) (take n (reverse snapshots_sorted)))
    ids_to_keep (keep_within duration) = do
      cutoff_time ← or_panic (sub now duration)
      ok (ids_where (on_or_after cutoff_time) snapshots_sorted)
    ids_to_keep (keep_yearly n) = do
      cutoff ← yearly c now n
      ok (keep_latest_per_period {K = ℕ} snapshots_sorted (λ s. year s.timestamp) cutoff)
    ids_to_keep (keep_monthly n) = do
      cutoff ← monthly c now n
      ok (
          keep_latest_per_period {K = ℕ × ℕ} snapshots_sorted
            (λ s. (year s.timestamp, month s.timestamp)) cutoff)
    ids_to_keep (keep_weekly n) = do
      cutoff ← weekly c now n
      ok (
          keep_latest_per_period {K = ℕ × ℕ} snapshots_sorted
            (λ s. (year s.timestamp, iso_week s.timestamp)) cutoff)
    ids_to_keep (keep_daily n) = do
      cutoff ← daily c now n
      ok (
          keep_latest_per_period {K = ℕ} snapshots_sorted (λ s. day_key (date_naive s.timestamp))
            cutoff)
    ids_to_keep (keep_hourly n) = do
      cutoff ← hourly c now n
      ok (
          keep_latest_per_period {K = ℕ × ℕ} snapshots_sorted
            (λ s. (day_key (date_naive s.timestamp), hour s.timestamp)) cutoff)
    ids_to_keep (keep_tags tags) =
        ok (ids_where (λ e. has_tags empty_tag_mark e.snapshot tags) snapshots_sorted)

    -- The loop over the rules.
    unfoldable pub apply_rules : List ContentId → List RetentionRule → Result (List ContentId)
    apply_rules snapshots_to_keep [] = ok snapshots_to_keep
    apply_rules snapshots_to_keep (rule ∷ rules) = do
      ids ← ids_to_keep rule
      apply_rules (extend snapshots_to_keep ids) rules

    unfoldable pub ensure_min : Option ℕ → List ContentId → List ContentId
    unfolding fill_up
    ensure_min none kept = kept
    ensure_min (some keep_min) kept =
        let target = min keep_min (length snapshots_sorted) in
        if ltb (length kept) target then fill_up target kept (reverse snapshots_sorted) else kept

    unfoldable pub apply_retention_rules : List RetentionRule → Option ℕ → Result (List ContentId)
    apply_retention_rules rules keep_min = do
      kept ← apply_rules [] rules
      ok (ensure_min keep_min kept)

  abbrev pub is_host : List Text → SnapshotEntry → Bool
  is_host hosts e = elim e.snapshot.hostname [ some h ↦ contains hosts h | none ↦ false ]

  abbrev pub filter_entries : (SnapshotEntry → Bool) → List SnapshotEntry → List SnapshotEntry
  filter_entries test [] = []
  filter_entries test (e ∷ es) =
      if test e then e ∷ filter_entries test es else filter_entries test es

  unfoldable pub filter_snapshots_by_hosts : List SnapshotEntry → List Text → List SnapshotEntry
  filter_snapshots_by_hosts snapshots hosts =
      if is_empty hosts then snapshots else filter_entries (is_host hosts) snapshots
