-- ===== src/Retention/Tests.antt =====
-- A calendar of years of 360 days, in hours, and the retention theorems on it.
use mapache.Prelude.{
  ℕ, ◌+◌, ◌-◌, ◌*◌, ◌/◌, ◌%◌, ◌^◌, ◌≤◌, ◌≡◌, ◌↔◌, refl, List, [], ◌∷◌, reverse, Option, none, some,
  ok, true, ltb, leb, if◌then◌else◌, min, contains, nat_eq, list_eq, arith,
}
use mapache.Common.{ContentId}
use mapache.Retention.Cutoff.{Chrono, yearly, local_start}
use mapache.Retention.{
  SnapshotEntry, RetentionRule, keep_yearly, keep_tags, ids_to_keep, apply_rules,
  apply_retention_rules, keep_latest_per_period, keep_periods, has_tags, fill_up, ensure_min,
}
use mapache.Retention.Rules.{KeptByOne, apply_retention_rules-union}
use mapache.Retention.Periods.{first_of_period, keep_latest_per_period-first_of_period}
use mapache.Retention.Minimum.{apply_retention_rules-keep_min}
use mapache.Retention.Years.{parse_retention_number, usize_max, yearly_count, ids_to_keep-endless}

-- A count of days or hours in 64 bits, the upper half of them negative, is left out.
abbrev times : ℕ → ℕ → Option ℕ
times unit n = if ltb n (2 ^ 63) then some (n * unit) else none

abbrev minus : ℕ → ℕ → Option ℕ
minus a b = if ltb a b then none else some (a - b)

abbrev test_chrono : Chrono
test_chrono = record {
  DateTime = ℕ;
  NaiveDate = ℕ;
  NaiveDateTime = ℕ;
  Duration = ℕ;
  not_before = λ a b. leb b a;
  sub = minus;
  sub_date = λ d t. minus d (t / 24);
  add_naive = λ t d. some (t + d);
  hours = times 1;
  days = times 24;
  weeks = times 168;
  date_naive = λ t. t / 24;
  day_key = λ d. d;
  year = λ t. t / 8640;
  month = λ t. t / 720 % 12 + 1;
  iso_week = λ t. t / 168 % 52;
  hour = λ t. t % 24;
  date_year = λ d. d / 360;
  date_month = λ d. d / 30 % 12 + 1;
  num_days_from_monday = λ d. d % 7;
  from_ymd_opt = λ y m d. some (y * 360 + (m - 1) * 30 + (d - 1));
  with_year = λ d y. some (y * 360 + d % 360);
  with_month = λ d m. some (d / 360 * 360 + (m - 1) * 30 + d % 30);
  with_day = λ d k. some (d / 30 * 30 + (k - 1));
  and_hms_opt = λ d h m s. some (d * 24 + h);
  earliest = λ t. some t;
  and_utc = λ t. t;
  with_minute = λ t m. some t;
  with_second = λ t s. some t;
}

abbrev taken : ℕ → ℕ → List (List ℕ) → SnapshotEntry test_chrono
taken id timestamp tags = record {
  id = id ∷ [];
  snapshot = record { timestamp = timestamp; tags = tags; hostname = none };
}

-- Two snapshots in year 1, one in year 2, and two in year 3, which it is now.
abbrev snapshots : List (SnapshotEntry test_chrono)
snapshots =
    taken 1 8700 []
    ∷ taken 2 9000 ((5 ∷ []) ∷ [])
    ∷ taken 3 17300 []
    ∷ taken 4 26000 []
    ∷ taken 5 26100 []
    ∷ []

abbrev now : ℕ
now = 26110

abbrev rules : List (RetentionRule test_chrono)
rules = keep_yearly 2 ∷ keep_tags ((5 ∷ []) ∷ []) ∷ []

abbrev kept_ids : List ContentId
kept_ids = (2 ∷ []) ∷ (3 ∷ []) ∷ (5 ∷ []) ∷ []

rules-kept : apply_retention_rules test_chrono [] snapshots now rules none ≡ ok kept_ids
unfolding apply_retention_rules apply_rules ids_to_keep yearly local_start keep_latest_per_period
    keep_periods has_tags ensure_min
rules-kept = refl

rules-min :
    apply_retention_rules test_chrono [] snapshots now rules (some 4) ≡ ok ((4 ∷ []) ∷ kept_ids)
unfolding apply_retention_rules apply_rules ids_to_keep yearly local_start keep_latest_per_period
    keep_periods has_tags ensure_min fill_up
rules-min = refl

apply_retention_rules-union_example :
    (contains kept_ids (3 ∷ []) ≡ true) ↔ KeptByOne test_chrono [] snapshots now rules (3 ∷ [])
apply_retention_rules-union_example =
    apply_retention_rules-union test_chrono [] snapshots now rules kept_ids (3 ∷ []) rules-kept

keep_latest_per_period-first_of_period_example :
    (contains (keep_latest_per_period test_chrono snapshots (λ s. s.timestamp / 8640) 9000) (2 ∷ [])
      ≡ true)
    ↔ ((period : ℕ) × (first_of_period test_chrono
            (λ s. s.timestamp / 8640)
            9000
            period
            (reverse snapshots)
          ≡ some (2 ∷ [])))
keep_latest_per_period-first_of_period_example =
    keep_latest_per_period-first_of_period test_chrono (λ s. s.timestamp / 8640) 9000 snapshots
      (2 ∷ [])

apply_retention_rules-keep_min_example :
    (min 4 5 ≤ 4)
    × (by_rules : List ContentId) × (apply_retention_rules test_chrono [] snapshots now rules none
        ≡ ok by_rules)
    × ((id : ContentId) → contains by_rules id ≡ true → contains ((4 ∷ []) ∷ kept_ids) id ≡ true)
apply_retention_rules-keep_min_example =
    apply_retention_rules-keep_min test_chrono [] snapshots now rules 4 ((4 ∷ []) ∷ kept_ids)
      (refl, (refl, (refl, (refl, (refl, tt))))) rules-min

yearly_count_example : yearly test_chrono now 2 ≡ ok 17280
yearly_count_example =
    yearly_count test_chrono [] now 2 17280 (omega arith) (omega arith) (omega arith)
      (720, 17280, refl, refl, refl)

ids_to_keep-endless_example :
    ids_to_keep test_chrono [] snapshots now (keep_yearly usize_max) ≡ ok []
ids_to_keep-endless_example =
    ids_to_keep-endless test_chrono [] now snapshots 43200 (omega arith)
      (1800, 43200, refl, refl, refl) (refl, (refl, (refl, (refl, (refl, tt)))))

-- "all" is a number like others for the rule.
all_parsed : parse_retention_number (λ s. none) (97 ∷ 108 ∷ 108 ∷ []) ≡ ok usize_max
unfolding parse_retention_number
all_parsed = refl
