-- ===== src/Retention/Cutoff.antt =====
-- crates/mapache/src/repository/retention.rs: the cutoffs of the periodic rules in
-- `apply_retention_rules`, over the operations of the crate `chrono`.
use mapache.Prelude.{
  ℕ, zero, suc, ◌+◌, ◌-◌, ◌%◌, ◌^◌, Bool, Option, none, some, Result, ok, err, ◌>>=◌, panicked,
  ◌==◌, if◌then◌else◌,
}

-- What the code calls of `chrono`. An `i32` or an `i64` is given by its bits. `none` stands for `None`
-- and for the panic of an operation that leaves its range. `day_key` tells dates apart.
pub record Chrono : Type 1 where
  pub DateTime : Type 0
  pub NaiveDate : Type 0
  pub NaiveDateTime : Type 0
  pub Duration : Type 0
  pub not_before : DateTime → DateTime → Bool
  pub sub : DateTime → Duration → Option DateTime
  pub sub_date : NaiveDate → Duration → Option NaiveDate
  pub add_naive : NaiveDateTime → Duration → Option NaiveDateTime
  pub hours : ℕ → Option Duration
  pub days : ℕ → Option Duration
  pub weeks : ℕ → Option Duration
  pub date_naive : DateTime → NaiveDate
  pub day_key : NaiveDate → ℕ
  pub year : DateTime → ℕ
  pub month : DateTime → ℕ
  pub iso_week : DateTime → ℕ
  pub hour : DateTime → ℕ
  pub date_year : NaiveDate → ℕ
  pub date_month : NaiveDate → ℕ
  pub num_days_from_monday : NaiveDate → ℕ
  pub from_ymd_opt : ℕ → ℕ → ℕ → Option NaiveDate
  pub with_year : NaiveDate → ℕ → Option NaiveDate
  pub with_month : NaiveDate → ℕ → Option NaiveDate
  pub with_day : NaiveDate → ℕ → Option NaiveDate
  pub and_hms_opt : NaiveDate → ℕ → ℕ → ℕ → Option NaiveDateTime
  -- `timezone.from_local_datetime(t).earliest()`
  pub earliest : NaiveDateTime → Option DateTime
  -- `t.and_utc().with_timezone(&timezone)`
  pub and_utc : NaiveDateTime → DateTime
  pub with_minute : DateTime → ℕ → Option DateTime
  pub with_second : DateTime → ℕ → Option DateTime

abbrev pub or_panic : {A : Type 0} → Option A → Result A
or_panic none = err panicked
or_panic (some a) = ok a

-- `*n - 1` on `usize`, as it wraps in a release build.
abbrev pub pred_usize : ℕ → ℕ
pred_usize n = (n + (2 ^ 64 - 1)) % 2 ^ 64

-- `a - b` on `i32`.
abbrev pub sub_i32 : ℕ → ℕ → ℕ
sub_i32 a b = (a + 2 ^ 32 - b % 2 ^ 32) % 2 ^ 32

module _ (c : Chrono) where
  open c use {
    DateTime, NaiveDate, NaiveDateTime, sub, sub_date, add_naive, hours, days, weeks, date_naive,
    year, date_year, date_month, num_days_from_monday, from_ymd_opt, with_year, with_month,
    with_day, and_hms_opt, earliest, and_utc, with_minute, with_second,
  }

  abbrev unwrap_or : Option DateTime → DateTime → DateTime
  unwrap_or none d = d
  unwrap_or (some t) d = t

  -- The local time, one hour later where the clock skips it, and the time in UTC where that fails too.
  unfoldable pub local_start : NaiveDateTime → Result DateTime
  local_start naive_datetime = elim (earliest naive_datetime) [
    | some t ↦ ok t
    | none ↦ do
      hour_later ← or_panic (hours 1)
      later ← or_panic (add_naive naive_datetime hour_later)
      ok (unwrap_or (earliest later) (and_utc naive_datetime))
  ]

  -- `match … { Some(naive) => …, None => now }`
  abbrev or_now : DateTime → Option NaiveDateTime → Result DateTime
  or_now now none = ok now
  or_now now (some t) = local_start t

  abbrev midnight : Option NaiveDate → Option NaiveDateTime
  midnight none = none
  midnight (some d) = and_hms_opt d 0 0 0

  unfoldable pub yearly : DateTime → ℕ → Result DateTime
  yearly now n =
      let target_year = sub_i32 (year now) (pred_usize n) in
      or_now now (midnight (from_ymd_opt target_year 1 1))

  abbrev month_before : NaiveDate → Option NaiveDate
  month_before d =
      if date_month d == 1
      then elim (with_year d (sub_i32 (date_year d) 1)) [ none ↦ none | some d' ↦ with_month d' 12 ]
      else with_month d (date_month d - 1)

  abbrev months_before : ℕ → Option NaiveDate → Option NaiveDate
  months_before zero d = d
  months_before (suc n) none = none
  months_before (suc n) (some d) = months_before n (month_before d)

  -- The loop `for _ in 1..*n` has `n - 1` rounds, and none for 0.
  unfoldable pub monthly : DateTime → ℕ → Result DateTime
  monthly now n = or_now now (midnight (months_before (n - 1) (with_day (date_naive now) 1)))

  unfoldable pub weekly : DateTime → ℕ → Result DateTime
  weekly now n = do
    since_monday ← or_panic (days (num_days_from_monday (date_naive now)))
    current_monday_date ← or_panic (sub_date (date_naive now) since_monday)
    back ← or_panic (weeks (pred_usize n))
    target_monday_date ← or_panic (sub_date current_monday_date back)
    or_now now (and_hms_opt target_monday_date 0 0 0)

  unfoldable pub daily : DateTime → ℕ → Result DateTime
  daily now n = elim (and_hms_opt (date_naive now) 0 0 0) [
    | none ↦ ok now
    | some naive_midnight ↦ do
      now_midnight ← local_start naive_midnight
      back ← or_panic (days (pred_usize n))
      or_panic (sub now_midnight back)
  ]

  abbrev truncated : DateTime → DateTime
  truncated now = elim (with_minute now 0) [ none ↦ now | some d ↦ unwrap_or (with_second d 0) now ]

  unfoldable pub hourly : DateTime → ℕ → Result DateTime
  hourly now n = do back ← or_panic (hours (pred_usize n)); or_panic (sub (truncated now) back)
