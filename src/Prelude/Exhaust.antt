-- ===== src/Prelude/Exhaust.antt =====
-- A test of all numbers below a bound, by computation.
use Prim.Native.Nat.{ℕ, zero, suc, ◌<◌}
use mathlib.Core.Path.{◌≡◌, sym, ap, subst, ◌∙◌}
use mathlib.Core.Logic.{inl, inr}
use mathlib.Core.Bool.{Bool, true, false}
use native.Mathlib.Omega.{arith}
use mapache.Prelude.Tests.{◌==◌, ==_iff, if◌then◌else◌, Bool-cases}
use mapache.Prelude.Sets.{true-ne-false}
use mapache.Prelude.Failure.{Result, ok, err}

-- Whether a number was read, and is this one.
abbrev pub reads_as : Result ℕ → ℕ → Bool
reads_as (ok v) b = v == b
reads_as (err x) b = false

pub reads_as_sound : (r : Result ℕ) (b : ℕ) → reads_as r b ≡ true → r ≡ ok b
reads_as_sound (ok v) b h = ap ok ((==_iff v b).0 h)
reads_as_sound (err x) b h = absurd (true-ne-false (sym h))

abbrev pub holds_below : (ℕ → Bool) → ℕ → Bool
holds_below test zero = true
holds_below test (suc n) = if test n then holds_below test n else false

pub holds_at : (test : ℕ → Bool) (n b : ℕ) → holds_below test n ≡ true → b < n → test b ≡ true
holds_at test zero b h low = absurd (omega arith)
holds_at test (suc n) b h low = elim (Bool-cases (test n)) [
  | inr fails ↦
      absurd (
        true-ne-false (sym (subst (λ t. (if t then holds_below test n else false) ≡ true) fails h)))
  | inl holds ↦
      let others = subst (λ t. (if t then holds_below test n else false) ≡ true) holds h in
      elim (Bool-cases (b == n)) [
        | inl last ↦ ap test ((==_iff b n).0 last) ∙ holds
        | inr before ↦ holds_at test n b others (ground arith)
      ]
]
