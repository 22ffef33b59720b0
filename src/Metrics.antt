-- ===== src/Metrics.antt =====
-- `SlowLog` of src/metrics.ts.
use yasd.Prelude.{
  ℕ, Bool, true, false, not, ◌||◌, Option, none, some, List, [], ◌∷◌, length, take, ltb,
  if◌then◌else◌,
}
use yasd.Text.{Text}
pub mod Refinement

-- The tests on JavaScript's numbers: `x > 0`, `x >= y`, `x < 0` and `Number.isFinite(x)`.
pub record Numbers (D : Type 0) : Type 0 where
  pub is_positive : D → Bool
  pub at_least : D → D → Bool
  pub is_negative : D → Bool
  pub is_finite : D → Bool

pub record SlowEntry (D : Type 0) : Type 0 where
  pub name : Text
  pub duration : D
  pub at : D
  pub argc : Option ℕ

-- The fields of `SlowLog`.
pub record SlowLog (D : Type 0) : Type 0 where
  pub entries : List (SlowEntry D)
  pub threshold : D
  pub cap : ℕ

module _ {D : Type 0} (numbers : Numbers D) where
  -- `validateNonNegativeNumber` of src/validation.ts on a number, and `none` for its exception.
  unfoldable pub validate_non_negative_number : D → Option D
  validate_non_negative_number x =
      if not (numbers.is_finite x) || numbers.is_negative x then none else some x

  unfoldable pub check_slow_threshold : D → Option D
  unfolding validate_non_negative_number
  check_slow_threshold ms = validate_non_negative_number ms

  -- The constructor, on a cap that is a natural number.
  unfoldable pub new_log : Option D → ℕ → Option (SlowLog D)
  new_log none cap = none
  new_log (some ms) cap =
      if ltb 0 cap then some (record { entries = []; threshold = ms; cap = cap }) else none

  -- `setThreshold`: an exception leaves the log as it was.
  unfoldable pub with_threshold : Option D → SlowLog D → SlowLog D
  with_threshold none log = log
  with_threshold (some ms) log = record log { threshold = ms }

  unfoldable pub set_threshold : D → SlowLog D → SlowLog D
  unfolding with_threshold check_slow_threshold
  set_threshold ms log = with_threshold (check_slow_threshold ms) log

  unfoldable pub is_slow : D → D → Bool
  is_slow threshold duration =
      if numbers.is_positive threshold then numbers.at_least duration threshold else false

  -- `if (this.entries.length > this.cap) this.entries.length = this.cap`
  unfoldable pub capped : ℕ → List (SlowEntry D) → List (SlowEntry D)
  capped cap es = if ltb cap (length es) then take cap es else es

  -- `record`, with the answer.
  unfoldable pub record_slow : SlowEntry D → SlowLog D → Bool × SlowLog D
  unfolding is_slow capped
  record_slow e log =
      if is_slow log.threshold e.duration
      then (true, record log { entries = capped log.cap (e ∷ log.entries) })
      else (false, log)

  unfoldable pub clear : SlowLog D → SlowLog D
  clear log = record log { entries = [] }
