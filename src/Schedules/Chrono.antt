-- ===== src/Schedules/Chrono.antt =====
-- The calendar of the chrono crate, which the schedules take as a parameter: a date is its number
-- of days from the common era, `max` the last date that chrono has.
use Prim.Native.String.{String}
use neems_core.Prelude.{ℕ, zero, suc, Option, none, some, ltb, if◌then◌else◌}

pub record Chrono : Type 0 where
  pub max : ℕ
  pub year : ℕ → ℕ
  pub month : ℕ → ℕ
  pub num_days_from_sunday : ℕ → ℕ
  pub from_ymd_opt : ℕ → ℕ → ℕ → Option ℕ
  pub iso : ℕ → String

-- `succ_opt` and `pred_opt`
unfoldable pub succ_opt : Chrono → ℕ → Option ℕ
succ_opt c d = if ltb d c.max then some (suc d) else none

unfoldable pub pred_opt : ℕ → Option ℕ
pred_opt zero = none
pred_opt (suc d) = some d
