-- ===== src/Platform/Clock.antt =====
-- Instants, the `DateTime<Utc>` of the chrono crate: ordered, moved by a number of seconds.
use neems_core.Prelude.{Bool, true, false, ◌≡◌}
use neems_core.Prelude.Int.{ℤ}

pub record Clock : Type 1 where
  pub Time : Type 0
  -- `a < b` and `t + Duration::seconds(n)`
  pub before : Time → Time → Bool
  pub plus_seconds : Time → ℤ → Time

-- What is relied on: the order of instants is strict.
pub record IsOrdered (clock : Clock) : Type 0 where
  pub before_irrefl : (a : clock.Time) → clock.before a a ≡ false
  pub before_trans :
      (a b c : clock.Time)
      → clock.before a b ≡ true
      → clock.before b c ≡ true
      → clock.before a c ≡ true
