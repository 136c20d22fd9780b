-- ===== src/Backoff.antt =====
-- internal/platform/backoff/backoff.go. A duration is a count of nanoseconds; `double64` and
-- `half_ℤ` are Go's operations on an int64. Multiplying a duration by a random factor in floating
-- point and converting back is the parameter `jittered`.
pub mod Laws
use outboxexpress.Common.{ℕ, zero, suc, if◌then◌else◌}
use outboxexpress.Common.Int.{ℤ, min_ℤ, leb_ℤ, half_ℤ, double64}

pub record Exponential : Type 0 where
  pub base : ℤ
  pub cap : ℤ
  -- time.Duration(float64(delay) * e.Jitter())
  pub jittered : ℤ → ℤ

-- The loop of After with `attempts` rounds left.
unfoldable pub grow : ℤ → ℕ → ℤ → ℤ
grow cap zero delay = delay
grow cap (suc attempts) delay =
    let longer = grow cap attempts (double64 delay) in
    if leb_ℤ (half_ℤ cap) delay then cap else longer

-- The delay before the jitter.
unfoldable pub delay_after : Exponential → ℕ → ℤ
unfolding grow
delay_after e attempts = grow e.cap attempts (min_ℤ e.base e.cap)

unfoldable pub after : Exponential → ℕ → ℤ
unfolding delay_after
after e attempts = e.jittered (delay_after e attempts)
