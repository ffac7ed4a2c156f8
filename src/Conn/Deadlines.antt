-- ===== src/Conn/Deadlines.antt =====
-- The bounds of `partialDeadline` of net/conn.go.
use mc_afk_go.Base.{ℕ, ◌+◌, ◌-◌, ◌/◌, ◌≤◌, ◌<◌, ◌≡◌, arith, min}
use mc_afk_go.Base.{zero, suc}
use native.Mathlib.Nat.{div-le_self}
use mc_afk_go.Conn.{sane_minimum, max_duration, partial_timeout, until, partial_deadline}

-- A share of the time that remains: some of it, two seconds at least if there are so many.
partial_timeout-bounds :
    (remaining addrs : ℕ)
    → 0 < remaining
    → let t = partial_timeout remaining (suc addrs) in
      (0 < t) × (t ≤ remaining) × (min remaining sane_minimum ≤ t)
unfolding partial_timeout
partial_timeout-bounds remaining addrs h = ground (arith, share)
  where
    share : remaining / suc addrs ≤ remaining
    share = div-le_self remaining (suc addrs)

-- Before the deadline, and with an address left, partialDeadline returns a time later than now
-- and not later than the deadline, that leaves two seconds at least where so much remains.
pub partial_deadline-bounds :
    (now deadline addrs : ℕ)
    → now < deadline
    → 0 < addrs
    → (t : ℕ) × (partial_deadline now deadline addrs ≡ until t)
      × (now < t)
      × (t ≤ deadline)
      × (min (deadline - now) sane_minimum ≤ t - now)
unfolding partial_deadline
partial_deadline-bounds now deadline zero h k = absurd (omega arith)
partial_deadline-bounds now deadline (suc addrs) h k =
    let b = partial_timeout-bounds (min (deadline - now) max_duration) addrs (omega arith) in
    (
      now + partial_timeout (min (deadline - now) max_duration) (suc addrs),
      ground arith,
      omega (arith, b),
      omega (arith, b),
      omega (arith, b),
    )
