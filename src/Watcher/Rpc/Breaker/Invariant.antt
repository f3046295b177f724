-- ===== src/Watcher/Rpc/Breaker/Invariant.antt =====
-- What holds of a breaker between two calls, in any order of calls and at any times.
use notchstave.Common.{ℕ, ◌≤◌, ◌<◌, ◌≡◌, ◌≢◌, true, arith}
use notchstave.Watcher.Rpc.Breaker.{
  BreakerState, BreakerPolicy, CircuitBreaker, policy_accepted, new, read_state, allow,
  record_success, record_failure,
}

-- A closed breaker has counted fewer failures than the threshold and no trip; a tripped one has
-- counted the threshold; only a half-open one has a trial in flight.
pub record IsValid (b : CircuitBreaker) : Type 0 where
  pub threshold_pos : 1 ≤ b.policy.failure_threshold
  pub closed_below : b.state ≡ BreakerState.closed → b.failures < b.policy.failure_threshold
  pub closed_untripped : b.state ≡ BreakerState.closed → b.trips ≡ 0
  pub tripped_counted : b.state ≢ BreakerState.closed → b.policy.failure_threshold ≤ b.failures
  pub tripped_once : b.state ≢ BreakerState.closed → 1 ≤ b.trips
  pub trial_half_open : b.trial_in_flight ≡ true → b.state ≡ BreakerState.half_open

pub new-IsValid : (p : BreakerPolicy) → policy_accepted p ≡ true → IsValid (new p)
unfolding new policy_accepted
new-IsValid p h = ground arith

pub read_state-IsValid : (now : ℕ) (b : CircuitBreaker) → IsValid b → IsValid (read_state now b)
unfolding read_state
read_state-IsValid now b v = ground arith

pub allow-IsValid : (now : ℕ) (b : CircuitBreaker) → IsValid b → IsValid (allow now b).0
unfolding allow
allow-IsValid now b v = ground arith

pub record_success-IsValid : (b : CircuitBreaker) → IsValid b → IsValid (record_success b)
unfolding record_success
record_success-IsValid b v = ground arith

pub record_failure-IsValid :
    (now later : ℕ) (b : CircuitBreaker) → IsValid b → IsValid (record_failure now later b)
unfolding record_failure
record_failure-IsValid now later b v = ground arith
