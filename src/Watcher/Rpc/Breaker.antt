-- ===== src/Watcher/Rpc/Breaker.antt =====
-- The circuit breaker of one provider (watcher/rpc/breaker.py, `CircuitBreaker`).
-- A time is a number of clock ticks and is an argument; a method that reads the clock twice takes
-- two readings. The backoff factor is a whole number (the source's default is 2.0).
pub mod Invariant
pub mod Trips
pub mod Cooldown
use notchstave.Common.{
  ℕ, suc, ◌+◌, ◌-◌, ◌*◌, ◌^◌, min, Bool, true, false, not, ◌&&◌, leb, ltb, ◌==◌, if◌then◌else◌,
}

-- `open` is the source's `OPEN`.
pub data BreakerState : Type 0 where
  closed opened half_open : BreakerState

pub record BreakerPolicy : Type 0 where
  pub failure_threshold : ℕ
  pub cooldown_seconds : ℕ
  pub cooldown_backoff_factor : ℕ
  pub max_cooldown_seconds : ℕ

-- `__post_init__` raises exactly when this is `false`.
unfoldable pub policy_accepted : BreakerPolicy → Bool
policy_accepted p =
    leb 1 p.failure_threshold && (leb 1 p.cooldown_seconds && leb 1 p.cooldown_backoff_factor)

-- `_state` and the other private fields, without their underscore.
pub record CircuitBreaker : Type 0 where
  pub policy : BreakerPolicy
  pub state : BreakerState
  pub failures : ℕ
  pub trips : ℕ
  pub cooldown_until : ℕ
  pub trial_in_flight : Bool

unfoldable pub new : BreakerPolicy → CircuitBreaker
new p = record {
  policy = p;
  state = BreakerState.closed;
  failures = 0;
  trips = 0;
  cooldown_until = 0;
  trial_in_flight = false;
}

abbrev pub is_open : BreakerState → Bool
is_open BreakerState.opened = true
is_open _ = false

abbrev pub is_half_open : BreakerState → Bool
is_half_open BreakerState.half_open = true
is_half_open _ = false

-- The `state` property: reading it promotes an open breaker whose cooldown has run out.
unfoldable pub read_state : ℕ → CircuitBreaker → CircuitBreaker
read_state now b =
    if is_open b.state && leb b.cooldown_until now
    then record b { state = BreakerState.half_open; trial_in_flight = false }
    else b

-- The branches of `allow` on the state that was read.
allow_in : BreakerState → CircuitBreaker → CircuitBreaker × Bool
allow_in BreakerState.closed b = (b, true)
allow_in BreakerState.opened b = (b, false)
allow_in BreakerState.half_open b =
    if b.trial_in_flight then (b, false) else (record b { trial_in_flight = true }, true)

unfoldable pub allow : ℕ → CircuitBreaker → CircuitBreaker × Bool
unfolding read_state allow_in
allow now b = let b' = read_state now b in allow_in b'.state b'

unfoldable pub record_success : CircuitBreaker → CircuitBreaker
record_success b = record b {
  state = BreakerState.closed;
  failures = 0;
  trips = 0;
  cooldown_until = 0;
  trial_in_flight = false;
}

-- The cooldown of trip number `trips`.
unfoldable pub cooldown : BreakerPolicy → ℕ → ℕ
cooldown p trips =
    min (p.cooldown_seconds * p.cooldown_backoff_factor ^ (trips - 1)) p.max_cooldown_seconds

-- `now` is the clock as the state is read, and `later` as the cooldown is set.
unfoldable pub record_failure : ℕ → ℕ → CircuitBreaker → CircuitBreaker
unfolding read_state
record_failure now later b =
    let b' = read_state now b in
    let counted = record b' { failures = b'.failures + 1; trial_in_flight = false } in
    if not (is_half_open b'.state) && ltb counted.failures counted.policy.failure_threshold
    then record counted { state = BreakerState.closed }
    else record counted {
      trips = counted.trips + 1;
      state = BreakerState.opened;
      cooldown_until = later + cooldown counted.policy (counted.trips + 1);
    }

unfoldable pub reset : CircuitBreaker → CircuitBreaker
unfolding record_success
reset b = record_success b

-- `cooldown_remaining`.
unfoldable pub cooldown_remaining : ℕ → CircuitBreaker → ℕ
cooldown_remaining now b = b.cooldown_until - now
