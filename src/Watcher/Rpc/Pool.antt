-- ===== src/Watcher/Rpc/Pool.antt =====
-- The provider pool (watcher/rpc/pool.py): one call on one provider with its retries, and the walk
-- over the rotation. The network, the clock, the sleep and the random generator are a `Net`: a world
-- that answers requests and lets time pass. Times are clock ticks. Metrics are not modelled, except
-- that reading the breaker's state for one may promote it.
pub mod Calls
pub mod Sent
pub mod Walk
pub mod Spending
use notchstave.Common.{
  ℕ, zero, suc, ◌+◌, ◌*◌, ◌^◌, min, Bool, true, false, not, ◌&&◌, ◌||◌, Option, none, some, List,
  [], ◌∷◌, ◌==◌, if◌then◌else◌,
}
use notchstave.Watcher.Rpc.Errors.{
  RpcErrorClass, RpcError, is_rate_limited, is_invalid_request, retryable, should_failover,
  should_split_range, counts_as_provider_failure,
}
use notchstave.Watcher.Rpc.Breaker.{
  CircuitBreaker, read_state, allow, record_success, record_failure,
}
use notchstave.Watcher.Rpc.Budget.{RequestBudget, try_spend}

pub data Outcome {ℓ} (A : Type ℓ) : Type ℓ where
  ok : A → Outcome A
  err : RpcError → Outcome A

-- `send provider world` is one request to a provider, answered or failed; `uniform ceiling world`
-- is `rng.uniform(0.0, ceiling)`.
pub record Net (W : Type 0) (A : Type 0) : Type 0 where
  pub clock : W → ℕ
  pub sleep : ℕ → W → W
  pub uniform : ℕ → W → ℕ × W
  pub send : ℕ → W → Outcome A × W

pub record RetryPolicy : Type 0 where
  pub max_attempts_per_provider : ℕ
  pub base_delay_seconds : ℕ
  pub max_delay_seconds : ℕ
  pub rate_limit_delay_multiplier : ℕ

-- `slot.name` is a number; the client is the network.
pub record ProviderSlot : Type 0 where
  pub name : ℕ
  pub breaker : CircuitBreaker
  pub budget : RequestBudget

-- The ceiling that `delay_for` draws under.
unfoldable pub delay_ceiling : RetryPolicy → ℕ → RpcErrorClass → ℕ
delay_ceiling p attempt class =
    let ceiling = min (p.base_delay_seconds * 2 ^ attempt) p.max_delay_seconds in
    if is_rate_limited class
    then min (ceiling * p.rate_limit_delay_multiplier) p.max_delay_seconds
    else ceiling

abbrev pub failure : RpcErrorClass → RpcError
failure c = record { error_class = c; retry_after = none }

module _ {W A : Type 0} (net : Net W A) (policy : RetryPolicy) where
  open net use {clock, sleep, uniform, send}

  unfoldable pub delay_for : ℕ → RpcErrorClass → W → ℕ × W
  unfolding delay_ceiling
  delay_for attempt class w = uniform (delay_ceiling policy attempt class) w

  -- `exc.retry_after or self.retry.delay_for(...)`: an absent or a zero `retry_after` draws a delay.
  unfoldable pub pause : Option ℕ → ℕ → RpcErrorClass → W → W
  unfolding delay_for
  pause (some (suc n)) attempt class w = sleep (suc n) w
  pause _ attempt class w = let (delay, w') = delay_for attempt class w in sleep delay w'

  -- The breaker after an error: the failure is counted if its class counts, and `_record_error`
  -- reads the state.
  unfoldable pub note_error : ℕ → RpcError → CircuitBreaker → CircuitBreaker
  note_error now e b =
      read_state now (if counts_as_provider_failure e then record_failure now now b else b)

  -- After the failed attempt number `attempt`: raise, or pause and go on by `next`.
  unfoldable pub after_error :
      Bool
      → ℕ
      → RpcError
      → (ProviderSlot → W → Outcome A × ProviderSlot × W)
      → ProviderSlot
      → W
      → Outcome A × ProviderSlot × W
  unfolding note_error pause
  after_error last attempt e next slot w =
      let slot' = record slot { breaker = note_error (clock w) e slot.breaker } in
      let again = next slot' (pause e.retry_after attempt e.error_class w) in
      if is_invalid_request e.error_class || should_split_range e
      then (err e, slot', w)
      else if not (retryable e) || last
      then (err e, slot', w)
      else again

  -- The loop of `_call_slot`, with the attempts left, the number of this attempt and the last error.
  unfoldable pub call_attempts :
      ℕ → ℕ → Option RpcError → ProviderSlot → W → Outcome A × ProviderSlot × W
  unfolding after_error
  call_attempts zero attempt none slot w = (err (failure RpcErrorClass.server_error), slot, w)
  call_attempts zero attempt (some e) slot w = (err e, slot, w)
  call_attempts (suc left) attempt last slot w =
      let (budget, spent) = try_spend (clock w) 1 slot.budget in
      let paid = record slot { budget = budget } in
      let (breaker, allowed) = allow (clock w) paid.breaker in
      let asked = record paid { breaker = breaker } in
      let (reply, w') = send asked.name w in
      elim spent [
        | false ↦ (err (failure RpcErrorClass.budget_exhausted), paid, w)
        | true ↦ elim allowed [
          | false ↦ (err (failure RpcErrorClass.circuit_open), asked, w)
          | true ↦ elim reply [
            | ok a ↦ (ok a, record asked { breaker = record_success asked.breaker }, w')
            | err e ↦
                after_error (left == 0) attempt e (call_attempts left (attempt + 1) (some e)) asked
                  w'
          ]
        ]
      ]

  unfoldable pub call_slot : ProviderSlot → W → Outcome A × ProviderSlot × W
  unfolding call_attempts
  call_slot slot w = call_attempts policy.max_attempts_per_provider 0 none slot w

  -- `_run`: walk the rotation until a provider answers, or until an error that ends the walk. The
  -- slots come back in their order; `AllProvidersUnavailable` is the class `no_provider`.
  unfoldable pub run : List ProviderSlot → W → Outcome A × List ProviderSlot × W
  unfolding call_slot
  run [] w = (err (failure RpcErrorClass.no_provider), [], w)
  run (slot ∷ slots) w =
      let (reply, slot', w') = call_slot slot w in
      let (result, slots', w'') = run slots w' in
      elim reply [
        | ok a ↦ (ok a, slot' ∷ slots, w')
        | err e ↦
            if should_failover e then (result, slot' ∷ slots', w'') else (err e, slot' ∷ slots, w')
      ]
