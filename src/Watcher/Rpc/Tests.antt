-- ===== src/Watcher/Rpc/Tests.antt =====
-- Runs of the provider access (watcher/rpc/) on concrete breakers, budgets and networks.
use notchstave.Common.{ℕ, ◌+◌, ◌≡◌, ◌≢◌, refl, true, some, List, [], ◌∷◌, arith}
use notchstave.Watcher.Rpc.Errors.{RpcErrorClass, RpcError}
use notchstave.Watcher.Rpc.Breaker.{
  BreakerState, BreakerPolicy, CircuitBreaker, policy_accepted, new, record_failure, cooldown,
}
use notchstave.Watcher.Rpc.Breaker.Invariant.{IsValid, new-IsValid, record_failure-IsValid}
use notchstave.Watcher.Rpc.Breaker.Trips.{permits, trip_cycle}
use notchstave.Watcher.Rpc.Budget.{RequestBudget}

abbrev breaker_policy : BreakerPolicy
breaker_policy = record {
  failure_threshold = 2;
  cooldown_seconds = 10;
  cooldown_backoff_factor = 2;
  max_cooldown_seconds = 60;
}

accepted : policy_accepted breaker_policy ≡ true
unfolding policy_accepted
accepted = refl

-- A breaker after one failure, and after the second, which trips it.
abbrev struck : CircuitBreaker
struck = record_failure 5 5 (new breaker_policy)

abbrev tripped : CircuitBreaker
tripped = record_failure 6 7 struck

new_breaker-IsValid : IsValid (new breaker_policy)
new_breaker-IsValid = new-IsValid breaker_policy accepted

struck-IsValid : IsValid struck
struck-IsValid = record_failure-IsValid 5 5 (new breaker_policy) new_breaker-IsValid

struck-closed : struck.state ≡ BreakerState.closed
unfolding record_failure new
struck-closed = refl

tripped-opened : tripped.state ≡ BreakerState.opened
unfolding record_failure new
tripped-opened = refl

tripped-not_closed : tripped.state ≢ BreakerState.closed
tripped-not_closed = rw tripped-opened (λ e. cc)

first_cooldown : cooldown struck.policy (struck.trips + 1) ≡ 10
unfolding record_failure new cooldown
first_cooldown = refl

trip_cycle_example : (permits (8 ∷ 16 ∷ []) tripped ≡ 0) × (permits (17 ∷ 18 ∷ []) tripped ≡ 1)
trip_cycle_example =
    trip_cycle 6 7 struck (8 ∷ 16 ∷ []) 17 (18 ∷ []) struck-IsValid tripped-not_closed
      (rw first_cooldown (omega arith, (omega arith, tt))) (rw first_cooldown (omega arith))

abbrev one_failure : List (ℕ × ℕ)
one_failure = (6, 7) ∷ []

abbrev budget : RequestBudget
budget = record { limit = some 3; window_seconds = 10; window_start = 0; spent = 1; total = 1 }

abbrev throttled : RpcError
throttled = record { error_class = RpcErrorClass.rate_limited; retry_after = some 7 }

abbrev forbidden : ℕ
forbidden = 403
