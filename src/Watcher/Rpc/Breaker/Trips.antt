-- ===== src/Watcher/Rpc/Breaker/Trips.antt =====
-- Runs of calls on a breaker: failures in a row, and requests for a permit with no result recorded.
use notchstave.Common.{
  ℕ, ◌+◌, ◌≤◌, ◌<◌, ◌≡◌, refl, ◌≢◌, ◌↔◌, true, false, List, [], ◌∷◌, arith, if◌then◌else◌, length,
  inl, inr, ◌⊎◌, ap, ◌∙◌,
}
use native.Mathlib.Decide.{dec_lt}
use native.Mathlib.Nat.{zero-add}
use notchstave.Watcher.Rpc.Breaker.{
  BreakerState, BreakerPolicy, CircuitBreaker, policy_accepted, new, read_state, allow,
  record_success, record_failure, reset, cooldown,
}
use notchstave.Watcher.Rpc.Breaker.Invariant.{
  IsValid, new-IsValid, read_state-IsValid, allow-IsValid, record_success-IsValid,
  record_failure-IsValid,
}

-- A call on the breaker, with its readings of the clock.
pub data Call : Type 0 where
  reads asks : ℕ → Call
  succeeds resets : Call
  fails : ℕ → ℕ → Call

pub step : CircuitBreaker → Call → CircuitBreaker
step b (reads now) = read_state now b
step b (asks now) = (allow now b).0
step b succeeds = record_success b
step b resets = reset b
step b (fails now later) = record_failure now later b

pub run : CircuitBreaker → List Call → CircuitBreaker
run b [] = b
run b (c ∷ cs) = run (step b c) cs

step-IsValid : (b : CircuitBreaker) (c : Call) → IsValid b → IsValid (step b c)
unfolding step reset
step-IsValid b (reads now) v = read_state-IsValid now b v
step-IsValid b (asks now) v = allow-IsValid now b v
step-IsValid b succeeds v = record_success-IsValid b v
step-IsValid b resets v = record_success-IsValid b v
step-IsValid b (fails now later) v = record_failure-IsValid now later b v

run_from-IsValid : (b : CircuitBreaker) (cs : List Call) → IsValid b → IsValid (run b cs)
unfolding run
run_from-IsValid b [] v = v
run_from-IsValid b (c ∷ cs) v = run_from-IsValid (step b c) cs (step-IsValid b c v)

-- From a new breaker under an accepted policy, any calls at any times lead to a valid breaker.
pub run-IsValid :
    (p : BreakerPolicy) (cs : List Call) → policy_accepted p ≡ true → IsValid (run (new p) cs)
run-IsValid p cs h = run_from-IsValid (new p) cs (new-IsValid p h)

-- A failure leaves a valid breaker closed exactly when it was closed and the count stays below the
-- threshold; otherwise it opens it, for the cooldown of its next trip.
pub record_failure_outcome :
    (now later : ℕ) (b : CircuitBreaker)
    → IsValid b
    → (((record_failure now later b).state ≡ BreakerState.closed)
        ↔ ((b.state ≡ BreakerState.closed) × (b.failures + 1 < b.policy.failure_threshold)))
      × ((record_failure now later b).state ≢ BreakerState.closed
          → ((record_failure now later b).state ≡ BreakerState.opened)
            × ((record_failure now later b).trips ≡ b.trips + 1)
            × ((record_failure now later b).cooldown_until
                ≡ later + cooldown b.policy (b.trips + 1)))
unfolding record_failure
record_failure_outcome now later b v = ground arith

pub fail_all : List (ℕ × ℕ) → CircuitBreaker → CircuitBreaker
fail_all [] b = b
fail_all ((now, later) ∷ ts) b = fail_all ts (record_failure now later b)

record_failure-closed :
    (now later : ℕ) (b : CircuitBreaker)
    → IsValid b
    → b.state ≡ BreakerState.closed
    → b.failures + 1 < b.policy.failure_threshold
    → let c = record_failure now later b in
      (c.state ≡ BreakerState.closed) × (c.failures ≡ b.failures + 1) × (c.policy ≡ b.policy)
unfolding record_failure
record_failure-closed now later b v e h = ground arith

fail_all-tripped :
    (ts : List (ℕ × ℕ)) (b : CircuitBreaker)
    → IsValid b
    → b.state ≢ BreakerState.closed
    → (fail_all ts b).state ≢ BreakerState.closed
unfolding fail_all
fail_all-tripped [] b v h = h
fail_all-tripped ((now, later) ∷ ts) b v h =
    fail_all-tripped ts (record_failure now later b) (record_failure-IsValid now later b v)
      (λ e. h ((record_failure_outcome now later b v).0.0 e).0)

-- A valid closed breaker stays closed over consecutive failures exactly while their number, with
-- those counted before, is below the threshold, whatever the times of the failures.
pub fail_all-closed_iff :
    (ts : List (ℕ × ℕ)) (b : CircuitBreaker)
    → IsValid b
    → b.state ≡ BreakerState.closed
    → ((fail_all ts b).state ≡ BreakerState.closed)
      ↔ (b.failures + length ts < b.policy.failure_threshold)
unfolding fail_all
fail_all-closed_iff [] b v e = (λ _. omega (arith, v.closed_below e), λ _. e)
fail_all-closed_iff ((now, later) ∷ ts) b v e =
    elim (dec_lt (b.failures + 1) b.policy.failure_threshold) [
      | yes low ↦
          let c = record_failure now later b in
          let kept = record_failure-closed now later b v e low in
          let rest = fail_all-closed_iff ts c (record_failure-IsValid now later b v) kept.0 in
          (
            λ h.
                omega
                  (arith, rest.0 h, kept.1, ap (λ (p : BreakerPolicy). p.failure_threshold) kept.2),
            λ h.
                rest.1
                  (omega (arith, kept.1, ap (λ (p : BreakerPolicy). p.failure_threshold) kept.2)),
          )
      | no high ↦ (
        λ h. absurd (
            fail_all-tripped ts (record_failure now later b) (record_failure-IsValid now later b v)
              (λ k. high ((record_failure_outcome now later b v).0.0 k).1) h),
        λ h. absurd (omega arith),
      )
    ]

-- How many permits consecutive requests get, with no result recorded between them.
pub permits : List ℕ → CircuitBreaker → ℕ
permits [] b = 0
permits (now ∷ ts) b = let (c, granted) = allow now b in (if granted then 1 else 0) + permits ts c

-- The trial of a half-open breaker has been handed out, and its result is not recorded.
abbrev pub IsWaiting : CircuitBreaker → Type 0
IsWaiting b = (b.state ≡ BreakerState.half_open) × (b.trial_in_flight ≡ true)

pub allow-waiting : (now : ℕ) (b : CircuitBreaker) → IsWaiting b → allow now b ≡ (b, false)
unfolding allow
allow-waiting now b w = ground arith

permits-waiting : (ts : List ℕ) (b : CircuitBreaker) → IsWaiting b → permits ts b ≡ 0
unfolding permits
permits-waiting [] b w = refl
permits-waiting (now ∷ ts) b w = rw (allow-waiting now b w) (zero-add _ ∙ permits-waiting ts b w)

allow-tripped :
    (now : ℕ) (b : CircuitBreaker)
    → IsValid b
    → b.state ≢ BreakerState.closed
    → (((allow now b).1 ≡ true) × IsWaiting (allow now b).0)
      ⊎ (((allow now b).1 ≡ false) × ((allow now b).0.state ≢ BreakerState.closed))
unfolding allow
allow-tripped now b v h = ground arith

-- A valid tripped breaker hands out at most one permit until a result is recorded, however often
-- and whenever it is asked.
pub permits-le-one :
    (ts : List ℕ) (b : CircuitBreaker)
    → IsValid b
    → b.state ≢ BreakerState.closed
    → permits ts b ≤ 1
unfolding permits
permits-le-one [] b v h = omega arith
permits-le-one (now ∷ ts) b v h = elim (allow-tripped now b v h) [
  | inl (granted, w) ↦ rw granted (omega (arith, permits-waiting ts (allow now b).0 w))
  | inr (refused, h') ↦
      rw refused (omega (arith, permits-le-one ts (allow now b).0 (allow-IsValid now b v) h'))
]

-- Requests that all come before a deadline.
abbrev pub AllBefore : ℕ → List ℕ → Type 0
AllBefore t [] = Unit
AllBefore t (now ∷ ts) = (now < t) × AllBefore t ts

allow-cooling :
    (now : ℕ) (b : CircuitBreaker)
    → b.state ≡ BreakerState.opened
    → now < b.cooldown_until
    → allow now b ≡ (b, false)
unfolding allow
allow-cooling now b e h = ground arith

permits-cooling :
    (ts : List ℕ) (b : CircuitBreaker)
    → b.state ≡ BreakerState.opened
    → AllBefore b.cooldown_until ts
    → permits ts b ≡ 0
unfolding permits
permits-cooling [] b e h = refl
permits-cooling (now ∷ ts) b e h =
    rw (allow-cooling now b e h.0) (zero-add _ ∙ permits-cooling ts b e h.1)

pub allow-cooled :
    (now : ℕ) (b : CircuitBreaker)
    → b.state ≡ BreakerState.opened
    → b.cooldown_until ≤ now
    → ((allow now b).1 ≡ true) × IsWaiting (allow now b).0
unfolding allow
allow-cooled now b e h = ground arith

-- After a failure that trips a valid breaker, requests within the cooldown of that trip get no
-- permit; the first request after it gets one, and no later one does until a result is recorded.
pub trip_cycle :
    (now later : ℕ) (b : CircuitBreaker) (early : List ℕ) (t : ℕ) (others : List ℕ)
    → IsValid b
    → (record_failure now later b).state ≢ BreakerState.closed
    → AllBefore (later + cooldown b.policy (b.trips + 1)) early
    → later + cooldown b.policy (b.trips + 1) ≤ t
    → (permits early (record_failure now later b) ≡ 0)
      × (permits (t ∷ others) (record_failure now later b) ≡ 1)
unfolding permits
trip_cycle now later b early t others v tripped he ht =
    let c = record_failure now later b in
    let (opened, _, until) = (record_failure_outcome now later b v).1 tripped in
    let cooled = allow-cooled t c opened (omega (arith, until)) in
    (
      permits-cooling early c opened (rw until he),
      rw (cooled.0) (omega (arith, permits-waiting others (allow t c).0 cooled.1)),
    )
