-- ===== src/Watcher/Rpc/Pool/Calls.antt =====
-- One call on one provider (`_call_slot` of watcher/rpc/pool.py): its cases, and when it wedges.
use notchstave.Common.{
  ℕ, zero, suc, ◌+◌, ◌≤◌, ◌≡◌, refl, ◌⊎◌, inl, inr, Bool, true, false, ◌||◌, Option, none, some,
  arith, ◌==◌, Bool-cases, ap,
}
use notchstave.Watcher.Rpc.Errors.{
  RpcErrorClass, RpcError, is_invalid_request, retryable, should_split_range,
  counts_as_provider_failure,
}
use notchstave.Watcher.Rpc.Breaker.{BreakerState, CircuitBreaker, read_state, allow, record_success}
use notchstave.Watcher.Rpc.Breaker.Trips.{IsWaiting, allow-waiting, allow-cooled}
use notchstave.Watcher.Rpc.Budget.{try_spend}
use notchstave.Watcher.Rpc.Pool.{
  Outcome, ok, err, Net, RetryPolicy, ProviderSlot, failure, pause, note_error, after_error,
  call_attempts, call_slot,
}

module _ {W A : Type 0} (net : Net W A) (policy : RetryPolicy) where
  open net use {clock, sleep, uniform, send}

  after_error_cases {ℓ} :
      (P : Outcome A × ProviderSlot × W → Type ℓ) (last : Bool) (attempt : ℕ) (e : RpcError)
      (next : ProviderSlot → W → Outcome A × ProviderSlot × W) (slot : ProviderSlot) (w : W)
      → let slot' = record slot { breaker = note_error net policy (clock w) e slot.breaker } in
        P (err e, slot', w)
        → (retryable e ≡ true
            → P (next slot' (pause net policy e.retry_after attempt e.error_class w)))
        → P (after_error net policy last attempt e next slot w)
  unfolding after_error
  after_error_cases P last attempt e next slot w raised again =
      elim (Bool-cases (is_invalid_request e.error_class || should_split_range e)) [
        | inl a ↦ rw a raised
        | inr a ↦ elim (Bool-cases (retryable e)) [
          | inl r ↦ elim (Bool-cases last) [
            | inl l ↦ rw (a, r, l) raised
            | inr l ↦ rw (a, r, l) (again r)
          ]
          | inr r ↦ rw (a, r) raised
        ]
      ]

  -- The slot once the budget has been asked, and once the breaker has.
  abbrev pub paid : ProviderSlot → W → ProviderSlot
  paid slot w = record slot { budget = (try_spend (clock w) 1 slot.budget).0 }

  abbrev pub asked : ProviderSlot → W → ProviderSlot
  asked slot w = record (paid slot w) { breaker = (allow (clock w) slot.breaker).0 }

  Outcome-cases : (o : Outcome A) → ((a : A) × (o ≡ ok a)) ⊎ ((e : RpcError) × (o ≡ err e))
  Outcome-cases (ok a) = inl (a, refl)
  Outcome-cases (err e) = inr (e, refl)

  -- The world once the provider has been asked, and the slot once its error is noted.
  abbrev pub replied : ProviderSlot → W → W
  replied slot w = (send slot.name w).1

  abbrev pub noted : RpcError → ProviderSlot → W → ProviderSlot
  noted e slot w = record (asked slot w) {
    breaker = note_error net policy (clock (replied slot w)) e (asked slot w).breaker;
  }

  -- The five ways in which an attempt goes on.
  pub call_cases {ℓ} :
      (P : Outcome A × ProviderSlot × W → Type ℓ) (left attempt : ℕ) (last : Option RpcError)
      (slot : ProviderSlot) (w : W)
      → ((try_spend (clock w) 1 slot.budget).1 ≡ false
          → P (err (failure RpcErrorClass.budget_exhausted), paid slot w, w))
      → ((allow (clock w) slot.breaker).1 ≡ false
          → P (err (failure RpcErrorClass.circuit_open), asked slot w, w))
      → ((a : A)
          → (send slot.name w).0 ≡ ok a
          → P (
            ok a,
            record (asked slot w) { breaker = record_success (asked slot w).breaker },
            replied slot w,
          ))
      → ((e : RpcError) → (send slot.name w).0 ≡ err e → P (err e, noted e slot w, replied slot w))
      → ((e : RpcError)
          → (send slot.name w).0 ≡ err e
          → retryable e ≡ true
          → P (
              call_attempts net policy left
                (attempt + 1)
                (some e)
                (noted e slot w)
                (pause net policy e.retry_after attempt e.error_class (replied slot w))))
      → P (call_attempts net policy (suc left) attempt last slot w)
  unfolding call_attempts
  call_cases P left attempt last slot w no_budget no_permit answered raised again =
      elim (Bool-cases (try_spend (clock w) 1 slot.budget).1) [
        | inr s ↦ rw (s, call_attempts) (no_budget s)
        | inl s ↦ elim (Bool-cases (allow (clock w) slot.breaker).1) [
          | inr g ↦ rw (s, g, call_attempts) (no_permit g)
          | inl g ↦ elim (Outcome-cases (send slot.name w).0) [
            | inl (a, r) ↦ rw (s, g, r, call_attempts) (answered a r)
            | inr (e, r) ↦
                rw (s, g, r, call_attempts)
                  (after_error_cases P (left == 0) attempt e
                    (call_attempts net policy left (attempt + 1) (some e)) (asked slot w)
                    (replied slot w) (raised e r) (again e r))
          ]
        ]
      ]

  -- A slot whose breaker waits for the result of its trial.
  call_attempts-waiting :
      (left attempt : ℕ) (last : Option RpcError) (slot : ProviderSlot) (w : W)
      → IsWaiting slot.breaker
      → let r = call_attempts net policy (suc left) attempt last slot w in
        ((r.0 ≡ err (failure RpcErrorClass.circuit_open))
          ⊎ (r.0 ≡ err (failure RpcErrorClass.budget_exhausted)))
        × (r.1.breaker ≡ slot.breaker)
        × (r.2 ≡ w)
  unfolding call_attempts
  call_attempts-waiting left attempt last slot w h =
      elim (Bool-cases (try_spend (clock w) 1 slot.budget).1) [
        | inr s ↦ rw (s, call_attempts) (inr refl, refl, refl)
        | inl s ↦
            let refused = allow-waiting (clock w) slot.breaker h in
            rw (s, ap (λ (p : CircuitBreaker × Bool). p.1) refused, call_attempts)
              (inl refl, ap (λ (p : CircuitBreaker × Bool). p.0) refused, refl)
      ]

  note_error-IsWaiting :
      (now : ℕ) (e : RpcError) (b : CircuitBreaker)
      → is_invalid_request e.error_class || should_split_range e ≡ true
      → IsWaiting b
      → IsWaiting (note_error net policy now e b)
  unfolding note_error read_state should_split_range counts_as_provider_failure
  note_error-IsWaiting now e b a h = ground arith

  call_attempts-leak :
      (n attempt : ℕ) (last : Option RpcError) (slot : ProviderSlot) (w : W) (e : RpcError)
      → 1 ≤ n
      → (try_spend (clock w) 1 slot.budget).1 ≡ true
      → (allow (clock w) slot.breaker).1 ≡ true
      → (send slot.name w).0 ≡ err e
      → is_invalid_request e.error_class || should_split_range e ≡ true
      → call_attempts net policy n attempt last slot w ≡ (err e, noted e slot w, replied slot w)
  call_attempts-leak zero attempt last slot w e pos s g r a = absurd (omega arith)
  call_attempts-leak (suc left) attempt last slot w e pos s g r a =
      unfold call_attempts after_error in rw (s, g, r, call_attempts) (rw a refl)

  call_refused :
      (n attempt : ℕ) (last : Option RpcError) (slot : ProviderSlot) (w : W)
      → 1 ≤ n
      → IsWaiting slot.breaker
      → let r = call_attempts net policy n attempt last slot w in
        ((r.0 ≡ err (failure RpcErrorClass.circuit_open))
          ⊎ (r.0 ≡ err (failure RpcErrorClass.budget_exhausted)))
        × (r.1.breaker ≡ slot.breaker)
        × (r.2 ≡ w)
  call_refused zero attempt last slot w pos h = absurd (omega arith)
  call_refused (suc left) attempt last slot w pos h =
      call_attempts-waiting left attempt last slot w h

  -- When the trial request of a cooled-down breaker is answered by an error of class
  -- `invalid_request` or `range_too_large`, the call returns that error and leaves the trial permit
  -- taken: a further call, at whatever time, sends nothing, is refused, and leaves the breaker so.
  pub trial_permit_leak :
      (slot : ProviderSlot) (w : W) (e : RpcError) (later : W)
      → 1 ≤ policy.max_attempts_per_provider
      → slot.breaker.state ≡ BreakerState.opened
      → slot.breaker.cooldown_until ≤ clock w
      → (try_spend (clock w) 1 slot.budget).1 ≡ true
      → (send slot.name w).0 ≡ err e
      → is_invalid_request e.error_class || should_split_range e ≡ true
      → let (reply, slot', w') = call_slot net policy slot w in
        let (reply', slot'', w'') = call_slot net policy slot' later in
        (reply ≡ err e)
        × ((reply' ≡ err (failure RpcErrorClass.circuit_open))
            ⊎ (reply' ≡ err (failure RpcErrorClass.budget_exhausted)))
        × (slot''.breaker ≡ slot'.breaker)
        × (w'' ≡ later)
        × IsWaiting slot''.breaker
  unfolding call_slot
  trial_permit_leak slot w e later pos opened cooled s r a =
      let (granted, waits) = allow-cooled (clock w) slot.breaker opened cooled in
      let first =
        call_attempts-leak policy.max_attempts_per_provider 0 none slot w e pos s granted r a in
      let waits' : IsWaiting (noted e slot w).breaker =
        note_error-IsWaiting (clock (replied slot w)) e (asked slot w).breaker a waits in
      let (refused, same, still) =
        call_refused policy.max_attempts_per_provider 0 none (noted e slot w) later pos waits' in
      rw first (refl, refused, same, still, rw same waits')
