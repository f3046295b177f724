-- ===== src/Watcher/Rpc/Pool/Sent.antt =====
-- How many requests one call on a provider sends (`_call_slot` of watcher/rpc/pool.py).
use notchstave.Common.{ℕ, zero, suc, ◌+◌, ◌≤◌, ◌≡◌, Option, none, some, arith, ◌∙◌}
use notchstave.Watcher.Rpc.Errors.{RpcErrorClass, RpcError}
use notchstave.Watcher.Rpc.Pool.{Net, RetryPolicy, ProviderSlot, pause, call_attempts, call_slot}
use notchstave.Watcher.Rpc.Pool.Calls.{replied, noted, call_cases}

module _ {W A : Type 0} (net : Net W A) (policy : RetryPolicy) where
  open net use {sleep, uniform, send}

  -- What a counter of requests must do: one more for each request, none for a pause.
  pub record Counts (sent : W → ℕ) : Type 0 where
    pub sends_one : (p : ℕ) (w : W) → sent (send p w).1 ≡ sent w + 1
    pub sleep_sends_none : (d : ℕ) (w : W) → sent (sleep d w) ≡ sent w
    pub uniform_sends_none : (c : ℕ) (w : W) → sent (uniform c w).1 ≡ sent w

  pub sent-pause :
      (sent : W → ℕ)
      → Counts sent
      → (o : Option ℕ) (attempt : ℕ) (c : RpcErrorClass) (w : W)
      → sent (pause net policy o attempt c w) ≡ sent w
  unfolding pause
  sent-pause sent k none attempt c w = k.sleep_sends_none _ _ ∙ k.uniform_sends_none _ w
  sent-pause sent k (some zero) attempt c w = k.sleep_sends_none _ _ ∙ k.uniform_sends_none _ w
  sent-pause sent k (some (suc n)) attempt c w = k.sleep_sends_none _ w

  call_attempts-sent :
      (sent : W → ℕ)
      → Counts sent
      → (left attempt : ℕ) (last : Option RpcError) (slot : ProviderSlot) (w : W)
      → sent (call_attempts net policy left attempt last slot w).2 ≤ sent w + left
  call_attempts-sent sent k zero attempt none slot w = unfold call_attempts in omega arith
  call_attempts-sent sent k zero attempt (some e) slot w = unfold call_attempts in omega arith
  call_attempts-sent sent k (suc left) attempt last slot w =
      call_cases net policy (λ r. sent r.2 ≤ sent w + suc left) left attempt last slot w
        (λ _. omega arith) (λ _. omega arith) (λ a _. omega (arith, k.sends_one slot.name w))
        (λ e _. omega (arith, k.sends_one slot.name w))
        (λ e _ _. omega (
          arith,
          k.sends_one slot.name w,
          sent-pause sent k e.retry_after attempt e.error_class (replied net policy slot w),
          call_attempts-sent sent k left (attempt + 1) (some e) (noted net policy e slot w)
              (pause net policy e.retry_after attempt e.error_class (replied net policy slot w)),
        ))

  -- One call sends at most `max_attempts_per_provider` requests.
  pub call_slot-sent :
      (sent : W → ℕ)
      → Counts sent
      → (slot : ProviderSlot) (w : W)
      → sent (call_slot net policy slot w).2 ≤ sent w + policy.max_attempts_per_provider
  unfolding call_slot
  call_slot-sent sent k slot w =
      call_attempts-sent sent k policy.max_attempts_per_provider 0 none slot w
