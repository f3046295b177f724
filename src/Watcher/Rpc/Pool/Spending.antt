-- ===== src/Watcher/Rpc/Pool/Spending.antt =====
-- The requests of a walk against the budgets of its providers (watcher/rpc/pool.py).
use notchstave.Common.{
  ℕ, zero, suc, ◌+◌, ◌≤◌, ◌<◌, ◌≡◌, refl, false, Option, none, some, List, [], ◌∷◌, arith,
  if◌then◌else◌, Bool-cases, inl, inr,
}
use notchstave.Watcher.Rpc.Errors.{RpcErrorClass, RpcError}
use notchstave.Watcher.Rpc.Budget.{RequestBudget, try_spend}
use notchstave.Watcher.Rpc.Pool.{
  err, Net, RetryPolicy, ProviderSlot, failure, pause, call_attempts, call_slot, run,
}
use notchstave.Watcher.Rpc.Pool.Calls.{paid, replied, noted, call_cases}
use notchstave.Watcher.Rpc.Pool.Sent.{Counts, sent-pause}
use notchstave.Watcher.Rpc.Pool.Walk.{run_cases}

-- A window that is still open at `t`, in which `l` requests are allowed.
pub record IsOpen (t l : ℕ) (b : RequestBudget) : Type 0 where
  pub limited : b.limit ≡ some l
  pub within : b.spent ≤ l
  pub open_at : t < b.window_start + b.window_seconds

-- Inside its window a budget counts what it grants, and grants within its limit.
try_spend-IsOpen :
    (t l now : ℕ) (b : RequestBudget)
    → now ≤ t
    → IsOpen t l b
    → let (c, granted) = try_spend now 1 b in
      IsOpen t l c × (c.spent ≡ b.spent + (if granted then 1 else 0))
unfolding try_spend
try_spend-IsOpen t l now b early o = (
  record {
    limited = ground (arith, o.limited);
    within = ground (arith, o.limited, o.within, o.open_at);
    open_at = ground (arith, o.open_at);
  },
  ground (arith, o.open_at),
)

abbrev pub limit_of : Option ℕ → ℕ
limit_of none = 0
limit_of (some l) = l

module _ {W A : Type 0} (net : Net W A) (policy : RetryPolicy) where
  open net use {clock, sleep, uniform, send}

  -- The clock does not go back.
  pub record IsForward : Type 0 where
    pub send_forward : (p : ℕ) (w : W) → clock w ≤ clock (send p w).1
    pub sleep_forward : (d : ℕ) (w : W) → clock w ≤ clock (sleep d w)
    pub uniform_forward : (c : ℕ) (w : W) → clock w ≤ clock (uniform c w).1

  forward-pause :
      IsForward
      → (o : Option ℕ) (attempt : ℕ) (c : RpcErrorClass) (w : W)
      → clock w ≤ clock (pause net policy o attempt c w)
  unfolding pause
  forward-pause k none attempt c w = omega (arith, k.uniform_forward _ w, k.sleep_forward _ _)
  forward-pause k (some zero) attempt c w =
      omega (arith, k.uniform_forward _ w, k.sleep_forward _ _)
  forward-pause k (some (suc n)) attempt c w = k.sleep_forward _ w

  -- Inside the window, what was sent with what was spent before is covered by what is spent after, and the
  -- window stays as it was.
  abbrev IsCovered : (sent : W → ℕ) → (t l : ℕ) → ProviderSlot → W → ProviderSlot → W → Type 0
  IsCovered sent t l slot w slot' w' =
      IsOpen t l slot'.budget × (sent w' + slot.budget.spent ≤ sent w + slot'.budget.spent)

  call_attempts-forward :
      IsForward
      → (left attempt : ℕ) (last : Option RpcError) (slot : ProviderSlot) (w : W)
      → clock w ≤ clock (call_attempts net policy left attempt last slot w).2
  call_attempts-forward f zero attempt none slot w = unfold call_attempts in omega arith
  call_attempts-forward f zero attempt (some e) slot w = unfold call_attempts in omega arith
  call_attempts-forward f (suc left) attempt last slot w =
      let replies = f.send_forward slot.name w in
      call_cases net policy (λ r. clock w ≤ clock r.2) left attempt last slot w (λ _. omega arith)
        (λ _. omega arith) (λ a _. replies) (λ e _. replies)
        (λ e _ _. omega (
          arith,
          replies,
          forward-pause f e.retry_after attempt e.error_class (replied net policy slot w),
          call_attempts-forward f left (attempt + 1) (some e) (noted net policy e slot w)
              (pause net policy e.retry_after attempt e.error_class (replied net policy slot w)),
        ))

  -- An attempt that the budget refuses sends nothing.
  unpaid :
      (left attempt : ℕ) (last : Option RpcError) (slot : ProviderSlot) (w : W)
      → (try_spend (clock w) 1 slot.budget).1 ≡ false
      → call_attempts net policy (suc left) attempt last slot w
        ≡ (err (failure RpcErrorClass.budget_exhausted), paid net policy slot w, w)
  unfolding call_attempts
  unpaid left attempt last slot w refused = rw (refused, call_attempts) refl

  call_attempts-IsCovered :
      IsForward
      → (sent : W → ℕ) → Counts net policy sent
      → (t l left attempt : ℕ) (last : Option RpcError) (slot : ProviderSlot) (w : W)
      → IsOpen t l slot.budget
      → let r = call_attempts net policy left attempt last slot w in
        clock r.2 ≤ t → IsCovered sent t l slot w r.1 r.2
  call_attempts-IsCovered f sent k t l zero attempt none slot w o early =
      unfold call_attempts in (o, omega arith)
  call_attempts-IsCovered f sent k t l zero attempt (some e) slot w o early =
      unfold call_attempts in (o, omega arith)
  call_attempts-IsCovered f sent k t l (suc left) attempt last slot w o early =
      let start = call_attempts-forward f (suc left) attempt last slot w in
      let (opened, spent) =
        try_spend-IsOpen t l (clock w) slot.budget (omega (arith, start, early)) o in
      let one = k.sends_one slot.name w in
      elim (Bool-cases (try_spend (clock w) 1 slot.budget).1) [
        | inr refused ↦ rw (unpaid left attempt last slot w refused) (opened, omega (arith, spent))
        | inl granted ↦
            let more : (paid net policy slot w).budget.spent ≡ slot.budget.spent + 1 =
              rw granted at spent in
            call_cases net policy (λ r. clock r.2 ≤ t → IsCovered sent t l slot w r.1 r.2) left
              attempt last slot w (λ no _. absurd (ground (arith, granted, no)))
              (λ _ _. (opened, omega (arith, more))) (λ a _ _. (opened, omega (arith, more, one)))
              (λ e _ _. (opened, omega (arith, more, one)))
              (λ e _ _ soon.
                let w1 =
                  pause net policy e.retry_after attempt e.error_class
                    (replied net policy slot w) in
                let (end, covered) =
                  call_attempts-IsCovered f sent k t l left (attempt + 1) (some e)
                    (noted net policy e slot w) w1 opened soon in
                (
                  end,
                  omega (
                    arith,
                    more,
                    one,
                    covered,
                    sent-pause net policy sent k e.retry_after attempt e.error_class
                        (replied net policy slot w),
                  ),
                ))
              early
      ]

  call_slot-IsCovered :
      IsForward
      → (sent : W → ℕ) → Counts net policy sent
      → (t l : ℕ) (slot : ProviderSlot) (w : W) → IsOpen t l slot.budget
      → let r = call_slot net policy slot w in clock r.2 ≤ t → IsCovered sent t l slot w r.1 r.2
  unfolding call_slot
  call_slot-IsCovered f sent k t l slot w =
      call_attempts-IsCovered f sent k t l policy.max_attempts_per_provider 0 none slot w

  -- The spending of the windows, and their limits.
  pub spent_all : List ProviderSlot → ℕ
  spent_all [] = 0
  spent_all (slot ∷ slots) = slot.budget.spent + spent_all slots

  pub limit_all : List ProviderSlot → ℕ
  limit_all [] = 0
  limit_all (slot ∷ slots) = limit_of slot.budget.limit + limit_all slots

  -- Every provider has a limit, and its window is open at `t`.
  abbrev pub AllOpen : ℕ → List ProviderSlot → Type 0
  AllOpen t [] = Unit
  AllOpen t (slot ∷ slots) = IsOpen t (limit_of slot.budget.limit) slot.budget × AllOpen t slots

  spent_all-le :
      (t : ℕ) (slots : List ProviderSlot) → AllOpen t slots → spent_all slots ≤ limit_all slots
  unfolding spent_all limit_all
  spent_all-le t [] o = omega arith
  spent_all-le t (slot ∷ slots) (o, os) = omega (arith, o.within, spent_all-le t slots os)

  run-forward :
      IsForward → (slots : List ProviderSlot) (w : W) → clock w ≤ clock (run net policy slots w).2
  run-forward f [] w = unfold run in omega arith
  run-forward f (slot ∷ slots) w =
      let one : clock w ≤ clock (call_slot net policy slot w).2 =
        unfold call_slot in
        call_attempts-forward f policy.max_attempts_per_provider 0 none slot w in
      run_cases net policy (λ r. clock w ≤ clock r.2) slot slots w (λ a _. one) (λ e _ _. one)
        (λ e _ _. omega (arith, one, run-forward f slots (call_slot net policy slot w).2))

  -- Where the clock does not go back and every provider has a limit, a walk that ends before a window of a
  -- budget does sends at most as many requests as the limits leave over what was spent, by a counter of the
  -- world that each request raises by one and no pause moves.
  pub run-sent_budget :
      IsForward
      → (sent : W → ℕ) → Counts net policy sent
      → (slots : List ProviderSlot) (w : W) → AllOpen (clock (run net policy slots w).2) slots
      → sent (run net policy slots w).2 + spent_all slots ≤ sent w + limit_all slots
  unfolding spent_all limit_all
  run-sent_budget f sent k [] w o = unfold run in omega arith
  run-sent_budget f sent k (slot ∷ slots) w o =
      run_cases net policy
        (λ r.
          AllOpen (clock r.2) (slot ∷ slots)
          → sent r.2 + spent_all (slot ∷ slots) ≤ sent w + limit_all (slot ∷ slots))
        slot slots w (λ a _ o. asked_last o) (λ e _ _ o. asked_last o)
        (λ e _ _ o.
          let w1 = (call_slot net policy slot w).2 in
          omega (arith, one _ o.0 (run-forward f slots w1), run-sent_budget f sent k slots w1 o.1))
        o
    where
      one :
          (t : ℕ)
          → IsOpen t (limit_of slot.budget.limit) slot.budget
          → clock (call_slot net policy slot w).2 ≤ t
          → sent (call_slot net policy slot w).2 + slot.budget.spent
            ≤ sent w + limit_of slot.budget.limit
      one t open_then early =
          let (end, covered) =
            call_slot-IsCovered f sent k t (limit_of slot.budget.limit) slot w open_then early in
          omega (arith, end.within, covered)

      asked_last :
          AllOpen (clock (call_slot net policy slot w).2) (slot ∷ slots)
          → sent (call_slot net policy slot w).2 + spent_all (slot ∷ slots)
            ≤ sent w + limit_all (slot ∷ slots)
      asked_last (o, os) = omega (arith, one _ o (omega arith), spent_all-le _ slots os)
