-- ===== src/Deriver/Queue/Handed.antt =====
-- How often a request is handed out (deriver/requests.py), over any run of its queue.
use notchstave.Common.{
  ℕ, ◌+◌, ◌<◌, ◌≤◌, ◌≡◌, refl, inl, inr, ◌⊎◌, Bool, true, Option, none, some, List, ◌==◌,
  if◌then◌else◌, arith, Option-cases, Bool-cases,
}
use notchstave.Common.Rows.{filter}
use notchstave.Common.Tables.{
  All, All-zip, All-always, All-update_where, All-filter, filter-passes, first-IsPicked,
}
use notchstave.Deriver.Queue.{
  Request, Queue, is_claimable, next_pending, claimed, change, claim_next, complete, refuse,
  requeue, reclaim, abandon, reclaim_stale, prune_completed, enqueue,
}
use notchstave.Deriver.Queue.Bounded.{
  IsBounded, IsSound, claimable-pending, Step, Run, run_attempts,
}

module _ {P R : Type 0} where
  -- One more where a claim has handed out the request `i`.
  abbrev one_more : ℕ → Option (Request P R) → ℕ → ℕ
  one_more i none n = n
  one_more i (some r) n = if r.id == i then n + 1 else n

  -- That many times request `i` may have been handed out: it was given out by the sequence, and every row of
  -- it counts at least as many attempts.
  record HasCounted (i n : ℕ) (q : Queue P R) : Type 0 where
    given : (n ≡ 0) ⊎ (i < q.next_id)
    counted : All (λ (r : Request P R). r.id ≡ i → n ≤ r.attempts) q.requests

  change-HasCounted :
      (i n : ℕ) (test : Request P R → Bool) (f : Request P R → Request P R) (q : Queue P R)
      → ((r : Request P R) → ((f r).id ≡ r.id) × (r.attempts ≤ (f r).attempts))
      → HasCounted i n q
      → HasCounted i n (change test f q)
  change-HasCounted i n test f q same h = record {
    given = h.given;
    counted =
        All-update_where test f q.requests
          (λ r _ c e. omega (arith, same r, c (omega (arith, (same r).0, e)))) (λ r _ c. c)
          h.counted;
  }

module _ {P R : Type 0} (max_attempts : ℕ) (open_for_some : 0 < max_attempts) where
  -- How often the request `i` has been handed out after a step, by what its claim answers; `n` times before.
  unfoldable pub handed : ℕ → (q end : Queue P R) → Step max_attempts open_for_some q end → ℕ → ℕ
  unfolding claim_next
  handed i _ _ (Step.claims exclude locked q) n = one_more i (claim_next exclude locked q).0 n
  handed i _ _ step n = n

  -- How often a run hands the request `i` out.
  unfoldable pub times_handed : ℕ → (q end : Queue P R) → Run max_attempts open_for_some q end → ℕ
  unfolding handed
  times_handed i _ _ (Run.start q) = 0
  times_handed i _ _ (Run.then_step first last end run step) =
      handed i last end step (times_handed i first last run)

  -- The row that a claim picks: its id was given out, it has an attempt left, and it counts the ones it had.
  next-HasLeft :
      (i n : ℕ) (exclude : List ℕ) (locked : ℕ → Bool) (q : Queue P R) (r : Request P R)
      → IsSound max_attempts q
      → HasCounted i n q
      → next_pending exclude locked q ≡ some r
      → (r.id < q.next_id) × (r.attempts < max_attempts) × (r.id ≡ i → n ≤ r.attempts)
  unfolding next_pending
  next-HasLeft i n exclude locked q r ok h picked =
      first-IsPicked (λ (p : Request P R). p.requested_at)
        (λ p. (p.id < q.next_id) × (p.attempts < max_attempts) × (p.id ≡ i → n ≤ p.attempts))
        (is_claimable exclude locked) q.requests r
        (All-zip {P = λ p. is_claimable exclude locked p ≡ true}
          {Q = λ p. (p.id < q.next_id) × IsBounded max_attempts p × (p.id ≡ i → n ≤ p.attempts)}
          (λ p t k. (k.0, k.1.waits (claimable-pending exclude locked p t), k.2))
          (filter (is_claimable exclude locked) q.requests)
          (filter-passes (is_claimable exclude locked) q.requests)
          (All-filter _ (is_claimable exclude locked) q.requests (
            All-zip {P = λ p. p.id < q.next_id}
              {Q = λ p. IsBounded max_attempts p × (p.id ≡ i → n ≤ p.attempts)}
              (λ p a b. (a, b.0, b.1)) q.requests ok.ids
              (All-zip (λ p a b. (a, b)) q.requests ok.bounded h.counted))))
        picked

  Step-HasCounted :
      (i n : ℕ) (q end : Queue P R) (step : Step max_attempts open_for_some q end)
      → IsSound max_attempts q
      → n ≤ max_attempts
      → HasCounted i n q
      → (handed i q end step n ≤ max_attempts) × HasCounted i (handed i q end step n) end
  unfolding handed claim_next complete refuse requeue reclaim_stale reclaim abandon prune_completed
      enqueue
  Step-HasCounted i n _ _ (Step.claims exclude locked q) ok most h =
      elim (Option-cases (next_pending exclude locked q)) [
        | inl e ↦ rw e (most, h)
        | inr (r, e) ↦
            let (below, left, counts) = next-HasLeft i n exclude locked q r ok h e in
            elim (Bool-cases (r.id == i)) [
              | inl same ↦
                  rw (e, same)
                    (
                      omega (arith, left, counts (ground arith)),
                      record {
                        given = inr (ground arith);
                        counted =
                            All-update_where (λ (p : Request P R). p.id == r.id) (claimed q.now)
                              q.requests (λ p _ c k. omega (arith, c k))
                              (λ p other c k. absurd (ground (arith, same, other, k))) h.counted;
                      },
                    )
              | inr other ↦
                  rw (e, other) (most, change-HasCounted i n _ _ q (λ r. (refl, omega arith)) h)
            ]
      ]
  Step-HasCounted i n _ _ (Step.completes j outcome q) ok most h =
      (most, change-HasCounted i n _ _ q (λ r. (refl, omega arith)) h)
  Step-HasCounted i n _ _ (Step.refuses j outcome q) ok most h =
      (most, change-HasCounted i n _ _ q (λ r. (refl, omega arith)) h)
  Step-HasCounted i n _ _ (Step.requeues j q) ok most h =
      (most, change-HasCounted i n _ _ q (λ r. (refl, omega arith)) h)
  Step-HasCounted i n _ _ (Step.reclaims abandoned lease q) ok most h = (
    most,
    change-HasCounted i n _ _ (reclaim lease max_attempts q) (λ r. (refl, omega arith))
        (change-HasCounted i n _ _ q (λ r. (refl, omega arith)) h),
  )
  Step-HasCounted i n _ _ (Step.prunes retention q) ok most h =
      (most, record { given = h.given; counted = All-filter _ _ q.requests h.counted })
  Step-HasCounted i n _ _ (Step.enqueues payload q) ok most h = (
    most,
    record {
      given = ground (arith, h.given);
      counted = ((λ e. ground (arith, h.given, e)), h.counted);
    },
  )
  Step-HasCounted i n _ _ (Step.waits now q) ok most h =
      (most, record { given = h.given; counted = h.counted })

  -- Where one attempt or more is allowed, and from a queue whose rows are sound, no run of the queue hands one
  -- request out more than `max_attempts` times, whatever its processes do and in which order: by the answers
  -- of the claims, whether the request is still stored or not.
  pub times_handed-bound :
      (i : ℕ) (q end : Queue P R) (run : Run max_attempts open_for_some q end)
      → IsSound max_attempts q
      → times_handed i q end run ≤ max_attempts
  unfolding times_handed
  times_handed-bound i q end run ok = (counted q end run ok).0
    where
      counted :
          (q end : Queue P R) (run : Run max_attempts open_for_some q end)
          → IsSound max_attempts q
          → (times_handed i q end run ≤ max_attempts) × HasCounted i (times_handed i q end run) end
      counted _ _ (Run.start q) ok = (
        omega arith,
        record { given = inl refl; counted = All-always (λ r e. omega arith) q.requests },
      )
      counted _ _ (Run.then_step first last end run step) ok =
          let (most, h) = counted first last run ok in
          Step-HasCounted i (times_handed i first last run) last end step
            (run_attempts max_attempts open_for_some first last run ok) most h
