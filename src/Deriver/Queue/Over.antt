-- ===== src/Deriver/Queue/Over.antt =====
-- A request that is over stays over (deriver/requests.py).
use notchstave.Common.{
  ℕ, ◌<◌, ◌≡◌, refl, ◌≢◌, inl, inr, Bool, true, false, not, ◌&&◌, List, leb, ltb, ◌==◌, arith,
  Option-cases,
}
use notchstave.Common.Tables.{All, All-map, All-zip, All-always, All-update_where, All-filter}
use notchstave.Deriver.Queue.{
  RequestStatus, Request, Queue, is_over, is_claimable, next_pending, claimed, change, claim_next,
  is_held, over, complete, refuse, requeued, requeue, is_stale, reclaim, abandon, reclaim_stale,
  is_old, prune_completed, enqueue,
}
use notchstave.Deriver.Queue.Bounded.{IsSound, next-IsClaimable, Step, Run, run_attempts}

pub not_both : (b : Bool) → b ≡ true → b ≢ false
not_both b h k = cc

module _ {P R : Type 0} where
  -- The id has been given out, and every row that has it is over.
  pub record IsOver (i : ℕ) (q : Queue P R) : Type 0 where
    pub given : i < q.next_id
    pub ended : All (λ (r : Request P R). r.id ≡ i → is_over r.status ≡ true) q.requests

  change-IsOver :
      (i : ℕ) (test : Request P R → Bool) (f : Request P R → Request P R) (q : Queue P R)
      → ((r : Request P R) → (f r).id ≡ r.id)
      → All (λ r. test r ≡ true → is_over r.status ≡ true → is_over (f r).status ≡ true) q.requests
      → IsOver i q
      → IsOver i (change test f q)
  change-IsOver i test f q same keeps o = record {
    given = o.given;
    ended =
        All-update_where
          {P = λ r.
            (test r ≡ true → is_over r.status ≡ true → is_over (f r).status ≡ true)
            × (r.id ≡ i → is_over r.status ≡ true)}
          test f q.requests (λ r t h e. h.0 t (h.1 (rw (same r) at e))) (λ r _ h. h.1)
          (All-zip (λ r h k. (h, k)) q.requests keeps o.ended);
  }

  pub claim-open :
      (exclude : List ℕ) (locked : ℕ → Bool) (r : Request P R)
      → is_claimable exclude locked r ≡ true
      → is_over r.status ≢ true
  claim-open exclude locked r h = ground arith

  module _ (max_attempts : ℕ) (open_for_some : 0 < max_attempts) where
    Step-IsOver :
        (i : ℕ) (q end : Queue P R)
        → Step max_attempts open_for_some q end
        → IsSound max_attempts q
        → IsOver i q
        → IsOver i end
    unfolding claim_next complete refuse requeue reclaim_stale reclaim abandon prune_completed
        enqueue
    Step-IsOver i _ _ (Step.claims exclude locked q) ok o =
        elim (Option-cases (next_pending exclude locked q)) [
          | inl e ↦ rw e o
          | inr (r, e) ↦ rw e (
              change-IsOver i (λ (p : Request P R). p.id == r.id) (claimed q.now) q (λ p. refl)
                (All-map (λ p h same k. absurd (claim-open exclude locked p (h (ground arith)) k))
                  q.requests (next-IsClaimable exclude locked q r ok.keys e))
                o)
        ]
    Step-IsOver i _ _ (Step.completes j outcome q) ok o =
        change-IsOver i (is_held j) (over RequestStatus.finished outcome q.now) q (λ p. refl)
          (All-always (λ p h k. refl) q.requests) o
    Step-IsOver i _ _ (Step.refuses j outcome q) ok o =
        change-IsOver i (is_held j) (over RequestStatus.failed outcome q.now) q (λ p. refl)
          (All-always (λ p h k. refl) q.requests) o
    Step-IsOver i _ _ (Step.requeues j q) ok o =
        change-IsOver i (λ (r : Request P R). is_held j r && ltb r.attempts max_attempts) requeued q
          (λ p. refl) (All-always (λ p h k. held-open j p h k) q.requests) o
      where
        held-open :
            (j : ℕ) (p : Request P R)
            → (is_held j p && ltb p.attempts max_attempts) ≡ true
            → is_over p.status ≡ true
            → is_over RequestStatus.pending ≡ true
        held-open j p h k = ground arith
    Step-IsOver i _ _ (Step.reclaims abandoned lease q) ok o =
        change-IsOver i (λ (r : Request P R). is_stale q.now lease r && leb max_attempts r.attempts)
          (over RequestStatus.failed abandoned q.now) (reclaim lease max_attempts q) (λ p. refl)
          (All-always (λ p h k. refl) (reclaim lease max_attempts q).requests)
          (change-IsOver i
            (λ (r : Request P R). is_stale q.now lease r && ltb r.attempts max_attempts) requeued q
            (λ p. refl) (All-always (λ p h k. stale-open p h k) q.requests) o)
      where
        stale-open :
            (p : Request P R)
            → (is_stale q.now lease p && ltb p.attempts max_attempts) ≡ true
            → is_over p.status ≡ true
            → is_over RequestStatus.pending ≡ true
        stale-open p h k = ground arith
    Step-IsOver i _ _ (Step.prunes retention q) ok o = record {
      given = o.given;
      ended =
          All-filter (λ r. r.id ≡ i → is_over r.status ≡ true)
            (λ (r : Request P R). not (is_old q.now retention r)) q.requests o.ended;
    }
    Step-IsOver i _ _ (Step.enqueues payload q) ok o =
        let below = o.given in
        record { given = omega arith; ended = ((λ e. absurd (omega arith)), o.ended) }
    Step-IsOver i _ _ (Step.waits now q) ok o = record { given = o.given; ended = o.ended }

    pub Run-IsOver :
        (i : ℕ) (first last : Queue P R)
        → Run max_attempts open_for_some first last
        → IsSound max_attempts first
        → IsOver i first
        → IsOver i last
    Run-IsOver i _ _ (Run.start q) ok o = o
    Run-IsOver i _ _ (Run.then_step first last end run step) ok o =
        Step-IsOver i last end step (run_attempts max_attempts open_for_some first last run ok)
          (Run-IsOver i first last run ok o)
