-- ===== src/Deriver/Queue/Bounded.antt =====
-- Runs of a request queue (deriver/requests.py), and what they keep of its rows.
use notchstave.Common.{
  ℕ, ◌<◌, ◌≤◌, ◌≡◌, refl, inl, inr, Bool, true, false, not, ◌&&◌, some, List, leb, ltb, ◌==◌, arith,
  Option-cases,
}
use notchstave.Common.Tables.{
  All, All-map, All-zip, All-always, All-update_where, All-filter, filter-AreDistinct,
  first-IsPicked, filter-IsOnly, AreDistinct, update_where-AreDistinct,
}
use notchstave.Deriver.Queue.{
  RequestStatus, Request, Queue, is_pending, is_claimable, next_pending, claimed, change,
  claim_next, is_held, over, complete, refuse, requeued, requeue, is_stale, reclaim, abandon,
  reclaim_stale, is_old, prune_completed, enqueue,
}

module _ {P R : Type 0} (max_attempts : ℕ) where
  -- A request that waits has attempts left, and none has had more than the limit.
  pub record IsBounded (r : Request P R) : Type 0 where
    pub waits : is_pending r.status ≡ true → r.attempts < max_attempts
    pub within : r.attempts ≤ max_attempts

  pub record IsSound (q : Queue P R) : Type 0 where
    pub keys : AreDistinct (λ (r : Request P R). r.id) q.requests
    pub ids : All (λ (r : Request P R). r.id < q.next_id) q.requests
    pub bounded : All IsBounded q.requests

  change-IsSound :
      (test : Request P R → Bool) (f : Request P R → Request P R) (q : Queue P R)
      → ((r : Request P R) → (f r).id ≡ r.id)
      → All (λ r. test r ≡ true → IsBounded r → IsBounded (f r)) q.requests
      → IsSound q
      → IsSound (change test f q)
  change-IsSound test f q same sound ok = record {
    keys = update_where-AreDistinct (λ (r : Request P R). r.id) test f q.requests same ok.keys;
    ids = All-update_where test f q.requests (λ r _ h. rw (same r) h) (λ r _ h. h) ok.ids;
    bounded =
        All-update_where {P = λ r. (test r ≡ true → IsBounded r → IsBounded (f r)) × IsBounded r}
          test f q.requests (λ r t h. h.0 t h.1) (λ r _ h. h.1)
          (All-zip (λ r h k. (h, k)) q.requests sound ok.bounded);
  }

-- The row that a claim finds was waiting, and so is every row with its id.
pub next-IsClaimable :
    {P R : Type 0} (exclude : List ℕ) (locked : ℕ → Bool) (q : Queue P R) (r : Request P R)
    → AreDistinct (λ (p : Request P R). p.id) q.requests
    → next_pending exclude locked q ≡ some r
    → All (λ p. p.id ≡ r.id → is_claimable exclude locked p ≡ true) q.requests
unfolding next_pending
next-IsClaimable {P} {R} exclude locked q r keys picked =
    first-IsPicked (λ (p : Request P R). p.requested_at)
      (λ a. All (λ p. p.id ≡ a.id → is_claimable exclude locked p ≡ true) q.requests)
      (is_claimable exclude locked) q.requests r
      (filter-IsOnly (λ (p : Request P R). p.id) (is_claimable exclude locked) q.requests keys)
      picked

module _ {P R : Type 0} where
  pub claimable-pending :
      (exclude : List ℕ) (locked : ℕ → Bool) (r : Request P R)
      → is_claimable exclude locked r ≡ true
      → is_pending r.status ≡ true
  claimable-pending exclude locked r h = ground arith

  stale-left :
      (now lease max_attempts : ℕ) (r : Request P R)
      → (is_stale now lease r && ltb r.attempts max_attempts) ≡ true
      → r.attempts < max_attempts
  stale-left now lease max_attempts r h = ground arith

module _ {P R : Type 0} (max_attempts : ℕ) (open_for_some : 0 < max_attempts) where
  abbrev SoundQueue : Queue P R → Type 0
  SoundQueue = IsSound max_attempts

  pub claim_next-IsSound :
      (exclude : List ℕ) (locked : ℕ → Bool) (q : Queue P R)
      → SoundQueue q
      → SoundQueue (claim_next exclude locked q).1
  unfolding claim_next
  claim_next-IsSound exclude locked q ok = elim (Option-cases (next_pending exclude locked q)) [
    | inl e ↦ rw e ok
    | inr (r, e) ↦ rw e (
        change-IsSound max_attempts (λ (p : Request P R). p.id == r.id) (claimed q.now) q
          (λ p. refl)
          (All-map
            (λ p h same b. record {
              waits = λ k. cc;
              within =
                  omega (arith, b.waits (claimable-pending exclude locked p (h (ground arith))));
            })
            q.requests (next-IsClaimable exclude locked q r ok.keys e))
          ok)
  ]

  pub over-IsSound :
      (i : ℕ) (status : RequestStatus) (outcome : R) (test : Request P R → Bool) (q : Queue P R)
      → is_pending status ≡ false
      → SoundQueue q
      → SoundQueue (change test (over status outcome q.now) q)
  over-IsSound i status outcome test q ended ok =
      change-IsSound max_attempts test (over status outcome q.now) q (λ p. refl)
        (All-always (λ p h b. record { waits = λ k. cc; within = b.within }) q.requests) ok

  requeued-IsSound :
      (test : Request P R → Bool) (q : Queue P R)
      → ((r : Request P R) → test r ≡ true → r.attempts < max_attempts)
      → SoundQueue q
      → SoundQueue (change test requeued q)
  requeued-IsSound test q left ok =
      change-IsSound max_attempts test requeued q (λ p. refl)
        (All-always (λ p h b. record { waits = λ _. left p h; within = b.within }) q.requests) ok

  -- One statement on the queue, by whichever process; a client adds a request; or time passes.
  pub data Step : Queue P R → Queue P R → Type 0 where
    claims :
        (exclude : List ℕ) (locked : ℕ → Bool) (q : Queue P R)
        → Step q (claim_next exclude locked q).1
    completes : (i : ℕ) (outcome : R) (q : Queue P R) → Step q (complete i outcome q).1
    refuses : (i : ℕ) (outcome : R) (q : Queue P R) → Step q (refuse i outcome q).1
    requeues : (i : ℕ) (q : Queue P R) → Step q (requeue max_attempts i q).1
    reclaims :
        (abandoned : R) (lease : ℕ) (q : Queue P R)
        → Step q (reclaim_stale abandoned lease max_attempts q).1
    prunes : (retention : ℕ) (q : Queue P R) → Step q (prune_completed retention q).1
    enqueues : (payload : P) (q : Queue P R) → Step q (enqueue payload q)
    waits : (now : ℕ) (q : Queue P R) → Step q (record q { now = now })

  pub data Run : Queue P R → Queue P R → Type 0 where
    start : (q : Queue P R) → Run q q
    then_step : (first last end : Queue P R) → Run first last → Step last end → Run first end

  Step-IsSound : (q end : Queue P R) → Step q end → SoundQueue q → SoundQueue end
  unfolding complete refuse requeue reclaim_stale reclaim abandon prune_completed enqueue
  Step-IsSound _ _ (claims exclude locked q) ok = claim_next-IsSound exclude locked q ok
  Step-IsSound _ _ (completes i outcome q) ok =
      over-IsSound i RequestStatus.finished outcome (is_held i) q refl ok
  Step-IsSound _ _ (refuses i outcome q) ok =
      over-IsSound i RequestStatus.failed outcome (is_held i) q refl ok
  Step-IsSound _ _ (requeues i q) ok =
      requeued-IsSound (λ (r : Request P R). is_held i r && ltb r.attempts max_attempts) q
        (λ r h. ground arith) ok
  Step-IsSound _ _ (reclaims abandoned lease q) ok =
      over-IsSound 0 RequestStatus.failed abandoned
        (λ (r : Request P R). is_stale q.now lease r && leb max_attempts r.attempts)
        (reclaim lease max_attempts q) refl
        (requeued-IsSound
          (λ (r : Request P R). is_stale q.now lease r && ltb r.attempts max_attempts) q
          (stale-left q.now lease max_attempts) ok)
  Step-IsSound _ _ (prunes retention q) ok =
      let kept = λ (r : Request P R). not (is_old q.now retention r) in
      record {
        keys = filter-AreDistinct (λ (r : Request P R). r.id) kept q.requests ok.keys;
        ids = All-filter (λ r. r.id < q.next_id) kept q.requests ok.ids;
        bounded = All-filter (IsBounded max_attempts) kept q.requests ok.bounded;
      }
  Step-IsSound _ _ (enqueues payload q) ok = record {
    keys = (All-map (λ r h e. omega arith) q.requests ok.ids, ok.keys);
    ids = (omega arith, All-map (λ r h. omega arith) q.requests ok.ids);
    bounded = (record { waits = λ _. open_for_some; within = omega arith }, ok.bounded);
  }
  Step-IsSound _ _ (waits now q) ok = record { keys = ok.keys; ids = ok.ids; bounded = ok.bounded }

  -- Where one attempt or more is allowed, every run of the queue keeps its rows sound.
  pub run_attempts : (first last : Queue P R) → Run first last → SoundQueue first → SoundQueue last
  run_attempts _ _ (start q) ok = ok
  run_attempts _ _ (then_step first last end run step) ok =
      Step-IsSound last end step (run_attempts first last run ok)
