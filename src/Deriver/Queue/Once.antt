-- ===== src/Deriver/Queue/Once.antt =====
-- A request is answered once (deriver/requests.py): its first answer is its last.
use notchstave.Common.{
  ℕ, ◌<◌, ◌≡◌, refl, sym, ◌∙◌, ◌≢◌, inl, inr, Bool, true, false, ◌&&◌, some, List, [], ◌∷◌, ltb,
  arith, Option-cases,
}
use notchstave.Common.Rows.{filter}
use notchstave.Common.Tables.{
  All, All-map, All-zip, All-update_where, All-filter, filter-IsOnly, filter-passes, filter-none,
  first-IsPicked,
}
use notchstave.Deriver.Queue.{
  RequestStatus, Request, Queue, is_over, is_claimable, next_pending, change, claim_next, is_held,
  found, over, complete, refuse, requeue,
}
use notchstave.Deriver.Queue.Bounded.{IsSound, over-IsSound, Run}
use notchstave.Deriver.Queue.Over.{not_both, IsOver, claim-open, Run-IsOver}

module _ {P R : Type 0} where
  found-row :
      (Q : Request P R → Type 0) (rows : List (Request P R))
      → All Q rows
      → found rows ≡ true
      → (r : Request P R) × Q r
  found-row Q [] h e = cc
  found-row Q (r ∷ rows) (h, hs) e = (r, h)

  -- A request that a statement found held is over once the statement has ended it.
  ended-IsOver :
      (max_attempts i : ℕ) (status : RequestStatus) (outcome : R) (q : Queue P R)
      → is_over status ≡ true
      → IsSound max_attempts q
      → found (filter (is_held i) q.requests) ≡ true
      → IsOver i (change (is_held i) (over status outcome q.now) q)
  ended-IsOver max_attempts i status outcome q ended ok e =
      let (r, (held, below, only)) =
        found-row
          (λ r.
            (is_held i r ≡ true)
            × (r.id < q.next_id)
            × All (λ p. p.id ≡ r.id → is_held i p ≡ true) q.requests)
          (filter (is_held i) q.requests)
          (All-zip
            {Q = λ r. (r.id < q.next_id) × All (λ p. p.id ≡ r.id → is_held i p ≡ true) q.requests}
            (λ a h k. (h, k.0, k.1)) (filter (is_held i) q.requests)
            (filter-passes (is_held i) q.requests)
            (All-zip (λ a h k. (h, k)) (filter (is_held i) q.requests)
              (All-filter (λ r. r.id < q.next_id) (is_held i) q.requests ok.ids)
              (filter-IsOnly (λ (p : Request P R). p.id) (is_held i) q.requests ok.keys)))
          e in
      let same : r.id ≡ i = ground arith in
      record {
        given = rw (← same) below;
        ended =
            All-update_where {P = λ p. p.id ≡ r.id → is_held i p ≡ true} (is_held i)
              (over status outcome q.now) q.requests (λ p _ _ _. ended)
              (λ p free h k. absurd (not_both (is_held i p) (h (k ∙ sym same)) free)) only;
      }

  over-not_held : (i : ℕ) (q : Queue P R) → IsOver i q → All (λ r. is_held i r ≡ false) q.requests
  over-not_held i q o = All-map (λ r h. ground (arith, h)) q.requests o.ended

  over-not_claimed :
      (i : ℕ) (exclude : List ℕ) (locked : ℕ → Bool) (q : Queue P R) (r : Request P R)
      → IsOver i q
      → next_pending exclude locked q ≡ some r
      → r.id ≢ i
  unfolding next_pending
  over-not_claimed i exclude locked q r o e same =
      let test = is_claimable exclude locked in
      let (waits, ended) =
        first-IsPicked (λ (p : Request P R). p.requested_at)
          (λ p. (is_claimable exclude locked p ≡ true) × (p.id ≡ i → is_over p.status ≡ true)) test
          q.requests r
          (All-zip (λ p h k. (h, k)) (filter test q.requests) (filter-passes test q.requests)
            (All-filter (λ p. p.id ≡ i → is_over p.status ≡ true) test q.requests o.ended))
          e in
      claim-open exclude locked r waits (ended same)

  -- What no statement does any more to a request that is over: end it, give it back or hand it out.
  pub record IsClosed (max_attempts i : ℕ) (q : Queue P R) : Type 0 where
    pub not_completed : (outcome : R) → (complete i outcome q).0 ≡ false
    pub not_refused : (outcome : R) → (refuse i outcome q).0 ≡ false
    pub not_requeued : (requeue max_attempts i q).0 ≡ false
    pub not_claimed :
        (exclude : List ℕ) (locked : ℕ → Bool) (r : Request P R)
        → (claim_next exclude locked q).0 ≡ some r
        → r.id ≢ i

  over-IsClosed : (max_attempts i : ℕ) (q : Queue P R) → IsOver i q → IsClosed max_attempts i q
  unfolding complete refuse requeue claim_next
  over-IsClosed max_attempts i q o =
      let none_held = filter-none (is_held i) q.requests (over-not_held i q o) in
      let none_left =
        filter-none (λ (r : Request P R). is_held i r && ltb r.attempts max_attempts) q.requests
          (All-map (λ r h. ground arith) q.requests (over-not_held i q o)) in
      record {
        not_completed = λ outcome. rw none_held;
        not_refused = λ outcome. rw none_held;
        not_requeued = rw none_left;
        not_claimed = λ exclude locked r e. elim (Option-cases (next_pending exclude locked q)) [
          | inl n ↦ cc (rw n at e)
          | inr (p, n) ↦
              let picked = rw n at e in
              let same : p.id ≡ r.id = ground arith in
              rw (← same) (over-not_claimed i exclude locked q p o n)
        ];
      }

  -- An answer to a request: a refusal, or a completion.
  abbrev pub answer : Bool → ℕ → R → Queue P R → Bool × Queue P R
  answer true i outcome q = refuse i outcome q
  answer false i outcome q = complete i outcome q

  -- The first answer to a request is its only one: once a completion or a refusal has been written, then
  -- after every run of the queue, with claims that went stale, later prunings and all, no process
  -- completes, refuses or requeues the request, and no claim hands it out.
  pub answer-IsClosed :
      (max_attempts : ℕ) (open_for_some : 0 < max_attempts) (refusal : Bool) (i : ℕ) (outcome : R)
      (q last : Queue P R)
      → IsSound max_attempts q
      → (answer refusal i outcome q).0 ≡ true
      → Run max_attempts open_for_some (answer refusal i outcome q).1 last
      → IsClosed max_attempts i last
  unfolding complete refuse
  answer-IsClosed max_attempts some_open true i outcome q last ok e run =
      over-IsClosed max_attempts i last (
        Run-IsOver max_attempts some_open i _ last run
          (over-IsSound max_attempts some_open i RequestStatus.failed outcome (is_held i) q refl ok)
          (ended-IsOver max_attempts i RequestStatus.failed outcome q refl ok e))
  answer-IsClosed max_attempts some_open false i outcome q last ok e run =
      over-IsClosed max_attempts i last (
        Run-IsOver max_attempts some_open i _ last run
          (over-IsSound max_attempts some_open i RequestStatus.finished outcome (is_held i) q refl
            ok)
          (ended-IsOver max_attempts i RequestStatus.finished outcome q refl ok e))
