-- ===== src/Deriver/Queue.antt =====
-- The queue that the deriver's three request tables are (deriver/requests.py): the statements on it, for
-- any payload `P` and any outcome `R`. Ids come from a sequence; a row that another transaction has
-- locked is one that `locked` names. Times are microseconds.
pub mod Bounded
pub mod Handed
pub mod Over
pub mod Once
pub mod Left
pub mod Drain
use notchstave.Common.{
  ℕ, suc, ◌+◌, Bool, true, false, not, ◌&&◌, ◌||◌, Option, none, some, List, [], ◌∷◌, ltb, leb,
  ◌==◌, if◌then◌else◌, length,
}
use notchstave.Common.Rows.{order_by, filter}
use notchstave.Common.Tables.{first, update_where}

-- `request_status`
pub data RequestStatus : Type 0 where
  pending processing finished failed : RequestStatus

pub record Request (P R : Type 0) : Type 0 where
  pub id : ℕ
  pub payload : P
  pub status : RequestStatus
  pub attempts : ℕ
  pub requested_at : ℕ
  pub claimed_at : Option ℕ
  pub completed_at : Option ℕ
  pub outcome : Option R

pub record Queue (P R : Type 0) : Type 0 where
  pub now : ℕ
  pub next_id : ℕ
  pub requests : List (Request P R)

abbrev pub is_pending : RequestStatus → Bool
is_pending RequestStatus.pending = true
is_pending _ = false

abbrev pub is_processing : RequestStatus → Bool
is_processing RequestStatus.processing = true
is_processing _ = false

abbrev pub is_over : RequestStatus → Bool
is_over RequestStatus.finished = true
is_over RequestStatus.failed = true
is_over _ = false

-- `id = ANY(exclude)`
unfoldable pub mem : ℕ → List ℕ → Bool
mem i [] = false
mem i (j ∷ ids) = (j == i) || mem i ids

-- `t < now() - make_interval(secs => d)`, which is not true of NULL.
abbrev pub is_before : ℕ → ℕ → Option ℕ → Bool
is_before now d none = false
is_before now d (some t) = ltb (t + d) now

module _ {P R : Type 0} where
  abbrev pub is_claimable : List ℕ → (ℕ → Bool) → Request P R → Bool
  is_claimable exclude locked r =
      is_pending r.status && (not (mem r.id exclude) && not (locked r.id))

  -- The row that the sub-select of a claim finds.
  unfoldable pub next_pending : List ℕ → (ℕ → Bool) → Queue P R → Option (Request P R)
  unfolding mem order_by filter
  next_pending exclude locked q = first (
      order_by (λ (r : Request P R). r.requested_at)
        (filter (is_claimable exclude locked) q.requests))

  abbrev pub claimed : ℕ → Request P R → Request P R
  claimed now r = record r {
    status = RequestStatus.processing;
    attempts = r.attempts + 1;
    claimed_at = some now;
  }

  abbrev pub change : (Request P R → Bool) → (Request P R → Request P R) → Queue P R → Queue P R
  change test f q = record q { requests = update_where test f q.requests }

  abbrev claim : Option (Request P R) → Queue P R → Option (Request P R) × Queue P R
  claim none q = (none, q)
  claim (some r) q =
      (some (claimed q.now r), change (λ (p : Request P R). p.id == r.id) (claimed q.now) q)

  unfoldable pub claim_next : List ℕ → (ℕ → Bool) → Queue P R → Option (Request P R) × Queue P R
  unfolding next_pending update_where
  claim_next exclude locked q = claim (next_pending exclude locked q) q

  abbrev pub is_held : ℕ → Request P R → Bool
  is_held i r = (r.id == i) && is_processing r.status

  -- Whether a row is returned.
  abbrev pub found : List (Request P R) → Bool
  found [] = false
  found (r ∷ rows) = true

  abbrev pub over : RequestStatus → R → ℕ → Request P R → Request P R
  over status outcome now r = record r {
    status = status;
    outcome = some outcome;
    completed_at = some now;
  }

  unfoldable pub complete : ℕ → R → Queue P R → Bool × Queue P R
  unfolding update_where filter
  complete i outcome q = (
    found (filter (is_held i) q.requests),
    change (is_held i) (over RequestStatus.finished outcome q.now) q,
  )

  unfoldable pub refuse : ℕ → R → Queue P R → Bool × Queue P R
  unfolding update_where filter
  refuse i outcome q = (
    found (filter (is_held i) q.requests),
    change (is_held i) (over RequestStatus.failed outcome q.now) q,
  )

  abbrev pub requeued : Request P R → Request P R
  requeued r = record r { status = RequestStatus.pending; claimed_at = none }

  unfoldable pub requeue : ℕ → ℕ → Queue P R → Bool × Queue P R
  unfolding update_where filter
  requeue max_attempts i q =
      let target = λ (r : Request P R). is_held i r && ltb r.attempts max_attempts in
      (found (filter target q.requests), change target requeued q)

  abbrev pub is_stale : ℕ → ℕ → Request P R → Bool
  is_stale now lease r = is_processing r.status && is_before now lease r.claimed_at

  -- The statement that gives stale claims back, and the one that gives them up with `abandoned`.
  unfoldable pub reclaim : ℕ → ℕ → Queue P R → Queue P R
  unfolding update_where
  reclaim lease max_attempts q =
      change (λ (r : Request P R). is_stale q.now lease r && ltb r.attempts max_attempts) requeued q

  unfoldable pub abandon : R → ℕ → ℕ → Queue P R → Queue P R
  unfolding update_where
  abandon abandoned lease max_attempts q =
      change (λ (r : Request P R). is_stale q.now lease r && leb max_attempts r.attempts)
        (over RequestStatus.failed abandoned q.now) q

  unfoldable pub reclaim_stale : R → ℕ → ℕ → Queue P R → (ℕ × ℕ) × Queue P R
  unfolding filter reclaim abandon
  reclaim_stale abandoned lease max_attempts q =
      let q1 = reclaim lease max_attempts q in
      (
        (
          length (
              filter (λ (r : Request P R). is_stale q.now lease r && ltb r.attempts max_attempts)
                q.requests),
          length (
              filter (λ (r : Request P R). is_stale q1.now lease r && leb max_attempts r.attempts)
                q1.requests),
        ),
        abandon abandoned lease max_attempts q1,
      )

  abbrev pub is_old : ℕ → ℕ → Request P R → Bool
  is_old now retention r = is_over r.status && is_before now retention r.completed_at

  unfoldable pub prune_completed : ℕ → Queue P R → ℕ × Queue P R
  unfolding filter
  prune_completed retention q = (
    length (filter (is_old q.now retention) q.requests),
    record q { requests = filter (λ (r : Request P R). not (is_old q.now retention r)) q.requests },
  )

  -- The row that a client's `INSERT` adds.
  unfoldable pub enqueue : P → Queue P R → Queue P R
  enqueue payload q = record q {
    next_id = q.next_id + 1;
    requests =
        (record {
          id = q.next_id;
          payload = payload;
          status = RequestStatus.pending;
          attempts = 0;
          requested_at = q.now;
          claimed_at = none;
          completed_at = none;
          outcome = none;
        })
        ∷ q.requests;
  }
