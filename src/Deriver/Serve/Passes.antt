-- ===== src/Deriver/Serve/Passes.antt =====
-- The passes of the deriver over its queues (deriver/main.py): they end, and keep the pool sound.
use notchstave.Common.{
  ℕ, ◌<◌, ◌≤◌, ◌≡◌, refl, inl, inr, Option, none, some, List, [], ◌∷◌, ◌&&◌, ltb, length, arith,
  Bool-cases,
}
use notchstave.Deriver.Pool.{PoolTables}
use notchstave.Deriver.Pool.Sound.{IsSound, schedule_release-IsSound, mark_address_funded-IsSound}
use notchstave.Deriver.Queue.{
  Request, Queue, RequestStatus, is_held, over, requeued, complete, refuse, requeue,
}
use notchstave.Deriver.Queue.Drain.{drain, Ends, drain-Ends, HoldsAfter, drain-HoldsAfter}
use notchstave.Deriver.Queue.Left.{ids_of, count_left, ids-change}
use notchstave.Deriver.Requests.{
  InvoiceOutcome, issued_invoice, refused_invoice, InvoiceQueue, abandoned_error_code, ProofOutcome,
  proven_address, refused_proof, ProofQueue, proof_abandoned_error_code, refused_address,
  moved_address, AddressAction, AddressQueue, complete_proof, refuse_proof, requeue_proof,
  complete_address_request, refuse_address_request, requeue_address_request,
}
use notchstave.Deriver.Serve.{
  InvoiceClaim, ProofClaim, record_outcome, serve_one, run_once, record_proof, serve_one_proof,
  run_once_proofs, Moved, failed, address_lifecycle_failed, unknown_address_action, unknown_action,
  changed, apply_action, record_move, serve_one_address_request, run_once_address_requests,
}

count_left-le-length : (attempted ids : List ℕ) → count_left attempted ids ≤ length ids
unfolding count_left
count_left-le-length attempted [] = omega arith
count_left-le-length attempted (i ∷ ids) = ground (arith, count_left-le-length attempted ids)

module _ {P R : Type 0} where
  ids-complete : (i : ℕ) (outcome : R) (q : Queue P R) → ids_of (complete i outcome q).1 ≡ ids_of q
  unfolding complete
  ids-complete i outcome q =
      ids-change (is_held i) (over RequestStatus.finished outcome q.now) q (λ r. refl)

  ids-refuse : (i : ℕ) (outcome : R) (q : Queue P R) → ids_of (refuse i outcome q).1 ≡ ids_of q
  unfolding refuse
  ids-refuse i outcome q =
      ids-change (is_held i) (over RequestStatus.failed outcome q.now) q (λ r. refl)

  ids-requeue : (m i : ℕ) (q : Queue P R) → ids_of (requeue m i q).1 ≡ ids_of q
  unfolding requeue
  ids-requeue m i q =
      ids-change (λ (r : Request P R). is_held i r && ltb r.attempts m) requeued q (λ r. refl)

ids-record_outcome :
    {W : Type 0} (m : ℕ) (answer : Option (InvoiceOutcome × W)) (i : ℕ) (q : InvoiceQueue) (w : W)
    → ids_of (record_outcome m answer i (q, w)).1 ≡ ids_of q
unfolding record_outcome
ids-record_outcome m none i q w =
    ground (arith, ids-requeue m i q, ids-refuse i (refused_invoice abandoned_error_code) q)
ids-record_outcome m (some (refused_invoice code, w1)) i q w = ids-refuse i (refused_invoice code) q
ids-record_outcome m (some (issued_invoice v, w1)) i q w =
    ground (arith, ids-complete i (issued_invoice v) q)

ids-record_proof :
    (m : ℕ) (answer : Option ProofOutcome) (i : ℕ) (q : ProofQueue)
    → ids_of (record_proof m answer i q).1 ≡ ids_of q
unfolding record_proof complete_proof refuse_proof requeue_proof
ids-record_proof m none i q =
    ground (arith, ids-requeue m i q, ids-refuse i (refused_proof proof_abandoned_error_code) q)
ids-record_proof m (some (refused_proof code)) i q = ids-refuse i (refused_proof code) q
ids-record_proof m (some (proven_address json)) i q =
    ground (arith, ids-complete i (proven_address json) q)

ids-record_move :
    (m : ℕ) (move : Moved) (i : ℕ) (q : AddressQueue) (db : PoolTables)
    → ids_of (record_move m move i (q, db)).1 ≡ ids_of q
unfolding record_move complete_address_request refuse_address_request requeue_address_request
ids-record_move m failed i q db =
    ground (arith, ids-requeue m i q, ids-refuse i (refused_address address_lifecycle_failed) q)
ids-record_move m unknown_action i q db = ids-refuse i (refused_address unknown_address_action) q
ids-record_move m (changed moved after) i q db = ground (arith, ids-complete i moved_address q)

Ends-enough :
    {P R W O : Type 0} (serve : Request P R → Queue P R × W → O × Queue P R × W) (fuel : ℕ)
    (q : Queue P R) (w : W)
    → ((r : Request P R) (q : Queue P R) (w : W) → ids_of (serve r (q, w)).1 ≡ ids_of q)
    → length (ids_of q) < fuel
    → Ends serve [] (drain serve fuel [] q w)
Ends-enough serve fuel q w keeps enough =
    drain-Ends serve keeps fuel [] q w (omega (arith, count_left-le-length [] (ids_of q)))

-- Whatever the issuers answer or raise, and whatever is in the queues: with one round more than the
-- requests of its queue, each of the three passes ends, and it serves no request twice.
pub passes-Ends :
    {W V : Type 0} (m fuel : ℕ) (issuer : InvoiceClaim → W → Option (InvoiceOutcome × W))
    (prover : ProofClaim → V → Option ProofOutcome) (q : InvoiceQueue) (w : W) (p : ProofQueue)
    (v : V) (a : AddressQueue) (db : PoolTables)
    → length (ids_of q) < fuel
    → length (ids_of p) < fuel
    → length (ids_of a) < fuel
    → Ends (serve_one m issuer) [] (run_once m issuer fuel q w)
      × Ends (serve_one_proof m prover) [] (run_once_proofs m prover fuel p v)
      × Ends (serve_one_address_request m) [] (run_once_address_requests m fuel a db)
unfolding run_once run_once_proofs run_once_address_requests
passes-Ends m fuel issuer prover q w p v a db enough enough' enough'' = (
  Ends-enough (serve_one m issuer) fuel q w
      (λ r q w. unfold serve_one in (ids-record_outcome m (issuer r w) r.id q w)) enough,
  Ends-enough (serve_one_proof m prover) fuel p v
      (λ r q w. unfold serve_one_proof in (ids-record_proof m (prover r w) r.id q)) enough',
  Ends-enough (serve_one_address_request m) fuel a db
      (λ r q db.
        unfold serve_one_address_request in
        (ids-record_move m
          (apply_action r.payload.action r.payload.cooldown_until r.payload.address_id db) r.id q
          db))
      enough'',
)

-- The pool after a move is sound.
MoveIsSound : (ℕ → ℕ → ℕ) → Moved → Type 0
MoveIsSound derive (changed moved db) = IsSound derive db
MoveIsSound derive _ = Unit

apply_action-IsSound :
    (derive : ℕ → ℕ → ℕ) (action : AddressAction) (until : Option ℕ) (i : ℕ) (db : PoolTables)
    → IsSound derive db
    → MoveIsSound derive (apply_action action until i db)
unfolding apply_action MoveIsSound
apply_action-IsSound derive AddressAction.release none i db ok = tt
apply_action-IsSound derive AddressAction.release (some t) i db ok =
    schedule_release-IsSound derive i t db ok
apply_action-IsSound derive AddressAction.mark_funded until i db ok =
    mark_address_funded-IsSound derive i db ok
apply_action-IsSound derive AddressAction.other until i db ok = tt

record_move-IsSound :
    (derive : ℕ → ℕ → ℕ) (m : ℕ) (move : Moved) (i : ℕ) (q : AddressQueue) (db : PoolTables)
    → IsSound derive db
    → MoveIsSound derive move
    → IsSound derive (record_move m move i (q, db)).2
unfolding record_move MoveIsSound
record_move-IsSound derive m failed i q db ok moved =
    elim (Bool-cases (requeue_address_request m i q).0) [ inl e ↦ rw e ok | inr e ↦ rw e ok ]
record_move-IsSound derive m unknown_action i q db ok moved = ok
record_move-IsSound derive m (changed row after) i q db ok moved =
    elim (Bool-cases (complete_address_request i q).0) [ inl e ↦ rw e moved | inr e ↦ rw e ok ]

-- A pass over the address requests keeps the pool sound, whatever they ask for.
run_once_address_requests-IsSound :
    (derive : ℕ → ℕ → ℕ) (m fuel : ℕ) (q : AddressQueue) (db : PoolTables)
    → IsSound derive db
    → HoldsAfter
        (serve_one_address_request m)
        (IsSound derive)
        (run_once_address_requests m fuel q db)
unfolding run_once_address_requests
run_once_address_requests-IsSound derive m fuel q db ok =
    drain-HoldsAfter (serve_one_address_request m) (IsSound derive)
      (λ r q db h.
        unfold serve_one_address_request in
        (record_move-IsSound derive m
          (apply_action r.payload.action r.payload.cooldown_until r.payload.address_id db) r.id q db
          h
          (apply_action-IsSound derive r.payload.action r.payload.cooldown_until
            r.payload.address_id db h)))
      fuel [] q db ok
