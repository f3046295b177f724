-- ===== src/Deriver/Serve.antt =====
-- The process that serves the queues (deriver/main.py): one request at a time, each with its transaction.
-- The issuers are parameters over the tables `W` that they write; `none` is an exception of theirs.
pub mod Passes
pub mod Atomic
use notchstave.Common.{
  ℕ, suc, ◌+◌, Bool, true, false, Option, none, some, List, [], ◌∷◌, if◌then◌else◌, length,
}
use notchstave.Common.Text.{codes}
use notchstave.Deriver.Pool.{PoolTables}
use notchstave.Deriver.Pool.Operations.{
  schedule_release, mark_address_funded, release_due_addresses, hd_account_ids,
}
use notchstave.Deriver.Queue.{Request, Queue, complete, refuse, requeue, prune_completed}
use notchstave.Deriver.Queue.Drain.{drain}
use notchstave.Deriver.Requests.{
  InvoiceRequest, InvoiceOutcome, issued_invoice, refused_invoice, InvoiceQueue,
  abandoned_error_code, ProofRequest, ProofOutcome, proven_address, refused_proof, ProofQueue,
  proof_abandoned_error_code, AddressLifecycleRequest, AddressAction, AddressOutcome, AddressQueue,
  reclaim_stale_requests, complete_proof, refuse_proof, requeue_proof, reclaim_stale_proofs,
  prune_completed_proofs, complete_address_request, refuse_address_request, requeue_address_request,
  reclaim_stale_address_requests, prune_completed_address_requests,
}

pub data Served : Type 0 where
  issued proven refused retry abandoned lease_lost applied noop : Served

abbrev pub InvoiceClaim : Type 0
InvoiceClaim = Request InvoiceRequest InvoiceOutcome

abbrev pub ProofClaim : Type 0
ProofClaim = Request ProofRequest ProofOutcome

abbrev pub AddressClaim : Type 0
AddressClaim = Request AddressLifecycleRequest AddressOutcome

module _ {W : Type 0} (max_attempts : ℕ) where
  -- `serve_one` once the issuer has answered; `w` are the tables before it.
  unfoldable pub record_outcome :
      Option (InvoiceOutcome × W) → ℕ → InvoiceQueue × W → Served × InvoiceQueue × W
  unfolding requeue refuse complete
  record_outcome none i (q, w) =
      let (again, q1) = requeue max_attempts i q in
      if again
      then (retry, q1, w)
      else (abandoned, (refuse i (refused_invoice abandoned_error_code) q).1, w)
  record_outcome (some (refused_invoice error_code, w1)) i (q, w) =
      (refused, (refuse i (refused_invoice error_code) q).1, w)
  record_outcome (some (issued_invoice invoice, w1)) i (q, w) =
      let (held, q1) = complete i (issued_invoice invoice) q in
      if held then (issued, q1, w1) else (lease_lost, q, w)

  -- `serve_one`
  unfoldable pub serve_one :
      (InvoiceClaim → W → Option (InvoiceOutcome × W))
      → InvoiceClaim
      → InvoiceQueue × W
      → Served × InvoiceQueue × W
  unfolding record_outcome
  serve_one issuer request (q, w) = record_outcome (issuer request w) request.id (q, w)

  -- `run_once`
  unfoldable pub run_once :
      (InvoiceClaim → W → Option (InvoiceOutcome × W))
      → ℕ
      → InvoiceQueue
      → W
      → Option (List (InvoiceClaim × Served) × InvoiceQueue × W)
  unfolding drain serve_one
  run_once issuer fuel q w = drain (serve_one issuer) fuel [] q w

-- `serve_one_proof` once the issuer has answered. A proof writes nothing but its answer.
unfoldable pub record_proof : ℕ → Option ProofOutcome → ℕ → ProofQueue → Served × ProofQueue
unfolding requeue_proof refuse_proof complete_proof
record_proof max_attempts none i q =
    let (again, q1) = requeue_proof max_attempts i q in
    if again then (retry, q1) else (abandoned, (refuse_proof i proof_abandoned_error_code q).1)
record_proof max_attempts (some (refused_proof error_code)) i q =
    (refused, (refuse_proof i error_code q).1)
record_proof max_attempts (some (proven_address result_json)) i q =
    let (held, q1) = complete_proof i result_json q in
    if held then (proven, q1) else (lease_lost, q)

-- `serve_one_proof`; the issuer reads tables `W`.
unfoldable pub serve_one_proof :
    {W : Type 0}
    → ℕ
    → (ProofClaim → W → Option ProofOutcome)
    → ProofClaim
    → ProofQueue × W
    → Served × ProofQueue × W
unfolding record_proof
serve_one_proof max_attempts issuer request (q, w) =
    let (answer, q1) = record_proof max_attempts (issuer request w) request.id q in (answer, q1, w)

-- `run_once_proofs`
unfoldable pub run_once_proofs :
    {W : Type 0}
    → ℕ
    → (ProofClaim → W → Option ProofOutcome)
    → ℕ
    → ProofQueue
    → W
    → Option (List (ProofClaim × Served) × ProofQueue × W)
unfolding drain serve_one_proof
run_once_proofs max_attempts issuer fuel q w =
    drain (serve_one_proof max_attempts issuer) fuel [] q w

-- What an address request did: an exception, an action that is not known, or whether a row changed.
pub data Moved : Type 0 where
  failed unknown_action : Moved
  changed : Bool → PoolTables → Moved

abbrev after_move : Bool × PoolTables → Moved
after_move (moved, db) = changed moved db

abbrev release_until : Option ℕ → ℕ → PoolTables → Moved
release_until none address db = failed
release_until (some until) address db = after_move (schedule_release address until db)

-- The `try` block of `serve_one_address_request`.
unfoldable pub apply_action : AddressAction → Option ℕ → ℕ → PoolTables → Moved
unfolding schedule_release mark_address_funded
apply_action AddressAction.release until address db = release_until until address db
apply_action AddressAction.mark_funded until address db =
    after_move (mark_address_funded address db)
apply_action AddressAction.other until address db = unknown_action

unfoldable pub unknown_address_action : List ℕ
unknown_address_action = codes "UnknownAddressAction"

unfoldable pub address_lifecycle_failed : List ℕ
address_lifecycle_failed = codes "AddressLifecycleFailed"

-- The rest of `serve_one_address_request`; `db` is the pool before the action.
unfoldable pub record_move :
    ℕ → Moved → ℕ → AddressQueue × PoolTables → Served × AddressQueue × PoolTables
unfolding requeue_address_request refuse_address_request complete_address_request
record_move max_attempts failed i (q, db) =
    let (again, q1) = requeue_address_request max_attempts i q in
    if again
    then (retry, q1, db)
    else (abandoned, (refuse_address_request i address_lifecycle_failed q).1, db)
record_move max_attempts unknown_action i (q, db) =
    (refused, (refuse_address_request i unknown_address_action q).1, db)
record_move max_attempts (changed moved after) i (q, db) =
    let (held, q1) = complete_address_request i q in
    if held then (if moved then applied else noop, q1, after) else (lease_lost, q, db)

-- `serve_one_address_request`
unfoldable pub serve_one_address_request :
    ℕ → AddressClaim → AddressQueue × PoolTables → Served × AddressQueue × PoolTables
unfolding record_move apply_action
serve_one_address_request max_attempts request (q, db) =
    let r = request.payload in
    record_move max_attempts (apply_action r.action r.cooldown_until r.address_id db) request.id
      (q, db)

-- `run_once_address_requests`
unfoldable pub run_once_address_requests :
    ℕ
    → ℕ
    → AddressQueue
    → PoolTables
    → Option (List (AddressClaim × Served) × AddressQueue × PoolTables)
unfolding drain serve_one_address_request
run_once_address_requests max_attempts fuel q db =
    drain (serve_one_address_request max_attempts) fuel [] q db

unfoldable pub release_accounts : (ℕ → Bool) → List ℕ → PoolTables → ℕ × PoolTables
unfolding release_due_addresses
release_accounts live [] db = (0, db)
release_accounts live (account ∷ accounts) db =
    let (freed, db1) = release_due_addresses live account db in
    let (released, db2) = release_accounts live accounts db1 in (length freed + released, db2)

-- `release_due_everywhere`
unfoldable pub release_due_everywhere : (ℕ → Bool) → PoolTables → ℕ × PoolTables
unfolding release_accounts hd_account_ids
release_due_everywhere live db = release_accounts live (hd_account_ids db) db

-- `housekeeping`
unfoldable pub housekeeping : ℕ → ℕ → ℕ → InvoiceQueue → (ℕ × ℕ × ℕ) × InvoiceQueue
unfolding reclaim_stale_requests prune_completed
housekeeping lease max_attempts retention q =
    let ((requeued, given_up), q1) = reclaim_stale_requests lease max_attempts q in
    let (pruned, q2) = prune_completed retention q1 in ((requeued, given_up, pruned), q2)

-- `housekeeping_proofs`
unfoldable pub housekeeping_proofs : ℕ → ℕ → ℕ → ProofQueue → (ℕ × ℕ × ℕ) × ProofQueue
unfolding reclaim_stale_proofs prune_completed_proofs
housekeeping_proofs lease max_attempts retention q =
    let ((requeued, given_up), q1) = reclaim_stale_proofs lease max_attempts q in
    let (pruned, q2) = prune_completed_proofs retention q1 in ((requeued, given_up, pruned), q2)

-- `housekeeping_address_requests`
unfoldable pub housekeeping_address_requests :
    (ℕ → Bool) → ℕ → ℕ → ℕ → AddressQueue → PoolTables → (ℕ × ℕ × ℕ) × AddressQueue × PoolTables
unfolding reclaim_stale_address_requests prune_completed_address_requests release_due_everywhere
housekeeping_address_requests live lease max_attempts retention q db =
    let ((requeued, given_up), q1) = reclaim_stale_address_requests lease max_attempts q in
    let (pruned, q2) = prune_completed_address_requests retention q1 in
    ((requeued, given_up, pruned), q2, (release_due_everywhere live db).1)
