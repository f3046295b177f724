-- ===== src/Deriver/Requests.antt =====
-- The three queues of deriver/requests.py, over the statements of `Deriver/Queue`: invoices to issue,
-- derivations to prove and addresses to move. JSON results, error messages and error details are not
-- modelled; an error code is its text.
use notchstave.Common.{ℕ, ◌*◌, Bool, Option, List}
use notchstave.Common.Text.{codes}
use notchstave.Deriver.Queue.{
  Request, Queue, claim_next, complete, refuse, requeue, reclaim_stale, prune_completed,
}

-- `InvoiceRequest`, without its id, attempts and time.
pub record InvoiceRequest : Type 0 where
  pub user_id : ℕ
  pub product_id : ℕ
  pub chain_id : ℕ
  pub asset_id : ℕ
  pub hd_account_id : ℕ

-- `IssuedInvoice` and `RefusedInvoice`
pub data InvoiceOutcome : Type 0 where
  issued_invoice : (invoice_id : ℕ) → InvoiceOutcome
  refused_invoice : (error_code : List ℕ) → InvoiceOutcome

pub record ProofRequest : Type 0 where
  pub user_id : ℕ
  pub invoice_id : ℕ

-- `ProvenAddress` and `RefusedProof`
pub data ProofOutcome : Type 0 where
  proven_address : (result_json : List ℕ) → ProofOutcome
  refused_proof : (error_code : List ℕ) → ProofOutcome

-- `other` is an action that this deriver does not know.
pub data AddressAction : Type 0 where
  release mark_funded other : AddressAction

pub record AddressLifecycleRequest : Type 0 where
  pub address_id : ℕ
  pub invoice_id : Option ℕ
  pub action : AddressAction
  pub cooldown_until : Option ℕ

pub data AddressOutcome : Type 0 where
  moved_address : AddressOutcome
  refused_address : (error_code : List ℕ) → AddressOutcome

abbrev pub default_max_attempts : ℕ
default_max_attempts = 3

-- In microseconds.
abbrev pub default_lease : ℕ
default_lease = 30 * 1_000_000

abbrev pub default_retention : ℕ
default_retention = 3_600 * 1_000_000

unfoldable pub abandoned_error_code : List ℕ
abandoned_error_code = codes "InvoiceRequestAbandoned"

unfoldable pub proof_abandoned_error_code : List ℕ
proof_abandoned_error_code = codes "ProofUnavailable"

unfoldable pub address_request_abandoned_error_code : List ℕ
address_request_abandoned_error_code = codes "AddressLifecycleAbandoned"

abbrev pub InvoiceQueue : Type 0
InvoiceQueue = Queue InvoiceRequest InvoiceOutcome

abbrev pub ProofQueue : Type 0
ProofQueue = Queue ProofRequest ProofOutcome

abbrev pub AddressQueue : Type 0
AddressQueue = Queue AddressLifecycleRequest AddressOutcome

unfoldable pub reclaim_stale_requests : ℕ → ℕ → InvoiceQueue → (ℕ × ℕ) × InvoiceQueue
unfolding reclaim_stale
reclaim_stale_requests = reclaim_stale (refused_invoice abandoned_error_code)

unfoldable pub claim_next_proof :
    List ℕ → (ℕ → Bool) → ProofQueue → Option (Request ProofRequest ProofOutcome) × ProofQueue
unfolding claim_next
claim_next_proof = claim_next

unfoldable pub complete_proof : ℕ → List ℕ → ProofQueue → Bool × ProofQueue
unfolding complete
complete_proof i result_json = complete i (proven_address result_json)

unfoldable pub refuse_proof : ℕ → List ℕ → ProofQueue → Bool × ProofQueue
unfolding refuse
refuse_proof i error_code = refuse i (refused_proof error_code)

unfoldable pub requeue_proof : ℕ → ℕ → ProofQueue → Bool × ProofQueue
unfolding requeue
requeue_proof = requeue

unfoldable pub reclaim_stale_proofs : ℕ → ℕ → ProofQueue → (ℕ × ℕ) × ProofQueue
unfolding reclaim_stale
reclaim_stale_proofs = reclaim_stale (refused_proof proof_abandoned_error_code)

unfoldable pub prune_completed_proofs : ℕ → ProofQueue → ℕ × ProofQueue
unfolding prune_completed
prune_completed_proofs = prune_completed

unfoldable pub claim_next_address_request :
    List ℕ
    → (ℕ → Bool)
    → AddressQueue
    → Option (Request AddressLifecycleRequest AddressOutcome) × AddressQueue
unfolding claim_next
claim_next_address_request = claim_next

unfoldable pub complete_address_request : ℕ → AddressQueue → Bool × AddressQueue
unfolding complete
complete_address_request i = complete i moved_address

unfoldable pub refuse_address_request : ℕ → List ℕ → AddressQueue → Bool × AddressQueue
unfolding refuse
refuse_address_request i error_code = refuse i (refused_address error_code)

unfoldable pub requeue_address_request : ℕ → ℕ → AddressQueue → Bool × AddressQueue
unfolding requeue
requeue_address_request = requeue

unfoldable pub reclaim_stale_address_requests : ℕ → ℕ → AddressQueue → (ℕ × ℕ) × AddressQueue
unfolding reclaim_stale
reclaim_stale_address_requests =
    reclaim_stale (refused_address address_request_abandoned_error_code)

unfoldable pub prune_completed_address_requests : ℕ → AddressQueue → ℕ × AddressQueue
unfolding prune_completed
prune_completed_address_requests = prune_completed
