-- ===== src/Deriver/Tests/Queues.antt =====
-- Runs of the deriver's queues (deriver/requests.py, deriver/main.py): two invoice requests, the second
-- one claimed, and an address that is latched.
use notchstave.Common.{
  ◌≤◌, ℕ, ◌+◌, ◌<◌, ◌≡◌, refl, ◌≢◌, true, false, Option, none, some, [], ◌∷◌, arith,
}
use notchstave.Common.Rows.{find}
use notchstave.Deriver.Pool.{PoolTables, PooledAddress, Result, done, peek_free_from_pool}
use notchstave.Deriver.Pool.Operations.{reserve_address_for_invoice}
use notchstave.Deriver.Pool.Sound.{after}
use notchstave.Deriver.Pool.Runs.{Run}
use notchstave.Deriver.Queue.{RequestStatus, claim_next, complete, reclaim_stale}
use notchstave.Deriver.Queue.Bounded.{IsBounded, IsSound, Step}
use notchstave.Deriver.Queue.Handed.{times_handed, times_handed-bound}
use notchstave.Deriver.Queue.Bounded
use notchstave.Deriver.Queue.Once.{answer, IsClosed, answer-IsClosed}
use notchstave.Deriver.Queue.Drain.{Ends}
use notchstave.Deriver.Requests.{
  InvoiceRequest, InvoiceOutcome, issued_invoice, InvoiceQueue, ProofQueue, ProofOutcome,
  AddressAction, AddressQueue,
}
use notchstave.Deriver.Serve.{
  InvoiceClaim, ProofClaim, AddressClaim, Served, serve_one, run_once, serve_one_proof,
  run_once_proofs, serve_one_address_request, run_once_address_requests,
}
use notchstave.Deriver.Serve.Passes.{passes-Ends}
use notchstave.Deriver.Serve.Atomic.{IsAtomic, serve_one-IsAtomic, mark_funded-NeverReserved}
use notchstave.Deriver.Tests.{tables, derive, tables-IsSound, none_locked}

abbrev asked : InvoiceRequest
asked = record { user_id = 7; product_id = 3; chain_id = 8453; asset_id = 2; hd_account_id = 1 }

abbrev request : ℕ → RequestStatus → ℕ → Option ℕ → InvoiceClaim
request i status attempts claimed = record {
  id = i;
  payload = asked;
  status = status;
  attempts = attempts;
  requested_at = i;
  claimed_at = claimed;
  completed_at = none;
  outcome = none;
}

abbrev queue : InvoiceQueue
queue = record {
  now = 100;
  next_id = 2;
  requests =
      request 0 RequestStatus.pending 0 none ∷ request 1 RequestStatus.processing 1 (some 90) ∷ [];
}

queue-IsSound : IsSound 3 queue
queue-IsSound = record {
  keys = ((omega arith, tt), (tt, tt));
  ids = omega arith;
  bounded = (
    record { waits = λ _. omega arith; within = omega arith },
    (record { waits = λ e. cc; within = omega arith }, tt),
  );
}

-- The issuer writes the number of the invoice that it issues.
abbrev issuer : InvoiceClaim → ℕ → Option (InvoiceOutcome × ℕ)
issuer r w = some (issued_invoice (r.id + 70), r.id + 70)

three : 0 < 3
three = omega arith

abbrev claimed_queue : InvoiceQueue
claimed_queue = (claim_next [] none_locked queue).1

abbrev one_claim : Bounded.Run {P = InvoiceRequest} {R = InvoiceOutcome} 3 three queue claimed_queue
one_claim =
    Bounded.Run.then_step queue queue claimed_queue (Bounded.Run.start queue)
      (Step.claims [] none_locked queue)

times_handed-bound_example : times_handed 3 three 1 queue claimed_queue one_claim ≤ 3
times_handed-bound_example =
    times_handed-bound 3 three 1 queue claimed_queue one_claim queue-IsSound

abbrev answered : InvoiceQueue
answered = (answer false 1 (issued_invoice 71) queue).1

answers : (answer false 1 (issued_invoice 71) queue).0 ≡ true
unfolding complete
answers = refl

-- The answer is written, and the queue is swept.
abbrev swept_queue : InvoiceQueue
swept_queue = (reclaim_stale (issued_invoice 0) 30 3 answered).1

abbrev one_sweep :
    Bounded.Run {P = InvoiceRequest} {R = InvoiceOutcome} 3 three answered swept_queue
one_sweep =
    Bounded.Run.then_step answered answered swept_queue (Bounded.Run.start answered)
      (Step.reclaims (issued_invoice 0) 30 answered)

answer-IsClosed_example : IsClosed 3 1 swept_queue
answer-IsClosed_example =
    answer-IsClosed 3 three false 1 (issued_invoice 71) queue swept_queue queue-IsSound answers
      one_sweep

serve_one-IsAtomic_example :
    IsAtomic
      (some (issued_invoice 71, 71))
      1
      queue
      5
      (serve_one 3 issuer (request 1 RequestStatus.processing 1 (some 90)) (queue, 5))
serve_one-IsAtomic_example =
    serve_one-IsAtomic 3 issuer (request 1 RequestStatus.processing 1 (some 90)) queue 5

serves : (serve_one 3 issuer (request 1 RequestStatus.processing 1 (some 90)) (queue, 5)).2 ≡ 71
unfolding serve_one
serves = refl

-- The settler asks to latch address 1.
abbrev latch : AddressClaim
latch = record {
  id = 0;
  payload = record {
    address_id = 1;
    invoice_id = none;
    action = AddressAction.mark_funded;
    cooldown_until = none;
  };
  status = RequestStatus.processing;
  attempts = 1;
  requested_at = 0;
  claimed_at = some 90;
  completed_at = none;
  outcome = none;
}

abbrev address_queue : AddressQueue
address_queue = record { now = 100; next_id = 1; requests = latch ∷ [] }

abbrev proof_queue : ProofQueue
proof_queue = record { now = 100; next_id = 0; requests = [] }

abbrev prover : ProofClaim → ℕ → Option ProofOutcome
prover r w = none

passes-Ends_example :
    Ends (serve_one 3 issuer) [] (run_once 3 issuer 3 queue 5)
    × Ends (serve_one_proof 3 prover) [] (run_once_proofs 3 prover 3 proof_queue 5)
    × Ends (serve_one_address_request 3) [] (run_once_address_requests 3 3 address_queue tables)
passes-Ends_example =
    passes-Ends 3 3 issuer prover queue 5 proof_queue 5 address_queue tables (omega arith)
      (omega arith) (omega arith)

abbrev latched_tables : PoolTables
latched_tables = (serve_one_address_request 3 latch (address_queue, tables)).2

latches : (serve_one_address_request 3 latch (address_queue, tables)).0 ≡ Served.applied
unfolding serve_one_address_request
latches = refl

abbrev next : Result (PooledAddress × PoolTables)
next = reserve_address_for_invoice derive none_locked 1 72 501 latched_tables

abbrev new_address : PooledAddress
new_address = record {
  address_id = 2;
  hd_account_id = 1;
  derivation_index = 2;
  address = derive 1 2;
  newly_derived = true;
}

derives : next ≡ done (new_address, after next latched_tables)
unfolding reserve_address_for_invoice peek_free_from_pool none_locked find derive
    serve_one_address_request
derives = refl

mark_funded-NeverReserved_example : 2 ≢ latch.payload.address_id
mark_funded-NeverReserved_example =
    mark_funded-NeverReserved derive 3 latch address_queue tables true latched_tables
      (after next latched_tables) none_locked 1 72 501 new_address tables-IsSound refl latches
      (Run.start latched_tables) derives
