-- ===== src/Deriver/Serve/Atomic.antt =====
-- What one service of a request leaves (deriver/main.py): the work and its answer are written together.
use notchstave.Common.{
  ℕ, ◌≡◌, refl, ◌≢◌, ◌⊎◌, inl, inr, Bool, true, ◌&&◌, not, Option, none, some, List, [], ◌∷◌, ◌==◌,
  arith, Bool-cases,
}
use mathlib.Core.Path.{subst}
use notchstave.Common.Rows.{filter}
use notchstave.Common.Tables.{first, update_where}
use notchstave.Deriver.Pool.{ReceiveAddress, PoolTables, PooledAddress, done, is_swept}
use notchstave.Deriver.Pool.Operations.{
  mark_address_funded, latched, some_row, reserve_address_for_invoice,
}
use notchstave.Deriver.Pool.Sound.{IsSound, mark_address_funded-IsSound}
use notchstave.Deriver.Pool.Runs.{Run}
use notchstave.Deriver.Pool.Funded.{has_funds, reserve_address_for_invoice-NeverFunded}
use notchstave.Deriver.Queue.{complete, requeue}
use notchstave.Deriver.Requests.{
  InvoiceOutcome, issued_invoice, refused_invoice, InvoiceQueue, AddressAction, AddressQueue,
}
use notchstave.Deriver.Serve.{
  InvoiceClaim, AddressClaim, Served, issued, applied, record_outcome, serve_one, apply_action,
  record_move, serve_one_address_request,
}

-- Either the tables are those that the issuer left, and the queue has the invoice as the answer; or the
-- tables are as they were before.
abbrev pub IsAtomic :
    {W : Type 0}
    → Option (InvoiceOutcome × W)
    → ℕ
    → InvoiceQueue
    → W
    → Served × InvoiceQueue × W
    → Type 0
IsAtomic {W} answer i q w (s, q1, w1) =
    ((invoice : ℕ) × (s ≡ issued)
      × (answer ≡ some (issued_invoice invoice, w1))
      × (complete i (issued_invoice invoice) q ≡ (true, q1)))
    ⊎ ((s ≢ issued) × (w1 ≡ w))

record_outcome-IsAtomic :
    {W : Type 0} (m : ℕ) (answer : Option (InvoiceOutcome × W)) (i : ℕ) (q : InvoiceQueue) (w : W)
    → IsAtomic answer i q w (record_outcome m answer i (q, w))
unfolding record_outcome
record_outcome-IsAtomic m none i q w = elim (Bool-cases (requeue m i q).0) [
  | inl e ↦ rw e (inr ((λ s. cc), refl))
  | inr e ↦ rw e (inr ((λ s. cc), refl))
]
record_outcome-IsAtomic m (some (refused_invoice code, w1)) i q w = inr ((λ s. cc), refl)
record_outcome-IsAtomic m (some (issued_invoice v, w1)) i q w =
    elim (Bool-cases (complete i (issued_invoice v) q).0) [
      | inl e ↦ rw e (inl (v, refl, refl, ground (arith, e)))
      | inr e ↦ rw e (inr ((λ s. cc), refl))
    ]

-- A service of an invoice request writes the issuer's tables only together with the answer that names
-- the invoice, in one transaction, and on a request that was being processed; in every other case, a
-- refusal, an exception and a lost lease, the tables are as they were.
pub serve_one-IsAtomic :
    {W : Type 0} (m : ℕ) (issuer : InvoiceClaim → W → Option (InvoiceOutcome × W))
    (request : InvoiceClaim) (q : InvoiceQueue) (w : W)
    → IsAtomic (issuer request w) request.id q w (serve_one m issuer request (q, w))
unfolding serve_one
serve_one-IsAtomic m issuer request q w =
    record_outcome-IsAtomic m (issuer request w) request.id q w

found-latched :
    (i now : ℕ) (rows : List ReceiveAddress)
    → some_row
        (first (filter (λ (r : ReceiveAddress). (r.id == i) && not (is_swept r.status)) rows))
      ≡ true
    → has_funds i (
        update_where
          (λ (r : ReceiveAddress). (r.id == i) && not (is_swept r.status))
          (latched now)
          rows)
      ≡ true
unfolding has_funds filter update_where
found-latched i now [] h = cc
found-latched i now (r ∷ rows) h = ground (arith, found-latched i now rows)

-- The moves that latch an address leave it with funds.
latch-has_funds :
    (i : ℕ) (db : PoolTables)
    → (mark_address_funded i db).0 ≡ true
    → has_funds i (mark_address_funded i db).1.addresses ≡ true
unfolding mark_address_funded
latch-has_funds i db h = found-latched i db.now db.addresses h

applied-moved :
    (m i j : ℕ) (action : AddressAction) (until : Option ℕ) (q : AddressQueue) (db : PoolTables)
    → action ≡ AddressAction.mark_funded
    → (record_move m (apply_action action until j db) i (q, db)).0 ≡ applied
    → ((mark_address_funded j db).0 ≡ true)
      × ((record_move m (apply_action action until j db) i (q, db)).2
          ≡ (mark_address_funded j db).1)
unfolding record_move apply_action
applied-moved m i j AddressAction.mark_funded until q db asks h = ground arith
applied-moved m i j AddressAction.release until q db asks h = cc
applied-moved m i j AddressAction.other until q db asks h = cc

-- Once the deriver has applied the settler's request to latch an address, no reservation returns that
-- address again, whatever operations run on the pool afterwards.
pub mark_funded-NeverReserved :
    (derive : ℕ → ℕ → ℕ) (m : ℕ) (request : AddressClaim) (q : AddressQueue) (db : PoolTables)
    (alone : Bool) (last end : PoolTables) (locked : ℕ → Bool) (account invoice block : ℕ)
    (a : PooledAddress)
    → IsSound derive db
    → request.payload.action ≡ AddressAction.mark_funded
    → (serve_one_address_request m request (q, db)).0 ≡ applied
    → Run derive alone (serve_one_address_request m request (q, db)).2 last
    → reserve_address_for_invoice derive locked account invoice block last ≡ done (a, end)
    → a.address_id ≢ request.payload.address_id
unfolding serve_one_address_request
mark_funded-NeverReserved derive m request q db alone last end locked account invoice block a ok
      asks h run e =
    let i = request.payload.address_id in
    let (latched, left) =
      applied-moved m request.id i request.payload.action request.payload.cooldown_until q db asks
        h in
    let sound = mark_address_funded-IsSound derive i db ok in
    reserve_address_for_invoice-NeverFunded derive i account invoice block locked alone
      (mark_address_funded i db).1 last end a sound (latch-has_funds i db latched)
      (subst (λ t. Run derive alone t last) left run) e
