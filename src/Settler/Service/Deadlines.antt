-- ===== src/Settler/Service/Deadlines.antt =====
-- The expiry past the rate lock (settler/service.py).
use notchstave.Common.{ℕ, ◌≡◌, true, false, List, [], ◌∷◌, arith}
use notchstave.Settler.Ledger.{Invoice, Payment, Ledger}
use notchstave.Settler.Ledger.Invoices.{has_payment, expire_invoice_past_rate_lock}
use notchstave.Settler.Ledger.Outbox.{enqueue_notification, write_audit}
use notchstave.Settler.Service.Sweeps.{
  expire_stale_row, expire_stale_rows, expire_stale_invoices, invoices_past_rate_lock,
}

-- No invoice of the list has a payment.
unfoldable pub AllUnpaid : List Payment → List ℕ → Type 0
AllUnpaid payments [] = Unit
AllUnpaid payments (i ∷ ids) = (has_payment i payments ≡ false) × AllUnpaid payments ids

payments-expire_stale_row :
    (r : Invoice) (db : Ledger) → (expire_stale_row r db).1.payments ≡ db.payments
unfolding expire_stale_row expire_invoice_past_rate_lock enqueue_notification write_audit
payments-expire_stale_row r db = ground arith

expire_stale_row-unpaid :
    (r : Invoice) (db : Ledger)
    → (expire_stale_row r db).0 ≡ true
    → has_payment r.id db.payments ≡ false
unfolding expire_stale_row expire_invoice_past_rate_lock
expire_stale_row-unpaid r db moved = ground arith

expire_stale_rows-AllUnpaid :
    (rows : List Invoice) (db : Ledger) → AllUnpaid db.payments (expire_stale_rows rows db).0
unfolding expire_stale_rows AllUnpaid
expire_stale_rows-AllUnpaid [] db = tt
expire_stale_rows-AllUnpaid (r ∷ rows) db = grind (
  arith,
  payments-expire_stale_row r db,
  expire_stale_row-unpaid r db,
  expire_stale_rows-AllUnpaid rows (expire_stale_row r db).1,
)

-- Every invoice that the pass past the rate lock expires has no payment row at all, of any status.
pub expire_stale_invoices-AllUnpaid :
    (limit : ℕ) (db : Ledger) → AllUnpaid db.payments (expire_stale_invoices limit db).0
unfolding expire_stale_invoices
expire_stale_invoices-AllUnpaid limit db =
    expire_stale_rows-AllUnpaid (invoices_past_rate_lock limit db) db
