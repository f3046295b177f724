-- ===== src/Settler/Service/Consistency/Passes.antt =====
-- The reorg and the passes (settler/service.py) keep the invariant between invoices and grants.
use notchstave.Common.{ℕ, ◌≡◌, refl, Bool, not, ◌&&◌, List, [], ◌∷◌, arith}
use notchstave.Enums.{InvoiceStatus}
use notchstave.Settler.Ledger.{Invoice, ReceiveAddress, Payment, Entitlement, Ledger}
use notchstave.Settler.Ledger.Invoices.{unsettle_invoice}
use notchstave.Settler.Ledger.Payments.{revert_payments_in_orphaned_blocks}
use notchstave.Settler.Ledger.Grants.{mem, revoke_entitlements_for_invoices}
use notchstave.Settler.Ledger.Outbox.{write_audit, enqueue_address_request}
use notchstave.Settler.Service.Reorg.{
  unsettle_invoices, notify_revoked, audit_reorg, take_back, handle_reorg, invoice_ids,
}
use notchstave.Settler.Service.Sweeps.{
  sweep_row, sweep_rows, sweep_expired_invoices, expire_stale_row, expire_stale_rows,
  expire_stale_invoices, notify_seen_row, notify_seen_rows, notify_seen_payments, review_rows,
  review_anomalous_payments, invoices_past_topup_window, invoices_past_rate_lock,
  unnotified_seen_payments, unreviewed_anomalous_payments,
}
use notchstave.Settler.Service.Addresses.{latch_rows, release_rows, sync_address_lifecycle}
use notchstave.Settler.Service.Consistency.{
  settled_row, Agree, IsConsistent, has_active-revoke_rows, settled_row-unsettle_invoice,
  enqueue_notification-IsConsistent, open_manual_review-IsConsistent,
  mark_payment_seen_notified-IsConsistent, expire_invoice-IsConsistent,
  expire_invoice_past_rate_lock-IsConsistent,
}

pub settled_row-unsettle_invoices :
    (j : ℕ) (ids : List ℕ) (db : Ledger)
    → settled_row j (unsettle_invoices ids db).1.invoices
      ≡ (not (mem j ids) && settled_row j db.invoices)
unfolding unsettle_invoices mem
settled_row-unsettle_invoices j [] db = ground arith
settled_row-unsettle_invoices j (i ∷ is) db =
    grind (arith, settled_row-unsettle_invoices j is, settled_row-unsettle_invoice j i db)

entitlements-unsettle_invoices :
    (ids : List ℕ) (db : Ledger) → (unsettle_invoices ids db).1.entitlements ≡ db.entitlements
unfolding unsettle_invoices unsettle_invoice
entitlements-unsettle_invoices [] db = refl
entitlements-unsettle_invoices (i ∷ is) db = grind (arith, entitlements-unsettle_invoices is)

notify_revoked-IsConsistent :
    (es : List Entitlement) (db : Ledger) → IsConsistent db → IsConsistent (notify_revoked es db).1
unfolding notify_revoked
notify_revoked-IsConsistent [] db ok = ok
notify_revoked-IsConsistent (e ∷ es) db ok =
    grind (arith, notify_revoked-IsConsistent es, enqueue_notification-IsConsistent)

audit_reorg-IsConsistent :
    (unsettled : List (ℕ × InvoiceStatus)) (ids : List ℕ) (db : Ledger)
    → IsConsistent db
    → IsConsistent (audit_reorg unsettled ids db)
unfolding audit_reorg write_audit
audit_reorg-IsConsistent unsettled [] db ok = ok
audit_reorg-IsConsistent unsettled (i ∷ is) db ok = audit_reorg-IsConsistent unsettled is _ ok

-- Taking back from any invoices what they bought.
unsettle_revoked-IsConsistent :
    (ids : List ℕ) (db : Ledger)
    → IsConsistent db
    → IsConsistent (unsettle_invoices ids (revoke_entitlements_for_invoices ids db).1).1
unfolding revoke_entitlements_for_invoices Agree
unsettle_revoked-IsConsistent ids db ok j =
    let revoked = (revoke_entitlements_for_invoices ids db).1 in
    ground (
      arith,
      ok j,
      settled_row-unsettle_invoices j ids revoked,
      entitlements-unsettle_invoices ids revoked,
      has_active-revoke_rows j db.now ids db.entitlements,
    )

take_back-IsConsistent :
    (chain : ℕ) (ps : List Payment) (db : Ledger)
    → IsConsistent db
    → IsConsistent (take_back chain ps db).1
unfolding take_back
take_back-IsConsistent chain [] db ok = ok
take_back-IsConsistent chain (p ∷ ps) db ok = grind (
  arith,
  audit_reorg-IsConsistent,
  notify_revoked-IsConsistent,
  unsettle_revoked-IsConsistent (invoice_ids (p ∷ ps)) db ok,
)

-- Where every invoice is settled exactly if it has an active grant, a reorg of any chain leaves that true:
-- the invoices that it returns to the buyer are those whose grants it revokes.
pub handle_reorg-IsConsistent :
    (chain : ℕ) (db : Ledger) → IsConsistent db → IsConsistent (handle_reorg chain db).1
unfolding handle_reorg revert_payments_in_orphaned_blocks
handle_reorg-IsConsistent chain db ok = grind (arith, take_back-IsConsistent)

sweep_row-IsConsistent :
    (r : Invoice) (money : Bool) (db : Ledger)
    → IsConsistent db
    → IsConsistent (sweep_row r money db).1
unfolding sweep_row write_audit
sweep_row-IsConsistent r money db ok =
    grind (arith, expire_invoice-IsConsistent, open_manual_review-IsConsistent)

sweep_rows-IsConsistent :
    (rows : List (Invoice × Bool)) (db : Ledger)
    → IsConsistent db
    → IsConsistent (sweep_rows rows db).1
unfolding sweep_rows
sweep_rows-IsConsistent [] db ok = ok
sweep_rows-IsConsistent ((r, money) ∷ rows) db ok =
    sweep_rows-IsConsistent rows (sweep_row r money db).1 (sweep_row-IsConsistent r money db ok)

expire_stale_row-IsConsistent :
    (r : Invoice) (db : Ledger) → IsConsistent db → IsConsistent (expire_stale_row r db).1
unfolding expire_stale_row write_audit
expire_stale_row-IsConsistent r db ok =
    grind (arith, expire_invoice_past_rate_lock-IsConsistent, enqueue_notification-IsConsistent)

expire_stale_rows-IsConsistent :
    (rows : List Invoice) (db : Ledger)
    → IsConsistent db
    → IsConsistent (expire_stale_rows rows db).1
unfolding expire_stale_rows
expire_stale_rows-IsConsistent [] db ok = ok
expire_stale_rows-IsConsistent (r ∷ rows) db ok =
    expire_stale_rows-IsConsistent rows (expire_stale_row r db).1
      (expire_stale_row-IsConsistent r db ok)

notify_seen_rows-IsConsistent :
    (rows : List (Payment × Invoice)) (db : Ledger)
    → IsConsistent db
    → IsConsistent (notify_seen_rows rows db).1
unfolding notify_seen_rows notify_seen_row
notify_seen_rows-IsConsistent [] db ok = ok
notify_seen_rows-IsConsistent ((p, r) ∷ rows) db ok = grind (
  arith,
  notify_seen_rows-IsConsistent rows,
  mark_payment_seen_notified-IsConsistent,
  enqueue_notification-IsConsistent,
)

review_rows-IsConsistent :
    (ps : List Payment) (db : Ledger) → IsConsistent db → IsConsistent (review_rows ps db).1
unfolding review_rows
review_rows-IsConsistent [] db ok = ok
review_rows-IsConsistent (p ∷ ps) db ok =
    grind (arith, review_rows-IsConsistent ps, open_manual_review-IsConsistent)

latch_rows-IsConsistent :
    (rows : List ReceiveAddress) (db : Ledger)
    → IsConsistent db
    → IsConsistent (latch_rows rows db).1
unfolding latch_rows enqueue_address_request
latch_rows-IsConsistent [] db ok = ok
latch_rows-IsConsistent (a ∷ rows) db ok = grind (arith, latch_rows-IsConsistent rows)

release_rows-IsConsistent :
    (cooldown : ℕ) (rows : List (ReceiveAddress × Invoice)) (db : Ledger)
    → IsConsistent db
    → IsConsistent (release_rows cooldown rows db).1
unfolding release_rows enqueue_address_request
release_rows-IsConsistent cooldown [] db ok = ok
release_rows-IsConsistent cooldown ((a, r) ∷ rows) db ok =
    grind (arith, release_rows-IsConsistent cooldown rows)

pub sweep_expired_invoices-IsConsistent :
    (limit : ℕ) (db : Ledger) → IsConsistent db → IsConsistent (sweep_expired_invoices limit db).1
unfolding sweep_expired_invoices
sweep_expired_invoices-IsConsistent limit db ok =
    sweep_rows-IsConsistent (invoices_past_topup_window limit db) db ok

pub expire_stale_invoices-IsConsistent :
    (limit : ℕ) (db : Ledger) → IsConsistent db → IsConsistent (expire_stale_invoices limit db).1
unfolding expire_stale_invoices
expire_stale_invoices-IsConsistent limit db ok =
    expire_stale_rows-IsConsistent (invoices_past_rate_lock limit db) db ok

pub notify_seen_payments-IsConsistent :
    (limit : ℕ) (db : Ledger) → IsConsistent db → IsConsistent (notify_seen_payments limit db).1
unfolding notify_seen_payments
notify_seen_payments-IsConsistent limit db ok =
    notify_seen_rows-IsConsistent (unnotified_seen_payments limit db) db ok

pub review_anomalous_payments-IsConsistent :
    (limit : ℕ) (db : Ledger)
    → IsConsistent db
    → IsConsistent (review_anomalous_payments limit db).1
unfolding review_anomalous_payments
review_anomalous_payments-IsConsistent limit db ok =
    review_rows-IsConsistent (unreviewed_anomalous_payments limit db) db ok

pub sync_address_lifecycle-IsConsistent :
    (cooldown limit : ℕ) (db : Ledger)
    → IsConsistent db
    → IsConsistent (sync_address_lifecycle cooldown limit db).2
unfolding sync_address_lifecycle
sync_address_lifecycle-IsConsistent cooldown limit db ok =
    grind (arith, latch_rows-IsConsistent, release_rows-IsConsistent)
