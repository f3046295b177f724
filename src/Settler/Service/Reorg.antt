-- ===== src/Settler/Service/Reorg.antt =====
-- `handle_reorg` (settler/service.py), and `unsettle_invoices` (settler/repository.py).
use notchstave.Common.{ℕ, Option, none, some, List, [], ◌∷◌, ◌++◌, ◌==◌, if◌then◌else◌, map}
use notchstave.Enums.{InvoiceStatus}
use notchstave.Settler.Ledger.{Payment, Entitlement, NotificationKind, AuditAction, Ledger}
use notchstave.Settler.Ledger.Invoices.{unsettle_invoice}
use notchstave.Settler.Ledger.Payments.{revert_payments_in_orphaned_blocks}
use notchstave.Settler.Ledger.Grants.{mem, revoke_entitlements_for_invoices}
use notchstave.Settler.Ledger.Outbox.{enqueue_notification, write_audit}
use notchstave.Settler.Service.{ids_of}

pub record ReorgResult : Type 0 where
  pub chain_id : ℕ
  pub reverted_payment_ids : List ℕ
  pub revoked_entitlement_ids : List ℕ
  pub unsettled_invoices : List (ℕ × InvoiceStatus)
  pub notification_ids : List ℕ

-- One more element of a set.
abbrev pub add_new : Option ℕ → List ℕ → List ℕ
add_new none ids = ids
add_new (some i) ids = if mem i ids then ids else i ∷ ids

-- The invoices of the rows, each once; the set's order is not modelled.
unfoldable pub invoice_ids : List Payment → List ℕ
unfolding mem
invoice_ids [] = []
invoice_ids (p ∷ ps) = add_new p.invoice_id (invoice_ids ps)

abbrev add_status : ℕ → Option InvoiceStatus → List (ℕ × InvoiceStatus) → List (ℕ × InvoiceStatus)
add_status i none out = out
add_status i (some status) out = (i, status) ∷ out

-- `unsettle_invoices`
unfoldable pub unsettle_invoices : List ℕ → Ledger → List (ℕ × InvoiceStatus) × Ledger
unfolding unsettle_invoice
unsettle_invoices [] db = ([], db)
unsettle_invoices (i ∷ is) db =
    let (status, db1) = unsettle_invoice i db in
    let (rest, db2) = unsettle_invoices is db1 in (add_status i status rest, db2)

-- `unsettled.get(invoice_id)`
unfoldable pub new_status : ℕ → List (ℕ × InvoiceStatus) → Option InvoiceStatus
new_status i [] = none
new_status i ((j, status) ∷ out) = if i == j then some status else new_status i out

unfoldable pub notify_revoked : List Entitlement → Ledger → List ℕ × Ledger
unfolding enqueue_notification
notify_revoked [] db = ([], db)
notify_revoked (e ∷ es) db =
    let (n, db1) =
      enqueue_notification e.user_id NotificationKind.entitlement_revoked e.invoice_id e.id db in
    let (rest, db2) = notify_revoked es db1 in (ids_of n ++ rest, db2)

unfoldable pub audit_reorg : List (ℕ × InvoiceStatus) → List ℕ → Ledger → Ledger
unfolding write_audit new_status
audit_reorg unsettled [] db = db
audit_reorg unsettled (i ∷ is) db =
    audit_reorg unsettled is
      (write_audit AuditAction.reorg_revoke i none (new_status i unsettled) db)

-- `handle_reorg` behind the payments that it reverted.
unfoldable pub take_back : ℕ → List Payment → Ledger → ReorgResult × Ledger
unfolding invoice_ids revoke_entitlements_for_invoices unsettle_invoices notify_revoked audit_reorg
take_back chain [] db = (
  record {
    chain_id = chain;
    reverted_payment_ids = [];
    revoked_entitlement_ids = [];
    unsettled_invoices = [];
    notification_ids = [];
  },
  db,
)
take_back chain (p ∷ ps) db =
    let ids = invoice_ids (p ∷ ps) in
    let (revoked, db1) = revoke_entitlements_for_invoices ids db in
    let (unsettled, db2) = unsettle_invoices ids db1 in
    let (notified, db3) = notify_revoked revoked db2 in
    (
      record {
        chain_id = chain;
        reverted_payment_ids = map (λ (q : Payment). q.id) (p ∷ ps);
        revoked_entitlement_ids = map (λ (e : Entitlement). e.id) revoked;
        unsettled_invoices = unsettled;
        notification_ids = notified;
      },
      audit_reorg unsettled ids db3,
    )

unfoldable pub handle_reorg : ℕ → Ledger → ReorgResult × Ledger
unfolding take_back revert_payments_in_orphaned_blocks
handle_reorg chain db =
    let (reverted, db1) = revert_payments_in_orphaned_blocks chain db in
    take_back chain reverted db1
