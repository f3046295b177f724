-- ===== src/Settler/Service/Consistency.antt =====
-- The invariant between `invoices` and `entitlements`: an invoice is settled exactly where it has an active
-- grant. Here is what the statements of settler/repository.py do to it.
pub mod Grant
pub mod Settle
pub mod Passes
pub mod Runs
use notchstave.Common.{
  ℕ, ◌≡◌, refl, Bool, true, false, not, ◌&&◌, Option, none, some, List, [], ◌∷◌, ltb, ◌==◌,
  if◌then◌else◌, arith,
}
use notchstave.Common.Rows.{find, update, option_map, find-update}
use notchstave.Enums.{InvoiceStatus, ManualReviewKind, is_live, is_settled}
use notchstave.Settler.Ledger.{Invoice, Entitlement, NotificationKind, AuditAction, Ledger}
use notchstave.Settler.Ledger.Invoices.{
  row_has, find_invoice, cas_invoice_status, unsettle_invoice, unsettled_status, expire_invoice,
  expire_invoice_past_rate_lock,
}
use notchstave.Settler.Ledger.Payments.{
  promote_payment_to_confirmed, credit_payment, mark_payment_seen_notified,
}
use notchstave.Settler.Ledger.Grants.{
  has_active, insert_entitlement, revoke_rows, mem, is_active, credit_internal_balance,
}
use notchstave.Settler.Ledger.Outbox.{
  enqueue_notification, open_manual_review, create_refund_request, write_audit,
  enqueue_address_request,
}

-- The invoice is `paid` or `overpaid`.
unfoldable pub settled_row : ℕ → List Invoice → Bool
settled_row i rows = row_has (λ r. is_settled r.status) (find (λ (r : Invoice). r.id) i rows)

unfoldable pub Agree : List Invoice → List Entitlement → Type 0
Agree rows es = (i : ℕ) → settled_row i rows ≡ has_active i es

abbrev pub IsConsistent : Ledger → Type 0
IsConsistent db = Agree db.invoices db.entitlements

-- A change of one row that keeps its id.
pub settled_row-update :
    (j i : ℕ) (f : Invoice → Invoice) (rows : List Invoice)
    → ((r : Invoice) → (f r).id ≡ r.id)
    → settled_row j (update (λ (r : Invoice). r.id) i f rows) ≡ (
        if j == i
        then row_has (λ r. is_settled (f r).status) (find (λ (r : Invoice). r.id) j rows)
        else settled_row j rows)
unfolding settled_row
settled_row-update j i f rows keeps =
    ground (arith, find-update (λ (r : Invoice). r.id) j i f rows keeps)

pub has_active-revoke_rows :
    (j now : ℕ) (ids : List ℕ) (es : List Entitlement)
    → has_active j (revoke_rows now ids es) ≡ (not (mem j ids) && has_active j es)
unfolding has_active revoke_rows
has_active-revoke_rows j now ids [] = ground arith
has_active-revoke_rows j now ids (e ∷ es) = ground (arith, has_active-revoke_rows j now ids es)

pub settled_row-unsettle_invoice :
    (j i : ℕ) (db : Ledger)
    → settled_row j (unsettle_invoice i db).1.invoices ≡ (not (j == i) && settled_row j db.invoices)
unfolding unsettle_invoice settled_row
settled_row-unsettle_invoice j i db = ground (
  arith,
  settled_row-update j i (λ r. record r { status = unsettled_status db.now r; settled_at = none })
      db.invoices (λ r. refl),
)

-- The statements that write other tables.
pub write_audit-IsConsistent :
    (action : AuditAction) (target : ℕ) (before after : Option InvoiceStatus) (db : Ledger)
    → IsConsistent db
    → IsConsistent (write_audit action target before after db)
unfolding write_audit
write_audit-IsConsistent action target before after db ok = ok

pub enqueue_notification-IsConsistent :
    (user : ℕ) (kind : NotificationKind) (ref key : ℕ) (db : Ledger)
    → IsConsistent db
    → IsConsistent (enqueue_notification user kind ref key db).1
unfolding enqueue_notification
enqueue_notification-IsConsistent user kind ref key db ok = ground arith

pub open_manual_review-IsConsistent :
    (kind : ManualReviewKind) (i p : Option ℕ) (db : Ledger)
    → IsConsistent db
    → IsConsistent (open_manual_review kind i p db).1
unfolding open_manual_review
open_manual_review-IsConsistent kind i p db ok = ground arith

pub create_refund_request-IsConsistent :
    (i amount asset : ℕ) (db : Ledger)
    → IsConsistent db
    → IsConsistent (create_refund_request i amount asset db).1
unfolding create_refund_request
create_refund_request-IsConsistent i amount asset db ok = ground arith

pub credit_internal_balance-IsConsistent :
    (user delta : ℕ) (db : Ledger)
    → IsConsistent db
    → IsConsistent (credit_internal_balance user delta db).1
unfolding credit_internal_balance
credit_internal_balance-IsConsistent user delta db ok = ground arith

pub promote_payment_to_confirmed-IsConsistent :
    (id : ℕ) (db : Ledger) → IsConsistent db → IsConsistent (promote_payment_to_confirmed id db).1
unfolding promote_payment_to_confirmed
promote_payment_to_confirmed-IsConsistent id db ok = ground arith

pub mark_payment_seen_notified-IsConsistent :
    (id : ℕ) (db : Ledger) → IsConsistent db → IsConsistent (mark_payment_seen_notified id db).1
unfolding mark_payment_seen_notified
mark_payment_seen_notified-IsConsistent id db ok = ground arith

-- The moves of a live invoice to a status that is not settled.
pub cas_invoice_status-IsConsistent :
    (i : ℕ) (new_status : InvoiceStatus) (db : Ledger)
    → is_settled new_status ≡ false
    → IsConsistent db
    → IsConsistent (cas_invoice_status i new_status false db).1
unfolding cas_invoice_status Agree settled_row
cas_invoice_status-IsConsistent i new_status db unsettled ok j = ground (
  arith,
  ok j,
  settled_row-update j i (λ r. record r { status = new_status; settled_at = r.settled_at })
      db.invoices (λ r. refl),
)

pub expire_invoice-IsConsistent :
    (i : ℕ) (new_status : InvoiceStatus) (db : Ledger)
    → is_settled new_status ≡ false
    → IsConsistent db
    → IsConsistent (expire_invoice i new_status db).1
unfolding expire_invoice Agree settled_row
expire_invoice-IsConsistent i new_status db unsettled ok j = ground (
  arith,
  ok j,
  settled_row-update j i (λ r. record r { status = new_status }) db.invoices (λ r. refl),
)

pub expire_invoice_past_rate_lock-IsConsistent :
    (i : ℕ) (db : Ledger) → IsConsistent db → IsConsistent (expire_invoice_past_rate_lock i db).1
unfolding expire_invoice_past_rate_lock Agree settled_row
expire_invoice_past_rate_lock-IsConsistent i db ok j = ground (
  arith,
  ok j,
  settled_row-update j i (λ r. record r { status = InvoiceStatus.expired }) db.invoices (λ r. refl),
)
