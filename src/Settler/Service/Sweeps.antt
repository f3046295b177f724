-- ===== src/Settler/Service/Sweeps.antt =====
-- The passes over the tables (settler/service.py): the two expiries, the announcement of payments and the
-- cases for anomalous ones, with their reads (settler/repository.py).
use notchstave.Common.{
  ℕ, Bool, true, false, not, ◌&&◌, Option, none, some, List, [], ◌∷◌, ◌++◌, ltb, if◌then◌else◌, map,
  take,
}
use notchstave.Common.Rows.{find, filter, order_by}
use notchstave.Enums.{InvoiceStatus, ManualReviewKind, is_live, is_arrived, counts, review_kind}
use notchstave.Settler.Ledger.{
  Invoice, Payment, Asset, ManualReview, NotificationKind, AuditAction, Ledger,
}
use notchstave.Settler.Ledger.Invoices.{
  is_for, has_payment, expire_invoice, expire_invoice_past_rate_lock, find_invoice,
}
use notchstave.Settler.Ledger.Payments.{is_unnotified, mark_payment_seen_notified}
use notchstave.Settler.Ledger.Outbox.{
  enqueue_notification, open_manual_review, write_audit, both, is_unresolved,
}
use notchstave.Settler.Service.{ids_of}

-- A payment of the invoice that has arrived and not gone away.
unfoldable pub has_money : ℕ → List Payment → Bool
has_money i [] = false
has_money i (p ∷ ps) = if is_for i p.invoice_id && is_arrived p.status then true else has_money i ps

-- `invoices_past_topup_window`; a row with its `has_money`.
unfoldable pub invoices_past_topup_window : ℕ → Ledger → List (Invoice × Bool)
unfolding filter order_by has_money
invoices_past_topup_window limit db =
    map (λ (r : Invoice). (r, has_money r.id db.payments))
      (take limit (
        order_by (λ (r : Invoice). r.topup_window_until)
          (filter (λ (r : Invoice). is_live r.status && ltb r.topup_window_until db.now)
            db.invoices)))

abbrev pub sweep_target : Bool → InvoiceStatus
sweep_target money = if money then InvoiceStatus.manual_review else InvoiceStatus.expired

-- The body of the loop of `sweep_expired_invoices`.
unfoldable pub sweep_row : Invoice → Bool → Ledger → Bool × Ledger
unfolding expire_invoice open_manual_review write_audit
sweep_row r money db =
    let (moved, db1) = expire_invoice r.id (sweep_target money) db in
    let db2 =
      if money
      then (open_manual_review ManualReviewKind.underpaid (some r.id) none db1).1
      else db1 in
    if moved
    then (
      true,
      write_audit (AuditAction.sweep (sweep_target money)) r.id (some r.status)
          (some (sweep_target money)) db2,
    )
    else (false, db1)

unfoldable pub sweep_rows : List (Invoice × Bool) → Ledger → List (ℕ × InvoiceStatus) × Ledger
unfolding sweep_row
sweep_rows [] db = ([], db)
sweep_rows ((r, money) ∷ rows) db =
    let (moved, db1) = sweep_row r money db in
    let (rest, db2) = sweep_rows rows db1 in
    (if moved then (r.id, sweep_target money) ∷ rest else rest, db2)

unfoldable pub sweep_expired_invoices : ℕ → Ledger → List (ℕ × InvoiceStatus) × Ledger
unfolding sweep_rows invoices_past_topup_window
sweep_expired_invoices limit db = sweep_rows (invoices_past_topup_window limit db) db

-- `invoices_past_rate_lock`
unfoldable pub invoices_past_rate_lock : ℕ → Ledger → List Invoice
unfolding filter order_by has_payment
invoices_past_rate_lock limit db = take limit (
    order_by (λ (r : Invoice). r.rate_locked_until)
      (filter
        (λ (r : Invoice).
          is_live r.status
          && (ltb r.rate_locked_until db.now && not (has_payment r.id db.payments)))
        db.invoices))

-- The body of the loop of `expire_stale_invoices`.
unfoldable pub expire_stale_row : Invoice → Ledger → Bool × Ledger
unfolding expire_invoice_past_rate_lock enqueue_notification write_audit
expire_stale_row r db =
    let (moved, db1) = expire_invoice_past_rate_lock r.id db in
    let (n, db2) = enqueue_notification r.user_id NotificationKind.invoice_expired r.id 0 db1 in
    if moved
    then (
      true,
      write_audit AuditAction.rate_lock_expired r.id (some r.status) (some InvoiceStatus.expired)
          db2,
    )
    else (false, db1)

unfoldable pub expire_stale_rows : List Invoice → Ledger → List ℕ × Ledger
unfolding expire_stale_row
expire_stale_rows [] db = ([], db)
expire_stale_rows (r ∷ rows) db =
    let (moved, db1) = expire_stale_row r db in
    let (rest, db2) = expire_stale_rows rows db1 in (if moved then r.id ∷ rest else rest, db2)

unfoldable pub expire_stale_invoices : ℕ → Ledger → List ℕ × Ledger
unfolding expire_stale_rows invoices_past_rate_lock
expire_stale_invoices limit db = expire_stale_rows (invoices_past_rate_lock limit db) db

-- The conditions of `SQL_UNNOTIFIED_SEEN_PAYMENTS` on a payment.
abbrev pub is_announceable : Payment → Bool
is_announceable p = is_unnotified p.seen_notified_at && (is_arrived p.status && counts p.anomaly)

abbrev pub has_asset : Option Asset → Bool
has_asset none = false
has_asset (some a) = true

abbrev invoice_of : Option ℕ → Ledger → Option Invoice
invoice_of none db = none
invoice_of (some i) db = find_invoice i db

-- `SeenPaymentRow`: a payment with its invoice.
abbrev joined : Payment → Option Invoice → List (Payment × Invoice) → List (Payment × Invoice)
joined p none rows = rows
joined p (some r) rows = (p, r) ∷ rows

-- The join of payments with their invoices and assets.
unfoldable pub join_invoices : List Payment → Ledger → List (Payment × Invoice)
unfolding find
join_invoices [] db = []
join_invoices (p ∷ ps) db =
    let rest = join_invoices ps db in
    if has_asset (find (λ (a : Asset). a.id) p.asset_id db.assets)
    then joined p (invoice_of p.invoice_id db) rest
    else rest

-- `unnotified_seen_payments`
unfoldable pub unnotified_seen_payments : ℕ → Ledger → List (Payment × Invoice)
unfolding filter order_by join_invoices
unnotified_seen_payments limit db =
    take limit
      (join_invoices (order_by (λ (p : Payment). p.id) (filter is_announceable db.payments)) db)

-- The body of the loop of `notify_seen_payments`.
unfoldable pub notify_seen_row : Payment → Invoice → Ledger → Option ℕ × Ledger
unfolding mark_payment_seen_notified enqueue_notification
notify_seen_row p r db =
    let (marked, db1) = mark_payment_seen_notified p.id db in
    if marked
    then enqueue_notification r.user_id NotificationKind.payment_seen r.id p.id db1
    else (none, db1)

unfoldable pub notify_seen_rows : List (Payment × Invoice) → Ledger → List ℕ × Ledger
unfolding notify_seen_row
notify_seen_rows [] db = ([], db)
notify_seen_rows ((p, r) ∷ rows) db =
    let (n, db1) = notify_seen_row p r db in
    let (rest, db2) = notify_seen_rows rows db1 in (ids_of n ++ rest, db2)

unfoldable pub notify_seen_payments : ℕ → Ledger → List ℕ × Ledger
unfolding notify_seen_rows unnotified_seen_payments
notify_seen_payments limit db = notify_seen_rows (unnotified_seen_payments limit db) db

-- An open case of the payment, of whatever kind.
unfoldable pub has_open_case : ℕ → List ManualReview → Bool
has_open_case p [] = false
has_open_case p (r ∷ rs) =
    if is_unresolved r.resolved_at && both r.payment_id (some p) then true else has_open_case p rs

abbrev pub is_blocking : Option ManualReviewKind → Bool
is_blocking none = false
is_blocking (some kind) = true

-- `unreviewed_anomalous_payments`
unfoldable pub unreviewed_anomalous_payments : ℕ → Ledger → List Payment
unfolding filter order_by has_open_case
unreviewed_anomalous_payments limit db = take limit (
    order_by (λ (p : Payment). p.id)
      (filter
        (λ (p : Payment).
          is_blocking (review_kind p.anomaly) && not (has_open_case p.id db.reviews))
        db.payments))

-- The case of a payment in `review_anomalous_payments`, with the invoice of its row.
abbrev pub open_case : Option ManualReviewKind → Option ℕ → ℕ → Ledger → Option ℕ × Ledger
open_case none i p db = (none, db)
open_case (some kind) i p db = open_manual_review kind i (some p) db

unfoldable pub review_rows : List Payment → Ledger → List ℕ × Ledger
review_rows [] db = ([], db)
review_rows (p ∷ ps) db =
    let (opened, db1) = open_case (review_kind p.anomaly) p.invoice_id p.id db in
    let (rest, db2) = review_rows ps db1 in (ids_of opened ++ rest, db2)

unfoldable pub review_anomalous_payments : ℕ → Ledger → List ℕ × Ledger
unfolding review_rows unreviewed_anomalous_payments
review_anomalous_payments limit db = review_rows (unreviewed_anomalous_payments limit db) db
