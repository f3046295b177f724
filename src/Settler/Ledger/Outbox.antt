-- ===== src/Settler/Ledger/Outbox.antt =====
-- The statements that record what was done (settler/repository.py): the outbox, the cases for a human,
-- the refund obligations, the audit trail and the requests to the deriver.
use notchstave.Common.{
  ℕ, ◌+◌, Bool, true, false, ◌&&◌, ◌||◌, Option, none, some, List, [], ◌∷◌, ◌==◌, if◌then◌else◌,
}
use notchstave.Enums.{InvoiceStatus, ManualReviewKind, kind_code}
use notchstave.Settler.Ledger.{
  NotificationKind, Notification, ManualReview, RefundStatus, Refund, AuditAction, LifecycleAction,
  AddressRequest, Ledger,
}

abbrev notification_code : NotificationKind → ℕ
notification_code NotificationKind.invoice_settled = 0
notification_code NotificationKind.overpaid_credited = 1
notification_code NotificationKind.refund_pending = 2
notification_code NotificationKind.invoice_underpaid = 3
notification_code NotificationKind.invoice_manual_review = 4
notification_code NotificationKind.entitlement_revoked = 5
notification_code NotificationKind.invoice_expired = 6
notification_code NotificationKind.payment_seen = 7

unfoldable pub has_notification : NotificationKind → ℕ → ℕ → List Notification → Bool
has_notification kind ref key [] = false
has_notification kind ref key (n ∷ ns) =
    if (notification_code n.kind == notification_code kind)
      && ((n.ref_id == ref) && (n.dedup_key == key))
    then true
    else has_notification kind ref key ns

-- `enqueue_notification`; `none` is the conflict on (kind, ref_id, dedup_key).
unfoldable pub enqueue_notification : ℕ → NotificationKind → ℕ → ℕ → Ledger → Option ℕ × Ledger
unfolding has_notification
enqueue_notification user kind ref key db =
    if has_notification kind ref key db.notifications then (none, db) else (
      some db.next_id,
      record db {
        next_id = db.next_id + 1;
        notifications =
            record { id = db.next_id; user_id = user; kind = kind; ref_id = ref; dedup_key = key }
            ∷ db.notifications;
      },
    )

-- `IS NOT DISTINCT FROM`
abbrev pub same : Option ℕ → Option ℕ → Bool
same none none = true
same (some a) (some b) = a == b
same _ _ = false

abbrev pub is_unresolved : Option ℕ → Bool
is_unresolved none = true
is_unresolved (some t) = false

abbrev pub both : Option ℕ → Option ℕ → Bool
both (some a) (some b) = a == b
both _ _ = false

-- An open case of the kind, the invoice and the payment; or of the payment, by the index
-- `uq_manual_reviews_open_payment`.
unfoldable pub has_open_review : ManualReviewKind → Option ℕ → Option ℕ → List ManualReview → Bool
has_open_review kind i p [] = false
has_open_review kind i p (r ∷ rs) =
    if is_unresolved r.resolved_at
      && ((kind_code r.kind == kind_code kind) && (same r.invoice_id i && same r.payment_id p)
          || both r.payment_id p)
    then true
    else has_open_review kind i p rs

-- `open_manual_review`
unfoldable pub open_manual_review :
    ManualReviewKind → Option ℕ → Option ℕ → Ledger → Option ℕ × Ledger
unfolding has_open_review
open_manual_review kind i p db = if has_open_review kind i p db.reviews then (none, db) else (
  some db.next_id,
  record db {
    next_id = db.next_id + 1;
    reviews =
        record { id = db.next_id; kind = kind; invoice_id = i; payment_id = p; resolved_at = none }
        ∷ db.reviews;
  },
)

abbrev is_pending_refund : RefundStatus → Bool
is_pending_refund RefundStatus.pending = true
is_pending_refund _ = false

unfoldable pub has_pending_refund : ℕ → List Refund → Bool
has_pending_refund i [] = false
has_pending_refund i (r ∷ rs) =
    if (r.invoice_id == i) && is_pending_refund r.status then true else has_pending_refund i rs

-- `create_refund_request`
unfoldable pub create_refund_request : ℕ → ℕ → ℕ → Ledger → Option ℕ × Ledger
unfolding has_pending_refund
create_refund_request i amount asset db = if has_pending_refund i db.refunds then (none, db) else (
  some db.next_id,
  record db {
    next_id = db.next_id + 1;
    refunds =
        record {
          id = db.next_id;
          invoice_id = i;
          amount_raw = amount;
          asset_id = asset;
          status = RefundStatus.pending;
        }
        ∷ db.refunds;
  },
)

-- `write_audit`
unfoldable pub write_audit :
    AuditAction → ℕ → Option InvoiceStatus → Option InvoiceStatus → Ledger → Ledger
write_audit action target before after db = record db {
  audit =
      record { action = action; target_id = target; before_state = before; after_state = after }
      ∷ db.audit;
}

abbrev pub same_action : LifecycleAction → LifecycleAction → Bool
same_action LifecycleAction.mark_funded LifecycleAction.mark_funded = true
same_action LifecycleAction.release LifecycleAction.release = true
same_action _ _ = false

-- A pending or processing request for the address: the rows of `uq_address_lifecycle_open_per_action`.
unfoldable pub has_open_request : ℕ → LifecycleAction → List AddressRequest → Bool
has_open_request a action [] = false
has_open_request a action (r ∷ rs) =
    if (r.address_id == a) && (same_action r.action action && r.is_open)
    then true
    else has_open_request a action rs

-- `enqueue_address_request`
unfoldable pub enqueue_address_request :
    ℕ → Option ℕ → LifecycleAction → Option ℕ → Ledger → Option ℕ × Ledger
unfolding has_open_request
enqueue_address_request a i action cooldown db =
    if has_open_request a action db.requests then (none, db) else (
      some db.next_id,
      record db {
        next_id = db.next_id + 1;
        requests =
            record {
              id = db.next_id;
              address_id = a;
              invoice_id = i;
              action = action;
              cooldown_until = cooldown;
              is_open = true;
            }
            ∷ db.requests;
      },
    )
