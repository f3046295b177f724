-- ===== src/Settler/Ledger.antt =====
-- The tables that the settler reads and writes (settler/repository.py), with the database's clock.
-- Ids come from one sequence; a time is a number of microseconds. A statement is a function on the
-- tables. Texts (notes, payloads, reasons) and the order of rows are not modelled.
pub mod Invoices
pub mod Payments
pub mod Grants
pub mod Outbox
use notchstave.Common.{ℕ, Bool, Option, List}
use notchstave.Enums.{
  BlockStatus, AddressStatus, InvoiceStatus, PaymentStatus, PaymentAnomaly, ManualReviewKind,
}
use notchstave.Settler.Decimal.{Decimal}
use notchstave.Settler.Policy.{Outcome}

pub record Invoice : Type 0 where
  pub id : ℕ
  pub user_id : ℕ
  pub product_id : ℕ
  pub chain_id : ℕ
  pub asset_id : ℕ
  pub address_id : ℕ
  pub amount_due_raw : ℕ
  pub rate_snapshot : Decimal
  pub status : InvoiceStatus
  pub expires_at : ℕ
  pub rate_locked_until : ℕ
  pub topup_window_until : ℕ
  pub settled_at : Option ℕ
  pub integrity_mac : List ℕ

pub record Chain : Type 0 where
  pub chain_id : ℕ
  pub min_confirmations : ℕ
  pub credit_threshold_usd : Decimal
  pub last_indexed_block : ℕ

pub record Asset : Type 0 where
  pub id : ℕ
  pub chain_id : ℕ
  pub decimals : ℕ

pub record Product : Type 0 where
  pub id : ℕ
  pub subscription_days : Option ℕ

pub record ReceiveAddress : Type 0 where
  pub id : ℕ
  pub address : List ℕ
  pub status : AddressStatus
  pub ever_funded : Bool
  pub cooldown_until : Option ℕ
  pub current_invoice_id : Option ℕ

pub record Payment : Type 0 where
  pub id : ℕ
  pub chain_id : ℕ
  pub block_number : ℕ
  pub address_id : ℕ
  pub invoice_id : Option ℕ
  pub asset_id : ℕ
  pub amount_raw : ℕ
  pub status : PaymentStatus
  pub anomaly : Option PaymentAnomaly
  pub confirmations_at_credit : Option ℕ
  pub seen_notified_at : Option ℕ

pub record Block : Type 0 where
  pub chain_id : ℕ
  pub number : ℕ
  pub status : BlockStatus

pub record Entitlement : Type 0 where
  pub id : ℕ
  pub user_id : ℕ
  pub product_id : ℕ
  pub invoice_id : ℕ
  pub granted_at : ℕ
  pub expires_at : Option ℕ
  pub revoked_at : Option ℕ

pub data NotificationKind : Type 0 where
  invoice_settled overpaid_credited refund_pending invoice_underpaid : NotificationKind
  invoice_manual_review entitlement_revoked invoice_expired payment_seen : NotificationKind

-- Within a kind, `dedup_key` prints one number; it is 0 for the fixed text of `invoice_expired`.
pub record Notification : Type 0 where
  pub id : ℕ
  pub user_id : ℕ
  pub kind : NotificationKind
  pub ref_id : ℕ
  pub dedup_key : ℕ

pub record ManualReview : Type 0 where
  pub id : ℕ
  pub kind : ManualReviewKind
  pub invoice_id : Option ℕ
  pub payment_id : Option ℕ
  pub resolved_at : Option ℕ

pub data RefundStatus : Type 0 where
  pending executed declined : RefundStatus

pub record Refund : Type 0 where
  pub id : ℕ
  pub invoice_id : ℕ
  pub amount_raw : ℕ
  pub asset_id : ℕ
  pub status : RefundStatus

-- `internal_balance_usd`, in millionths.
pub record User : Type 0 where
  pub id : ℕ
  pub internal_balance_usd : ℕ

pub data AuditAction : Type 0 where
  settle : Outcome → AuditAction
  sweep : InvoiceStatus → AuditAction
  grant_blocked integrity_mac_failed internal_balance_credited : AuditAction
  reorg_revoke rate_lock_expired : AuditAction

pub record AuditRow : Type 0 where
  pub action : AuditAction
  pub target_id : ℕ
  pub before_state : Option InvoiceStatus
  pub after_state : Option InvoiceStatus

pub data LifecycleAction : Type 0 where
  mark_funded release : LifecycleAction

-- `is_open` is a status of `pending` or `processing`.
pub record AddressRequest : Type 0 where
  pub id : ℕ
  pub address_id : ℕ
  pub invoice_id : Option ℕ
  pub action : LifecycleAction
  pub cooldown_until : Option ℕ
  pub is_open : Bool

pub record Ledger : Type 0 where
  pub now : ℕ
  pub next_id : ℕ
  pub chains : List Chain
  pub assets : List Asset
  pub products : List Product
  pub addresses : List ReceiveAddress
  pub invoices : List Invoice
  pub payments : List Payment
  pub blocks : List Block
  pub entitlements : List Entitlement
  pub notifications : List Notification
  pub reviews : List ManualReview
  pub refunds : List Refund
  pub users : List User
  pub audit : List AuditRow
  pub requests : List AddressRequest
