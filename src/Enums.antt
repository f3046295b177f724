-- ===== src/Enums.antt =====
-- The native enum types of the database (core/db/enums.py), with the sets of statuses that the code
-- names.
use notchstave.Common.{ℕ, Bool, true, false, Option, none, some}

pub data BlockStatus : Type 0 where
  pending confirmed orphaned : BlockStatus

pub data AddressStatus : Type 0 where
  free reserved funded swept : AddressStatus

pub data InvoiceStatus : Type 0 where
  awaiting seen partially_paid paid overpaid expired manual_review cancelled reverted :
      InvoiceStatus

pub data PaymentStatus : Type 0 where
  seen confirmed credited reverted ignored_dust : PaymentStatus

pub data PaymentAnomaly : Type 0 where
  wrong_asset wrong_chain late dust orphan_payment unassigned_payment : PaymentAnomaly

pub data ManualReviewKind : Type 0 where
  underpaid overpaid wrong_asset wrong_chain late_payment orphan_payment : ManualReviewKind
  unassigned_payment address_mismatch mac_failure reconcile_drift : ManualReviewKind

-- `LIVE_INVOICE_STATUSES`
abbrev pub is_live : InvoiceStatus → Bool
is_live InvoiceStatus.awaiting = true
is_live InvoiceStatus.seen = true
is_live InvoiceStatus.partially_paid = true
is_live _ = false

-- `SETTLED_INVOICE_STATUSES` of settler/service.py.
abbrev pub is_settled : InvoiceStatus → Bool
is_settled InvoiceStatus.paid = true
is_settled InvoiceStatus.overpaid = true
is_settled _ = false

-- `CREDITABLE_PAYMENT_STATUSES`
abbrev pub is_creditable : PaymentStatus → Bool
is_creditable PaymentStatus.confirmed = true
is_creditable PaymentStatus.credited = true
is_creditable _ = false

-- `ANNOUNCEABLE_PAYMENT_STATUSES` and `REVERTIBLE_PAYMENT_STATUSES` of settler/service.py, and the
-- statuses of its candidates: the same three.
abbrev pub is_arrived : PaymentStatus → Bool
is_arrived PaymentStatus.seen = true
is_arrived PaymentStatus.confirmed = true
is_arrived PaymentStatus.credited = true
is_arrived _ = false

-- `anomaly is None or anomaly in CREDITABLE_ANOMALIES`
abbrev pub counts : Option PaymentAnomaly → Bool
counts none = true
counts (some PaymentAnomaly.late) = true
counts (some _) = false

-- `BLOCKING_ANOMALIES`, with `_ANOMALY_REVIEW_KIND`.
abbrev pub review_kind : Option PaymentAnomaly → Option ManualReviewKind
review_kind (some PaymentAnomaly.wrong_asset) = some ManualReviewKind.wrong_asset
review_kind (some PaymentAnomaly.wrong_chain) = some ManualReviewKind.wrong_chain
review_kind (some PaymentAnomaly.orphan_payment) = some ManualReviewKind.orphan_payment
review_kind (some PaymentAnomaly.unassigned_payment) = some ManualReviewKind.unassigned_payment
review_kind _ = none

-- The position of a kind in its enum, to compare kinds by.
abbrev pub kind_code : ManualReviewKind → ℕ
kind_code ManualReviewKind.underpaid = 0
kind_code ManualReviewKind.overpaid = 1
kind_code ManualReviewKind.wrong_asset = 2
kind_code ManualReviewKind.wrong_chain = 3
kind_code ManualReviewKind.late_payment = 4
kind_code ManualReviewKind.orphan_payment = 5
kind_code ManualReviewKind.unassigned_payment = 6
kind_code ManualReviewKind.address_mismatch = 7
kind_code ManualReviewKind.mac_failure = 8
kind_code ManualReviewKind.reconcile_drift = 9
