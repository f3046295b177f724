-- ===== src/Settler/Service.antt =====
-- The money decisions of the settler (settler/service.py) on its tables: the results, and the children
-- for the settlement of one invoice, the reorg, the sweeps and the facade. Metrics, log texts and message
-- payloads are not modelled.
pub mod Settle
pub mod Apply
pub mod Reorg
pub mod Sweeps
pub mod Addresses
pub mod Facade
pub mod Consistency
pub mod Frame
pub mod Funded
pub mod Flow
pub mod Settled
pub mod Again
pub mod Granted
pub mod Tampered
pub mod Rollback
pub mod Deadlines
pub mod Swept
pub mod Announced
pub mod Progress
mod Tests
use notchstave.Common.{
  ℕ, ◌+◌, ◌*◌, ◌/◌, ◌^◌, Bool, true, false, ◌&&◌, Option, none, some, List, [], ◌∷◌, ◌++◌, leb,
  ◌==◌, if◌then◌else◌,
}
use notchstave.Enums.{
  PaymentAnomaly, PaymentStatus, is_arrived, counts, review_kind, ManualReviewKind,
}
use notchstave.Settler.Decimal.{Decimal, digits, precision}
use notchstave.Settler.Amounts.{raw_to_usd}
use notchstave.Settler.Policy.{Outcome, AmountDecision}
use notchstave.Settler.Confirmations.{ConfirmationRule}
use notchstave.Settler.Ledger.{Payment, Ledger}
use notchstave.Settler.Ledger.Invoices.{InvoiceContext}
use notchstave.Settler.Ledger.Outbox.{open_manual_review}

-- What a settlement can raise: its two errors, the `ValueError` of `usd_to_raw` and the
-- `InvalidOperation` of `quantize`.
pub data SettlerError : Type 0 where
  invoice_not_found inconsistent_invoice value_error invalid_operation : SettlerError

pub data Result (A : Type 0) : Type 0 where
  done : A → Result A
  raised : SettlerError → Result A

pub record SettlementResult : Type 0 where
  pub invoice_id : ℕ
  pub outcome : Outcome
  pub decision : Option AmountDecision
  pub entitlement_id : Option ℕ
  pub notification_ids : List ℕ
  pub manual_review_ids : List ℕ
  pub refund_id : Option ℕ
  pub credited_payment_ids : List ℕ
  pub confirmation_rule : Option ConfirmationRule
  pub lost_grant_race : Bool

-- The result with the defaults of its class.
abbrev pub plain_result : ℕ → Outcome → SettlementResult
plain_result i outcome = record {
  invoice_id = i;
  outcome = outcome;
  decision = none;
  entitlement_id = none;
  notification_ids = [];
  manual_review_ids = [];
  refund_id = none;
  credited_payment_ids = [];
  confirmation_rule = none;
  lost_grant_race = false;
}

-- `[id]`, or no id.
abbrev pub ids_of : Option ℕ → List ℕ
ids_of none = []
ids_of (some id) = id ∷ []

-- Millionths; `none` where the rounded figure has more digits than the context.
unfoldable pub quantize_floor : Decimal → Option ℕ
quantize_floor a =
    let n = (a.coefficient * 1_000_000) / 10 ^ a.scale in
    if leb (digits n) precision then some n else none

-- `_creditable_usd`
unfoldable pub creditable_usd : ℕ → ℕ → Decimal → Option ℕ
unfolding quantize_floor
creditable_usd raw decimals rate = quantize_floor (raw_to_usd raw decimals rate)

-- The reviews of one payment: none for an anomaly that does not block.
abbrev pub open_review_for : Option ManualReviewKind → ℕ → ℕ → Ledger → Option ℕ × Ledger
open_review_for none i p db = (none, db)
open_review_for (some kind) i p db = open_manual_review kind (some i) (some p) db

-- `_open_reviews_for_anomalies`
unfoldable pub open_reviews_for_anomalies : ℕ → List Payment → Ledger → List ℕ × Ledger
open_reviews_for_anomalies i [] db = ([], db)
open_reviews_for_anomalies i (p ∷ ps) db =
    let (opened, db1) = open_review_for (review_kind p.anomaly) i p.id db in
    let (rest, db2) = open_reviews_for_anomalies i ps db1 in (ids_of opened ++ rest, db2)

-- The test on a payment that `settle_invoice` makes for its candidates.
abbrev pub is_candidate : InvoiceContext → Payment → Bool
is_candidate ctx p =
    is_arrived p.status
    && ((p.asset_id == ctx.invoice.asset_id)
        && ((p.chain_id == ctx.invoice.chain_id) && counts p.anomaly))

unfoldable pub candidates : InvoiceContext → List Payment → List Payment
candidates ctx [] = []
candidates ctx (p ∷ ps) =
    let rest = candidates ctx ps in if is_candidate ctx p then p ∷ rest else rest

-- `sum_raw`; its 80 digits hold every sum.
unfoldable pub sum_raw : List Payment → ℕ
sum_raw [] = 0
sum_raw (p ∷ ps) = p.amount_raw + sum_raw ps
