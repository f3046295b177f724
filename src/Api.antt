-- ===== src/Api.antt =====
-- The status page of an invoice (api/repository.py, `InvoiceProgress`; api/stages.py, `stage_of`).
-- Amounts are whole base units; the ids, the times and the head block are not modelled.
pub mod Ladder
mod Tests
use notchstave.Common.{
  ℕ, ◌-◌, min, Bool, true, false, ◌&&◌, ◌||◌, Option, none, some, List, [], ◌∷◌, ltb, if◌then◌else◌,
}
pub use notchstave.Enums.{InvoiceStatus, PaymentStatus}

pub data Stage : Type 0 where
  awaiting confirming underpaid paid granted expired manual_review reverted cancelled : Stage

pub record PaymentProgress : Type 0 where
  pub status : PaymentStatus
  pub confirmations : ℕ

pub record InvoiceProgress : Type 0 where
  pub status : InvoiceStatus
  pub amount_due_raw : ℕ
  pub amount_paid_raw : ℕ
  pub payments : List PaymentProgress
  pub access_granted : Bool

-- `max(0, due - paid)`
unfoldable pub amount_outstanding_raw : InvoiceProgress → ℕ
amount_outstanding_raw p = p.amount_due_raw - p.amount_paid_raw

abbrev pub is_pending : PaymentStatus → Bool
is_pending PaymentStatus.seen = true
is_pending _ = false

-- `min(a, rest)`, of which the rest may be empty.
abbrev pub lesser : ℕ → Option ℕ → Option ℕ
lesser n none = some n
lesser n (some m) = some (min n m)

-- The least count of the pending payments.
unfoldable pub least_pending : List PaymentProgress → Option ℕ
least_pending [] = none
least_pending (p ∷ ps) =
    let rest = least_pending ps in if is_pending p.status then lesser p.confirmations rest else rest

-- The `confirmations` property.
unfoldable pub confirmations : InvoiceProgress → Option ℕ
unfolding least_pending
confirmations p = least_pending p.payments

-- `_TERMINAL`
unfoldable pub terminal : InvoiceStatus → Option Stage
terminal InvoiceStatus.manual_review = some Stage.manual_review
terminal InvoiceStatus.reverted = some Stage.reverted
terminal InvoiceStatus.cancelled = some Stage.cancelled
terminal _ = none

abbrev pub is_settled : InvoiceStatus → Bool
is_settled InvoiceStatus.paid = true
is_settled InvoiceStatus.overpaid = true
is_settled _ = false

abbrev pub is_expired : InvoiceStatus → Bool
is_expired InvoiceStatus.expired = true
is_expired _ = false

abbrev pub is_empty : List PaymentProgress → Bool
is_empty [] = true
is_empty (p ∷ ps) = false

unfoldable pub stage_of : InvoiceProgress → Stage
unfolding terminal amount_outstanding_raw
stage_of p = if p.access_granted then Stage.granted else elim (terminal p.status) [
  | some stage ↦ stage
  | none ↦
      if is_settled p.status
      then Stage.paid
      else if ltb 0 p.amount_paid_raw && ltb 0 (amount_outstanding_raw p)
      then Stage.underpaid
      else if is_empty p.payments
      then (if is_expired p.status then Stage.expired else Stage.awaiting)
      else Stage.confirming
]
