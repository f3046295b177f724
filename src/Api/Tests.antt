-- ===== src/Api/Tests.antt =====
-- A run of the status page: an invoice with a credited payment and two that wait.
use notchstave.Common.{[], ◌∷◌, false}
use notchstave.Api.{InvoiceStatus, PaymentStatus, InvoiceProgress, stage_of}
use notchstave.Api.Ladder.{IsRung, stage_of-IsRung}

abbrev progress : InvoiceProgress
progress = record {
  status = InvoiceStatus.partially_paid;
  amount_due_raw = 10;
  amount_paid_raw = 4;
  payments =
      record { status = PaymentStatus.credited; confirmations = 2 }
      ∷ record { status = PaymentStatus.seen; confirmations = 9 }
      ∷ record { status = PaymentStatus.seen; confirmations = 7 }
      ∷ [];
  access_granted = false;
}

stage_of-IsRung_example : IsRung progress (stage_of progress)
stage_of-IsRung_example = stage_of-IsRung progress
