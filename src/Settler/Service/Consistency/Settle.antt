-- ===== src/Settler/Service/Consistency/Settle.antt =====
-- `settle_invoice` (settler/service.py) keeps the invariant between invoices and grants.
use notchstave.Common.{ℕ, Bool, Option, none, some, List, [], ◌∷◌, arith}
use notchstave.Common.Int.{ℤ}
use notchstave.Settler.Policy.{Outcome, AmountDecision, MoneyPolicy}
use notchstave.Settler.Ledger.{Payment, Ledger}
use notchstave.Settler.Ledger.Invoices.{InvoiceContext, lock_invoice}
use notchstave.Settler.Ledger.Outbox.{write_audit}
use notchstave.Settler.Service.{done, open_reviews_for_anomalies}
use notchstave.Settler.Service.Apply.{Decided, apply_partially_paid, apply_underpaid_manual_review}
use notchstave.Settler.Service.Settle.{
  refuse_tampered_invoice, promote_candidates, apply_by_outcome, apply_decision, settle_pending,
  settle_decided, settle_funded, settle_live, settle_locked, settle_invoice,
}
use notchstave.Settler.Service.Facade.{settle}
use notchstave.Settler.Service.Consistency.{
  IsConsistent, enqueue_notification-IsConsistent, open_manual_review-IsConsistent,
  promote_payment_to_confirmed-IsConsistent, cas_invoice_status-IsConsistent,
}
use notchstave.Settler.Service.Consistency.Grant.{StaysConsistent, apply_settlement-StaysConsistent}

ruleset keeps = (
  enqueue_notification-IsConsistent, open_manual_review-IsConsistent,
  cas_invoice_status-IsConsistent,
)

pub open_reviews_for_anomalies-IsConsistent :
    (i : ℕ) (ps : List Payment) (db : Ledger)
    → IsConsistent db
    → IsConsistent (open_reviews_for_anomalies i ps db).1
unfolding open_reviews_for_anomalies
open_reviews_for_anomalies-IsConsistent i [] db ok = ok
open_reviews_for_anomalies-IsConsistent i (p ∷ ps) db ok =
    grind (arith, keeps, open_reviews_for_anomalies-IsConsistent i ps)

pub promote_candidates-IsConsistent :
    (cutoff : ℤ) (ps : List Payment) (db : Ledger)
    → IsConsistent db
    → IsConsistent (promote_candidates cutoff ps db)
unfolding promote_candidates
promote_candidates-IsConsistent cutoff [] db ok = ok
promote_candidates-IsConsistent cutoff (p ∷ ps) db ok = grind (
  arith,
  promote_candidates-IsConsistent cutoff ps,
  promote_payment_to_confirmed-IsConsistent p.id db ok,
)

refuse_tampered_invoice-IsConsistent :
    (ctx : InvoiceContext) (db : Ledger)
    → IsConsistent db
    → StaysConsistent (done (refuse_tampered_invoice ctx db))
unfolding refuse_tampered_invoice write_audit StaysConsistent
refuse_tampered_invoice-IsConsistent ctx db ok = grind (arith, keeps)

apply_by_outcome-StaysConsistent :
    (o : Outcome) (s : Decided) (db : Ledger)
    → IsConsistent db
    → StaysConsistent (done (apply_by_outcome o s db))
unfolding apply_by_outcome apply_partially_paid apply_underpaid_manual_review write_audit
    StaysConsistent
apply_by_outcome-StaysConsistent o s db ok = grind (arith, keeps)

apply_decision-StaysConsistent :
    (s : Decided) (db : Ledger) → IsConsistent db → StaysConsistent (apply_decision s db)
unfolding apply_decision
apply_decision-StaysConsistent s db ok = ground (
  arith,
  apply_settlement-StaysConsistent s db ok,
  apply_by_outcome-StaysConsistent s.decision.outcome s db ok,
)

settle_pending-StaysConsistent :
    (potential : Option AmountDecision) (s : Decided) (db : Ledger)
    → IsConsistent db
    → StaysConsistent (settle_pending potential s db)
unfolding settle_pending StaysConsistent
settle_pending-StaysConsistent potential s db ok =
    ground (arith, apply_decision-StaysConsistent s db ok)

module _ (policy : MoneyPolicy) where
  settle_decided-StaysConsistent :
      (d : Option AmountDecision) (s : AmountDecision → Decided) (db : Ledger)
      → IsConsistent db
      → StaysConsistent (settle_decided policy d s db)
  unfolding settle_decided StaysConsistent
  settle_decided-StaysConsistent none s db ok = tt
  settle_decided-StaysConsistent (some d) s db ok = ground (
    arith,
    apply_decision-StaysConsistent (s d) db ok,
    settle_pending-StaysConsistent _ (s d) db ok,
  )

  settle_funded-StaysConsistent :
      (ctx : InvoiceContext) (ps : List Payment) (reviews : List ℕ) (db : Ledger)
      → IsConsistent db
      → StaysConsistent (settle_funded policy ctx ps reviews db)
  unfolding settle_funded
  settle_funded-StaysConsistent ctx ps reviews db ok =
      grind (arith, settle_decided-StaysConsistent, promote_candidates-IsConsistent)

  settle_live-StaysConsistent :
      (ctx : InvoiceContext) (db : Ledger)
      → IsConsistent db
      → StaysConsistent (settle_live policy ctx db)
  unfolding settle_live StaysConsistent
  settle_live-StaysConsistent ctx db ok =
      grind (arith, open_reviews_for_anomalies-IsConsistent, settle_funded-StaysConsistent)

  module _ (mac : List ℕ → List ℕ) where
    settle_locked-StaysConsistent :
        (i : ℕ) (found : Option InvoiceContext) (db : Ledger)
        → IsConsistent db
        → StaysConsistent (settle_locked policy mac i found db)
    unfolding settle_locked StaysConsistent
    settle_locked-StaysConsistent i none db ok = tt
    settle_locked-StaysConsistent i (some ctx) db ok = ground (
      arith,
      refuse_tampered_invoice-IsConsistent ctx db ok,
      settle_live-StaysConsistent ctx db ok,
    )

    -- Where every invoice is settled exactly if it has an active grant, a settlement of any invoice that
    -- does not raise leaves that true of every invoice, and it never finds its grant taken.
    pub settle_invoice-StaysConsistent :
        (i : ℕ) (db : Ledger) → IsConsistent db → StaysConsistent (settle_invoice policy mac i db)
    unfolding settle_invoice
    settle_invoice-StaysConsistent i db ok =
        settle_locked-StaysConsistent i (lock_invoice i db) db ok

    -- `Settler.settle` keeps that invariant: what raises is rolled back, and a busy lock changes nothing.
    pub settle-IsConsistent :
        (acquired : Bool) (i : ℕ) (db : Ledger)
        → IsConsistent db
        → IsConsistent (settle policy mac acquired i db).1
    unfolding settle StaysConsistent
    settle-IsConsistent acquired i db ok = ground (arith, settle_invoice-StaysConsistent i db ok)
