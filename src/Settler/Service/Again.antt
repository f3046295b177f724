-- ===== src/Settler/Service/Again.antt =====
-- A second settlement of an invoice that was granted (settler/service.py).
use notchstave.Common.{
  ℕ, ◌≡◌, refl, sym, ap, ◌∙◌, true, Option, none, some, List, [], ◌∷◌, arith, ◌⊎◌, inl, inr, ◌==◌,
}
use notchstave.Common.Int.{ℤ}
use notchstave.Common.Rows.{find}
use notchstave.Enums.{ManualReviewKind}
use notchstave.Invoicing.Integrity.{verify_mac}
use notchstave.Settler.Policy.{Outcome, MoneyPolicy}
use notchstave.Settler.Ledger.{Invoice, Payment, Ledger}
use notchstave.Settler.Ledger.Invoices.{InvoiceContext, lock_invoice}
use notchstave.Settler.Ledger.Payments.{invoice_payments, promote_payment_to_confirmed}
use notchstave.Settler.Ledger.Outbox.{open_manual_review}
use notchstave.Settler.Service.{
  Result, done, raised, SettlementResult, plain_result, SettlerError, sum_raw, candidates,
  open_reviews_for_anomalies,
}
use notchstave.Settler.Service.Settle.{
  terms, classify_for, rule_for, cutoff_for, decided, promote_candidates, settle_funded,
  settle_live, settle_locked, settle_invoice, refuse_tampered_invoice,
}
use notchstave.Settler.Service.Flow.{settle_decided-cases}
use notchstave.Settler.Service.Funded.{total_in}
use notchstave.Settler.Service.Settled.{IsSettledAfter, apply_settlement-IsSettledAfter}

raised-IsSettledAfter : (ctx : InvoiceContext) (e : SettlerError) → IsSettledAfter ctx (raised e)
unfolding IsSettledAfter
raised-IsSettledAfter ctx e = tt

idle-IsSettledAfter :
    (ctx : InvoiceContext) (r : SettlementResult) (db : Ledger)
    → r.entitlement_id ≡ none
    → IsSettledAfter ctx (done (r, db))
unfolding IsSettledAfter
idle-IsSettledAfter ctx r db idle = inl idle

find-id :
    (i : ℕ) (r : Invoice) (rows : List Invoice)
    → find (λ (q : Invoice). q.id) i rows ≡ some r
    → r.id ≡ i
unfolding find
find-id i r [] e = ground arith
find-id i r (q ∷ rows) e = ground (arith, find-id i r rows)

pub lock_invoice-id :
    (i : ℕ) (ctx : InvoiceContext) (db : Ledger) → lock_invoice i db ≡ some ctx → ctx.invoice.id ≡ i
unfolding lock_invoice
lock_invoice-id i ctx db e = ground (arith, find-id i ctx.invoice db.invoices)

promote_payment-found :
    (i : ℕ) (ctx : InvoiceContext) (id : ℕ) (db : Ledger)
    → lock_invoice i db ≡ some ctx
    → lock_invoice i (promote_payment_to_confirmed id db).1 ≡ some ctx
unfolding lock_invoice promote_payment_to_confirmed
promote_payment-found i ctx id db found = ground arith

open_manual_review-found :
    (i : ℕ) (ctx : InvoiceContext) (kind : ManualReviewKind) (j p : Option ℕ) (db : Ledger)
    → lock_invoice i db ≡ some ctx
    → lock_invoice i (open_manual_review kind j p db).1 ≡ some ctx
unfolding lock_invoice open_manual_review
open_manual_review-found i ctx kind j p db found = ground arith

pub promote_candidates-found :
    (i : ℕ) (ctx : InvoiceContext) (cutoff : ℤ) (ps : List Payment) (db : Ledger)
    → lock_invoice i db ≡ some ctx
    → lock_invoice i (promote_candidates cutoff ps db) ≡ some ctx
unfolding promote_candidates
promote_candidates-found i ctx cutoff [] db found = found
promote_candidates-found i ctx cutoff (p ∷ ps) db found =
    grind
      (arith, promote_candidates-found i ctx cutoff ps, promote_payment-found i ctx p.id db found)

pub open_reviews-found :
    (i j : ℕ) (ctx : InvoiceContext) (ps : List Payment) (db : Ledger)
    → lock_invoice i db ≡ some ctx
    → lock_invoice i (open_reviews_for_anomalies j ps db).1 ≡ some ctx
unfolding open_reviews_for_anomalies
open_reviews-found i j ctx [] db found = found
open_reviews-found i j ctx (p ∷ ps) db found =
    grind (arith, open_reviews-found i j ctx ps, open_manual_review-found i ctx)

module _ (policy : MoneyPolicy) where
  settle_funded-IsSettledAfter :
      (ctx : InvoiceContext) (ps : List Payment) (reviews : List ℕ) (db : Ledger)
      → lock_invoice ctx.invoice.id db ≡ some ctx
      → IsSettledAfter ctx (settle_funded policy ctx ps reviews db)
  unfolding settle_funded
  settle_funded-IsSettledAfter ctx ps reviews db found =
      let rule = rule_for policy ctx (sum_raw ps) in
      let cutoff = cutoff_for policy ctx rule db in
      let db1 = promote_candidates cutoff ps db in
      let s = decided policy ctx rule ps cutoff reviews in
      settle_decided-cases (IsSettledAfter ctx) (raised-IsSettledAfter ctx)
        (idle-IsSettledAfter ctx) policy
        (classify_for policy ctx (total_in ctx cutoff db1.payments)) s db1
        λ a e granting.
          apply_settlement-IsSettledAfter (s a) db1
            (promote_candidates-found ctx.invoice.id ctx cutoff ps db found)

  settle_live-IsSettledAfter :
      (ctx : InvoiceContext) (db : Ledger)
      → lock_invoice ctx.invoice.id db ≡ some ctx
      → IsSettledAfter ctx (settle_live policy ctx db)
  unfolding settle_live IsSettledAfter
  settle_live-IsSettledAfter ctx db found =
      let i = ctx.invoice.id in
      let payments = invoice_payments i db.payments in
      let (reviews, db1) = open_reviews_for_anomalies i payments db in
      ground (
        arith,
        settle_funded-IsSettledAfter ctx (candidates ctx payments) reviews db1
            (open_reviews-found i i ctx payments db found),
      )

  module _ (mac : List ℕ → List ℕ) where
    -- A result grants nothing, or a second settlement finds the invoice settled and changes nothing.
    unfoldable pub IsFinal : ℕ → Result (SettlementResult × Ledger) → Type 0
    IsFinal i (raised e) = Unit
    IsFinal i (done (r, after)) =
        (r.entitlement_id ≡ none)
        ⊎ (settle_invoice policy mac i after ≡ done (plain_result i Outcome.already_settled, after))

    from_settled :
        (i : ℕ) (ctx : InvoiceContext) (res : Result (SettlementResult × Ledger))
        → ctx.invoice.id ≡ i
        → (ctx.asset.chain_id == ctx.invoice.chain_id) ≡ true
        → verify_mac mac ctx.invoice.integrity_mac (terms ctx) ≡ true
        → IsSettledAfter ctx res
        → IsFinal i res
    unfolding IsSettledAfter IsFinal settle_invoice settle_locked
    from_settled i ctx (raised e) same chain verified after = tt
    from_settled i ctx (done (r, db)) same chain verified (inl idle) = inl idle
    from_settled i ctx (done (r, db)) same chain verified (inr (status, (settled, found))) =
        inr (rw (sym same, found) (ground arith))

    refuse_tampered-IsFinal :
        (i : ℕ) (ctx : InvoiceContext) (db : Ledger)
        → IsFinal i (done (refuse_tampered_invoice ctx db))
    unfolding refuse_tampered_invoice IsFinal
    refuse_tampered-IsFinal i ctx db = inl refl

    settle_locked-IsFinal :
        (i : ℕ) (found : Option InvoiceContext) (db : Ledger)
        → lock_invoice i db ≡ found
        → IsFinal i (settle_locked policy mac i found db)
    unfolding settle_locked IsFinal
    settle_locked-IsFinal i none db e = tt
    settle_locked-IsFinal i (some ctx) db e =
        let same = lock_invoice-id i ctx db e in
        ground (
          arith,
          refuse_tampered-IsFinal i ctx db,
          from_settled i ctx (settle_live policy ctx db) same,
          settle_live-IsSettledAfter ctx db (ap (λ j. lock_invoice j db) same ∙ e),
        )

    -- A settlement that grants is final: settling the invoice again, on the tables that it left, is
    -- `already_settled` and changes nothing in them.
    pub settle_invoice-IsFinal : (i : ℕ) (db : Ledger) → IsFinal i (settle_invoice policy mac i db)
    unfolding settle_invoice
    settle_invoice-IsFinal i db = settle_locked-IsFinal i (lock_invoice i db) db refl
