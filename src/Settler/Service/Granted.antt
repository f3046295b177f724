-- ===== src/Settler/Service/Granted.antt =====
-- The grants of `settle_invoice` (settler/service.py), against the tables before and after it.
use notchstave.Common.{ℕ, ◌≡◌, refl, true, Option, none, some, List, [], ◌∷◌, arith, ◌⊎◌, inl, inr}
use notchstave.Common.Int.{ℤ}
use notchstave.Enums.{is_live}
use notchstave.Invoicing.Integrity.{verify_mac}
use notchstave.Settler.Policy.{MoneyPolicy}
use notchstave.Settler.Ledger.{Payment, Ledger}
use notchstave.Settler.Ledger.Invoices.{InvoiceContext, lock_invoice}
use notchstave.Settler.Ledger.Payments.{invoice_payments}
use notchstave.Settler.Ledger.Outbox.{open_manual_review}
use notchstave.Settler.Service.{
  Result, done, raised, SettlementResult, candidates, sum_raw, open_reviews_for_anomalies,
}
use notchstave.Settler.Service.Settle.{
  terms, classify_for, rule_for, cutoff_for, promote_candidates, settle_funded, settle_live,
  settle_locked, settle_invoice, refuse_tampered_invoice,
}
use notchstave.Settler.Service.Funded.{total_in, IsPaidFor, settle_decided-IsPaidFor}

pub blocks-open_reviews_for_anomalies :
    (i : ℕ) (ps : List Payment) (db : Ledger)
    → (open_reviews_for_anomalies i ps db).1.blocks ≡ db.blocks
unfolding open_reviews_for_anomalies open_manual_review
blocks-open_reviews_for_anomalies i [] db = refl
blocks-open_reviews_for_anomalies i (p ∷ ps) db =
    grind (arith, blocks-open_reviews_for_anomalies i ps)

module _ (policy : MoneyPolicy) where
  -- The height up to which payments count: the regime for all that is at stake.
  abbrev pub cutoff_at : InvoiceContext → Ledger → ℤ
  cutoff_at ctx db =
      cutoff_for policy ctx
        (rule_for policy ctx
          (sum_raw (candidates ctx (invoice_payments ctx.invoice.id db.payments))))
        db

  settle_live-IsPaidFor :
      (ctx : InvoiceContext) (db : Ledger)
      → IsPaidFor policy ctx (cutoff_at ctx db) (settle_live policy ctx db)
  unfolding settle_live settle_funded IsPaidFor
  settle_live-IsPaidFor ctx db =
      let payments = invoice_payments ctx.invoice.id db.payments in
      let (reviews, db1) = open_reviews_for_anomalies ctx.invoice.id payments db in
      let ps = candidates ctx payments in
      let rule = rule_for policy ctx (sum_raw ps) in
      let db2 = promote_candidates (cutoff_at ctx db) ps db1 in
      rw (blocks-open_reviews_for_anomalies ctx.invoice.id payments db) (
        ground (
          arith,
          settle_decided-IsPaidFor policy
              (classify_for policy ctx (total_in ctx (cutoff_at ctx db) db2.payments)) ctx rule ps
              (cutoff_at ctx db) reviews db2 refl,
        ))

  module _ (mac : List ℕ → List ℕ) where
    -- A result grants nothing; or the invoice was found, its MAC verified and it was live, and the
    -- decision of the policy for its settled total, as the tables afterwards have it, grants.
    unfoldable pub GrantIsPaid :
        Option InvoiceContext → Ledger → Result (SettlementResult × Ledger) → Type 0
    GrantIsPaid found db (raised e) = Unit
    GrantIsPaid found db (done (r, after)) =
        (r.entitlement_id ≡ none)
        ⊎ ((ctx : InvoiceContext) × ((found ≡ some ctx)
              × ((verify_mac mac ctx.invoice.integrity_mac (terms ctx) ≡ true)
                  × ((is_live ctx.invoice.status ≡ true)
                      × IsPaidFor policy ctx (cutoff_at ctx db) (done (r, after))))))

    from_live :
        (ctx : InvoiceContext) (db : Ledger) (res : Result (SettlementResult × Ledger))
        → verify_mac mac ctx.invoice.integrity_mac (terms ctx) ≡ true
        → is_live ctx.invoice.status ≡ true
        → IsPaidFor policy ctx (cutoff_at ctx db) res
        → GrantIsPaid (some ctx) db res
    unfolding GrantIsPaid
    from_live ctx db (raised e) verified live paid = tt
    from_live ctx db (done (r, after)) verified live paid =
        inr (ctx, (refl, (verified, (live, paid))))

    refuse_tampered-GrantIsPaid :
        (ctx : InvoiceContext) (db : Ledger)
        → GrantIsPaid (some ctx) db (done (refuse_tampered_invoice ctx db))
    unfolding refuse_tampered_invoice GrantIsPaid
    refuse_tampered-GrantIsPaid ctx db = inl refl

    settle_locked-GrantIsPaid :
        (i : ℕ) (found : Option InvoiceContext) (db : Ledger)
        → GrantIsPaid found db (settle_locked policy mac i found db)
    unfolding settle_locked GrantIsPaid
    settle_locked-GrantIsPaid i none db = tt
    settle_locked-GrantIsPaid i (some ctx) db = ground (
      arith,
      refuse_tampered-GrantIsPaid ctx db,
      from_live ctx db (settle_live policy ctx db),
      settle_live-IsPaidFor ctx db,
    )

    -- A settlement that grants anything has found the invoice live with a MAC that verifies, and the
    -- policy's decision grants for the settled total that the tables afterwards have, at the height that
    -- the confirmation regime allows for all the money at stake.
    pub settle_invoice-GrantIsPaid :
        (i : ℕ) (db : Ledger) → GrantIsPaid (lock_invoice i db) db (settle_invoice policy mac i db)
    unfolding settle_invoice
    settle_invoice-GrantIsPaid i db = settle_locked-GrantIsPaid i (lock_invoice i db) db
