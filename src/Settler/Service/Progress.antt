-- ===== src/Settler/Service/Progress.antt =====
-- A bill that is paid is settled (settler/service.py): nothing between the decision and the grant can stop
-- it.
use notchstave.Common.{ℕ, ◌≡◌, refl, ap, ◌∙◌, true, false, some, List, arith, ◌==◌}
use notchstave.Enums.{InvoiceStatus, is_live, is_settled}
use notchstave.Invoicing.Integrity.{verify_mac}
use notchstave.Settler.Policy.{Outcome, AmountDecision, MoneyPolicy, is_granting, excess_raw}
use notchstave.Settler.Ledger.{Payment, NotificationKind, Ledger}
use notchstave.Settler.Ledger.Invoices.{InvoiceContext, lock_invoice, cas_invoice_status}
use notchstave.Settler.Ledger.Payments.{invoice_payments}
use notchstave.Settler.Ledger.Grants.{insert_entitlement}
use notchstave.Settler.Ledger.Outbox.{enqueue_notification}
use notchstave.Settler.Service.{
  Result, done, raised, SettlementResult, candidates, sum_raw, creditable_usd,
  open_reviews_for_anomalies, ids_of,
}
use notchstave.Settler.Service.Apply.{
  Decided, Excess, settled_status, credit_candidates, credit_excess, settle_excess,
  finish_settlement, announce_grant, grant_access, apply_settlement,
}
use notchstave.Settler.Service.Settle.{
  terms, classify_for, rule_for, decided, promote_candidates, apply_decision, settle_decided,
  settle_funded, settle_live, settle_locked, settle_invoice,
}
use notchstave.Settler.Service.Consistency.{IsConsistent}
use notchstave.Settler.Service.Consistency.Grant.{
  AwaitsGrant, cas_invoice_status-AwaitsGrant, credit_candidates-same,
  insert_entitlement-IsConsistent,
}
use notchstave.Settler.Service.Consistency.Settle.{
  open_reviews_for_anomalies-IsConsistent, promote_candidates-IsConsistent,
}
use notchstave.Settler.Service.Settled.{settled_status-is_settled}
use notchstave.Settler.Service.Again.{lock_invoice-id, promote_candidates-found, open_reviews-found}
use notchstave.Settler.Service.Funded.{total_in}
use notchstave.Settler.Service.Granted.{cutoff_at, blocks-open_reviews_for_anomalies}

-- The settlement returns, and it grants.
unfoldable pub IsGrant : Result (SettlementResult × Ledger) → Type 0
IsGrant (raised e) = ⊥
IsGrant (done (r, db)) = (grant : ℕ) × (r.entitlement_id ≡ some grant)

unfoldable IsDone : Result (Excess × Ledger) → Type 0
IsDone (raised e) = ⊥
IsDone (done a) = Unit

settle_excess-IsDone :
    (o : Outcome) (s : Decided) (grant usd : ℕ) (db : Ledger)
    → creditable_usd (excess_raw s.decision) s.ctx.asset.decimals s.ctx.invoice.rate_snapshot
      ≡ some usd
    → IsDone (settle_excess o s grant db)
unfolding settle_excess credit_excess IsDone
settle_excess-IsDone o s grant usd db creditable = ground arith

finish_settlement-IsGrant :
    (s : Decided) (grant : ℕ) (credited ns : List ℕ) (extra : Result (Excess × Ledger))
    → IsDone extra
    → IsGrant (finish_settlement s grant credited ns extra)
unfolding finish_settlement IsGrant IsDone
finish_settlement-IsGrant s grant credited ns (raised e) ended = absurd ended
finish_settlement-IsGrant s grant credited ns (done (extra, db)) ended = (grant, refl)

grant_access-IsGrant :
    (s : Decided) (usd : ℕ) (db : Ledger)
    → creditable_usd (excess_raw s.decision) s.ctx.asset.decimals s.ctx.invoice.rate_snapshot
      ≡ some usd
    → AwaitsGrant s.ctx.invoice.id db.invoices db.entitlements
    → IsGrant (grant_access s db)
unfolding grant_access announce_grant
grant_access-IsGrant s usd db creditable waits =
    let r = s.ctx.invoice in
    let (credited, db1) =
      credit_candidates s.ctx.chain.last_indexed_block s.cutoff s.candidates db in
    let (rows, es) =
      credit_candidates-same s.ctx.chain.last_indexed_block s.cutoff s.candidates db in
    let days = s.ctx.product.subscription_days in
    let (grant, db2) = insert_entitlement r.user_id r.product_id r.id days db1 in
    let (granted, ok) =
      insert_entitlement-IsConsistent r.user_id r.product_id r.id days db1 (rw (rows, es) waits) in
    let (n, db3) =
      enqueue_notification r.user_id NotificationKind.invoice_settled r.id db1.next_id db2 in
    rw granted (
      finish_settlement-IsGrant s db1.next_id credited (ids_of n)
        (settle_excess s.decision.outcome s db1.next_id db3)
        (settle_excess-IsDone s.decision.outcome s db1.next_id usd db3 creditable))

cas_live :
    (ctx : InvoiceContext) (o : Outcome) (db : Ledger)
    → lock_invoice ctx.invoice.id db ≡ some ctx
    → is_live ctx.invoice.status ≡ true
    → (cas_invoice_status ctx.invoice.id (settled_status o) true db).0 ≡ true
unfolding lock_invoice cas_invoice_status
cas_live ctx o db found live = ground arith

apply_settlement-IsGrant :
    (s : Decided) (usd : ℕ) (db : Ledger)
    → creditable_usd (excess_raw s.decision) s.ctx.asset.decimals s.ctx.invoice.rate_snapshot
      ≡ some usd
    → IsConsistent db
    → lock_invoice s.ctx.invoice.id db ≡ some s.ctx
    → is_live s.ctx.invoice.status ≡ true
    → IsGrant (apply_settlement s db)
unfolding apply_settlement
apply_settlement-IsGrant s usd db creditable ok found live =
    let o = s.decision.outcome in
    let i = s.ctx.invoice.id in
    let won = cas_live s.ctx o db found live in
    rw won (
      grant_access-IsGrant s usd (cas_invoice_status i (settled_status o) true db).1 creditable (
        cas_invoice_status-AwaitsGrant i (settled_status o) db (settled_status-is_settled o) ok
          won))

live_unsettled : (status : InvoiceStatus) → is_live status ≡ true → is_settled status ≡ false
live_unsettled status live = ground arith

module _ (policy : MoneyPolicy) where
  settle_decided-IsGrant :
      (d : AmountDecision) (s : AmountDecision → Decided) (db : Ledger)
      → is_granting d.outcome ≡ true
      → is_granting (s d).decision.outcome ≡ true
      → IsGrant (apply_settlement (s d) db)
      → IsGrant (settle_decided policy (some d) s db)
  unfolding settle_decided apply_decision
  settle_decided-IsGrant d s db granting granting_too granted = rw (granting, granting_too) granted

  -- The payments once those that are deep enough are promoted.
  unfoldable pub promoted : InvoiceContext → Ledger → List Payment
  promoted ctx db =
      let payments = invoice_payments ctx.invoice.id db.payments in
      (promote_candidates (cutoff_at policy ctx db) (candidates ctx payments)
        (open_reviews_for_anomalies ctx.invoice.id payments db).1).payments

  settle_live-IsGrant :
      (ctx : InvoiceContext) (d : AmountDecision) (usd : ℕ) (db : Ledger)
      → IsConsistent db
      → lock_invoice ctx.invoice.id db ≡ some ctx
      → is_live ctx.invoice.status ≡ true
      → (sum_raw (candidates ctx (invoice_payments ctx.invoice.id db.payments)) == 0) ≡ false
      → classify_for policy ctx (total_in ctx (cutoff_at policy ctx db) (promoted ctx db)) ≡ some d
      → is_granting d.outcome ≡ true
      → creditable_usd (excess_raw d) ctx.asset.decimals ctx.invoice.rate_snapshot ≡ some usd
      → IsGrant (settle_live policy ctx db)
  unfolding settle_live settle_funded promoted
  settle_live-IsGrant ctx d usd db ok found live funded decision granting creditable =
      let i = ctx.invoice.id in
      let payments = invoice_payments i db.payments in
      let (reviews, db1) = open_reviews_for_anomalies i payments db in
      let ps = candidates ctx payments in
      let rule = rule_for policy ctx (sum_raw ps) in
      let cutoff = cutoff_at policy ctx db in
      let db2 = promote_candidates cutoff ps db1 in
      let s = decided policy ctx rule ps cutoff reviews in
      let ok1 = open_reviews_for_anomalies-IsConsistent i payments db ok in
      let found1 = open_reviews-found i i ctx payments db found in
      rw (funded, blocks-open_reviews_for_anomalies i payments db, decision)
        (settle_decided-IsGrant d s db2 granting granting (
          apply_settlement-IsGrant (s d) usd db2 creditable
            (promote_candidates-IsConsistent cutoff ps db1 ok1)
            (promote_candidates-found i ctx cutoff ps db1 found1) live))

  module _ (mac : List ℕ → List ℕ) where
    -- Where every invoice is settled exactly if it has an active grant, an authentic live invoice whose
    -- asset is on its chain is granted by its next settlement, if the decision on its payments, once
    -- those that are deep enough are promoted, is a granting one, and any excess fits the balance's digits.
    pub settle_invoice-IsGrant :
        (i : ℕ) (ctx : InvoiceContext) (d : AmountDecision) (usd : ℕ) (db : Ledger)
        → IsConsistent db
        → lock_invoice i db ≡ some ctx
        → (ctx.asset.chain_id == ctx.invoice.chain_id) ≡ true
        → verify_mac mac ctx.invoice.integrity_mac (terms ctx) ≡ true
        → is_live ctx.invoice.status ≡ true
        → (sum_raw (candidates ctx (invoice_payments ctx.invoice.id db.payments)) == 0) ≡ false
        → classify_for policy ctx (total_in ctx (cutoff_at policy ctx db) (promoted ctx db))
          ≡ some d
        → is_granting d.outcome ≡ true
        → creditable_usd (excess_raw d) ctx.asset.decimals ctx.invoice.rate_snapshot ≡ some usd
        → IsGrant (settle_invoice policy mac i db)
    unfolding settle_invoice settle_locked
    settle_invoice-IsGrant i ctx d usd db ok locked chain verified live funded decision granting
          creditable =
        let found = ap (λ j. lock_invoice j db) (lock_invoice-id i ctx db locked) ∙ locked in
        rw (locked, chain, verified, live_unsettled ctx.invoice.status live, live)
          (settle_live-IsGrant ctx d usd db ok found live funded decision granting creditable)
