-- ===== src/Settler/Service/Apply.antt =====
-- The writes of a settlement (settler/service.py): `_apply_settlement`, `_apply_partially_paid` and
-- `_apply_underpaid_manual_review`.
use notchstave.Common.{
  ℕ, ◌+◌, ◌-◌, true, false, Option, none, some, List, [], ◌∷◌, ◌++◌, ltb, if◌then◌else◌,
}
use notchstave.Common.Int.{ℤ, pos, leb_ℤ}
use notchstave.Enums.{InvoiceStatus, ManualReviewKind}
use notchstave.Settler.Policy.{Outcome, AmountDecision, excess_raw}
use notchstave.Settler.Confirmations.{ConfirmationRule}
use notchstave.Settler.Ledger.{Payment, NotificationKind, AuditAction, Ledger}
use notchstave.Settler.Ledger.Invoices.{InvoiceContext, cas_invoice_status}
use notchstave.Settler.Ledger.Payments.{credit_payment}
use notchstave.Settler.Ledger.Grants.{insert_entitlement, credit_internal_balance}
use notchstave.Settler.Ledger.Outbox.{
  enqueue_notification, open_manual_review, create_refund_request, write_audit,
}
use notchstave.Settler.Service.{
  SettlerError, Result, done, raised, SettlementResult, plain_result, ids_of, creditable_usd,
}

-- What a settlement carries to its writes.
pub record Decided : Type 0 where
  pub ctx : InvoiceContext
  pub decision : AmountDecision
  pub rule : ConfirmationRule
  pub candidates : List Payment
  pub cutoff : ℤ
  pub review_ids : List ℕ

abbrev pub settled_status : Outcome → InvoiceStatus
settled_status Outcome.overpaid_credited = InvoiceStatus.overpaid
settled_status Outcome.overpaid_refund_pending = InvoiceStatus.overpaid
settled_status _ = InvoiceStatus.paid

-- The credit loop; `head + 1 - block` stops at 0, as its `max(0, …)` does.
unfoldable pub credit_candidates : ℕ → ℤ → List Payment → Ledger → List ℕ × Ledger
credit_candidates head cutoff [] db = ([], db)
credit_candidates head cutoff (p ∷ ps) db =
    let (credited, db1) =
      if leb_ℤ (pos p.block_number) cutoff
      then credit_payment p.id (head + 1 - p.block_number) db
      else (false, db) in
    let (rest, db2) = credit_candidates head cutoff ps db1 in
    (if credited then p.id ∷ rest else rest, db2)

-- What the branches for an overpayment add to the result.
pub record Excess : Type 0 where
  pub refund_id : Option ℕ
  pub review_ids : List ℕ
  pub notification_ids : List ℕ

abbrev no_excess : Excess
no_excess = record { refund_id = none; review_ids = []; notification_ids = [] }

-- The notification was inserted, so the balance has not been credited for this grant.
unfoldable pub credit_once : Option ℕ → ℕ → ℕ → Ledger → Ledger
unfolding credit_internal_balance write_audit
credit_once none user usd db = db
credit_once (some n) user usd db =
    let credited = if ltb 0 usd then (credit_internal_balance user usd db).1 else db in
    write_audit AuditAction.internal_balance_credited user none none credited

unfoldable pub credit_excess : Option ℕ → Decided → ℕ → Ledger → Result (Excess × Ledger)
unfolding credit_once enqueue_notification
credit_excess none s grant db = raised SettlerError.invalid_operation
credit_excess (some usd) s grant db =
    let r = s.ctx.invoice in
    let (extra, db1) =
      enqueue_notification r.user_id NotificationKind.overpaid_credited r.id grant db in
    done (
      record { refund_id = none; review_ids = []; notification_ids = ids_of extra },
      credit_once extra r.user_id usd db1,
    )

unfoldable pub refund_excess : Decided → ℕ → Ledger → Excess × Ledger
unfolding create_refund_request open_manual_review enqueue_notification excess_raw
refund_excess s grant db =
    let r = s.ctx.invoice in
    let (refund, db1) = create_refund_request r.id (excess_raw s.decision) r.asset_id db in
    let (review, db2) = open_manual_review ManualReviewKind.overpaid (some r.id) none db1 in
    let (extra, db3) =
      enqueue_notification r.user_id NotificationKind.refund_pending r.id grant db2 in
    (
      record { refund_id = refund; review_ids = ids_of review; notification_ids = ids_of extra },
      db3,
    )

unfoldable pub settle_excess : Outcome → Decided → ℕ → Ledger → Result (Excess × Ledger)
unfolding credit_excess refund_excess creditable_usd
settle_excess Outcome.overpaid_credited s grant db =
    let ctx = s.ctx in
    credit_excess
      (creditable_usd (excess_raw s.decision) ctx.asset.decimals ctx.invoice.rate_snapshot) s grant
      db
settle_excess Outcome.overpaid_refund_pending s grant db = done (refund_excess s grant db)
settle_excess _ s grant db = done (no_excess, db)

-- The end of `_apply_settlement`: its audit row and its result.
unfoldable pub finish_settlement :
    Decided → ℕ → List ℕ → List ℕ → Result (Excess × Ledger) → Result (SettlementResult × Ledger)
unfolding write_audit
finish_settlement s grant credited notifications (raised e) = raised e
finish_settlement s grant credited notifications (done (extra, db)) =
    let r = s.ctx.invoice in
    let d = s.decision in
    done (
      record {
        invoice_id = r.id;
        outcome = d.outcome;
        decision = some d;
        entitlement_id = some grant;
        notification_ids = notifications ++ extra.notification_ids;
        manual_review_ids = s.review_ids ++ extra.review_ids;
        refund_id = extra.refund_id;
        credited_payment_ids = credited;
        confirmation_rule = some s.rule;
        lost_grant_race = false;
      },
      write_audit (AuditAction.settle d.outcome) r.id (some r.status)
          (some (settled_status d.outcome)) db,
    )

-- `_apply_settlement` behind the insert of the grant.
unfoldable pub announce_grant :
    Decided → List ℕ → Option ℕ → Ledger → Result (SettlementResult × Ledger)
unfolding write_audit enqueue_notification settle_excess finish_settlement
announce_grant s credited none db =
    let r = s.ctx.invoice in
    done (
      record (plain_result r.id Outcome.already_settled) {
        decision = some s.decision;
        credited_payment_ids = credited;
        manual_review_ids = s.review_ids;
        confirmation_rule = some s.rule;
        lost_grant_race = true;
      },
      write_audit AuditAction.grant_blocked r.id (some r.status)
          (some (settled_status s.decision.outcome)) db,
    )
announce_grant s credited (some grant) db =
    let r = s.ctx.invoice in
    let (n, db1) = enqueue_notification r.user_id NotificationKind.invoice_settled r.id grant db in
    finish_settlement s grant credited (ids_of n) (settle_excess s.decision.outcome s grant db1)

-- `_apply_settlement` behind the compare-and-set.
unfoldable pub grant_access : Decided → Ledger → Result (SettlementResult × Ledger)
unfolding credit_candidates insert_entitlement announce_grant
grant_access s db =
    let ctx = s.ctx in
    let (credited, db1) = credit_candidates ctx.chain.last_indexed_block s.cutoff s.candidates db in
    let (grant, db2) =
      insert_entitlement ctx.invoice.user_id ctx.invoice.product_id ctx.invoice.id
        ctx.product.subscription_days db1 in
    announce_grant s credited grant db2

-- A worker that loses the compare-and-set writes nothing.
abbrev pub lost : Decided → SettlementResult
lost s = record (plain_result s.ctx.invoice.id Outcome.already_settled) {
  decision = some s.decision;
}

unfoldable pub apply_settlement : Decided → Ledger → Result (SettlementResult × Ledger)
unfolding grant_access cas_invoice_status
apply_settlement s db =
    let (won, db1) =
      cas_invoice_status s.ctx.invoice.id (settled_status s.decision.outcome) true db in
    if won
    then grant_access s db1
    else done (record (lost s) { confirmation_rule = some s.rule }, db1)

unfoldable pub apply_partially_paid : Decided → Ledger → SettlementResult × Ledger
unfolding cas_invoice_status enqueue_notification write_audit
apply_partially_paid s db =
    let r = s.ctx.invoice in
    let (won, db1) = cas_invoice_status r.id InvoiceStatus.partially_paid false db in
    let (n, db2) =
      enqueue_notification r.user_id NotificationKind.invoice_underpaid r.id s.decision.total_raw
        db1 in
    if won
    then (
      record (plain_result r.id s.decision.outcome) {
        decision = some s.decision;
        notification_ids = ids_of n;
        manual_review_ids = s.review_ids;
      },
      write_audit (AuditAction.settle s.decision.outcome) r.id (some r.status)
          (some InvoiceStatus.partially_paid) db2,
    )
    else (lost s, db1)

unfoldable pub apply_underpaid_manual_review : Decided → Ledger → SettlementResult × Ledger
unfolding cas_invoice_status open_manual_review enqueue_notification write_audit
apply_underpaid_manual_review s db =
    let r = s.ctx.invoice in
    let (won, db1) = cas_invoice_status r.id InvoiceStatus.manual_review false db in
    let (review, db2) = open_manual_review ManualReviewKind.underpaid (some r.id) none db1 in
    let (n, db3) =
      enqueue_notification r.user_id NotificationKind.invoice_manual_review r.id
        s.decision.total_raw db2 in
    if won
    then (
      record (plain_result r.id s.decision.outcome) {
        decision = some s.decision;
        notification_ids = ids_of n;
        manual_review_ids = s.review_ids ++ ids_of review;
      },
      write_audit (AuditAction.settle s.decision.outcome) r.id (some r.status)
          (some InvoiceStatus.manual_review) db3,
    )
    else (lost s, db1)
