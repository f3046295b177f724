-- ===== src/Settler/Service/Settle.antt =====
-- `settle_invoice` (settler/service.py), in the order of its tests. The MAC under the key of the process is
-- a parameter.
use notchstave.Common.{
  ℕ, false, not, ◌&&◌, Option, none, some, List, [], ◌∷◌, ltb, ◌==◌, if◌then◌else◌,
}
use notchstave.Common.Int.{ℤ, pos, leb_ℤ}
use notchstave.Enums.{InvoiceStatus, ManualReviewKind, is_live, is_settled}
use notchstave.Invoicing.Integrity.{Terms, verify_mac}
use notchstave.Settler.Policy.{Outcome, AmountDecision, MoneyPolicy, classify, is_granting}
use notchstave.Settler.Confirmations.{ConfirmationRule, required_rule, creditable_cutoff_height}
use notchstave.Settler.Ledger.{Payment, AuditAction, Ledger}
use notchstave.Settler.Ledger.Invoices.{InvoiceContext, lock_invoice, cas_invoice_status}
use notchstave.Settler.Ledger.Payments.{
  is_seen, promote_payment_to_confirmed, settled_total_raw, finalized_head, invoice_payments,
}
use notchstave.Settler.Ledger.Outbox.{open_manual_review, write_audit}
use notchstave.Settler.Service.{
  SettlerError, Result, done, raised, SettlementResult, plain_result, ids_of,
  open_reviews_for_anomalies, candidates, sum_raw,
}
use notchstave.Settler.Service.Apply.{
  Decided, apply_settlement, apply_partially_paid, apply_underpaid_manual_review,
}

-- The row's values that its MAC covers.
abbrev pub terms : InvoiceContext → Terms
terms ctx = record {
  invoice_id = ctx.invoice.id;
  chain_id = ctx.invoice.chain_id;
  asset_id = ctx.invoice.asset_id;
  address = ctx.address.address;
  amount_due_raw = ctx.invoice.amount_due_raw;
  expires_at = ctx.invoice.expires_at;
}

-- `_refuse_tampered_invoice`
unfoldable pub refuse_tampered_invoice : InvoiceContext → Ledger → SettlementResult × Ledger
unfolding open_manual_review cas_invoice_status write_audit
refuse_tampered_invoice ctx db =
    let r = ctx.invoice in
    let (review, db1) = open_manual_review ManualReviewKind.mac_failure (some r.id) none db in
    let (moved, db2) =
      if is_live r.status
      then cas_invoice_status r.id InvoiceStatus.manual_review false db1
      else (false, db1) in
    (
      record (plain_result r.id Outcome.integrity_failed) { manual_review_ids = ids_of review },
      write_audit AuditAction.integrity_mac_failed r.id (some r.status)
          (some (if moved then InvoiceStatus.manual_review else r.status)) db2,
    )

-- The promotion of the candidates at or below the cutoff.
unfoldable pub promote_candidates : ℤ → List Payment → Ledger → Ledger
unfolding promote_payment_to_confirmed
promote_candidates cutoff [] db = db
promote_candidates cutoff (p ∷ ps) db = promote_candidates cutoff ps (
    if is_seen p.status && leb_ℤ (pos p.block_number) cutoff
    then (promote_payment_to_confirmed p.id db).1
    else db)

-- The branches for a decision that does not wait.
unfoldable pub apply_by_outcome : Outcome → Decided → Ledger → SettlementResult × Ledger
unfolding apply_partially_paid apply_underpaid_manual_review
apply_by_outcome Outcome.partially_paid s db = apply_partially_paid s db
apply_by_outcome Outcome.underpaid_manual_review s db = apply_underpaid_manual_review s db
apply_by_outcome o s db = (
  record (plain_result s.ctx.invoice.id o) {
    decision = some s.decision;
    manual_review_ids = s.review_ids;
    confirmation_rule = some s.rule;
  },
  db,
)

unfoldable pub apply_decision : Decided → Ledger → Result (SettlementResult × Ledger)
unfolding apply_settlement apply_by_outcome
apply_decision s db =
    if is_granting s.decision.outcome
    then apply_settlement s db
    else done (apply_by_outcome s.decision.outcome s db)

-- The decision on all that is on the chain: the buyer waits where it would grant.
unfoldable pub settle_pending :
    Option AmountDecision → Decided → Ledger → Result (SettlementResult × Ledger)
settle_pending none s db = raised SettlerError.value_error
settle_pending (some potential) s db =
    if is_granting potential.outcome
    then done (
      record (plain_result s.ctx.invoice.id Outcome.awaiting_confirmations) {
        decision = some s.decision;
        manual_review_ids = s.review_ids;
        confirmation_rule = some s.rule;
      },
      db,
    )
    else apply_decision s db

-- `classify` for an invoice and an amount.
abbrev pub classify_for : MoneyPolicy → InvoiceContext → ℕ → Option AmountDecision
classify_for policy ctx total =
    classify policy ctx.invoice.amount_due_raw total ctx.asset.decimals ctx.invoice.rate_snapshot
      ctx.db_now ctx.invoice.topup_window_until

module _ (policy : MoneyPolicy) where
  unfoldable pub settle_decided :
      Option AmountDecision
      → (AmountDecision → Decided)
      → Ledger
      → Result (SettlementResult × Ledger)
  unfolding settle_pending apply_decision sum_raw
  settle_decided none s db = raised SettlerError.value_error
  settle_decided (some d) s db =
      let at_stake = sum_raw (s d).candidates in
      if not (is_granting d.outcome) && ltb d.total_raw at_stake
      then settle_pending (classify_for policy (s d).ctx at_stake) (s d) db
      else apply_decision (s d) db

  -- The confirmation regime, from the total at stake.
  abbrev pub rule_for : InvoiceContext → ℕ → ConfirmationRule
  rule_for ctx at_stake =
      required_rule at_stake ctx.asset.decimals ctx.invoice.rate_snapshot
        ctx.chain.min_confirmations ctx.chain.credit_threshold_usd

  abbrev pub cutoff_for : InvoiceContext → ConfirmationRule → Ledger → ℤ
  cutoff_for ctx rule db =
      creditable_cutoff_height ctx.chain.last_indexed_block rule
        (if rule.needs_finality then finalized_head ctx.invoice.chain_id db.blocks else none)

  abbrev pub decided :
      InvoiceContext → ConfirmationRule → List Payment → ℤ → List ℕ → AmountDecision → Decided
  decided ctx rule ps cutoff reviews d = record {
    ctx = ctx;
    decision = d;
    rule = rule;
    candidates = ps;
    cutoff = cutoff;
    review_ids = reviews;
  }

  unfoldable pub settle_funded :
      InvoiceContext → List Payment → List ℕ → Ledger → Result (SettlementResult × Ledger)
  unfolding settle_decided promote_candidates sum_raw
  settle_funded ctx ps reviews db =
      let r = ctx.invoice in
      let rule = rule_for ctx (sum_raw ps) in
      let cutoff = cutoff_for ctx rule db in
      let db1 = promote_candidates cutoff ps db in
      let total = settled_total_raw r.id r.asset_id r.chain_id cutoff db1.payments in
      settle_decided (classify_for policy ctx total) (decided ctx rule ps cutoff reviews) db1

  -- An invoice that can still receive a decision.
  unfoldable pub settle_live : InvoiceContext → Ledger → Result (SettlementResult × Ledger)
  unfolding settle_funded open_reviews_for_anomalies candidates sum_raw
  settle_live ctx db =
      let payments = invoice_payments ctx.invoice.id db.payments in
      let (reviews, db1) = open_reviews_for_anomalies ctx.invoice.id payments db in
      let ps = candidates ctx payments in
      if sum_raw ps == 0
      then done (
        record (plain_result ctx.invoice.id Outcome.no_funds) { manual_review_ids = reviews },
        db1,
      )
      else settle_funded ctx ps reviews db1

  module _ (mac : List ℕ → List ℕ) where
    unfoldable pub settle_locked :
        ℕ → Option InvoiceContext → Ledger → Result (SettlementResult × Ledger)
    unfolding settle_live refuse_tampered_invoice verify_mac
    settle_locked i none db = raised SettlerError.invoice_not_found
    settle_locked i (some ctx) db =
        if not (ctx.asset.chain_id == ctx.invoice.chain_id)
        then raised SettlerError.inconsistent_invoice
        else if not (verify_mac mac ctx.invoice.integrity_mac (terms ctx))
        then done (refuse_tampered_invoice ctx db)
        else if is_settled ctx.invoice.status
        then done (plain_result i Outcome.already_settled, db)
        else if not (is_live ctx.invoice.status)
        then done (plain_result i Outcome.not_live, db)
        else settle_live ctx db

    unfoldable pub settle_invoice : ℕ → Ledger → Result (SettlementResult × Ledger)
    unfolding settle_locked lock_invoice
    settle_invoice i db = settle_locked i (lock_invoice i db) db
