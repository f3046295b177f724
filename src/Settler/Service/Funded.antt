-- ===== src/Settler/Service/Funded.antt =====
-- What a grant rests on (settler/service.py): an authentic live invoice and the settled total of its
-- payments, as it stands in the tables afterwards.
use notchstave.Common.{
  ℕ, ◌≡◌, refl, true, Option, none, some, List, [], ◌∷◌, arith, ◌⊎◌, inl, inr, if◌then◌else◌,
  Bool-cases, ◌∙◌,
}
use notchstave.Common.Int.{ℤ}
use notchstave.Common.Rows.{update}
use notchstave.Enums.{PaymentStatus}
use notchstave.Settler.Policy.{AmountDecision, MoneyPolicy, is_granting}
use notchstave.Settler.Confirmations.{ConfirmationRule}
use notchstave.Settler.Ledger.{Payment, Ledger}
use notchstave.Settler.Ledger.Invoices.{InvoiceContext, cas_invoice_status}
use notchstave.Settler.Ledger.Payments.{is_payment_confirmed, settled_total_raw, credit_payment}
use notchstave.Settler.Service.{Result, done, raised, SettlerError, SettlementResult}
use notchstave.Settler.Service.Apply.{
  settled_status, Decided, Excess, credit_candidates, finish_settlement, announce_grant,
  grant_access, apply_settlement,
}
use notchstave.Settler.Service.Settle.{classify_for, settle_decided, decided}
use notchstave.Settler.Service.Flow.{settle_decided-cases}
use notchstave.Settler.Service.Frame.{Fact, HoldsAfter, grant_access-HoldsAfter}

-- `credited` counts as `confirmed` does.
settled_total_raw-credited :
    (i asset chain id : ℕ) (cutoff : ℤ) (confirmations : ℕ) (rows : List Payment)
    → settled_total_raw i asset chain cutoff (
        update
          (λ (p : Payment). p.id)
          id
          (λ p.
            if is_payment_confirmed p.status
            then record p {
              status = PaymentStatus.credited;
              confirmations_at_credit = some confirmations;
            }
            else p)
          rows)
      ≡ settled_total_raw i asset chain cutoff rows
unfolding settled_total_raw update
settled_total_raw-credited i asset chain id cutoff n [] = refl
settled_total_raw-credited i asset chain id cutoff n (p ∷ ps) =
    ground (arith, settled_total_raw-credited i asset chain id cutoff n ps)

settled_total_raw-credit_payment :
    (i asset chain id : ℕ) (cutoff : ℤ) (confirmations : ℕ) (db : Ledger)
    → settled_total_raw i asset chain cutoff (credit_payment id confirmations db).1.payments
      ≡ settled_total_raw i asset chain cutoff db.payments
unfolding credit_payment
settled_total_raw-credit_payment i asset chain id cutoff n db =
    ground (arith, settled_total_raw-credited i asset chain id cutoff n db.payments)

-- Crediting any payments, to any depth, leaves every settled total as it was: a payment is never counted
-- twice, and none is lost.
pub settled_total_raw-credit_candidates :
    (i asset chain head : ℕ) (cutoff limit : ℤ) (ps : List Payment) (db : Ledger)
    → settled_total_raw i asset chain cutoff (credit_candidates head limit ps db).1.payments
      ≡ settled_total_raw i asset chain cutoff db.payments
unfolding credit_candidates
settled_total_raw-credit_candidates i asset chain head cutoff limit [] db = refl
settled_total_raw-credit_candidates i asset chain head cutoff limit (p ∷ ps) db = grind (
  arith,
  settled_total_raw-credit_candidates i asset chain head cutoff limit ps,
  settled_total_raw-credit_payment i asset chain p.id cutoff,
)

-- The settled total of an invoice up to a height.
abbrev pub total_in : InvoiceContext → ℤ → List Payment → ℕ
total_in ctx cutoff payments =
    settled_total_raw ctx.invoice.id ctx.invoice.asset_id ctx.invoice.chain_id cutoff payments

module _ (policy : MoneyPolicy) where
  -- A result grants nothing; or its decision grants, and is that of the policy for the settled total.
  unfoldable pub IsPaidFor : InvoiceContext → ℤ → Result (SettlementResult × Ledger) → Type 0
  IsPaidFor ctx cutoff (raised e) = Unit
  IsPaidFor ctx cutoff (done (r, db)) =
      (r.entitlement_id ≡ none)
      ⊎ ((d : AmountDecision) × ((r.decision ≡ some d)
            × ((is_granting d.outcome ≡ true)
                × (classify_for policy ctx (total_in ctx cutoff db.payments) ≡ some d))))

  module _ (s : Decided) (granting : is_granting s.decision.outcome ≡ true) where
    decision_fact : Fact
    decision_fact now chains assets products addresses invoices payments =
        classify_for policy s.ctx (total_in s.ctx s.cutoff payments) ≡ some s.decision

    finish_settlement-IsPaidFor :
        (grant : ℕ) (credited ns : List ℕ) (extra : Result (Excess × Ledger))
        → HoldsAfter decision_fact (finish_settlement s grant credited ns extra)
        → IsPaidFor s.ctx s.cutoff (finish_settlement s grant credited ns extra)
    unfolding finish_settlement IsPaidFor HoldsAfter decision_fact
    finish_settlement-IsPaidFor grant credited ns (raised e) holds = tt
    finish_settlement-IsPaidFor grant credited ns (done (extra, db)) holds =
        inr (s.decision, (refl, (granting, holds)))

    announce_grant-IsPaidFor :
        (credited : List ℕ) (grant : Option ℕ) (db : Ledger)
        → HoldsAfter decision_fact (announce_grant s credited grant db)
        → IsPaidFor s.ctx s.cutoff (announce_grant s credited grant db)
    unfolding announce_grant IsPaidFor
    announce_grant-IsPaidFor credited none db holds = inl refl
    announce_grant-IsPaidFor credited (some grant) db holds =
        finish_settlement-IsPaidFor grant credited _ _ holds

    grant_access-IsPaidFor :
        (db : Ledger)
        → classify_for policy s.ctx (total_in s.ctx s.cutoff db.payments) ≡ some s.decision
        → IsPaidFor s.ctx s.cutoff (grant_access s db)
    unfolding grant_access decision_fact
    grant_access-IsPaidFor db decided =
        let r = s.ctx.invoice in
        let head = s.ctx.chain.last_indexed_block in
        let same =
          settled_total_raw-credit_candidates r.id r.asset_id r.chain_id head s.cutoff s.cutoff
            s.candidates db in
        announce_grant-IsPaidFor _ _ _
          (grant_access-HoldsAfter decision_fact s db (rw same decided))

    payments-cas :
        (i : ℕ) (db : Ledger)
        → (cas_invoice_status i (settled_status s.decision.outcome) true db).1.payments
          ≡ db.payments
    unfolding cas_invoice_status
    payments-cas i db = ground arith

    apply_settlement-IsPaidFor :
        (db : Ledger)
        → classify_for policy s.ctx (total_in s.ctx s.cutoff db.payments) ≡ some s.decision
        → IsPaidFor s.ctx s.cutoff (apply_settlement s db)
    unfolding apply_settlement IsPaidFor
    apply_settlement-IsPaidFor db decided =
        let i = s.ctx.invoice.id in
        let db1 = (cas_invoice_status i (settled_status s.decision.outcome) true db).1 in
        let paid = grant_access-IsPaidFor db1 (rw (payments-cas i db) decided) in
        elim (Bool-cases (cas_invoice_status i (settled_status s.decision.outcome) true db).0) [
          | inl won ↦ rw won paid
          | inr lost ↦ rw lost (inl refl)
        ]

  raised-IsPaidFor :
      (ctx : InvoiceContext) (cutoff : ℤ) (e : SettlerError) → IsPaidFor ctx cutoff (raised e)
  unfolding IsPaidFor
  raised-IsPaidFor ctx cutoff e = tt

  idle-IsPaidFor :
      (ctx : InvoiceContext) (cutoff : ℤ) (r : SettlementResult) (db : Ledger)
      → r.entitlement_id ≡ none
      → IsPaidFor ctx cutoff (done (r, db))
  unfolding IsPaidFor
  idle-IsPaidFor ctx cutoff r db idle = inl idle

  pub settle_decided-IsPaidFor :
      (d : Option AmountDecision) (ctx : InvoiceContext) (rule : ConfirmationRule)
      → (ps : List Payment) (cutoff : ℤ) (reviews : List ℕ) (db : Ledger)
      → classify_for policy ctx (total_in ctx cutoff db.payments) ≡ d
      → IsPaidFor ctx cutoff
          (settle_decided policy d (decided policy ctx rule ps cutoff reviews) db)
  settle_decided-IsPaidFor d ctx rule ps cutoff reviews db decision =
      let s = decided policy ctx rule ps cutoff reviews in
      settle_decided-cases (IsPaidFor ctx cutoff) (raised-IsPaidFor ctx cutoff)
        (idle-IsPaidFor ctx cutoff) policy d s db
        λ a e granting. apply_settlement-IsPaidFor (s a) granting db (decision ∙ e)
