-- ===== src/Settler/Service/Flow.antt =====
-- Case principles of `settle_invoice` (settler/service.py): what is true of a result that grants nothing
-- and of `_apply_settlement` is true of every result.
use notchstave.Common.{◌≡◌, refl, true, Option, none, some, arith, Bool-cases, inl, inr}
use notchstave.Settler.Policy.{Outcome, AmountDecision, MoneyPolicy, is_granting}
use notchstave.Settler.Ledger.{Ledger}
use notchstave.Settler.Service.{Result, done, raised, SettlerError, SettlementResult, sum_raw}
use notchstave.Settler.Service.Apply.{
  Decided, apply_settlement, apply_partially_paid, apply_underpaid_manual_review,
}
use notchstave.Settler.Service.Settle.{
  classify_for, apply_by_outcome, apply_decision, settle_pending, settle_decided,
}

module _ (Q : Result (SettlementResult × Ledger) → Type 0)
    (at_raised : (e : SettlerError) → Q (raised e))
    (at_idle : (r : SettlementResult) (db : Ledger)
      → r.entitlement_id ≡ none
      → Q (done (r, db))) where
  idle_outcome :
      (o : Outcome) (s : Decided) (db : Ledger) → (apply_by_outcome o s db).0.entitlement_id ≡ none
  unfolding apply_by_outcome apply_partially_paid apply_underpaid_manual_review
  idle_outcome o s db = ground arith

  apply_decision-cases :
      (s : Decided) (db : Ledger)
      → (is_granting s.decision.outcome ≡ true → Q (apply_settlement s db))
      → Q (apply_decision s db)
  unfolding apply_decision
  apply_decision-cases s db granted =
      let (r, after) = apply_by_outcome s.decision.outcome s db in
      elim (Bool-cases (is_granting s.decision.outcome)) [
        | inl e ↦ rw e (granted e)
        | inr e ↦ rw e (at_idle r after (idle_outcome s.decision.outcome s db))
      ]

  settle_pending-cases :
      (potential : Option AmountDecision) (s : Decided) (db : Ledger)
      → (is_granting s.decision.outcome ≡ true → Q (apply_settlement s db))
      → Q (settle_pending potential s db)
  unfolding settle_pending
  settle_pending-cases none s db granted = at_raised SettlerError.value_error
  settle_pending-cases (some d) s db granted = elim (Bool-cases (is_granting d.outcome)) [
    | inl e ↦ rw e (at_idle _ _ refl)
    | inr e ↦ rw e (apply_decision-cases s db granted)
  ]

  pub settle_decided-cases :
      (policy : MoneyPolicy) (d : Option AmountDecision) (s : AmountDecision → Decided)
      (db : Ledger)
      → ((a : AmountDecision)
          → d ≡ some a
          → is_granting (s a).decision.outcome ≡ true
          → Q (apply_settlement (s a) db))
      → Q (settle_decided policy d s db)
  unfolding settle_decided
  settle_decided-cases policy none s db granted = at_raised SettlerError.value_error
  settle_decided-cases policy (some d) s db granted =
      let at_stake = sum_raw (s d).candidates in
      ground (
        arith,
        apply_decision-cases (s d) db (granted d refl),
        settle_pending-cases (classify_for policy (s d).ctx at_stake) (s d) db (granted d refl),
      )
