-- ===== src/Settler/Service/Tests/Settlement.antt =====
-- Settlements of one invoice (settler/service.py).
use notchstave.Common.{◌≡◌, refl, true, false, Option, none, some, [], ◌∷◌, arith, ◌==◌}
use notchstave.Common.Int.{pos}
use notchstave.Common.Rows.{find}
use notchstave.Invoicing.Integrity.{verify_mac, canonical_payload, domain_tag}
use notchstave.Settler.Decimal.{whole, digits}
use notchstave.Settler.Policy.{
  Outcome, AmountDecision, pct_part, excess_raw, default_policy, classify, overpay_tolerance_raw,
}
use notchstave.Settler.Amounts.{usd_to_raw, raw_to_usd}
use notchstave.Settler.Confirmations.{creditable_cutoff_height, required_rule}
use notchstave.Settler.Ledger.{Invoice, Ledger}
use notchstave.Settler.Ledger.Invoices.{InvoiceContext, lock_invoice, find_invoice}
use notchstave.Settler.Ledger.Payments.{settled_total_raw, invoice_payments, credit_payment}
use notchstave.Settler.Ledger.Grants.{has_active}
use notchstave.Settler.Service.{
  open_reviews_for_anomalies, sum_raw, candidates, creditable_usd, Result, done, raised,
  SettlementResult,
}
use notchstave.Settler.Service.Settle.{
  promote_candidates, terms, classify_for, refuse_tampered_invoice, settle_invoice,
}
use notchstave.Settler.Service.Reorg.{handle_reorg}
use notchstave.Settler.Service.Facade.{settle}
use notchstave.Settler.Service.Consistency.{Agree, IsConsistent, settled_row}
use notchstave.Settler.Service.Consistency.Runs.{Step, Run, Run-IsConsistent}
use notchstave.Settler.Service.Funded.{total_in}
use notchstave.Settler.Service.Granted.{cutoff_at, GrantIsPaid, settle_invoice-GrantIsPaid}
use notchstave.Settler.Service.Again.{IsFinal, settle_invoice-IsFinal}
use notchstave.Settler.Service.Tampered.{SameMoney, refused, settle_invoice-tampered}
use notchstave.Settler.Service.Progress.{IsGrant, promoted, settle_invoice-IsGrant}
use notchstave.Settler.Service.Tests.{first_bytes, invoice, chain, asset, product, address, tables}

abbrev outcome_of : Result SettlementResult → Option Outcome
outcome_of (done r) = some r.outcome
outcome_of (raised e) = none

settles : outcome_of (settle default_policy first_bytes true 1 tables).0 ≡ some Outcome.paid
unfolding settle settle_invoice canonical_payload domain_tag invoice_payments classify
    settled_total_raw creditable_cutoff_height required_rule overpay_tolerance_raw usd_to_raw
    credit_payment
settles = refl

tables-IsConsistent : IsConsistent tables
unfolding Agree settled_row find has_active
tables-IsConsistent i = ground arith

-- The rows that its lock finds, and the decision.
abbrev context : InvoiceContext
context = record {
  invoice = invoice;
  chain = chain;
  asset = asset;
  address = address;
  product = product;
  db_now = 1_000;
}

locked_context : lock_invoice 1 tables ≡ some context
unfolding lock_invoice
locked_context = refl

verified : verify_mac first_bytes invoice.integrity_mac (terms context) ≡ true
unfolding verify_mac canonical_payload domain_tag
verified = refl

funded : (sum_raw (candidates context (invoice_payments 1 tables.payments)) == 0) ≡ false
unfolding sum_raw candidates invoice_payments
funded = refl

abbrev in_full : AmountDecision
in_full = record {
  outcome = Outcome.paid;
  due_raw = 100_000_000;
  total_raw = 100_000_000;
  delta_raw = pos 0;
  tolerance_raw = 5_000_000;
}

decision :
    classify_for default_policy context (
      total_in context
        (cutoff_at default_policy context tables)
        (promoted default_policy context tables))
    ≡ some in_full
unfolding classify settled_total_raw promoted creditable_cutoff_height required_rule
    overpay_tolerance_raw usd_to_raw invoice_payments promote_candidates candidates sum_raw
    open_reviews_for_anomalies pct_part
decision = refl

creditable : creditable_usd (excess_raw in_full) 6 (whole 1) ≡ some 0
unfolding creditable_usd excess_raw digits raw_to_usd
creditable = refl

settle_invoice-IsGrant_example : IsGrant (settle_invoice default_policy first_bytes 1 tables)
settle_invoice-IsGrant_example =
    settle_invoice-IsGrant default_policy first_bytes 1 context in_full 0 tables tables-IsConsistent
      locked_context refl verified refl funded decision refl creditable

-- The invoice settles, and a reorg follows.
abbrev settled_tables : Ledger
settled_tables = (settle default_policy first_bytes true 1 tables).1

two_steps : Run default_policy first_bytes tables (handle_reorg 8453 settled_tables).1
two_steps =
    Run.then_step tables settled_tables (handle_reorg 8453 settled_tables).1
      (Run.then_step tables tables settled_tables (Run.start tables) (Step.settled true 1 tables))
      (Step.reorged 8453 settled_tables)

Run-IsConsistent_example : IsConsistent (handle_reorg 8453 settled_tables).1
Run-IsConsistent_example =
    Run-IsConsistent default_policy first_bytes tables (handle_reorg 8453 settled_tables).1
      two_steps tables-IsConsistent

settle_invoice-GrantIsPaid_example :
    GrantIsPaid default_policy first_bytes
      (lock_invoice 1 tables)
      tables
      (settle_invoice default_policy first_bytes 1 tables)
settle_invoice-GrantIsPaid_example = settle_invoice-GrantIsPaid default_policy first_bytes 1 tables

settle_invoice-IsFinal_example :
    IsFinal default_policy first_bytes 1 (settle_invoice default_policy first_bytes 1 tables)
settle_invoice-IsFinal_example = settle_invoice-IsFinal default_policy first_bytes 1 tables

-- The stored MAC is gone.
abbrev tampered : Invoice
tampered = record invoice { integrity_mac = [] }

abbrev tampered_tables : Ledger
tampered_tables = record tables { invoices = tampered ∷ [] }

abbrev locked : InvoiceContext
locked = record {
  invoice = tampered;
  chain = chain;
  asset = asset;
  address = address;
  product = product;
  db_now = 1_000;
}

found : lock_invoice 1 tampered_tables ≡ some locked
unfolding lock_invoice
found = refl

unverified : verify_mac first_bytes locked.invoice.integrity_mac (terms locked) ≡ false
unfolding verify_mac canonical_payload domain_tag
unverified = refl

settle_invoice-tampered_example :
    (settle_invoice default_policy first_bytes 1 tampered_tables
      ≡ done (refuse_tampered_invoice locked tampered_tables))
    × ((refuse_tampered_invoice locked tampered_tables).0.outcome ≡ Outcome.integrity_failed)
    × ((refuse_tampered_invoice locked tampered_tables).0.entitlement_id ≡ none)
    × SameMoney tampered_tables (refuse_tampered_invoice locked tampered_tables).1
    × (find_invoice 1 (refuse_tampered_invoice locked tampered_tables).1 ≡ some (refused tampered))
settle_invoice-tampered_example =
    settle_invoice-tampered default_policy first_bytes 1 locked tampered_tables found refl
      unverified
