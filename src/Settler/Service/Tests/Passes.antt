-- ===== src/Settler/Service/Tests/Passes.antt =====
-- Runs of the reorg and of the passes (settler/service.py), and of a whole pass (settler/main.py).
use notchstave.Common.{◌≡◌, refl, true, false, none, some, [], ◌∷◌}
use notchstave.Common.Rows.{find}
use notchstave.Enums.{BlockStatus, InvoiceStatus, PaymentStatus}
use notchstave.Settler.Ledger.{Ledger}
use notchstave.Settler.Ledger.Payments.{
  settled_total_raw, reverted_rows, is_rolled_back, invoice_payments, credit_payment,
}
use notchstave.Settler.Ledger.Grants.{mem, has_active}
use notchstave.Settler.Service.Reorg.{invoice_ids, handle_reorg}
use notchstave.Settler.Service.Sweeps.{
  invoices_past_topup_window, sweep_expired_invoices, expire_stale_invoices, notify_seen_payments,
}
use notchstave.Settler.Service.Rollback.{handle_reorg-revokes, handle_reorg-idempotent}
use notchstave.Settler.Service.Deadlines.{AllUnpaid, expire_stale_invoices-AllUnpaid}
use notchstave.Settler.Service.Swept.{
  AllRouted, sweep_expired_invoices-AllRouted, IsRouted, IsDue, is_among,
  sweep_expired_invoices-IsRouted,
}
use notchstave.Invoicing.Integrity.{canonical_payload, domain_tag}
use notchstave.Settler.Amounts.{usd_to_raw}
use notchstave.Settler.Policy.{default_policy, classify, overpay_tolerance_raw}
use notchstave.Settler.Confirmations.{creditable_cutoff_height, required_rule}
use notchstave.Settler.Service.Settle.{settle_invoice}
use notchstave.Settler.Service.Facade.{settle}
use notchstave.Settler.Loop.{settle_candidates, reorg_chains, settle_all, clean_up, run_once}
use notchstave.Settler.Service.Tests.{first_bytes, invoice, payment, tables}

-- The payment is credited, and its block is orphaned.
abbrev orphaned_tables : Ledger
orphaned_tables = record tables {
  invoices = record invoice { status = InvoiceStatus.paid; settled_at = some 950 } ∷ [];
  payments = record payment { status = PaymentStatus.credited } ∷ [];
  blocks = record { chain_id = 8453; number = 90; status = BlockStatus.orphaned } ∷ [];
  entitlements =
      record {
        id = 50;
        user_id = 7;
        product_id = 3;
        invoice_id = 1;
        granted_at = 950;
        expires_at = none;
        revoked_at = none;
      }
      ∷ [];
}

affected :
    mem 1 (invoice_ids (reverted_rows 8453 orphaned_tables.blocks orphaned_tables.payments)) ≡ true
unfolding mem invoice_ids reverted_rows is_rolled_back
affected = refl

handle_reorg-revokes_example :
    has_active 1 (handle_reorg 8453 orphaned_tables).1.entitlements ≡ false
handle_reorg-revokes_example = handle_reorg-revokes 8453 1 orphaned_tables affected

handle_reorg-idempotent_example :
    ((handle_reorg 8453 (handle_reorg 8453 orphaned_tables).1).0.reverted_payment_ids ≡ [])
    × ((handle_reorg 8453 (handle_reorg 8453 orphaned_tables).1).1
        ≡ (handle_reorg 8453 orphaned_tables).1)
handle_reorg-idempotent_example = handle_reorg-idempotent 8453 orphaned_tables

-- Past every deadline.
abbrev late_tables : Ledger
late_tables = record tables { now = 9_000 }

sweep_expired_invoices-AllRouted_example :
    AllRouted late_tables.payments
      (sweep_expired_invoices 500 late_tables).0
      (sweep_expired_invoices 500 late_tables).1
sweep_expired_invoices-AllRouted_example = sweep_expired_invoices-AllRouted 500 late_tables

swept : (sweep_expired_invoices 500 late_tables).0 ≡ (1, InvoiceStatus.manual_review) ∷ []
unfolding sweep_expired_invoices find
swept = refl

first-IsDue : IsDue 1 late_tables
unfolding IsDue
first-IsDue = refl

first_among : is_among 1 (invoices_past_topup_window 500 late_tables) ≡ true
unfolding is_among invoices_past_topup_window
first_among = refl

sweep_expired_invoices-IsRouted_example :
    IsRouted late_tables.payments 1 (sweep_expired_invoices 500 late_tables).1
sweep_expired_invoices-IsRouted_example =
    sweep_expired_invoices-IsRouted 1 500 late_tables first_among first-IsDue

expire_stale_invoices-AllUnpaid_example :
    AllUnpaid late_tables.payments (expire_stale_invoices 500 late_tables).0
expire_stale_invoices-AllUnpaid_example = expire_stale_invoices-AllUnpaid 500 late_tables

announced : (notify_seen_payments 500 tables).0 ≡ 100 ∷ []
unfolding notify_seen_payments
announced = refl

-- A pass of the loop settles the one invoice, and nothing is left for the next pass.
abbrev after_pass : Ledger
after_pass = (run_once default_policy first_bytes (λ i. true) 600 200 (8453 ∷ []) tables).1

candidate_ids : settle_candidates 200 tables ≡ 1 ∷ []
unfolding settle_candidates
candidate_ids = refl

passes : has_active 1 after_pass.entitlements ≡ true
unfolding run_once settle settle_invoice canonical_payload domain_tag invoice_payments classify
    settled_total_raw creditable_cutoff_height required_rule overpay_tolerance_raw usd_to_raw
    credit_payment settle_candidates notify_seen_payments handle_reorg reverted_rows reorg_chains
    settle_all clean_up is_rolled_back mem has_active
passes = refl

candidates_left : settle_candidates 200 after_pass ≡ []
unfolding run_once settle settle_invoice canonical_payload domain_tag invoice_payments classify
    settled_total_raw creditable_cutoff_height required_rule overpay_tolerance_raw usd_to_raw
    credit_payment settle_candidates notify_seen_payments handle_reorg reverted_rows reorg_chains
    settle_all clean_up is_rolled_back mem has_active
candidates_left = refl
