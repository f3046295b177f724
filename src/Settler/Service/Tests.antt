-- ===== src/Settler/Service/Tests.antt =====
-- The tables for runs of the settler (settler/service.py): one invoice of 100 tokens, paid in full in
-- block 90.
mod Settlement
mod Passes
use notchstave.Common.{
  ℕ, ◌≡◌, refl, Bool, true, false, Option, none, some, List, [], ◌∷◌, arith, take, inl, inr, ◌==◌,
}
use notchstave.Common.Int.{pos}
use notchstave.Common.Rows.{find}
use notchstave.Enums.{BlockStatus, AddressStatus, InvoiceStatus, PaymentStatus}
use notchstave.Invoicing.Integrity.{verify_mac, canonical_payload, domain_tag}
use notchstave.Settler.Decimal.{whole, digits}
use notchstave.Settler.Policy.{
  Outcome, AmountDecision, pct_part, excess_raw, default_policy, classify, overpay_tolerance_raw,
}
use notchstave.Settler.Amounts.{usd_to_raw, raw_to_usd}
use notchstave.Settler.Confirmations.{creditable_cutoff_height, required_rule}
use notchstave.Settler.Ledger.{Invoice, Chain, Asset, Product, ReceiveAddress, Payment, Ledger}
use notchstave.Settler.Ledger.Invoices.{InvoiceContext, lock_invoice, find_invoice}
use notchstave.Settler.Ledger.Payments.{
  settled_total_raw, reverted_rows, invoice_payments, credit_payment, is_rolled_back,
}
use notchstave.Settler.Ledger.Grants.{mem, has_active}
use notchstave.Settler.Service.{
  open_reviews_for_anomalies, sum_raw, candidates, creditable_usd, SettlerError, Result, done,
  raised, SettlementResult,
}
use notchstave.Settler.Service.Apply.{credit_candidates}
use notchstave.Settler.Service.Settle.{
  promote_candidates, terms, classify_for, refuse_tampered_invoice, settle_invoice,
}
use notchstave.Settler.Service.Reorg.{invoice_ids, handle_reorg}
use notchstave.Settler.Service.Sweeps.{
  sweep_expired_invoices, expire_stale_invoices, notify_seen_rows, notify_seen_payments,
  unnotified_seen_payments,
}
use notchstave.Settler.Service.Facade.{settle}
use notchstave.Settler.Service.Consistency.{Agree, IsConsistent, settled_row}
use notchstave.Settler.Service.Consistency.Runs.{Step, Run, Run-IsConsistent}
use notchstave.Settler.Service.Funded.{total_in, settled_total_raw-credit_candidates}
use notchstave.Settler.Service.Granted.{cutoff_at, GrantIsPaid, settle_invoice-GrantIsPaid}
use notchstave.Settler.Service.Again.{IsFinal, settle_invoice-IsFinal}
use notchstave.Settler.Service.Tampered.{
  SameMoney, refused, settle_invoice-tampered, settle-rolls_back,
}
use notchstave.Settler.Service.Rollback.{handle_reorg-revokes, handle_reorg-idempotent}
use notchstave.Settler.Service.Progress.{IsGrant, promoted, settle_invoice-IsGrant}
use notchstave.Settler.Service.Announced.{notify_seen_rows-once}

abbrev first_bytes : List ℕ → List ℕ
first_bytes = take 2

abbrev invoice : Invoice
invoice = record {
  id = 1;
  user_id = 7;
  product_id = 3;
  chain_id = 8453;
  asset_id = 2;
  address_id = 5;
  amount_due_raw = 100_000_000;
  rate_snapshot = whole 1;
  status = InvoiceStatus.awaiting;
  expires_at = 900;
  rate_locked_until = 900;
  topup_window_until = 5_000;
  settled_at = none;
  integrity_mac = b'n' ∷ b'o' ∷ [];
}

abbrev payment : Payment
payment = record {
  id = 11;
  chain_id = 8453;
  block_number = 90;
  address_id = 5;
  invoice_id = some 1;
  asset_id = 2;
  amount_raw = 100_000_000;
  status = PaymentStatus.seen;
  anomaly = none;
  confirmations_at_credit = none;
  seen_notified_at = none;
}

abbrev chain : Chain
chain = record {
  chain_id = 8453;
  min_confirmations = 10;
  credit_threshold_usd = whole 1_000;
  last_indexed_block = 100;
}

abbrev asset : Asset
asset = record { id = 2; chain_id = 8453; decimals = 6 }

abbrev product : Product
product = record { id = 3; subscription_days = some 30 }

abbrev address : ReceiveAddress
address = record {
  id = 5;
  address = b'0' ∷ b'x' ∷ [];
  status = AddressStatus.reserved;
  ever_funded = false;
  cooldown_until = none;
  current_invoice_id = some 1;
}

abbrev tables : Ledger
tables = record {
  now = 1_000;
  next_id = 100;
  chains = chain ∷ [];
  assets = asset ∷ [];
  products = product ∷ [];
  addresses = address ∷ [];
  invoices = invoice ∷ [];
  payments = payment ∷ [];
  blocks = [];
  entitlements = [];
  notifications = [];
  reviews = [];
  refunds = [];
  users = [];
  audit = [];
  requests = [];
}
