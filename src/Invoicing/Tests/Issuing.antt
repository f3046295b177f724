-- ===== src/Invoicing/Tests/Issuing.antt =====
-- One invoice issued (core/invoicing/service.py): a product of 9.99 dollars paid in a pegged token of six
-- decimals, with a pool that has no address yet.
use notchstave.Common.{
  ℕ, ◌+◌, ◌*◌, ◌≡◌, refl, Bool, true, false, ◌==◌, Option, none, some, List, [], ◌∷◌, take,
}
use notchstave.Common.Text.{codes}
use notchstave.Settler.Decimal.{Decimal, whole}
use notchstave.Deriver.Pool.Sound.{IsSound}
use notchstave.Enums.{InvoiceStatus}
use notchstave.Invoicing.Quotas.{InvoicingPolicy, recent_invoices}
use notchstave.Invoicing.Integrity.{domain_tag, framed_fields, canonical_payload}
use notchstave.Invoicing.Rates.{pegged_symbols, pegged_quote, static_quote, price_to_raw}
use notchstave.Invoicing.Issuance.{
  Asset, Invoice, ShopTables, Attempt, ok, failed, InvoiceView, unknown_asset,
}
use notchstave.Invoicing.Issuance.Creation.{IssueRequest, create_invoice}
use notchstave.Invoicing.Issuance.Shown.{create_invoice-IsShown}
use notchstave.Invoicing.Issuance.Stored.{IsShown}
use notchstave.Invoicing.Issuance.Locked.{IsLocked, AllRefused, issue_all, issue_all-IsLocked}
use notchstave.Invoicing.Issuance.Limits.{IsLimited, create_invoice-IsLimited}

abbrev price : Decimal
price = record { coefficient = 999; scale = 2 }

abbrev usdc : Asset
usdc = record {
  id = 2;
  chain_id = 8453;
  contract_address = some (codes "0xa0");
  symbol = codes "USDC";
  decimals = 6;
  is_native = false;
  is_enabled = true;
}

pegged : pegged_quote pegged_symbols (codes "usdc") ≡ some (whole 1)
unfolding pegged_quote
pegged = refl

not_pegged : pegged_quote pegged_symbols (codes "WETH") ≡ none
unfolding pegged_quote
not_pegged = refl

not_positive : static_quote ((codes "WETH", whole 0) ∷ []) (codes "weth") ≡ none
unfolding static_quote
not_positive = refl

exact_price : price_to_raw price 6 (whole 1) ≡ some 9_990_000
unfolding price_to_raw
exact_price = refl

-- A fraction of a base unit is rounded up.
ceiling_price : price_to_raw (whole 10) 0 (whole 3) ≡ some 4
unfolding price_to_raw
ceiling_price = refl

abbrev shop : ShopTables
shop = record {
  products = record { id = 5; price_usd = price; active = true } ∷ [];
  assets = usdc ∷ [];
  chains = record { chain_id = 8453; is_enabled = true; last_indexed_block = 500 } ∷ [];
  invoices = [];
  rate_limits = [];
  audit_log = [];
  pool = record {
    now = 100;
    next_id = 1;
    accounts = record { id = 1; next_index = 0; max_active_addresses = 2; is_active = true } ∷ [];
    addresses = [];
  };
}

shop-IsSound : (derive : ℕ → ℕ → ℕ) → IsSound derive shop.pool
shop-IsSound derive = record { keys = tt; ids = tt; rows = tt; indices = tt }

abbrev policy : InvoicingPolicy
policy = record {
  version = codes "v1";
  invoice_ttl = 900_000_000;
  rate_lock_ttl = 900_000_000;
  topup_window = 3_600_000_000;
  max_active_invoices_per_user = 2;
  max_invoices_per_hour = 2;
  quota_window = 3_600_000_000;
  expired_streak_limit = 2;
  cooldown = 3_600_000_000;
}

abbrev derive : ℕ → ℕ → ℕ
derive account index = 100 * account + index

abbrev verify : ℕ → ℕ → ℕ → Bool
verify address account index = address == derive account index

abbrev quote : List ℕ → ℕ → Option Decimal
quote symbol chain = pegged_quote pegged_symbols symbol

abbrev request : ℕ → IssueRequest
request asset = record {
  user_id = 7;
  product_id = 5;
  chain_id = 8453;
  asset_id = asset;
  hd_account_id = 1;
  now = 10_000_000_000;
  reserved_from_block = none;
  invoice_id = 258;
  public_token = 99;
}

abbrev attempt : ℕ → Attempt InvoiceView × ShopTables
attempt asset =
    create_invoice (take 32) (λ a. a ∷ []) derive verify quote policy (λ i. false) (request asset)
      shop

abbrev answered : Attempt InvoiceView → Option (ℕ × ℕ × Bool)
answered (failed e) = none
answered (ok view) = some (view.address, view.invoice.amount_due_raw, view.newly_derived)

issues : answered (attempt 2).0 ≡ some (100, 9_990_000, true)
unfolding create_invoice pegged_quote canonical_payload domain_tag framed_fields
issues = refl

refuses : (attempt 3).0 ≡ failed unknown_asset
unfolding create_invoice
refuses = refl

create_invoice-IsShown_example : IsShown (take 32) (λ a. a ∷ []) verify (request 2) (attempt 2)
create_invoice-IsShown_example =
    create_invoice-IsShown (take 32) (λ a. a ∷ []) derive verify quote policy (λ i. false)
      (request 2) shop (shop-IsSound derive)

create_invoice-IsLimited_example :
    IsLimited
      (take 32)
      (λ a. a ∷ [])
      derive
      verify
      quote
      policy
      (λ i. false)
      (request 2)
      shop.invoices
      (attempt 2)
create_invoice-IsLimited_example =
    create_invoice-IsLimited (take 32) (λ a. a ∷ []) derive verify quote policy (λ i. false)
      (request 2) shop

-- The user's last two invoices have expired.
abbrev expired_invoice : ℕ → ℕ → Invoice
expired_invoice i at = record {
  id = i;
  user_id = 7;
  product_id = 5;
  chain_id = 8453;
  asset_id = 2;
  address_id = i;
  amount_due_raw = 9_990_000;
  amount_due_usd = price;
  rate_snapshot = whole 1;
  rate_locked_until = at + 900_000_000;
  status = InvoiceStatus.expired;
  expires_at = at + 900_000_000;
  topup_window_until = at + 4_500_000_000;
  created_at = at;
  integrity_mac = [];
  public_token = i;
  policy_version = [];
}

abbrev expired_twice : ShopTables
expired_twice = record shop {
  invoices = expired_invoice 2 2_000_000_000 ∷ expired_invoice 1 1_000_000_000 ∷ [];
}

twice-IsLocked : IsLocked policy 7 expired_twice.invoices
unfolding recent_invoices
twice-IsLocked = record { full = refl; expired = (refl, (refl, tt)) }

-- An attempt at once and one a year later.
abbrev attempts : List IssueRequest
attempts = request 2 ∷ record (request 2) { now = 31_546_000_000_000_000 } ∷ []

issue_all-IsLocked_example :
    let (answers, after) =
      issue_all
        (take 32)
        (λ a. a ∷ [])
        derive
        verify
        quote
        policy
        (λ i. false)
        attempts
        expired_twice in
    AllRefused 7 answers × IsLocked policy 7 after.invoices
issue_all-IsLocked_example =
    issue_all-IsLocked (take 32) (λ a. a ∷ []) derive verify quote policy (λ i. false) 7 attempts
      expired_twice twice-IsLocked
