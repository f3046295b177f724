-- ===== src/Invoicing/Issuance/Pricing.antt =====
-- What the catalog and the rates say of a new invoice (core/invoicing/service.py).
use notchstave.Common.{ℕ, ◌&&◌, Option, none, some, List, if◌then◌else◌}
use notchstave.Common.Rows.{find}
use notchstave.Settler.Decimal.{Decimal}
use notchstave.Invoicing.Rates.{price_to_raw}
use notchstave.Invoicing.Issuance.{
  Product, Asset, Chain, ShopTables, Attempt, ok, failed, unknown_product, unknown_asset,
  rate_unavailable, bad_price,
}
use notchstave.Invoicing.Issuance.Loading.{find_asset}

-- What the catalog and the rates say.
pub record Price : Type 0 where
  pub asset : Asset
  pub last_indexed_block : ℕ
  pub rate : Decimal
  pub amount_due_usd : Decimal
  pub amount_due_raw : ℕ

abbrev pub for_sale : Option Product → Option Product
for_sale none = none
for_sale (some p) = if p.active then some p else none

abbrev pub accepted : Option Asset → Option Chain → Option (Asset × Chain)
accepted (some a) (some c) = if a.is_enabled && c.is_enabled then some (a, c) else none
accepted _ _ = none

-- `SQL_LOAD_ASSET` with the tests on its row.
unfoldable pub load_asset : ℕ → ℕ → ShopTables → Option (Asset × Chain)
unfolding find_asset find
load_asset asset chain db =
    accepted (find_asset asset chain db.assets) (find (λ (c : Chain). c.chain_id) chain db.chains)

abbrev pub catalog : Option Product → Option (Asset × Chain) → Attempt (Product × Asset × Chain)
catalog none listed = failed unknown_product
catalog (some p) none = failed unknown_asset
catalog (some p) (some (a, c)) = ok (p, a, c)

-- `_load_catalog`
unfoldable pub load_catalog : ℕ → ℕ → ℕ → ShopTables → Attempt (Product × Asset × Chain)
unfolding load_asset find
load_catalog product chain asset db =
    catalog (for_sale (find (λ (p : Product). p.id) product db.products))
      (load_asset asset chain db)

abbrev due : Asset → Chain → Decimal → Decimal → Option ℕ → Attempt Price
due a c usd rate none = failed bad_price
due a c usd rate (some raw) = ok record {
  asset = a;
  last_indexed_block = c.last_indexed_block;
  rate = rate;
  amount_due_usd = usd;
  amount_due_raw = raw;
}

abbrev rated : Product → Asset → Chain → Option Decimal → Attempt Price
rated p a c none = failed rate_unavailable
rated p a c (some rate) = due a c p.price_usd rate (price_to_raw p.price_usd a.decimals rate)

abbrev pub priced :
    (List ℕ → ℕ → Option Decimal) → ℕ → Attempt (Product × Asset × Chain) → Attempt Price
priced quote chain (failed e) = failed e
priced quote chain (ok (p, a, c)) = rated p a c (quote a.symbol chain)
