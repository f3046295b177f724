-- ===== src/Invoicing/Issuance/Loading.antt =====
-- An invoice that is loaded, and the check that it passes first (core/invoicing/service.py).
use notchstave.Common.{
  ℕ, Bool, true, false, not, ◌&&◌, Option, none, some, List, ltb, ◌==◌, if◌then◌else◌,
}
use notchstave.Common.Rows.{find, filter}
use notchstave.Common.Tables.{first}
use notchstave.Deriver.Pool.{ReceiveAddress}
use notchstave.Invoicing.Integrity.{verify_mac}
use notchstave.Invoicing.Issuance.{
  Asset, Invoice, ShopTables, InvoicingError, Attempt, ok, failed, InvoiceView, terms_of,
  address_mismatch, mac_mismatch, invoice_not_found,
}

-- The asset of a chain.
unfoldable pub find_asset : ℕ → ℕ → List Asset → Option Asset
unfolding filter
find_asset asset chain rows =
    first (filter (λ (a : Asset). (a.id == asset) && (a.chain_id == chain)) rows)

-- `_view_from_row`
abbrev pub view_from_row : Bool → Invoice → ReceiveAddress → Asset → InvoiceView
view_from_row newly i r a = record {
  invoice = i;
  address = r.address;
  hd_account_id = r.hd_account_id;
  derivation_index = r.derivation_index;
  asset_symbol = a.symbol;
  asset_decimals = a.decimals;
  asset_contract = a.contract_address;
  asset_is_native = a.is_native;
  newly_derived = newly;
}

abbrev joined_row : Invoice → Option ReceiveAddress → Option Asset → Option InvoiceView
joined_row i (some r) (some a) = some (view_from_row false i r a)
joined_row i _ _ = none

-- The two joins of `_SQL_INVOICE_SELECT`.
abbrev pub joined : ShopTables → Option Invoice → Option InvoiceView
joined db none = none
joined db (some i) =
    joined_row i (find (λ (r : ReceiveAddress). r.id) i.address_id db.pool.addresses)
      (find_asset i.asset_id i.chain_id db.assets)

-- `SQL_LOAD_INVOICE_BY_ID`
unfoldable pub load_invoice_by_id : ℕ → ShopTables → Option InvoiceView
unfolding find find_asset
load_invoice_by_id i db = joined db (find (λ (row : Invoice). row.id) i db.invoices)

-- `SQL_LOAD_INVOICE_BY_TOKEN`
unfoldable pub load_invoice_by_token : ℕ → ShopTables → Option InvoiceView
unfolding find find_asset
load_invoice_by_token token db =
    joined db (find (λ (row : Invoice). row.public_token) token db.invoices)

-- The deriver that a process has: `mac_only` is `MAC_ONLY`.
pub data AddressDeriver : Type 0 where
  mac_only : AddressDeriver
  deriver : (ℕ → ℕ → ℕ → Bool) → AddressDeriver

abbrev pub rederives : AddressDeriver → InvoiceView → Bool
rederives mac_only view = true
rederives (deriver verify) view = verify view.address view.hd_account_id view.derivation_index

abbrev is_other : Option ℕ → ℕ → Bool
is_other none user = false
is_other (some expected) user = not (user == expected)

module _ (mac : List ℕ → List ℕ) (encode : ℕ → List ℕ) where
  -- `_check_integrity`
  unfoldable pub check_integrity : AddressDeriver → InvoiceView → Option InvoicingError
  unfolding verify_mac
  check_integrity d view =
      if not (rederives d view)
      then some address_mismatch
      else if not
          (verify_mac mac view.invoice.integrity_mac (terms_of (encode view.address) view.invoice))
      then some mac_mismatch
      else none

  abbrev pub checked : Option InvoicingError → InvoiceView → Attempt InvoiceView
  checked none view = ok view
  checked (some e) view = failed e

  abbrev verify_loaded : AddressDeriver → Option ℕ → Option InvoiceView → Attempt InvoiceView
  verify_loaded d expected none = failed invoice_not_found
  verify_loaded d expected (some view) =
      if is_other expected view.invoice.user_id
      then failed invoice_not_found
      else checked (check_integrity d view) view

  -- `verify_invoice_address`
  unfoldable pub verify_invoice_address :
      AddressDeriver → ℕ → Option ℕ → ShopTables → Attempt InvoiceView
  unfolding load_invoice_by_id check_integrity
  verify_invoice_address d i expected db = verify_loaded d expected (load_invoice_by_id i db)

  abbrev page_loaded : AddressDeriver → ℕ → Option InvoiceView → Attempt InvoiceView
  page_loaded d now none = failed invoice_not_found
  page_loaded d now (some view) =
      if ltb view.invoice.topup_window_until now
      then failed invoice_not_found
      else checked (check_integrity d view) view

  -- `load_invoice_by_public_token`
  unfoldable pub load_invoice_by_public_token :
      AddressDeriver → ℕ → ℕ → ShopTables → Attempt InvoiceView
  unfolding load_invoice_by_token check_integrity
  load_invoice_by_public_token d token now db = page_loaded d now (load_invoice_by_token token db)
