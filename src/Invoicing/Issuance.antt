-- ===== src/Invoicing/Issuance.antt =====
-- The issuing of an invoice and the check of one that is stored (core/invoicing/service.py), over the
-- tables of the schema. An address is a number there, and `encode` gives its text. The HMAC, the
-- derivation and its check, and the source of rates are parameters. The numeric columns hold their values
-- exactly. An `uuid` and a token are numbers that the caller draws.
pub mod Loading
pub mod Pricing
pub mod Creation
pub mod Stored
pub mod Shown
pub mod Limits
pub mod Locked
use notchstave.Common.{
  ℕ, ◌+◌, Bool, true, false, not, ◌&&◌, ◌||◌, Option, none, some, List, [], ◌∷◌, leb, ltb, ◌==◌,
  if◌then◌else◌, length,
}
use notchstave.Enums.{InvoiceStatus, is_live}
use notchstave.Settler.Decimal.{Decimal}
use notchstave.Deriver.Pool.{PoolTables, PoolError}
use notchstave.Invoicing.Integrity.{Terms}
use notchstave.Invoicing.Quotas.{RateLimit, QuotaExceeded}

pub record Product : Type 0 where
  pub id : ℕ
  pub price_usd : Decimal
  pub active : Bool

pub record Asset : Type 0 where
  pub id : ℕ
  pub chain_id : ℕ
  pub contract_address : Option (List ℕ)
  pub symbol : List ℕ
  pub decimals : ℕ
  pub is_native : Bool
  pub is_enabled : Bool

pub record Chain : Type 0 where
  pub chain_id : ℕ
  pub is_enabled : Bool
  pub last_indexed_block : ℕ

pub record Invoice : Type 0 where
  pub id : ℕ
  pub user_id : ℕ
  pub product_id : ℕ
  pub chain_id : ℕ
  pub asset_id : ℕ
  pub address_id : ℕ
  pub amount_due_raw : ℕ
  pub amount_due_usd : Decimal
  pub rate_snapshot : Decimal
  pub rate_locked_until : ℕ
  pub status : InvoiceStatus
  pub expires_at : ℕ
  pub topup_window_until : ℕ
  pub created_at : ℕ
  pub integrity_mac : List ℕ
  pub public_token : ℕ
  pub policy_version : List ℕ

-- The row that `SQL_AUDIT` writes, with the values of its two JSON documents.
pub record AuditRow : Type 0 where
  pub target_id : ℕ
  pub chain_id : ℕ
  pub asset_id : ℕ
  pub address_id : ℕ
  pub derivation_index : ℕ
  pub amount_due_raw : ℕ
  pub amount_due_usd : Decimal
  pub expires_at : ℕ
  pub user_id : ℕ
  pub product_id : ℕ
  pub newly_derived : Bool
  pub active_invoices_before : ℕ
  pub invoices_in_window_before : ℕ
  pub policy_version : List ℕ

pub record ShopTables : Type 0 where
  pub products : List Product
  pub assets : List Asset
  pub chains : List Chain
  pub invoices : List Invoice
  pub rate_limits : List RateLimit
  pub audit_log : List AuditRow
  pub pool : PoolTables

-- What `create_invoice` and the loads raise. `bad_price` is a `ValueError` of `price_to_raw`, `pool_error`
-- what the pool raises besides its exhaustion, `integrity_error` a constraint that refuses the row.
pub data InvoicingError : Type 0 where
  unknown_product unknown_asset rate_unavailable bad_price : InvoicingError
  quota_exceeded : QuotaExceeded → InvoicingError
  address_capacity_exhausted : InvoicingError
  pool_error : PoolError → InvoicingError
  address_mismatch mac_mismatch integrity_error invoice_not_found : InvoicingError

pub data Attempt (A : Type 0) : Type 0 where
  ok : A → Attempt A
  failed : InvoicingError → Attempt A

-- `InvoiceView`: the columns of the invoice, and those that are joined to it.
pub record InvoiceView : Type 0 where
  pub invoice : Invoice
  pub address : ℕ
  pub hd_account_id : ℕ
  pub derivation_index : ℕ
  pub asset_symbol : List ℕ
  pub asset_decimals : ℕ
  pub asset_contract : Option (List ℕ)
  pub asset_is_native : Bool
  pub newly_derived : Bool

-- `InvoiceView.is_live`
unfoldable pub view_is_live : InvoiceView → Bool
view_is_live view = is_live view.invoice.status

-- The terms that the MAC of an invoice covers; `text` is that of its address.
abbrev pub terms_of : List ℕ → Invoice → Terms
terms_of text i = record {
  invoice_id = i.id;
  chain_id = i.chain_id;
  asset_id = i.asset_id;
  address = text;
  amount_due_raw = i.amount_due_raw;
  expires_at = i.expires_at;
}

-- The unique indexes of `invoices`: the id, the token, and the address of a live invoice.
unfoldable pub clashes : Invoice → List Invoice → Bool
clashes i [] = false
clashes i (row ∷ rows) =
    ((row.id == i.id) || (row.public_token == i.public_token))
    || ((is_live row.status && (is_live i.status && (row.address_id == i.address_id)))
        || clashes i rows)

-- The checks of `invoices` on a new row.
abbrev pub is_allowed : Invoice → Bool
is_allowed i =
    not (i.amount_due_raw == 0)
    && (not (i.amount_due_usd.coefficient == 0)
        && (not (i.rate_snapshot.coefficient == 0)
            && (leb i.expires_at i.topup_window_until
                && (ltb i.created_at i.expires_at && (length i.integrity_mac == 32)))))

-- `SQL_INSERT_INVOICE`; `none` is psycopg's `IntegrityError`.
unfoldable pub insert_invoice : Invoice → List Invoice → Option (List Invoice)
unfolding clashes
insert_invoice i rows = if is_allowed i && not (clashes i rows) then some (i ∷ rows) else none
