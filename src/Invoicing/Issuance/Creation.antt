-- ===== src/Invoicing/Issuance/Creation.antt =====
-- `create_invoice` (core/invoicing/service.py), in the order in which it works: the price, the quotas, the
-- address, its check, the row, the counters and the audit.
use notchstave.Common.{ℕ, ◌+◌, Bool, not, Option, none, some, List, ◌∷◌, map, if◌then◌else◌}
use notchstave.Enums.{InvoiceStatus}
use notchstave.Settler.Decimal.{Decimal}
use notchstave.Deriver.Pool.{
  PoolTables, PooledAddress, Result, done, raised, address_pool_exhausted,
}
use notchstave.Deriver.Pool.Operations.{reserve_address_for_invoice}
use notchstave.Invoicing.Integrity.{compute_mac}
use notchstave.Invoicing.Quotas.{
  IssuedInvoice, QuotaTables, InvoicingPolicy, QuotaSnapshot, QuotaExceeded, snapshot, enforce,
  record_issued,
}
use notchstave.Invoicing.Rates.{price_to_raw}
use notchstave.Invoicing.Issuance.{
  Asset, Invoice, AuditRow, ShopTables, Attempt, ok, failed, InvoiceView, terms_of, insert_invoice,
  quota_exceeded, address_capacity_exhausted, pool_error, address_mismatch, integrity_error,
}
use notchstave.Invoicing.Issuance.Pricing.{Price, priced, load_catalog}

-- The arguments of `create_invoice`, with the id and the token that it draws.
pub record IssueRequest : Type 0 where
  pub user_id : ℕ
  pub product_id : ℕ
  pub chain_id : ℕ
  pub asset_id : ℕ
  pub hd_account_id : ℕ
  pub now : ℕ
  pub reserved_from_block : Option ℕ
  pub invoice_id : ℕ
  pub public_token : ℕ

-- The rows of `invoices` as the quotas read them.
abbrev pub issued_row : Invoice → IssuedInvoice
issued_row i = record {
  id = i.id;
  user_id = i.user_id;
  status = i.status;
  created_at = i.created_at;
}

abbrev pub quota_tables : ShopTables → QuotaTables
quota_tables db = record { issued = map issued_row db.invoices; rate_limits = db.rate_limits }

abbrev pub head_block : Option ℕ → ℕ → ℕ
head_block none last = last
head_block (some block) last = block

abbrev pub new_view : PooledAddress → Asset → Invoice → InvoiceView
new_view r a i = record {
  invoice = i;
  address = r.address;
  hd_account_id = r.hd_account_id;
  derivation_index = r.derivation_index;
  asset_symbol = a.symbol;
  asset_decimals = a.decimals;
  asset_contract = a.contract_address;
  asset_is_native = a.is_native;
  newly_derived = r.newly_derived;
}

abbrev pub audit_row :
    IssueRequest → InvoicingPolicy → QuotaSnapshot → PooledAddress → Invoice → AuditRow
audit_row request policy snap r i = record {
  target_id = i.id;
  chain_id = i.chain_id;
  asset_id = i.asset_id;
  address_id = r.address_id;
  derivation_index = r.derivation_index;
  amount_due_raw = i.amount_due_raw;
  amount_due_usd = i.amount_due_usd;
  expires_at = i.expires_at;
  user_id = request.user_id;
  product_id = request.product_id;
  newly_derived = r.newly_derived;
  active_invoices_before = snap.active_invoices;
  invoices_in_window_before = snap.invoices_in_window;
  policy_version = policy.version;
}

-- The row before its MAC.
abbrev pub draft : IssueRequest → InvoicingPolicy → Price → PooledAddress → Invoice
draft request policy p r = record {
  id = request.invoice_id;
  user_id = request.user_id;
  product_id = request.product_id;
  chain_id = request.chain_id;
  asset_id = request.asset_id;
  address_id = r.address_id;
  amount_due_raw = p.amount_due_raw;
  amount_due_usd = p.amount_due_usd;
  rate_snapshot = p.rate;
  rate_locked_until = request.now + policy.rate_lock_ttl;
  status = InvoiceStatus.awaiting;
  expires_at = request.now + policy.invoice_ttl;
  topup_window_until = request.now + policy.invoice_ttl + policy.topup_window;
  created_at = request.now;
  integrity_mac = List.[];
  public_token = request.public_token;
  policy_version = policy.version;
}

-- The row of the new invoice, with its MAC.
unfoldable pub new_invoice :
    (List ℕ → List ℕ)
    → (ℕ → List ℕ)
    → InvoicingPolicy
    → IssueRequest
    → Price
    → PooledAddress
    → Invoice
unfolding compute_mac
new_invoice mac encode policy request p r =
    let i = draft request policy p r in
    record i { integrity_mac = compute_mac mac (terms_of (encode r.address) i) }

module _ (mac : List ℕ → List ℕ) (encode : ℕ → List ℕ) (derive : ℕ → ℕ → ℕ)
    (verify : ℕ → ℕ → ℕ → Bool) (quote : List ℕ → ℕ → Option Decimal) (policy : InvoicingPolicy)
    (locked : ℕ → Bool) (request : IssueRequest) where
  -- Once the row is in, or a constraint has refused it.
  abbrev pub written :
      Price
      → QuotaSnapshot
      → PooledAddress
      → Option (List Invoice)
      → ShopTables
      → Attempt InvoiceView × ShopTables
  written p snap r none db = (failed integrity_error, db)
  written p snap r (some rows) db =
      let counted =
        record_issued request.user_id request.now snap.expired_streak (quota_tables db) in
      let i = new_invoice mac encode policy request p r in
      (
        ok (new_view r p.asset i),
        record db {
          invoices = rows;
          rate_limits = counted.rate_limits;
          audit_log = audit_row request policy snap r i ∷ db.audit_log;
        },
      )

  -- Once the pool has answered.
  abbrev pub on_reserved :
      Price
      → QuotaSnapshot
      → Result (PooledAddress × PoolTables)
      → ShopTables
      → Attempt InvoiceView × ShopTables
  on_reserved p snap (raised address_pool_exhausted) db = (failed address_capacity_exhausted, db)
  on_reserved p snap (raised e) db = (failed (pool_error e), db)
  on_reserved p snap (done (r, pool)) db =
      if not (verify r.address r.hd_account_id r.derivation_index)
      then (failed address_mismatch, record db { pool = pool })
      else written p snap r (insert_invoice (new_invoice mac encode policy request p r) db.invoices)
          (record db { pool = pool })

  -- Once the quotas have answered.
  abbrev pub on_quota :
      Price
      → QuotaSnapshot
      → Option QuotaExceeded × QuotaTables
      → ShopTables
      → Attempt InvoiceView × ShopTables
  on_quota p snap (some e, q) db =
      (failed (quota_exceeded e), record db { rate_limits = q.rate_limits })
  on_quota p snap (none, q) db =
      on_reserved p snap
        (reserve_address_for_invoice derive locked request.hd_account_id request.invoice_id
          (head_block request.reserved_from_block p.last_indexed_block) db.pool)
        db

  abbrev pub on_price : Attempt Price → ShopTables → Attempt InvoiceView × ShopTables
  on_price (failed e) db = (failed e, db)
  on_price (ok p) db =
      let snap = snapshot request.user_id policy request.now (quota_tables db) in
      on_quota p snap (enforce snap policy request.now (quota_tables db)) db

  -- `create_invoice`: its answer, and the tables that it leaves in its transaction.
  unfoldable pub create_invoice : ShopTables → Attempt InvoiceView × ShopTables
  unfolding load_catalog price_to_raw snapshot enforce reserve_address_for_invoice insert_invoice
      record_issued new_invoice
  create_invoice db =
      on_price
        (priced quote request.chain_id
          (load_catalog request.product_id request.chain_id request.asset_id db))
        db
