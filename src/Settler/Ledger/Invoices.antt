-- ===== src/Settler/Ledger/Invoices.antt =====
-- The statements on `invoices` (settler/repository.py): the read under lock, the compare-and-set, and
-- the status changes of a reorg and of the two expiries.
use notchstave.Common.{
  ℕ, Bool, true, false, not, ◌&&◌, Option, none, some, List, [], ◌∷◌, ltb, ◌==◌, if◌then◌else◌,
}
use notchstave.Common.Rows.{find, update, option_map}
use notchstave.Enums.{InvoiceStatus, is_live, is_settled}
use notchstave.Settler.Ledger.{Invoice, Chain, Asset, Product, ReceiveAddress, Payment, Ledger}

-- `InvoiceContext`: the rows that `SQL_LOCK_INVOICE` joins.
pub record InvoiceContext : Type 0 where
  pub invoice : Invoice
  pub chain : Chain
  pub asset : Asset
  pub address : ReceiveAddress
  pub product : Product
  pub db_now : ℕ

abbrev pub find_invoice : ℕ → Ledger → Option Invoice
find_invoice i db = find (λ (r : Invoice). r.id) i db.invoices

abbrev then_join {ℓ} : {A : Type 0} {B : Type ℓ} → Option A → (A → Option B) → Option B
then_join none f = none
then_join (some a) f = f a

-- `lock_invoice`. The row lock serialises the transactions on an invoice.
unfoldable pub lock_invoice : ℕ → Ledger → Option InvoiceContext
unfolding find
lock_invoice i db = then_join (find_invoice i db) λ invoice.
    then_join (find (λ (r : ReceiveAddress). r.id) invoice.address_id db.addresses) λ address.
      then_join (find (λ (r : Asset). r.id) invoice.asset_id db.assets) λ asset.
        then_join (find (λ (r : Chain). r.chain_id) invoice.chain_id db.chains) λ chain.
          then_join (find (λ (r : Product). r.id) invoice.product_id db.products) λ product.
            some (record {
              invoice = invoice;
              chain = chain;
              asset = asset;
              address = address;
              product = product;
              db_now = db.now;
            })

-- The row of an invoice satisfies a test, or there is none.
abbrev pub row_has : (Invoice → Bool) → Option Invoice → Bool
row_has p none = false
row_has p (some r) = p r

abbrev pub change_invoice : ℕ → (Invoice → Invoice) → Ledger → Ledger
change_invoice i f db = record db { invoices = update (λ (r : Invoice). r.id) i f db.invoices }

-- `cas_invoice_status` with the live statuses expected; `true` where it changed the row.
unfoldable pub cas_invoice_status : ℕ → InvoiceStatus → Bool → Ledger → Bool × Ledger
cas_invoice_status i new_status mark_settled db =
    if row_has (λ r. is_live r.status) (find_invoice i db)
    then (
      true,
      change_invoice i
          (λ r. record r {
            status = new_status;
            settled_at = if mark_settled then some db.now else r.settled_at;
          })
          db,
    )
    else (false, db)

-- `SQL_UNSETTLE_INVOICE`; the status that it returns, where it changed a row.
abbrev pub unsettled_status : ℕ → Invoice → InvoiceStatus
unsettled_status now r =
    if ltb now r.topup_window_until then InvoiceStatus.awaiting else InvoiceStatus.reverted

unfoldable pub unsettle_invoice : ℕ → Ledger → Option InvoiceStatus × Ledger
unsettle_invoice i db =
    if row_has (λ r. is_settled r.status) (find_invoice i db)
    then (
      option_map (unsettled_status db.now) (find_invoice i db),
      change_invoice i (λ r. record r { status = unsettled_status db.now r; settled_at = none }) db,
    )
    else (none, db)

-- `SQL_EXPIRE_INVOICE`
unfoldable pub expire_invoice : ℕ → InvoiceStatus → Ledger → Bool × Ledger
expire_invoice i new_status db =
    if row_has (λ r. is_live r.status && ltb r.topup_window_until db.now) (find_invoice i db)
    then (true, change_invoice i (λ r. record r { status = new_status }) db)
    else (false, db)

abbrev pub is_for : ℕ → Option ℕ → Bool
is_for i none = false
is_for i (some j) = i == j

-- A payment row of the invoice, whatever its status.
unfoldable pub has_payment : ℕ → List Payment → Bool
has_payment i [] = false
has_payment i (p ∷ ps) = if is_for i p.invoice_id then true else has_payment i ps

-- `SQL_EXPIRE_INVOICE_PAST_RATE_LOCK`
unfoldable pub expire_invoice_past_rate_lock : ℕ → Ledger → Bool × Ledger
unfolding has_payment
expire_invoice_past_rate_lock i db =
    if row_has
      (λ r. is_live r.status && (ltb r.rate_locked_until db.now && not (has_payment i db.payments)))
      (find_invoice i db)
    then (true, change_invoice i (λ r. record r { status = InvoiceStatus.expired }) db)
    else (false, db)
