-- ===== src/Settler/Service/Tampered.antt =====
-- An invoice whose MAC does not verify, and the errors (settler/service.py).
use notchstave.Common.{
  ℕ, ◌≡◌, refl, ap, ◌∙◌, Bool, true, false, none, some, List, arith, ◌==◌, if◌then◌else◌,
}
use notchstave.Common.Rows.{find-update}
use notchstave.Enums.{InvoiceStatus, is_live}
use notchstave.Invoicing.Integrity.{verify_mac}
use notchstave.Settler.Policy.{Outcome, MoneyPolicy}
use notchstave.Settler.Ledger.{Invoice, Ledger}
use notchstave.Settler.Ledger.Invoices.{
  InvoiceContext, lock_invoice, find_invoice, cas_invoice_status,
}
use notchstave.Settler.Ledger.Outbox.{open_manual_review, write_audit}
use notchstave.Settler.Service.{SettlerError, done, raised}
use notchstave.Settler.Service.Settle.{
  terms, refuse_tampered_invoice, settle_locked, settle_invoice,
}
use notchstave.Settler.Service.Facade.{settle}
use notchstave.Settler.Service.Again.{lock_invoice-id}

-- Nothing was credited or granted: the tables of money are as before.
unfoldable pub SameMoney : Ledger → Ledger → Type 0
SameMoney before after =
    (after.payments ≡ before.payments)
    × (after.entitlements ≡ before.entitlements)
    × (after.users ≡ before.users)
    × (after.refunds ≡ before.refunds)

-- The row of a refused invoice.
abbrev pub refused : Invoice → Invoice
refused r = if is_live r.status then record r { status = InvoiceStatus.manual_review } else r

refuse_tampered_invoice-SameMoney :
    (ctx : InvoiceContext) (db : Ledger) → SameMoney db (refuse_tampered_invoice ctx db).1
unfolding refuse_tampered_invoice open_manual_review cas_invoice_status write_audit SameMoney
refuse_tampered_invoice-SameMoney ctx db = ground arith

find_invoice-refused :
    (ctx : InvoiceContext) (db : Ledger)
    → find_invoice ctx.invoice.id db ≡ some ctx.invoice
    → find_invoice ctx.invoice.id (refuse_tampered_invoice ctx db).1 ≡ some (refused ctx.invoice)
unfolding refuse_tampered_invoice open_manual_review cas_invoice_status write_audit
find_invoice-refused ctx db found = ground (
  arith,
  find-update (λ (r : Invoice). r.id) ctx.invoice.id ctx.invoice.id
      (λ r. record r { status = InvoiceStatus.manual_review; settled_at = r.settled_at })
      db.invoices (λ r. refl),
)

found_locked :
    (i : ℕ) (ctx : InvoiceContext) (db : Ledger)
    → lock_invoice i db ≡ some ctx
    → find_invoice ctx.invoice.id db ≡ some ctx.invoice
unfolding lock_invoice
found_locked i ctx db locked =
    ap (λ j. find_invoice j db) (lock_invoice-id i ctx db locked) ∙ ground arith

module _ (policy : MoneyPolicy) (mac : List ℕ → List ℕ) where
  -- A settlement of an invoice whose asset is on its chain but whose MAC does not verify ends as
  -- `integrity_failed` without a grant. It leaves payments, grants, balances and refunds as they were; a
  -- live invoice is in `manual_review` afterwards, and one that is not live keeps its row.
  pub settle_invoice-tampered :
      (i : ℕ) (ctx : InvoiceContext) (db : Ledger)
      → lock_invoice i db ≡ some ctx
      → (ctx.asset.chain_id == ctx.invoice.chain_id) ≡ true
      → verify_mac mac ctx.invoice.integrity_mac (terms ctx) ≡ false
      → (settle_invoice policy mac i db ≡ done (refuse_tampered_invoice ctx db))
        × ((refuse_tampered_invoice ctx db).0.outcome ≡ Outcome.integrity_failed)
        × ((refuse_tampered_invoice ctx db).0.entitlement_id ≡ none)
        × SameMoney db (refuse_tampered_invoice ctx db).1
        × (find_invoice ctx.invoice.id (refuse_tampered_invoice ctx db).1
            ≡ some (refused ctx.invoice))
  unfolding settle_invoice settle_locked refuse_tampered_invoice
  settle_invoice-tampered i ctx db locked chain tampered = (
    rw (locked, chain, tampered) refl,
    refl,
    refl,
    refuse_tampered_invoice-SameMoney ctx db,
    find_invoice-refused ctx db (found_locked i ctx db locked),
  )

  -- A transaction of the facade that raises leaves the tables as they were.
  pub settle-rolls_back :
      (acquired : Bool) (i : ℕ) (db : Ledger) (e : SettlerError)
      → (settle policy mac acquired i db).0 ≡ raised e
      → (settle policy mac acquired i db).1 ≡ db
  unfolding settle
  settle-rolls_back acquired i db e failed = ground arith
