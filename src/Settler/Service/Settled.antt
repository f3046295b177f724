-- ===== src/Settler/Service/Settled.antt =====
-- After a grant the lock of the invoice finds the rows that it found before, with the invoice settled
-- (settler/service.py).
use notchstave.Common.{
  ℕ, ◌+◌, ◌-◌, ◌≡◌, refl, true, none, some, List, [], ◌∷◌, arith, ◌⊎◌, inl, inr, Bool-cases,
}
use notchstave.Common.Int.{ℤ, pos, leb_ℤ}
use notchstave.Common.Rows.{find-update}
use notchstave.Enums.{InvoiceStatus, is_settled}
use notchstave.Settler.Policy.{Outcome}
use notchstave.Settler.Ledger.{Invoice, Payment, Ledger}
use notchstave.Settler.Ledger.Invoices.{InvoiceContext, lock_invoice, cas_invoice_status}
use notchstave.Settler.Ledger.Payments.{credit_payment}
use notchstave.Settler.Service.{Result, done, raised, SettlementResult}
use notchstave.Settler.Service.Apply.{
  Decided, settled_status, credit_candidates, grant_access, apply_settlement,
}
use notchstave.Settler.Service.Frame.{Fact, HoldsAfter, grant_access-HoldsAfter}

-- A fact about all tables but `payments`.
abbrev pub AnyPayments : Fact → Ledger → Type 0
AnyPayments P db =
    (payments : List Payment)
    → P db.now db.chains db.assets db.products db.addresses db.invoices payments

credit_payment-AnyPayments :
    (P : Fact) (id confirmations : ℕ) (db : Ledger)
    → AnyPayments P db
    → AnyPayments P (credit_payment id confirmations db).1
unfolding credit_payment
credit_payment-AnyPayments P id confirmations db holds payments = ground (arith, holds payments)

credit_candidates-AnyPayments :
    (P : Fact) (head : ℕ) (cutoff : ℤ) (ps : List Payment) (db : Ledger)
    → AnyPayments P db
    → AnyPayments P (credit_candidates head cutoff ps db).1
unfolding credit_candidates
credit_candidates-AnyPayments P head cutoff [] db holds = holds
credit_candidates-AnyPayments P head cutoff (p ∷ ps) db holds =
    let confirmations = head + 1 - p.block_number in
    elim (Bool-cases (leb_ℤ (pos p.block_number) cutoff)) [
      | inl below ↦ rw below (
          credit_candidates-AnyPayments P head cutoff ps (credit_payment p.id confirmations db).1
            (credit_payment-AnyPayments P p.id confirmations db holds))
      | inr above ↦ rw above (credit_candidates-AnyPayments P head cutoff ps db holds)
    ]

-- The invoice as a compare-and-set to a settled status leaves it.
abbrev pub settled_now : InvoiceStatus → ℕ → Invoice → Invoice
settled_now new_status now r = record r { status = new_status; settled_at = some now }

-- The lock of an invoice finds the rows; `base` fills the other tables.
unfoldable locks : ℕ → InvoiceContext → Ledger → Fact
locks i ctx base now chains assets products addresses invoices payments =
    lock_invoice i (record base {
      now = now;
      chains = chains;
      assets = assets;
      products = products;
      addresses = addresses;
      invoices = invoices;
    })
    ≡ some ctx

lock_invoice-cas :
    (i : ℕ) (new_status : InvoiceStatus) (ctx : InvoiceContext) (base db : Ledger)
    → lock_invoice i db ≡ some ctx
    → (cas_invoice_status i new_status true db).0 ≡ true
    → AnyPayments
        (locks i (record ctx { invoice = settled_now new_status ctx.db_now ctx.invoice }) base)
        (cas_invoice_status i new_status true db).1
unfolding locks lock_invoice cas_invoice_status
lock_invoice-cas i new_status ctx base db found won payments = ground (
  arith,
  find-update (λ (r : Invoice). r.id) i i (settled_now new_status db.now) db.invoices (λ r. refl),
)

-- A result grants nothing; or the lock then finds the same rows, with the invoice settled.
unfoldable pub IsSettledAfter : InvoiceContext → Result (SettlementResult × Ledger) → Type 0
IsSettledAfter ctx (raised e) = Unit
IsSettledAfter ctx (done (r, after)) =
    (r.entitlement_id ≡ none)
    ⊎ ((new_status : InvoiceStatus) × ((is_settled new_status ≡ true)
          × (lock_invoice ctx.invoice.id after
              ≡ some (record ctx { invoice = settled_now new_status ctx.db_now ctx.invoice }))))

locks-IsSettledAfter :
    (ctx : InvoiceContext) (new_status : InvoiceStatus) (base : Ledger)
    → (res : Result (SettlementResult × Ledger)) → is_settled new_status ≡ true
    → HoldsAfter
        (locks ctx.invoice.id
          (record ctx { invoice = settled_now new_status ctx.db_now ctx.invoice })
          base)
        res
    → IsSettledAfter ctx res
unfolding HoldsAfter locks IsSettledAfter lock_invoice
locks-IsSettledAfter ctx new_status base (raised e) settled holds = tt
locks-IsSettledAfter ctx new_status base (done (r, after)) settled holds =
    inr (new_status, (settled, holds))

pub settled_status-is_settled : (o : Outcome) → is_settled (settled_status o) ≡ true
settled_status-is_settled o = ground arith

pub apply_settlement-IsSettledAfter :
    (s : Decided) (db : Ledger)
    → lock_invoice s.ctx.invoice.id db ≡ some s.ctx
    → IsSettledAfter s.ctx (apply_settlement s db)
unfolding apply_settlement IsSettledAfter
apply_settlement-IsSettledAfter s db found =
    let i = s.ctx.invoice.id in
    let status = settled_status s.decision.outcome in
    let db1 = (cas_invoice_status i status true db).1 in
    let head = s.ctx.chain.last_indexed_block in
    let after = record s.ctx { invoice = settled_now status s.ctx.db_now s.ctx.invoice } in
    elim (Bool-cases (cas_invoice_status i status true db).0) [
      | inl won ↦ rw won (
          locks-IsSettledAfter s.ctx status db (grant_access s db1)
            (settled_status-is_settled s.decision.outcome)
            (grant_access-HoldsAfter (locks i after db) s db1 (
              credit_candidates-AnyPayments (locks i after db) head s.cutoff s.candidates db1
                (lock_invoice-cas i status s.ctx db db found won)
                (credit_candidates head s.cutoff s.candidates db1).1.payments)))
      | inr lost ↦ rw lost (inl refl)
    ]
