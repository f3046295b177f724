-- ===== src/Settler/Service/Consistency/Grant.antt =====
-- The invariant through `_apply_settlement` (settler/service.py): between its compare-and-set and its grant
-- one invoice is settled without a grant.
use notchstave.Common.{
  ℕ, ◌≡◌, refl, Bool, true, false, Option, none, some, List, [], ◌∷◌, ◌==◌, if◌then◌else◌, arith,
  Bool-cases, inl, inr,
}
use notchstave.Common.Int.{ℤ}
use notchstave.Enums.{InvoiceStatus, is_settled}
use notchstave.Settler.Policy.{Outcome}
use notchstave.Settler.Ledger.{Invoice, Payment, Entitlement, NotificationKind, Ledger}
use notchstave.Settler.Ledger.Invoices.{cas_invoice_status}
use notchstave.Settler.Ledger.Payments.{credit_payment}
use notchstave.Settler.Ledger.Grants.{has_active, insert_entitlement}
use notchstave.Settler.Ledger.Outbox.{enqueue_notification, write_audit}
use notchstave.Settler.Service.{Result, done, raised, SettlementResult, ids_of}
use notchstave.Settler.Service.Apply.{
  Decided, settled_status, credit_candidates, Excess, credit_once, credit_excess, refund_excess,
  settle_excess, finish_settlement, announce_grant, grant_access, apply_settlement,
}
use notchstave.Settler.Service.Settled.{settled_status-is_settled}
use notchstave.Settler.Service.Consistency.{
  settled_row, Agree, IsConsistent, settled_row-update, enqueue_notification-IsConsistent,
  open_manual_review-IsConsistent, create_refund_request-IsConsistent,
  credit_internal_balance-IsConsistent,
}

-- All agrees but for the invoice, which is settled and has no grant.
unfoldable pub AwaitsGrant : ℕ → List Invoice → List Entitlement → Type 0
AwaitsGrant i rows es =
    (has_active i es ≡ false)
    × ((j : ℕ) → settled_row j rows ≡ (if j == i then true else has_active j es))

-- What a settlement that does not raise leaves: tables that agree, and no lost race for the grant.
unfoldable pub StaysConsistent : Result (SettlementResult × Ledger) → Type 0
StaysConsistent (raised e) = Unit
StaysConsistent (done (r, db)) = IsConsistent db × (r.lost_grant_race ≡ false)

unfoldable ExcessConsistent : Result (Excess × Ledger) → Type 0
ExcessConsistent (raised e) = Unit
ExcessConsistent (done (extra, db)) = IsConsistent db

pub cas_invoice_status-AwaitsGrant :
    (i : ℕ) (new_status : InvoiceStatus) (db : Ledger)
    → is_settled new_status ≡ true
    → IsConsistent db
    → (cas_invoice_status i new_status true db).0 ≡ true
    → AwaitsGrant i
        (cas_invoice_status i new_status true db).1.invoices
        (cas_invoice_status i new_status true db).1.entitlements
unfolding cas_invoice_status Agree AwaitsGrant settled_row
cas_invoice_status-AwaitsGrant i new_status db settled ok won = (
  ground (arith, ok i),
  λ j. ground (
    arith,
    ok j,
    settled_row-update j i (λ r. record r { status = new_status; settled_at = some db.now })
        db.invoices (λ r. refl),
  ),
)

pub credit_candidates-same :
    (head : ℕ) (cutoff : ℤ) (ps : List Payment) (db : Ledger)
    → ((credit_candidates head cutoff ps db).1.invoices ≡ db.invoices)
      × ((credit_candidates head cutoff ps db).1.entitlements ≡ db.entitlements)
unfolding credit_candidates credit_payment
credit_candidates-same head cutoff [] db = (refl, refl)
credit_candidates-same head cutoff (p ∷ ps) db =
    grind (arith, credit_candidates-same head cutoff ps)

-- The grant restores the invariant.
pub insert_entitlement-IsConsistent :
    (user product i : ℕ) (days : Option ℕ) (db : Ledger)
    → AwaitsGrant i db.invoices db.entitlements
    → (insert_entitlement user product i days db).0 ≡ some db.next_id
      × IsConsistent (insert_entitlement user product i days db).1
unfolding insert_entitlement AwaitsGrant Agree has_active
insert_entitlement-IsConsistent user product i days db (free, agrees) =
    (ground arith, λ j. ground (arith, agrees j))

credit_once-IsConsistent :
    (extra : Option ℕ) (user usd : ℕ) (db : Ledger)
    → IsConsistent db
    → IsConsistent (credit_once extra user usd db)
unfolding credit_once write_audit
credit_once-IsConsistent none user usd db ok = ok
credit_once-IsConsistent (some n) user usd db ok =
    ground (arith, credit_internal_balance-IsConsistent user usd db ok)

settle_excess-ExcessConsistent :
    (o : Outcome) (s : Decided) (grant : ℕ) (db : Ledger)
    → IsConsistent db
    → ExcessConsistent (settle_excess o s grant db)
unfolding settle_excess credit_excess refund_excess ExcessConsistent
settle_excess-ExcessConsistent o s grant db ok = grind (
  arith, enqueue_notification-IsConsistent, open_manual_review-IsConsistent,
  create_refund_request-IsConsistent, credit_once-IsConsistent,
)

finish_settlement-StaysConsistent :
    (s : Decided) (grant : ℕ) (credited ns : List ℕ) (extra : Result (Excess × Ledger))
    → ExcessConsistent extra
    → StaysConsistent (finish_settlement s grant credited ns extra)
unfolding finish_settlement StaysConsistent ExcessConsistent write_audit
finish_settlement-StaysConsistent s grant credited ns (raised e) ok = tt
finish_settlement-StaysConsistent s grant credited ns (done (extra, db)) ok = (ok, refl)

announce_grant-StaysConsistent :
    (s : Decided) (credited : List ℕ) (grant : ℕ) (db : Ledger)
    → IsConsistent db
    → StaysConsistent (announce_grant s credited (some grant) db)
unfolding announce_grant
announce_grant-StaysConsistent s credited grant db ok =
    let r = s.ctx.invoice in
    let (n, db1) = enqueue_notification r.user_id NotificationKind.invoice_settled r.id grant db in
    finish_settlement-StaysConsistent s grant credited (ids_of n)
      (settle_excess s.decision.outcome s grant db1)
      (settle_excess-ExcessConsistent s.decision.outcome s grant db1 (
        enqueue_notification-IsConsistent r.user_id NotificationKind.invoice_settled r.id grant db
          ok))

grant_access-StaysConsistent :
    (s : Decided) (db : Ledger)
    → AwaitsGrant s.ctx.invoice.id db.invoices db.entitlements
    → StaysConsistent (grant_access s db)
unfolding grant_access
grant_access-StaysConsistent s db waits =
    let r = s.ctx.invoice in
    let (credited, db1) =
      credit_candidates s.ctx.chain.last_indexed_block s.cutoff s.candidates db in
    let (grant, db2) =
      insert_entitlement r.user_id r.product_id r.id s.ctx.product.subscription_days db1 in
    let (rows, es) =
      credit_candidates-same s.ctx.chain.last_indexed_block s.cutoff s.candidates db in
    let (granted, ok) =
      insert_entitlement-IsConsistent r.user_id r.product_id r.id s.ctx.product.subscription_days
        db1 (rw (rows, es) waits) in
    rw granted (announce_grant-StaysConsistent s credited db1.next_id db2 ok)

lost_cas-same :
    (i : ℕ) (new_status : InvoiceStatus) (mark : Bool) (db : Ledger)
    → (cas_invoice_status i new_status mark db).0 ≡ false
    → (cas_invoice_status i new_status mark db).1 ≡ db
unfolding cas_invoice_status
lost_cas-same i new_status mark db h = ground arith

pub apply_settlement-StaysConsistent :
    (s : Decided) (db : Ledger) → IsConsistent db → StaysConsistent (apply_settlement s db)
unfolding apply_settlement StaysConsistent
apply_settlement-StaysConsistent s db ok =
    let status = settled_status s.decision.outcome in
    let i = s.ctx.invoice.id in
    elim (Bool-cases (cas_invoice_status i status true db).0) [
      | inl won ↦ rw won (
          grant_access-StaysConsistent s (cas_invoice_status i status true db).1 (
            cas_invoice_status-AwaitsGrant i status db
              (settled_status-is_settled s.decision.outcome) ok won))
      | inr lost ↦ rw (lost, lost_cas-same i status true db lost) (ok, refl)
    ]
