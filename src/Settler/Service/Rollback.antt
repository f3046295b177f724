-- ===== src/Settler/Service/Rollback.antt =====
-- What `handle_reorg` (settler/service.py) leaves: no grant for a payment that it reverted, and nothing to
-- revert a second time.
use notchstave.Common.{ℕ, ◌≡◌, refl, ap, true, false, List, [], ◌∷◌, arith}
use notchstave.Enums.{InvoiceStatus}
use notchstave.Settler.Ledger.{Payment, Block, Entitlement, Ledger}
use notchstave.Settler.Ledger.Invoices.{unsettle_invoice}
use notchstave.Settler.Ledger.Payments.{
  is_rolled_back, reverted_rows, revert_rows, revert_payments_in_orphaned_blocks,
}
use notchstave.Settler.Ledger.Grants.{
  mem, has_active, revoke_rows, revoke_entitlements_for_invoices,
}
use notchstave.Settler.Ledger.Outbox.{enqueue_notification, write_audit}
use notchstave.Settler.Service.Reorg.{
  invoice_ids, unsettle_invoices, notify_revoked, audit_reorg, take_back, handle_reorg,
}
use notchstave.Settler.Service.Consistency.{has_active-revoke_rows}

-- The tables that the writes of a reorg behind the revocation leave alone.
SameRows : Ledger → Ledger → Type 0
SameRows before after =
    (after.payments ≡ before.payments)
    × (after.blocks ≡ before.blocks)
    × (after.entitlements ≡ before.entitlements)

unsettle_invoices-SameRows : (ids : List ℕ) (db : Ledger) → SameRows db (unsettle_invoices ids db).1
unfolding unsettle_invoices unsettle_invoice SameRows
unsettle_invoices-SameRows [] db = (refl, refl, refl)
unsettle_invoices-SameRows (i ∷ is) db = grind (arith, unsettle_invoices-SameRows is)

notify_revoked-SameRows :
    (es : List Entitlement) (db : Ledger) → SameRows db (notify_revoked es db).1
unfolding notify_revoked enqueue_notification SameRows
notify_revoked-SameRows [] db = (refl, refl, refl)
notify_revoked-SameRows (e ∷ es) db = grind (arith, notify_revoked-SameRows es)

audit_reorg-SameRows :
    (unsettled : List (ℕ × InvoiceStatus)) (ids : List ℕ) (db : Ledger)
    → SameRows db (audit_reorg unsettled ids db)
unfolding audit_reorg write_audit SameRows
audit_reorg-SameRows unsettled [] db = (refl, refl, refl)
audit_reorg-SameRows unsettled (i ∷ is) db = grind (arith, audit_reorg-SameRows unsettled is)

-- The tables after a reorg.
take_back-rows :
    (chain : ℕ) (p : Payment) (ps : List Payment) (db : Ledger)
    → ((take_back chain (p ∷ ps) db).1.payments ≡ db.payments)
      × ((take_back chain (p ∷ ps) db).1.blocks ≡ db.blocks)
      × ((take_back chain (p ∷ ps) db).1.entitlements
          ≡ revoke_rows db.now (invoice_ids (p ∷ ps)) db.entitlements)
unfolding take_back revoke_entitlements_for_invoices SameRows
take_back-rows chain p ps db =
    grind (arith, unsettle_invoices-SameRows, notify_revoked-SameRows, audit_reorg-SameRows)

reverted_rows-revert_rows :
    (chain : ℕ) (blocks : List Block) (ps : List Payment)
    → reverted_rows chain blocks (revert_rows chain blocks ps) ≡ []
unfolding reverted_rows revert_rows is_rolled_back
reverted_rows-revert_rows chain blocks [] = refl
reverted_rows-revert_rows chain blocks (p ∷ ps) =
    ground (arith, reverted_rows-revert_rows chain blocks ps)

take_back-revokes :
    (chain i : ℕ) (ps : List Payment) (db : Ledger)
    → mem i (invoice_ids ps) ≡ true
    → has_active i (take_back chain ps db).1.entitlements ≡ false
unfolding mem invoice_ids
take_back-revokes chain i [] db affected = ground arith
take_back-revokes chain i (p ∷ ps) db affected =
    let (payments, blocks, entitlements) = take_back-rows chain p ps db in
    ground (
      arith,
      ap (has_active i) entitlements,
      has_active-revoke_rows i db.now (invoice_ids (p ∷ ps)) db.entitlements,
    )

-- An invoice with a payment that a reorg reverted has no active grant afterwards.
pub handle_reorg-revokes :
    (chain i : ℕ) (db : Ledger)
    → mem i (invoice_ids (reverted_rows chain db.blocks db.payments)) ≡ true
    → has_active i (handle_reorg chain db).1.entitlements ≡ false
unfolding handle_reorg revert_payments_in_orphaned_blocks
handle_reorg-revokes chain i db affected =
    let (reverted, db1) = revert_payments_in_orphaned_blocks chain db in
    take_back-revokes chain i reverted db1 affected

take_back_none :
    (chain : ℕ) (db : Ledger)
    → ((take_back chain [] db).1.payments ≡ db.payments)
      × ((take_back chain [] db).1.blocks ≡ db.blocks)
unfolding take_back
take_back_none chain db = (refl, refl)

-- Rows of which none is to be reverted stay as they are.
revert_rows-none :
    (chain : ℕ) (blocks : List Block) (ps : List Payment)
    → reverted_rows chain blocks ps ≡ []
    → revert_rows chain blocks ps ≡ ps
unfolding reverted_rows revert_rows
revert_rows-none chain blocks [] none_left = refl
revert_rows-none chain blocks (p ∷ ps) none_left = ground (arith, revert_rows-none chain blocks ps)

handle_reorg-empty :
    (chain : ℕ) (db : Ledger)
    → reverted_rows chain db.blocks db.payments ≡ []
    → ((handle_reorg chain db).0.reverted_payment_ids ≡ []) × ((handle_reorg chain db).1 ≡ db)
unfolding handle_reorg revert_payments_in_orphaned_blocks take_back
handle_reorg-empty chain db none_left =
    rw (none_left, revert_rows-none chain db.blocks db.payments none_left) (refl, refl)

take_back-tables :
    (chain : ℕ) (ps : List Payment) (db : Ledger)
    → ((take_back chain ps db).1.payments ≡ db.payments)
      × ((take_back chain ps db).1.blocks ≡ db.blocks)
take_back-tables chain [] db = take_back_none chain db
take_back-tables chain (p ∷ ps) db =
    let (payments, blocks, entitlements) = take_back-rows chain p ps db in (payments, blocks)

handle_reorg-tables :
    (chain : ℕ) (db : Ledger)
    → ((handle_reorg chain db).1.payments ≡ revert_rows chain db.blocks db.payments)
      × ((handle_reorg chain db).1.blocks ≡ db.blocks)
unfolding handle_reorg revert_payments_in_orphaned_blocks
handle_reorg-tables chain db =
    let (reverted, db1) = revert_payments_in_orphaned_blocks chain db in
    take_back-tables chain reverted db1

-- Two reorgs of a chain in a row do what one does: the second reverts no payment and changes nothing.
pub handle_reorg-idempotent :
    (chain : ℕ) (db : Ledger)
    → ((handle_reorg chain (handle_reorg chain db).1).0.reverted_payment_ids ≡ [])
      × ((handle_reorg chain (handle_reorg chain db).1).1 ≡ (handle_reorg chain db).1)
handle_reorg-idempotent chain db =
    let (payments, blocks) = handle_reorg-tables chain db in
    handle_reorg-empty chain (handle_reorg chain db).1
      (rw (payments, blocks) (reverted_rows-revert_rows chain db.blocks db.payments))
