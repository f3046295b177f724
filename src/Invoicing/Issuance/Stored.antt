-- ===== src/Invoicing/Issuance/Stored.antt =====
-- The row of an invoice that has been issued, and what the two loads say of it
-- (core/invoicing/service.py).
use notchstave.Common.{ℕ, ◌≤◌, ◌≡◌, refl, ap, Bool, true, false, none, some, List, ◌∷◌, arith}
use notchstave.Common.Rows.{find}
use notchstave.Deriver.Pool.{ReceiveAddress, PooledAddress, pooled}
use notchstave.Invoicing.Integrity.{verify_mac, compute_mac}
use notchstave.Invoicing.Integrity.Forgery.{verify_mac_iff}
use notchstave.Invoicing.Quotas.{InvoicingPolicy}
use notchstave.Invoicing.Issuance.{
  Asset, Invoice, ShopTables, Attempt, ok, failed, InvoiceView, terms_of,
}
use notchstave.Invoicing.Issuance.Loading.{
  find_asset, view_from_row, joined, load_invoice_by_id, load_invoice_by_token, deriver,
  check_integrity, verify_invoice_address, load_invoice_by_public_token,
}
use notchstave.Invoicing.Issuance.Pricing.{Price}
use notchstave.Invoicing.Issuance.Creation.{IssueRequest, new_invoice, new_view}

-- What a load says of a view; only `create_invoice` itself says that an address is new.
abbrev pub stored : InvoiceView → InvoiceView
stored view = record view { newly_derived = false }

find-head :
    {A : Type 0} (key : A → ℕ) (row : A) (rows : List A)
    → find key (key row) (row ∷ rows) ≡ some row
unfolding find
find-head key row rows = ground arith

view-stored :
    (i : Invoice) (a : PooledAddress) (r : ReceiveAddress) (asset : Asset)
    → pooled a.newly_derived r ≡ a
    → view_from_row false i r asset ≡ stored (new_view a asset i)
view-stored i a r asset same =
    rw
      (
        ap (λ (x : PooledAddress). x.address) same,
        ap (λ (x : PooledAddress). x.hd_account_id) same,
        ap (λ (x : PooledAddress). x.derivation_index) same,
      )
      refl

module _ (mac : List ℕ → List ℕ) (encode : ℕ → List ℕ) (verify : ℕ → ℕ → ℕ → Bool) where
  -- Where an invoice was issued, both loads pass it, the page until the end of its window for top-ups.
  unfoldable pub IsShown : IssueRequest → Attempt InvoiceView × ShopTables → Type 0
  IsShown request (failed e, db) = Unit
  IsShown request (ok view, db) =
      (verify_invoice_address mac encode (deriver verify) request.invoice_id (some request.user_id)
          db
        ≡ ok (stored view))
      × ((now : ℕ)
          → now ≤ view.invoice.topup_window_until
          → load_invoice_by_public_token mac encode (deriver verify) request.public_token now db
            ≡ ok (stored view))

  loads-IsShown :
      (request : IssueRequest) (view : InvoiceView) (db : ShopTables)
      → view.invoice.user_id ≡ request.user_id
      → load_invoice_by_id request.invoice_id db ≡ some (stored view)
      → load_invoice_by_token request.public_token db ≡ some (stored view)
      → check_integrity mac encode (deriver verify) (stored view) ≡ none
      → IsShown request (ok view, db)
  unfolding IsShown verify_invoice_address load_invoice_by_public_token
  loads-IsShown request view db same by_id by_token passes = (
    rw (by_id, same, passes) (ground arith),
    λ now soon. rw (by_token, passes) (ground (arith, soon)),
  )

  new_invoice-check_integrity :
      (policy : InvoicingPolicy) (request : IssueRequest) (p : Price) (a : PooledAddress)
      → verify a.address a.hd_account_id a.derivation_index ≡ true
      → check_integrity mac encode
          (deriver verify)
          (stored (new_view a p.asset (new_invoice mac encode policy request p a)))
        ≡ none
  unfolding check_integrity new_invoice compute_mac
  new_invoice-check_integrity policy request p a derives =
      let t = terms_of (encode a.address) (new_invoice mac encode policy request p a) in
      let same : verify_mac mac (compute_mac mac t) t ≡ true =
        (verify_mac_iff mac (compute_mac mac t) t).1 refl in
      rw (derives, same) refl

  -- The row that was inserted is found by its id and by its token, with what is joined to it.
  inserted-load :
      (policy : InvoicingPolicy) (request : IssueRequest) (p : Price) (a : PooledAddress)
      (r : ReceiveAddress) (rows : List Invoice) (db : ShopTables)
      → db.invoices ≡ new_invoice mac encode policy request p a ∷ rows
      → find (λ (q : ReceiveAddress). q.id) a.address_id db.pool.addresses ≡ some r
      → pooled a.newly_derived r ≡ a
      → find_asset request.asset_id request.chain_id db.assets ≡ some p.asset
      → let view = new_view a p.asset (new_invoice mac encode policy request p a) in
        (load_invoice_by_id request.invoice_id db ≡ some (stored view))
        × (load_invoice_by_token request.public_token db ≡ some (stored view))
  unfolding load_invoice_by_id load_invoice_by_token new_invoice
  inserted-load policy request p a r rows db inserted held same listed =
      let i = new_invoice mac encode policy request p a in
      let shown : joined db (some i) ≡ some (stored (new_view a p.asset i)) =
        rw (held, listed, view-stored i a r p.asset same) refl in
      (
        rw (inserted, find-head (λ (row : Invoice). row.id) i rows) shown,
        rw (inserted, find-head (λ (row : Invoice). row.public_token) i rows) shown,
      )

  pub written-IsShown :
      (policy : InvoicingPolicy) (request : IssueRequest) (p : Price) (a : PooledAddress)
      (r : ReceiveAddress) (rows : List Invoice) (db : ShopTables)
      → db.invoices ≡ new_invoice mac encode policy request p a ∷ rows
      → find (λ (q : ReceiveAddress). q.id) a.address_id db.pool.addresses ≡ some r
      → pooled a.newly_derived r ≡ a
      → find_asset request.asset_id request.chain_id db.assets ≡ some p.asset
      → verify a.address a.hd_account_id a.derivation_index ≡ true
      → IsShown request (ok (new_view a p.asset (new_invoice mac encode policy request p a)), db)
  unfolding new_invoice
  written-IsShown policy request p a r rows db inserted held same listed derives =
      let (by_id, by_token) =
        inserted-load policy request p a r rows db inserted held same listed in
      loads-IsShown request _ db refl by_id by_token
        (new_invoice-check_integrity policy request p a derives)
