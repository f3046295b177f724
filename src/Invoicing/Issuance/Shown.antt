-- ===== src/Invoicing/Issuance/Shown.antt =====
-- An invoice that has been issued is one that its page and its owner are shown
-- (core/invoicing/service.py).
use notchstave.Common.{
  ℕ, ◌≡◌, refl, inl, inr, ◌&&◌, Bool, not, Option, none, some, List, Bool-cases, Option-cases,
}
use notchstave.Settler.Decimal.{Decimal}
use notchstave.Deriver.Pool.{
  PoolTables, PooledAddress, Result, done, raised, unique_violation, address_not_bindable,
  inactive_hd_account, address_pool_exhausted,
}
use notchstave.Deriver.Pool.Sound.{IsSound}
use notchstave.Deriver.Pool.Held.{IsHeld, reserve_address_for_invoice-IsHeld}
use notchstave.Invoicing.Quotas.{
  InvoicingPolicy, QuotaSnapshot, QuotaExceeded, QuotaTables, snapshot, enforce,
}
use notchstave.Invoicing.Rates.{price_to_raw}
use notchstave.Invoicing.Issuance.{
  Product, Asset, Chain, ShopTables, Attempt, ok, failed, insert_invoice, clashes, is_allowed,
}
use notchstave.Invoicing.Issuance.Loading.{find_asset}
use notchstave.Invoicing.Issuance.Pricing.{
  Price, accepted, load_asset, catalog, load_catalog, priced,
}
use notchstave.Invoicing.Issuance.Creation.{
  IssueRequest, new_invoice, on_reserved, on_quota, on_price, create_invoice, quota_tables,
  head_block,
}
use notchstave.Invoicing.Issuance.Stored.{IsShown, written-IsShown}

-- The asset of a price is the one that the join finds.
IsListed : ℕ → ℕ → ShopTables → Attempt Price → Type 0
IsListed asset chain db (failed e) = Unit
IsListed asset chain db (ok p) = find_asset asset chain db.assets ≡ some p.asset

module _ (mac : List ℕ → List ℕ) (encode : ℕ → List ℕ) (derive : ℕ → ℕ → ℕ)
    (verify : ℕ → ℕ → ℕ → Bool) (quote : List ℕ → ℕ → Option Decimal) (policy : InvoicingPolicy)
    (locked : ℕ → Bool) (request : IssueRequest) where
  on_reserved-IsShown :
      (p : Price) (snap : QuotaSnapshot) (result : Result (PooledAddress × PoolTables))
      (db : ShopTables)
      → find_asset request.asset_id request.chain_id db.assets ≡ some p.asset
      → IsHeld result
      → IsShown mac encode verify request
          (on_reserved mac encode derive verify quote policy locked request p snap result db)
  unfolding IsShown IsHeld insert_invoice
  on_reserved-IsShown p snap (raised address_pool_exhausted) db listed held = tt
  on_reserved-IsShown p snap (raised unique_violation) db listed held = tt
  on_reserved-IsShown p snap (raised address_not_bindable) db listed held = tt
  on_reserved-IsShown p snap (raised inactive_hd_account) db listed held = tt
  on_reserved-IsShown p snap (done (a, pool)) db listed (r, stored_row, same) =
      let i = new_invoice mac encode policy request p a in
      elim (Bool-cases (verify a.address a.hd_account_id a.derivation_index)) [
        | inr wrong ↦ rw wrong tt
        | inl right ↦ elim (Bool-cases (is_allowed i && not (clashes i db.invoices))) [
          | inr refused ↦ rw (right, refused) tt
          | inl inserted ↦
              rw (right, inserted)
                (written-IsShown mac encode verify policy request p a r db.invoices _ refl
                  stored_row same listed right)
        ]
      ]

  on_price-IsShown :
      (price : Attempt Price) (db : ShopTables)
      → IsListed request.asset_id request.chain_id db price
      → IsSound derive db.pool
      → IsShown mac encode verify request
          (on_price mac encode derive verify quote policy locked request price db)
  unfolding IsListed IsShown
  on_price-IsShown (failed e) db listed sound = tt
  on_price-IsShown (ok p) db listed sound =
      let snap = snapshot request.user_id policy request.now (quota_tables db) in
      admitted snap (enforce snap policy request.now (quota_tables db))
    where
      admitted :
          (snap : QuotaSnapshot) (answer : Option QuotaExceeded × QuotaTables)
          → IsShown mac encode verify request
              (on_quota mac encode derive verify quote policy locked request p snap answer db)
      admitted snap (some e, q) = tt
      admitted snap (none, q) = on_reserved-IsShown p snap _ db listed (
          reserve_address_for_invoice-IsHeld derive locked request.hd_account_id request.invoice_id
            (head_block request.reserved_from_block p.last_indexed_block) db.pool sound.keys)

  catalog-IsListed :
      (db : ShopTables) (sale : Option Product) (found : Option Asset) (chain : Option Chain)
      → find_asset request.asset_id request.chain_id db.assets ≡ found
      → IsListed request.asset_id request.chain_id db
          (priced quote request.chain_id (catalog sale (accepted found chain)))
  unfolding IsListed
  catalog-IsListed db none found chain e = tt
  catalog-IsListed db (some p) none chain e = tt
  catalog-IsListed db (some p) (some a) none e = tt
  catalog-IsListed db (some p) (some a) (some c) e =
      elim (Bool-cases (a.is_enabled && c.is_enabled)) [
        | inr off ↦ rw off tt
        | inl on ↦ elim (Option-cases (quote a.symbol request.chain_id)) [
          | inl q ↦ rw (on, q) tt
          | inr (rate, q) ↦ elim (Option-cases (price_to_raw p.price_usd a.decimals rate)) [
            | inl d ↦ rw (on, q, d) tt
            | inr (raw, d) ↦ rw (on, q, d) e
          ]
        ]
      ]

  -- In a pool whose rows are sound, an invoice that `create_invoice` issues is passed by the two loads
  -- that check it, address and MAC: by its owner's at any time, and by the one of its token until the end
  -- of the window for top-ups. What they return is the view that was answered, but for its mark of a new
  -- address.
  pub create_invoice-IsShown :
      (db : ShopTables)
      → IsSound derive db.pool
      → IsShown mac encode verify request
          (create_invoice mac encode derive verify quote policy locked request db)
  unfolding create_invoice load_catalog load_asset
  create_invoice-IsShown db sound = on_price-IsShown _ db (catalog-IsListed db _ _ _ refl) sound
