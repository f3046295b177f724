-- ===== src/Invoicing/Issuance/Limits.antt =====
-- What an attempt to issue an invoice leaves in `invoices` (core/invoicing/service.py under the quotas of
-- core/invoicing/quotas.py).
use notchstave.Common.{
  ℕ, ◌≤◌, ◌≡◌, Bool, refl, ap, inl, inr, ◌&&◌, not, Bool-cases, Option, none, some, List, ◌∷◌, map,
}
use notchstave.Settler.Decimal.{Decimal}
use notchstave.Deriver.Pool.{
  PoolTables, PooledAddress, Result, done, raised, unique_violation, address_not_bindable,
  inactive_hd_account, address_pool_exhausted,
}
use notchstave.Invoicing.Quotas.{
  InvoicingPolicy, QuotaSnapshot, QuotaExceeded, QuotaTables, count_active, snapshot, enforce,
}
use notchstave.Invoicing.Quotas.Lockout.{enforce-active_bound}
use notchstave.Invoicing.Issuance.{
  Invoice, ShopTables, Attempt, ok, failed, InvoiceView, insert_invoice, clashes, is_allowed,
}
use notchstave.Invoicing.Issuance.Pricing.{Price}
use notchstave.Invoicing.Issuance.Creation.{
  IssueRequest, issued_row, quota_tables, new_invoice, on_reserved, on_quota, on_price,
  create_invoice,
}

module _ (mac : List ℕ → List ℕ) (encode : ℕ → List ℕ) (derive : ℕ → ℕ → ℕ)
    (verify : ℕ → ℕ → ℕ → Bool) (quote : List ℕ → ℕ → Option Decimal) (policy : InvoicingPolicy)
    (locked : ℕ → Bool) (request : IssueRequest) where
  -- A refusal leaves the invoices `rows` as they are; an invoice that is issued is the one row more, is the
  -- user's, and the user has at most as many live ones as the policy allows.
  unfoldable pub IsLimited : List Invoice → Attempt InvoiceView × ShopTables → Type 0
  IsLimited rows (failed e, db) = db.invoices ≡ rows
  IsLimited rows (ok view, db) =
      (db.invoices ≡ view.invoice ∷ rows)
      × (view.invoice.user_id ≡ request.user_id)
      × (count_active request.user_id (map issued_row db.invoices)
          ≤ policy.max_active_invoices_per_user)

  on_reserved-IsLimited :
      (p : Price) (snap : QuotaSnapshot) (result : Result (PooledAddress × PoolTables))
      (db : ShopTables)
      → ((a : PooledAddress)
          → count_active request.user_id
              (issued_row (new_invoice mac encode policy request p a) ∷ map issued_row db.invoices)
            ≤ policy.max_active_invoices_per_user)
      → IsLimited db.invoices
          (on_reserved mac encode derive verify quote policy locked request p snap result db)
  unfolding IsLimited insert_invoice new_invoice
  on_reserved-IsLimited p snap (raised address_pool_exhausted) db bound = refl
  on_reserved-IsLimited p snap (raised unique_violation) db bound = refl
  on_reserved-IsLimited p snap (raised address_not_bindable) db bound = refl
  on_reserved-IsLimited p snap (raised inactive_hd_account) db bound = refl
  on_reserved-IsLimited p snap (done (a, pool)) db bound =
      let i = new_invoice mac encode policy request p a in
      elim (Bool-cases (verify a.address a.hd_account_id a.derivation_index)) [
        | inr wrong ↦ rw wrong refl
        | inl right ↦ elim (Bool-cases (is_allowed i && not (clashes i db.invoices))) [
          | inr refused ↦ rw (right, refused) refl
          | inl inserted ↦ rw (right, inserted) (refl, refl, bound a)
        ]
      ]

  on_price-IsLimited :
      (price : Attempt Price) (db : ShopTables)
      → IsLimited db.invoices
          (on_price mac encode derive verify quote policy locked request price db)
  unfolding IsLimited new_invoice
  on_price-IsLimited (failed e) db = refl
  on_price-IsLimited (ok p) db =
      answered
        (enforce (snapshot request.user_id policy request.now (quota_tables db)) policy request.now
          (quota_tables db))
        refl
    where
      answered :
          (answer : Option QuotaExceeded × QuotaTables)
          → enforce
              (snapshot request.user_id policy request.now (quota_tables db))
              policy
              request.now
              (quota_tables db)
            ≡ answer
          → IsLimited db.invoices (
              on_quota mac encode derive verify quote policy locked request p
                (snapshot request.user_id policy request.now (quota_tables db))
                answer
                db)
      answered (some e, q) same = refl
      answered (none, q) same =
          on_reserved-IsLimited p (snapshot request.user_id policy request.now (quota_tables db)) _
            db
            (λ a.
              enforce-active_bound policy request.now
                (issued_row (new_invoice mac encode policy request p a)) (quota_tables db)
                (ap (λ (x : Option QuotaExceeded × QuotaTables). x.0) same))

  -- An attempt to issue an invoice that is refused, for whatever reason, leaves the invoices as they
  -- were. One that succeeds adds the one row that it answers with, a row of the user, and leaves the user
  -- with no more live invoices than the policy allows.
  pub create_invoice-IsLimited :
      (db : ShopTables)
      → IsLimited db.invoices
          (create_invoice mac encode derive verify quote policy locked request db)
  unfolding create_invoice
  create_invoice-IsLimited db = on_price-IsLimited _ db
