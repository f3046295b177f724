-- ===== src/Invoicing/Issuance/Locked.antt =====
-- How long a streak of expired invoices locks a user out of issuing (core/invoicing/service.py under the
-- quotas of core/invoicing/quotas.py).
use notchstave.Common.{
  ℕ, ◌≡◌, refl, inl, inr, ◌==◌, ◌&&◌, Bool, true, false, Bool-cases, Option-cases, Option, none,
  some, List, [], ◌∷◌, map, length, if◌then◌else◌, arith,
}
use notchstave.Common.Rows.{filter}
use notchstave.Settler.Decimal.{Decimal}
use notchstave.Invoicing.Quotas.{
  IssuedInvoice, InvoicingPolicy, QuotaExceeded, QuotaTables, QuotaSnapshot, is_expired,
  expired_streak, recent_invoices, snapshot, enforce,
}
use notchstave.Invoicing.Quotas.Lockout.{IsLockedOut, enforce-lockout}
use notchstave.Invoicing.Rates.{price_to_raw}
use notchstave.Invoicing.Issuance.{
  Product, Asset, Chain, Invoice, ShopTables, Attempt, ok, failed, InvoiceView, unknown_product,
  unknown_asset, rate_unavailable, bad_price, quota_exceeded,
}
use notchstave.Invoicing.Issuance.Pricing.{
  Price, accepted, load_asset, catalog, load_catalog, priced,
}
use notchstave.Invoicing.Issuance.Creation.{
  IssueRequest, issued_row, quota_tables, on_quota, on_price, create_invoice,
}
use notchstave.Invoicing.Issuance.Limits.{IsLimited, create_invoice-IsLimited}

abbrev pub AllExpired : List IssuedInvoice → Type 0
AllExpired [] = Unit
AllExpired (r ∷ rows) = (is_expired r.status ≡ true) × AllExpired rows

-- The newest invoices of the user, as many as the limit of the streak, have all expired.
pub record IsLocked (policy : InvoicingPolicy) (user : ℕ) (invoices : List Invoice) : Type 0 where
  pub full :
      length (recent_invoices user policy.expired_streak_limit (map issued_row invoices))
      ≡ policy.expired_streak_limit
  pub expired :
      AllExpired (recent_invoices user policy.expired_streak_limit (map issued_row invoices))

expired_streak-length :
    (rows : List IssuedInvoice) → AllExpired rows → expired_streak rows ≡ length rows
unfolding expired_streak
expired_streak-length [] h = refl
expired_streak-length (r ∷ rows) (h, hs) = rw h (ground (arith, expired_streak-length rows hs))

-- The refusals of a user who is locked out: for the behaviour, or before the quotas are asked, for what is
-- wrong with the order.
abbrev pub IsRefused : Attempt InvoiceView → Type 0
IsRefused (failed (quota_exceeded e)) = IsLockedOut (some e)
IsRefused (failed unknown_product) = Unit
IsRefused (failed unknown_asset) = Unit
IsRefused (failed rate_unavailable) = Unit
IsRefused (failed bad_price) = Unit
IsRefused _ = ⊥

-- Each attempt of the user is refused so; the list has whose attempt it was with its answer.
abbrev pub AllRefused : ℕ → List (ℕ × Attempt InvoiceView) → Type 0
AllRefused user [] = Unit
AllRefused user ((u, answer) ∷ rest) =
    (if u == user then IsRefused answer else Unit) × AllRefused user rest

-- An invoice of another user leaves the newest of the user as they are.
recent_invoices-other :
    (user limit : ℕ) (i : Invoice) (rows : List Invoice)
    → (i.user_id == user) ≡ false
    → recent_invoices user limit (map issued_row (i ∷ rows))
      ≡ recent_invoices user limit (map issued_row rows)
unfolding recent_invoices filter
recent_invoices-other user limit i rows other = rw other refl

nobody : IsLockedOut none → ⊥
unfolding IsLockedOut
nobody out = out

-- An order that cannot be priced.
IsUnpriced : Attempt Price → Type 0
IsUnpriced (ok p) = Unit
IsUnpriced (failed e) = IsRefused (failed e)

module _ (mac : List ℕ → List ℕ) (encode : ℕ → List ℕ) (derive : ℕ → ℕ → ℕ)
    (verify : ℕ → ℕ → ℕ → Bool) (quote : List ℕ → ℕ → Option Decimal) (policy : InvoicingPolicy)
    (locked : ℕ → Bool) where
  -- Attempts one after another.
  unfoldable pub issue_all :
      List IssueRequest → ShopTables → List (ℕ × Attempt InvoiceView) × ShopTables
  issue_all [] db = ([], db)
  issue_all (request ∷ requests) db =
      let (answer, db1) = create_invoice mac encode derive verify quote policy locked request db in
      let (rest, db2) = issue_all requests db1 in ((request.user_id, answer) ∷ rest, db2)

  catalog-IsUnpriced :
      (chain : ℕ) (sale : Option Product) (found : Option Asset) (row : Option Chain)
      → IsUnpriced (priced quote chain (catalog sale (accepted found row)))
  unfolding IsUnpriced
  catalog-IsUnpriced chain none found row = tt
  catalog-IsUnpriced chain (some p) none row = tt
  catalog-IsUnpriced chain (some p) (some a) none = tt
  catalog-IsUnpriced chain (some p) (some a) (some c) =
      elim (Bool-cases (a.is_enabled && c.is_enabled)) [
        | inr off ↦ rw off tt
        | inl on ↦ elim (Option-cases (quote a.symbol chain)) [
          | inl q ↦ rw (on, q) tt
          | inr (rate, q) ↦ elim (Option-cases (price_to_raw p.price_usd a.decimals rate)) [
            | inl d ↦ rw (on, q, d) tt
            | inr (raw, d) ↦ rw (on, q, d) tt
          ]
        ]
      ]

  on_price-IsRefused :
      (request : IssueRequest) (price : Attempt Price) (db : ShopTables)
      → IsUnpriced price
      → IsLocked policy request.user_id db.invoices
      → IsRefused (on_price mac encode derive verify quote policy locked request price db).0
  unfolding IsUnpriced
  on_price-IsRefused request (failed e) db unpriced lock = unpriced
  on_price-IsRefused request (ok p) db unpriced lock =
      let tables = quota_tables db in
      answered (snapshot request.user_id policy request.now tables)
        (enforce (snapshot request.user_id policy request.now tables) policy request.now tables)
        (enforce-lockout request.user_id policy request.now tables
          (rw (expired_streak-length _ lock.expired, lock.full) (omega arith)))
    where
      answered :
          (snap : QuotaSnapshot) (answer : Option QuotaExceeded × QuotaTables)
          → IsLockedOut answer.0
          → IsRefused
              (on_quota mac encode derive verify quote policy locked request p snap answer db).0
      answered snap (some e, q) out = out
      answered snap (none, q) out = absurd (nobody out)

  create_invoice-IsRefused :
      (request : IssueRequest) (db : ShopTables)
      → IsLocked policy request.user_id db.invoices
      → IsRefused (create_invoice mac encode derive verify quote policy locked request db).0
  unfolding create_invoice load_catalog load_asset
  create_invoice-IsRefused request db lock =
      on_price-IsRefused request _ db (catalog-IsUnpriced request.chain_id _ _ _) lock

  -- What an attempt by anyone leaves of the lockout of a user.
  create_invoice-IsLocked :
      (user : ℕ) (request : IssueRequest) (db : ShopTables)
      → IsLocked policy user db.invoices
      → IsLocked policy user
          (create_invoice mac encode derive verify quote policy locked request db).1.invoices
  unfolding IsLimited
  create_invoice-IsLocked user request db lock =
      kept (create_invoice mac encode derive verify quote policy locked request db)
        (create_invoice-IsLimited mac encode derive verify quote policy locked request db)
        (λ e. create_invoice-IsRefused request db (rw e lock))
    where
      kept :
          (result : Attempt InvoiceView × ShopTables)
          → IsLimited mac encode derive verify quote policy locked request db.invoices result
          → (request.user_id ≡ user → IsRefused result.0)
          → IsLocked policy user result.1.invoices
      kept (failed e, db1) same refused = rw same lock
      kept (ok view, db1) (added, owner, bound) refused =
          elim (Bool-cases (view.invoice.user_id == user)) [
            | inl own ↦ absurd (refused (ground (arith, owner, own)))
            | inr other ↦
                let same =
                  recent_invoices-other user policy.expired_streak_limit view.invoice db.invoices
                    other in
                rw added (record { full = rw same lock.full; expired = rw same lock.expired })
          ]

  -- Once the newest invoices of a user, as many as the limit of the streak, have all expired, no sequence of
  -- attempts to issue invoices, by whomever, at whatever times and however much later, has one in which this
  -- user gets an invoice: each is refused for the user's behaviour, if not for the order itself, and the lockout
  -- still stands at the end.
  pub issue_all-IsLocked :
      (user : ℕ) (requests : List IssueRequest) (db : ShopTables)
      → IsLocked policy user db.invoices
      → AllRefused user (issue_all requests db).0
        × IsLocked policy user (issue_all requests db).1.invoices
  unfolding issue_all
  issue_all-IsLocked user [] db lock = (tt, lock)
  issue_all-IsLocked user (request ∷ requests) db lock =
      let (rest, end) =
        issue_all-IsLocked user requests _ (create_invoice-IsLocked user request db lock) in
      elim (Bool-cases (request.user_id == user)) [
        | inl own ↦ ((rw own (create_invoice-IsRefused request db (rw (same own) lock)), rest), end)
        | inr other ↦ ((rw other tt, rest), end)
      ]
    where
      same : (request.user_id == user) ≡ true → request.user_id ≡ user
      same own = ground arith
