-- ===== src/Settler/Ledger/Grants.antt =====
-- The statements on `entitlements` and `users` (settler/repository.py): the grant with its partial
-- unique index, the revocation, and the credit of a balance.
use notchstave.Common.{
  ℕ, ◌+◌, ◌*◌, Bool, true, false, ◌&&◌, Option, none, some, List, [], ◌∷◌, ltb, ◌==◌, if◌then◌else◌,
}
use notchstave.Common.Rows.{find, update, option_map}
use notchstave.Settler.Ledger.{Entitlement, User, Ledger}

abbrev pub is_active : Option ℕ → Bool
is_active none = true
is_active (some t) = false

-- An entitlement of the invoice that is not revoked: the rows of `entitlements_active_uniq`.
unfoldable pub has_active : ℕ → List Entitlement → Bool
has_active i [] = false
has_active i (e ∷ es) =
    if (e.invoice_id == i) && is_active e.revoked_at then true else has_active i es

abbrev pub microseconds_per_day : ℕ
microseconds_per_day = 86_400_000_000

-- `insert_entitlement`; `none` is the conflict with `entitlements_active_uniq`.
unfoldable pub insert_entitlement : ℕ → ℕ → ℕ → Option ℕ → Ledger → Option ℕ × Ledger
unfolding has_active
insert_entitlement user product i days db = if has_active i db.entitlements then (none, db) else (
  some db.next_id,
  record db {
    next_id = db.next_id + 1;
    entitlements =
        record {
          id = db.next_id;
          user_id = user;
          product_id = product;
          invoice_id = i;
          granted_at = db.now;
          expires_at = option_map (λ d. db.now + d * microseconds_per_day) days;
          revoked_at = none;
        }
        ∷ db.entitlements;
  },
)

unfoldable pub mem : ℕ → List ℕ → Bool
mem n [] = false
mem n (m ∷ ms) = if n == m then true else mem n ms

abbrev is_revocable : List ℕ → Entitlement → Bool
is_revocable ids e = mem e.invoice_id ids && is_active e.revoked_at

-- `revoke_entitlements_for_invoices`: the rows that it changed, and the table after it.
unfoldable pub revoked_rows : List ℕ → List Entitlement → List Entitlement
revoked_rows ids [] = []
revoked_rows ids (e ∷ es) =
    let rest = revoked_rows ids es in if is_revocable ids e then e ∷ rest else rest

unfoldable pub revoke_rows : ℕ → List ℕ → List Entitlement → List Entitlement
revoke_rows now ids [] = []
revoke_rows now ids (e ∷ es) =
    (if is_revocable ids e then record e { revoked_at = some now } else e) ∷ revoke_rows now ids es

unfoldable pub revoke_entitlements_for_invoices : List ℕ → Ledger → List Entitlement × Ledger
unfolding revoked_rows revoke_rows
revoke_entitlements_for_invoices ids db = (
  revoked_rows ids db.entitlements,
  record db { entitlements = revoke_rows db.now ids db.entitlements },
)

-- `credit_internal_balance`; the new balance, where a row was written.
unfoldable pub credit_internal_balance : ℕ → ℕ → Ledger → Option ℕ × Ledger
unfolding find update
credit_internal_balance user delta db =
    let users =
      update (λ (u : User). u.id) user
        (λ u. record u { internal_balance_usd = u.internal_balance_usd + delta }) db.users in
    if ltb 0 delta
    then (
      option_map (λ (u : User). u.internal_balance_usd) (find (λ (u : User). u.id) user users),
      record db { users = users },
    )
    else (none, db)
