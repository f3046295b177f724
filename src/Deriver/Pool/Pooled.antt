-- ===== src/Deriver/Pool/Pooled.antt =====
-- The addresses of an account that are free or reserved, and its ceiling (deriver/pool.py).
use notchstave.Common.{
  ℕ, ◌+◌, ◌≤◌, ◌≡◌, refl, Bool, true, false, ◌&&◌, ◌||◌, Option, none, some, List, [], ◌∷◌, leb,
  ◌==◌, if◌then◌else◌, arith, ap,
}
use notchstave.Common.Rows.{find}
use notchstave.Common.Tables.{All, All-map, update_where, total, total-update_where}
use notchstave.Enums.{AddressStatus}
use notchstave.Deriver.Pool.{
  HdAccount, ReceiveAddress, PoolTables, is_free, is_reserved, is_available, change_addresses,
  active, count_reserved,
}
use notchstave.Deriver.Pool.Sound.{RowIsSound}
use notchstave.Deriver.Pool.Runs.{bumped}

abbrev pub is_pooled : AddressStatus → Bool
is_pooled s = is_free s || is_reserved s

-- The addresses of an account that are free or reserved.
unfoldable pub count_pooled : ℕ → List ReceiveAddress → ℕ
unfolding total
count_pooled account =
    total
      λ (r : ReceiveAddress). if (r.hd_account_id == account) && is_pooled r.status then 1 else 0

abbrev pub max_of : Option HdAccount → Option ℕ
max_of none = none
max_of (some a) = some a.max_active_addresses

-- The ceiling of an account, where there is one.
abbrev pub ceiling_of : ℕ → List HdAccount → Option ℕ
ceiling_of account accounts = max_of (find (λ (a : HdAccount). a.id) account accounts)

abbrev pub Reaches : Option ℕ → ℕ → Type 0
Reaches none n = Unit
Reaches (some m) n = n ≤ m

-- No account has more addresses free and reserved together than its ceiling.
pub record IsWithin (db : PoolTables) : Type 0 where
  pub within :
      (account : ℕ) → Reaches (ceiling_of account db.accounts) (count_pooled account db.addresses)

-- Fewer addresses are within the ceiling too.
pub Reaches-le : (o : Option ℕ) (m n : ℕ) → m ≤ n → Reaches o n → Reaches o m
Reaches-le none m n le h = tt
Reaches-le (some k) m n le h = omega arith

pub change-IsWithin :
    (test : ReceiveAddress → Bool) (f : ReceiveAddress → ReceiveAddress) (db : PoolTables)
    → ((r : ReceiveAddress) → (f r).hd_account_id ≡ r.hd_account_id)
    → All
        (λ r. test r ≡ true → is_pooled (f r).status ≡ true → is_pooled r.status ≡ true)
        db.addresses
    → IsWithin db
    → IsWithin (change_addresses test f db)
unfolding count_pooled
change-IsWithin test f db same old ok = record {
  within = λ account.
      Reaches-le _ _ _
        (total-update_where _ test f db.addresses
          (All-map (λ r h t. ground (arith, h t, same r)) db.addresses old))
        (ok.within account);
}

-- Where no available row is left, all that is pooled is reserved.
pub reserved-le :
    (account now : ℕ) (locked : ℕ → Bool) (derive : ℕ → ℕ → ℕ) (rows : List ReceiveAddress)
    → ((i : ℕ) → locked i ≡ false)
    → All (RowIsSound derive) rows
    → All (λ r. is_available locked account now r ≡ false) rows
    → count_pooled account rows ≡ count_reserved account rows
unfolding count_pooled count_reserved total
reserved-le account now locked derive [] alone ok h = refl
reserved-le account now locked derive (r ∷ rows) alone (ok, oks) (h, hs) = ground (
  arith,
  alone r.id,
  ok.free_clean,
  ok.funded_iff,
  reserved-le account now locked derive rows alone oks hs,
)

pub ceiling_of-bumped :
    (k account : ℕ) (accounts : List HdAccount)
    → ceiling_of k (bumped account accounts) ≡ ceiling_of k accounts
unfolding find update_where
ceiling_of-bumped k account [] = refl
ceiling_of-bumped k account (a ∷ accounts) = ground (arith, ceiling_of-bumped k account accounts)

pub ceiling_of-locked :
    (account : ℕ) (accounts : List HdAccount) (a : HdAccount)
    → active (find (λ (b : HdAccount). b.id) account accounts) ≡ some a
    → (a.id ≡ account) × (ceiling_of account accounts ≡ some a.max_active_addresses)
unfolding find
ceiling_of-locked account [] a e = cc
ceiling_of-locked account (b ∷ accounts) a e = ground (arith, ceiling_of-locked account accounts a)

pub room_left :
    (account : ℕ) (rows : List ReceiveAddress) (a : HdAccount)
    → a.id ≡ account
    → count_pooled account rows ≡ count_reserved account rows
    → leb a.max_active_addresses (count_reserved a.id rows) ≡ false
    → 1 + count_pooled account rows ≤ a.max_active_addresses
room_left account rows a same all_reserved room =
    ground (arith, ap (λ (k : ℕ). count_reserved k rows) same)
