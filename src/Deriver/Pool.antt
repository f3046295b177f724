-- ===== src/Deriver/Pool.antt =====
-- The address pool (deriver/pool.py): its statements on `hd_accounts` and `receive_addresses` and the
-- operations made of them. A row that another transaction has locked is one that `locked` names;
-- `FOR UPDATE SKIP LOCKED` passes it over. Times are microseconds, an address is a number.
pub mod Operations
pub mod Sound
pub mod Runs
pub mod Funded
pub mod Pooled
pub mod Ceiling
pub mod Refusals
pub mod Held
use notchstave.Common.{
  ℕ, ◌+◌, Bool, true, false, not, ◌&&◌, ◌||◌, Option, none, some, List, [], ◌∷◌, ltb, leb, ◌==◌,
  if◌then◌else◌, map,
}
use notchstave.Common.Rows.{find, order_by, filter}
use notchstave.Common.Tables.{first, update_where, total}
use notchstave.Enums.{AddressStatus}

pub record HdAccount : Type 0 where
  pub id : ℕ
  pub next_index : ℕ
  pub max_active_addresses : ℕ
  pub is_active : Bool

pub record ReceiveAddress : Type 0 where
  pub id : ℕ
  pub hd_account_id : ℕ
  pub derivation_index : ℕ
  pub address : ℕ
  pub status : AddressStatus
  pub current_invoice_id : Option ℕ
  pub reserved_from_block : Option ℕ
  pub cooldown_until : Option ℕ
  pub ever_funded : Bool
  pub first_seen_funds_at : Option ℕ

pub record PoolTables : Type 0 where
  pub now : ℕ
  pub next_id : ℕ
  pub accounts : List HdAccount
  pub addresses : List ReceiveAddress

-- `unique_violation` is psycopg's `UniqueViolation`.
pub data PoolError : Type 0 where
  address_pool_exhausted address_not_bindable inactive_hd_account unique_violation : PoolError

pub data Result (A : Type 0) : Type 0 where
  done : A → Result A
  raised : PoolError → Result A

pub record PooledAddress : Type 0 where
  pub address_id : ℕ
  pub hd_account_id : ℕ
  pub derivation_index : ℕ
  pub address : ℕ
  pub newly_derived : Bool

abbrev pub pooled : Bool → ReceiveAddress → PooledAddress
pooled newly r = record {
  address_id = r.id;
  hd_account_id = r.hd_account_id;
  derivation_index = r.derivation_index;
  address = r.address;
  newly_derived = newly;
}

abbrev pub is_free : AddressStatus → Bool
is_free AddressStatus.free = true
is_free _ = false

abbrev pub is_reserved : AddressStatus → Bool
is_reserved AddressStatus.reserved = true
is_reserved _ = false

abbrev pub is_swept : AddressStatus → Bool
is_swept AddressStatus.swept = true
is_swept _ = false

abbrev pub is_none : Option ℕ → Bool
is_none none = true
is_none (some a) = false

-- `cooldown_until <= now()`, which is not true of NULL.
abbrev pub is_past : ℕ → Option ℕ → Bool
is_past now none = false
is_past now (some t) = leb t now

-- The conditions of `SQL_PEEK_FREE_FROM_POOL` and `SQL_TAKE_FREE_FROM_POOL` on a row.
abbrev pub is_available : (ℕ → Bool) → ℕ → ℕ → ReceiveAddress → Bool
is_available locked account now r =
    (r.hd_account_id == account)
    && (is_free r.status
        && (not r.ever_funded
            && ((is_none r.cooldown_until || is_past now r.cooldown_until) && not (locked r.id))))

-- `SQL_PEEK_FREE_FROM_POOL`
unfoldable pub peek_free_from_pool : (ℕ → Bool) → ℕ → PoolTables → Option ReceiveAddress
unfolding order_by filter
peek_free_from_pool locked account db = first (
    order_by (λ (r : ReceiveAddress). r.derivation_index)
      (filter (is_available locked account db.now) db.addresses))

-- What binds a row to an invoice.
abbrev pub bound_to : ℕ → ℕ → ReceiveAddress → ReceiveAddress
bound_to invoice block r = record r {
  status = AddressStatus.reserved;
  current_invoice_id = some invoice;
  reserved_from_block = some block;
  cooldown_until = none;
}

abbrev pub change_addresses :
    (ReceiveAddress → Bool) → (ReceiveAddress → ReceiveAddress) → PoolTables → PoolTables
change_addresses test f db = record db { addresses = update_where test f db.addresses }

-- `SQL_LOCK_ACCOUNT`: the account, if it is active.
abbrev pub active : Option HdAccount → Option HdAccount
active none = none
active (some a) = if a.is_active then some a else none

unfoldable pub lock_account : ℕ → PoolTables → Option HdAccount
unfolding find
lock_account account db = active (find (λ (a : HdAccount). a.id) account db.accounts)

-- `active_addresses`
unfoldable pub count_reserved : ℕ → List ReceiveAddress → ℕ
unfolding total
count_reserved account =
    total
      λ (r : ReceiveAddress). if (r.hd_account_id == account) && is_reserved r.status then 1 else 0

-- `SQL_BUMP_NEXT_INDEX`, on an account that is active.
unfoldable pub bump_next_index : ℕ → PoolTables → PoolTables
unfolding update_where
bump_next_index account db = record db {
  accounts =
      update_where (λ (a : HdAccount). (a.id == account) && a.is_active)
        (λ (a : HdAccount). record a { next_index = a.next_index + 1 }) db.accounts;
}

-- The two unique constraints of `receive_addresses`.
unfoldable pub conflicts : ReceiveAddress → List ReceiveAddress → Bool
conflicts r [] = false
conflicts r (q ∷ rows) =
    (q.address == r.address)
    || (((q.hd_account_id == r.hd_account_id) && (q.derivation_index == r.derivation_index))
        || conflicts r rows)

abbrev pub status_for : Option ℕ → AddressStatus
status_for none = AddressStatus.free
status_for (some invoice) = AddressStatus.reserved

-- `SQL_INSERT_ADDRESS`
unfoldable pub insert_address :
    ℕ → ℕ → ℕ → Option ℕ → Option ℕ → PoolTables → Result (PooledAddress × PoolTables)
unfolding conflicts
insert_address account index address invoice block db =
    let r : ReceiveAddress = record {
      id = db.next_id;
      hd_account_id = account;
      derivation_index = index;
      address = address;
      status = status_for invoice;
      current_invoice_id = invoice;
      reserved_from_block = block;
      cooldown_until = none;
      ever_funded = false;
      first_seen_funds_at = none;
    } in
    if conflicts r db.addresses
    then raised unique_violation
    else done (pooled true r, record db { next_id = db.next_id + 1; addresses = r ∷ db.addresses })

abbrev pub bind_row : ReceiveAddress → Bool
bind_row r = is_free r.status && (is_none r.current_invoice_id && not r.ever_funded)

-- The row that an update returned.
abbrev bound : Option ReceiveAddress → PoolTables → Result (PooledAddress × PoolTables)
bound none after = raised address_not_bindable
bound (some r) after = done (pooled false r, after)

-- `SQL_BIND_ADDRESS` and `bind_address_to_invoice`
unfoldable pub bind_address_to_invoice :
    ℕ → ℕ → ℕ → PoolTables → Result (PooledAddress × PoolTables)
unfolding update_where filter
bind_address_to_invoice i invoice block db =
    let target = λ (r : ReceiveAddress). (r.id == i) && bind_row r in
    bound (first (filter target db.addresses)) (change_addresses target (bound_to invoice block) db)
