-- ===== src/Deriver/Pool/Operations.antt =====
-- The operations of the pool (deriver/pool.py) over its statements.
use notchstave.Common.{
  ℕ, Bool, true, false, not, ◌&&◌, Option, none, some, List, leb, ◌==◌, if◌then◌else◌, map,
}
use notchstave.Common.Rows.{find, order_by, filter}
use notchstave.Common.Tables.{first, update_where}
use notchstave.Enums.{AddressStatus}
use notchstave.Deriver.Pool.{
  HdAccount, ReceiveAddress, PoolTables, PooledAddress, Result, done, raised, inactive_hd_account,
  address_pool_exhausted, pooled, is_reserved, is_swept, is_past, peek_free_from_pool, bound_to,
  change_addresses, lock_account, count_reserved, bump_next_index, insert_address,
}

-- `deriver.address` is a parameter.
module _ (derive : ℕ → ℕ → ℕ) where
  -- `_derive_new_address` once the account is locked.
  unfoldable pub derive_on :
      Option HdAccount → Option ℕ → Option ℕ → PoolTables → Result (PooledAddress × PoolTables)
  unfolding count_reserved bump_next_index insert_address
  derive_on none invoice block db = raised inactive_hd_account
  derive_on (some a) invoice block db =
      if leb a.max_active_addresses (count_reserved a.id db.addresses)
      then raised address_pool_exhausted
      else insert_address a.id a.next_index (derive a.id a.next_index) invoice block
          (bump_next_index a.id db)

  -- `_derive_new_address`
  unfoldable pub derive_new_address :
      ℕ → Option ℕ → Option ℕ → PoolTables → Result (PooledAddress × PoolTables)
  unfolding derive_on lock_account
  derive_new_address account invoice block db = derive_on (lock_account account db) invoice block db

  abbrev allocate_picked :
      Option ReceiveAddress → ℕ → PoolTables → Result (PooledAddress × PoolTables)
  allocate_picked none account db = derive_new_address account none none db
  allocate_picked (some r) account db = done (pooled false r, db)

  -- `allocate_free_address`
  unfoldable pub allocate_free_address :
      (ℕ → Bool) → ℕ → PoolTables → Result (PooledAddress × PoolTables)
  unfolding peek_free_from_pool derive_new_address
  allocate_free_address locked account db =
      allocate_picked (peek_free_from_pool locked account db) account db

  abbrev reserve_picked :
      Option ReceiveAddress → ℕ → ℕ → ℕ → PoolTables → Result (PooledAddress × PoolTables)
  reserve_picked none account invoice block db =
      derive_new_address account (some invoice) (some block) db
  reserve_picked (some r) account invoice block db = done (
    pooled false r,
    change_addresses (λ (q : ReceiveAddress). q.id == r.id) (bound_to invoice block) db,
  )

  -- `reserve_address_for_invoice`
  unfoldable pub reserve_address_for_invoice :
      (ℕ → Bool) → ℕ → ℕ → ℕ → PoolTables → Result (PooledAddress × PoolTables)
  unfolding peek_free_from_pool derive_new_address update_where
  reserve_address_for_invoice locked account invoice block db =
      reserve_picked (peek_free_from_pool locked account db) account invoice block db

abbrev pub some_row : Option ReceiveAddress → Bool
some_row none = false
some_row (some r) = true

-- `schedule_release`
unfoldable pub schedule_release : ℕ → ℕ → PoolTables → Bool × PoolTables
unfolding update_where filter
schedule_release i until db =
    let target = λ (r : ReceiveAddress). (r.id == i) && is_reserved r.status in
    (
      some_row (first (filter target db.addresses)),
      change_addresses target (λ (r : ReceiveAddress). record r { cooldown_until = some until }) db,
    )

abbrev pub has_tenant : (ℕ → Bool) → Option ℕ → Bool
has_tenant live none = false
has_tenant live (some i) = live i

-- The conditions of `SQL_RELEASE_DUE`; `live` says whether `invoices` holds a live row with the id.
abbrev pub is_due : (ℕ → Bool) → ℕ → ℕ → ReceiveAddress → Bool
is_due live account now r =
    (r.hd_account_id == account)
    && (is_reserved r.status
        && (not r.ever_funded
            && (is_past now r.cooldown_until && not (has_tenant live r.current_invoice_id))))

-- `release_due_addresses`
unfoldable pub release_due_addresses : (ℕ → Bool) → ℕ → PoolTables → List PooledAddress × PoolTables
unfolding update_where filter
release_due_addresses live account db =
    let due = is_due live account db.now in
    (
      map (pooled false) (filter due db.addresses),
      change_addresses due
          (λ (r : ReceiveAddress). record r {
            status = AddressStatus.free;
            current_invoice_id = none;
            reserved_from_block = none;
            cooldown_until = none;
          })
          db,
    )

-- `COALESCE(first_seen_funds_at, now())`
abbrev pub coalesce : Option ℕ → ℕ → ℕ
coalesce none now = now
coalesce (some t) now = t

-- What latches a row as funded.
abbrev pub latched : ℕ → ReceiveAddress → ReceiveAddress
latched now r = record r {
  status = AddressStatus.funded;
  ever_funded = true;
  first_seen_funds_at = some (coalesce r.first_seen_funds_at now);
}

-- `SQL_MARK_FUNDED` and `mark_address_funded`
unfoldable pub mark_address_funded : ℕ → PoolTables → Bool × PoolTables
unfolding update_where filter
mark_address_funded i db =
    let target = λ (r : ReceiveAddress). (r.id == i) && not (is_swept r.status) in
    (some_row (first (filter target db.addresses)), change_addresses target (latched db.now) db)

-- `hd_account_ids`
unfoldable pub hd_account_ids : PoolTables → List ℕ
unfolding order_by
hd_account_ids db = map (λ (a : HdAccount). a.id) (order_by (λ (a : HdAccount). a.id) db.accounts)

abbrev verify_row : (ℕ → ℕ → ℕ → Bool) → Option ReceiveAddress → Bool
verify_row verify none = false
verify_row verify (some r) = verify r.address r.hd_account_id r.derivation_index

-- `verify_stored_address`; `verify` is the deriver's.
unfoldable pub verify_stored_address : (ℕ → ℕ → ℕ → Bool) → ℕ → PoolTables → Bool
unfolding find
verify_stored_address verify i db =
    verify_row verify (find (λ (r : ReceiveAddress). r.id) i db.addresses)
