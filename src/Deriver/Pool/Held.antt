-- ===== src/Deriver/Pool/Held.antt =====
-- The row of an address that a reservation answers with (deriver/pool.py).
use notchstave.Common.{
  ℕ, ◌≡◌, refl, inl, inr, Bool, false, Option, none, some, List, [], ◌∷◌, leb, ◌==◌, arith,
  Bool-cases, Option-cases,
}
use notchstave.Common.Rows.{find, option_map}
use notchstave.Common.Tables.{All, All-zip, All-filter, first-IsPicked, AreDistinct, update_where}
use notchstave.Deriver.Pool.{
  HdAccount, ReceiveAddress, PoolTables, PooledAddress, Result, done, raised, pooled, is_available,
  peek_free_from_pool, bound_to, lock_account, count_reserved, bump_next_index, conflicts,
  insert_address, status_for,
}
use notchstave.Deriver.Pool.Operations.{derive_on, reserve_address_for_invoice}

abbrev id_of : ReceiveAddress → ℕ
id_of r = r.id

-- Under a primary key, a row is the one that its key finds.
find-row :
    (rows : List ReceiveAddress)
    → AreDistinct id_of rows
    → All (λ r. find id_of r.id rows ≡ some r) rows
unfolding find
find-row [] d = tt
find-row (row ∷ rows) (new, d) =
    (ground arith, All-zip (λ r ne e. ground (arith, ne, e)) rows new (find-row rows d))

find-update_where :
    (k : ℕ) (f : ReceiveAddress → ReceiveAddress) (rows : List ReceiveAddress)
    → ((r : ReceiveAddress) → (f r).id ≡ r.id)
    → find id_of k (update_where (λ r. r.id == k) f rows) ≡ option_map f (find id_of k rows)
unfolding find update_where
find-update_where k f [] same = refl
find-update_where k f (row ∷ rows) same = ground (arith, same row, find-update_where k f rows same)

-- Where the reservation answers, the table has a row under the id, with the address, the account and the
-- index of the answer.
unfoldable pub IsHeld : Result (PooledAddress × PoolTables) → Type 0
IsHeld (raised e) = Unit
IsHeld (done (a, db)) =
    (r : ReceiveAddress) × (find id_of a.address_id db.addresses ≡ some r)
    × (pooled a.newly_derived r ≡ a)

module _ (derive : ℕ → ℕ → ℕ) where
  insert_address-IsHeld :
      (account index address : ℕ) (invoice block : Option ℕ) (db : PoolTables)
      → IsHeld (insert_address account index address invoice block db)
  unfolding insert_address IsHeld find
  insert_address-IsHeld account index address invoice block db =
      let r : ReceiveAddress = record {
        id = db.next_id;
        hd_account_id = account;
        derivation_index = index;
        address = address;
        status = status_for invoice;
        current_invoice_id = invoice;
        reserved_from_block = block;
        cooldown_until = none;
        ever_funded = false;
        first_seen_funds_at = none;
      } in
      let stored : find id_of r.id (r ∷ db.addresses) ≡ some r = ground arith in
      elim (Bool-cases (conflicts r db.addresses)) [
        | inl e ↦ rw e tt
        | inr e ↦ rw e (r, stored, refl)
      ]

  derive_on-IsHeld :
      (o : Option HdAccount) (invoice block : Option ℕ) (db : PoolTables)
      → IsHeld (derive_on derive o invoice block db)
  unfolding derive_on IsHeld
  derive_on-IsHeld none invoice block db = tt
  derive_on-IsHeld (some a) invoice block db =
      elim (Bool-cases (leb a.max_active_addresses (count_reserved a.id db.addresses))) [
        | inl e ↦ rw e tt
        | inr e ↦ rw e (insert_address-IsHeld _ _ _ invoice block (bump_next_index a.id db))
      ]

  pub reserve_address_for_invoice-IsHeld :
      (locked : ℕ → Bool) (account invoice block : ℕ) (db : PoolTables)
      → AreDistinct id_of db.addresses
      → IsHeld (reserve_address_for_invoice derive locked account invoice block db)
  unfolding reserve_address_for_invoice IsHeld peek_free_from_pool
  reserve_address_for_invoice-IsHeld locked account invoice block db keys =
      let test = is_available locked account db.now in
      elim (Option-cases (peek_free_from_pool locked account db)) [
        | inl e ↦ rw e (derive_on-IsHeld (lock_account account db) (some invoice) (some block) db)
        | inr (r, e) ↦
            let stored =
              first-IsPicked (λ (q : ReceiveAddress). q.derivation_index)
                (λ q. find id_of q.id db.addresses ≡ some q) test db.addresses r
                (All-filter _ test db.addresses (find-row db.addresses keys)) e in
            rw e (
              bound_to invoice block r,
              rw (find-update_where r.id (bound_to invoice block) db.addresses (λ _. refl), stored)
                  refl,
              refl,
            )
      ]
