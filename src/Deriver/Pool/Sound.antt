-- ===== src/Deriver/Pool/Sound.antt =====
-- What the rows of the address pool (deriver/pool.py) always satisfy, after every operation.
use notchstave.Common.{
  ℕ, ◌<◌, ◌≡◌, refl, inl, inr, Bool, true, false, not, ◌&&◌, ◌||◌, Option, none, some, List, ◌==◌,
  arith, Option-cases,
}
use notchstave.Common.Rows.{find, filter}
use notchstave.Common.Tables.{
  All, All-map, All-always, All-zip, All-update_where, first, first-IsPicked, filter-IsOnly,
  AreDistinct, update_where-AreDistinct,
}
use notchstave.Enums.{AddressStatus}
use notchstave.Deriver.Pool.{
  HdAccount, ReceiveAddress, PoolTables, PooledAddress, Result, done, raised, is_free, is_reserved,
  is_none, is_available, peek_free_from_pool, bound_to, bind_row, change_addresses,
  bind_address_to_invoice,
}
use notchstave.Deriver.Pool.Operations.{
  is_due, schedule_release, release_due_addresses, mark_address_funded,
}

-- The index that the account gives out next; 0 where there is no such account.
abbrev pub index_of : Option HdAccount → ℕ
index_of none = 0
index_of (some a) = a.next_index

abbrev pub next_index_of : ℕ → List HdAccount → ℕ
next_index_of account accounts = index_of (find (λ (a : HdAccount). a.id) account accounts)

-- What an operation leaves: where it raises, its transaction is rolled back.
abbrev pub after : Result (PooledAddress × PoolTables) → PoolTables → PoolTables
after (done (a, db)) before = db
after (raised e) before = before

module _ (derive : ℕ → ℕ → ℕ) where
  -- A row has held funds exactly if it is neither free nor reserved. A free row has no tenant and no
  -- cooldown, a reserved one has a tenant and a height. The address is the one that the deriver derives.
  pub record RowIsSound (r : ReceiveAddress) : Type 0 where
    pub funded_iff : r.ever_funded ≡ not (is_free r.status || is_reserved r.status)
    pub free_clean :
        is_free r.status ≡ true
        → (is_none r.current_invoice_id ≡ true)
          × (is_none r.reserved_from_block ≡ true)
          × (is_none r.cooldown_until ≡ true)
    pub reserved_bound :
        is_reserved r.status ≡ true
        → (is_none r.current_invoice_id ≡ false) × (is_none r.reserved_from_block ≡ false)
    pub derived : r.address ≡ derive r.hd_account_id r.derivation_index

  -- Ids are a primary key from the sequence, and an index is one that its account has given out.
  pub record IsSound (db : PoolTables) : Type 0 where
    pub keys : AreDistinct (λ (r : ReceiveAddress). r.id) db.addresses
    pub ids : All (λ (r : ReceiveAddress). r.id < db.next_id) db.addresses
    pub rows : All RowIsSound db.addresses
    pub indices :
        All
          (λ (r : ReceiveAddress). r.derivation_index < next_index_of r.hd_account_id db.accounts)
          db.addresses

  -- An update of what is not the key, the index or the address of a row.
  abbrev IsSame : (ReceiveAddress → ReceiveAddress) → Type 0
  IsSame f =
      (r : ReceiveAddress)
      → ((f r).id ≡ r.id)
        × ((f r).hd_account_id ≡ r.hd_account_id)
        × ((f r).derivation_index ≡ r.derivation_index)

  change-IsSound :
      (test : ReceiveAddress → Bool) (f : ReceiveAddress → ReceiveAddress) (db : PoolTables)
      → IsSame f
      → All (λ r. test r ≡ true → RowIsSound r → RowIsSound (f r)) db.addresses
      → IsSound db
      → IsSound (change_addresses test f db)
  change-IsSound test f db same sound ok = record {
    keys =
        update_where-AreDistinct (λ (r : ReceiveAddress). r.id) test f db.addresses
          (λ r. (same r).0) ok.keys;
    ids = All-update_where test f db.addresses (λ r _ h. rw ((same r).0) h) (λ r _ h. h) ok.ids;
    rows =
        All-update_where {P = λ r. (test r ≡ true → RowIsSound r → RowIsSound (f r)) × RowIsSound r}
          test f db.addresses (λ r t h. h.0 t h.1) (λ r _ h. h.1)
          (All-zip (λ r h k. (h, k)) db.addresses sound ok.rows);
    indices =
        All-update_where test f db.addresses (λ r _ h. rw ((same r).1, (same r).2) h) (λ r _ h. h)
          ok.indices;
  }

  bound_to-RowIsSound :
      (invoice block : ℕ) (r : ReceiveAddress)
      → is_free r.status ≡ true
      → RowIsSound r
      → RowIsSound (bound_to invoice block r)
  bound_to-RowIsSound invoice block r free ok = ground arith

  -- The row that a peek finds was available, and so is every row with its id.
  pub peek-IsAvailable :
      (locked : ℕ → Bool) (account : ℕ) (db : PoolTables) (r : ReceiveAddress)
      → AreDistinct (λ (q : ReceiveAddress). q.id) db.addresses
      → peek_free_from_pool locked account db ≡ some r
      → All (λ q. q.id ≡ r.id → is_available locked account db.now q ≡ true) db.addresses
  unfolding peek_free_from_pool
  peek-IsAvailable locked account db r keys picked =
      let test = is_available locked account db.now in
      first-IsPicked (λ (q : ReceiveAddress). q.derivation_index)
        (λ p. All (λ q. q.id ≡ p.id → test q ≡ true) db.addresses) test db.addresses r
        (filter-IsOnly (λ (q : ReceiveAddress). q.id) test db.addresses keys) picked

  available-free :
      (locked : ℕ → Bool) (account now : ℕ) (r : ReceiveAddress)
      → is_available locked account now r ≡ true
      → is_free r.status ≡ true
  available-free locked account now r h = ground arith

  pub take-IsSound :
      (locked : ℕ → Bool) (account invoice block : ℕ) (db : PoolTables) (r : ReceiveAddress)
      → IsSound db
      → peek_free_from_pool locked account db ≡ some r
      → IsSound
          (change_addresses (λ (q : ReceiveAddress). q.id == r.id) (bound_to invoice block) db)
  take-IsSound locked account invoice block db r ok picked =
      change-IsSound (λ (q : ReceiveAddress). q.id == r.id) (bound_to invoice block) db
        (λ q. (refl, refl, refl))
        (All-map
          (λ q h same.
            bound_to-RowIsSound invoice block q
              (available-free locked account db.now q (h (ground arith))))
          db.addresses (peek-IsAvailable locked account db r ok.keys picked))
        ok

  pub bind_address_to_invoice-IsSound :
      (i invoice block : ℕ) (db : PoolTables)
      → IsSound db
      → IsSound (after (bind_address_to_invoice i invoice block db) db)
  unfolding bind_address_to_invoice
  bind_address_to_invoice-IsSound i invoice block db ok =
      let target = λ (r : ReceiveAddress). (r.id == i) && bind_row r in
      let changed : IsSound (change_addresses target (bound_to invoice block) db) =
        change-IsSound target (bound_to invoice block) db (λ q. (refl, refl, refl))
          (All-always (λ q h. bound_to-RowIsSound invoice block q (ground arith)) db.addresses)
          ok in
      elim (Option-cases (first (filter target db.addresses))) [
        | inl e ↦ rw e ok
        | inr (r, e) ↦ rw e changed
      ]

  pub schedule_release-IsSound :
      (i until : ℕ) (db : PoolTables) → IsSound db → IsSound (schedule_release i until db).1
  unfolding schedule_release
  schedule_release-IsSound i until db ok =
      change-IsSound _ _ db (λ q. (refl, refl, refl))
        (All-always (λ q h k. scheduled q h k) db.addresses) ok
    where
      scheduled :
          (q : ReceiveAddress)
          → (q.id == i) && is_reserved q.status ≡ true
          → RowIsSound q
          → RowIsSound (record q { cooldown_until = some until })
      scheduled q h k = ground arith

  pub release_due_addresses-IsSound :
      (live : ℕ → Bool) (account : ℕ) (db : PoolTables)
      → IsSound db
      → IsSound (release_due_addresses live account db).1
  unfolding release_due_addresses
  release_due_addresses-IsSound live account db ok =
      change-IsSound _ _ db (λ q. (refl, refl, refl))
        (All-always (λ q h k. released q h k) db.addresses) ok
    where
      released :
          (q : ReceiveAddress)
          → is_due live account db.now q ≡ true
          → RowIsSound q
          → RowIsSound (record q {
            status = AddressStatus.free;
            current_invoice_id = none;
            reserved_from_block = none;
            cooldown_until = none;
          })
      released q h k = ground arith

  pub mark_address_funded-IsSound :
      (i : ℕ) (db : PoolTables) → IsSound db → IsSound (mark_address_funded i db).1
  unfolding mark_address_funded
  mark_address_funded-IsSound i db ok =
      change-IsSound _ _ db (λ q. (refl, refl, refl))
        (All-always (λ q h k. ground arith) db.addresses) ok
