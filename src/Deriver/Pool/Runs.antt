-- ===== src/Deriver/Pool/Runs.antt =====
-- Runs of the pool's operations (deriver/pool.py) in any order.
use notchstave.Common.{
  ℕ, ◌+◌, ◌<◌, ◌≤◌, ◌≡◌, refl, inl, inr, Bool, true, false, ◌&&◌, Option, none, some, List, [], ◌∷◌,
  leb, ◌==◌, arith, Bool-cases, Option-cases,
}
use notchstave.Common.Rows.{find}
use notchstave.Common.Tables.{All-map, update_where}
use notchstave.Deriver.Pool.{
  HdAccount, ReceiveAddress, PoolTables, is_none, status_for, peek_free_from_pool, active,
  lock_account, count_reserved, bump_next_index, conflicts, insert_address, bind_address_to_invoice,
}
use notchstave.Deriver.Pool.Operations.{
  derive_on, derive_new_address, allocate_free_address, reserve_address_for_invoice,
  schedule_release, release_due_addresses, mark_address_funded,
}
use notchstave.Deriver.Pool.Sound.{
  next_index_of, RowIsSound, IsSound, after, take-IsSound, bind_address_to_invoice-IsSound,
  schedule_release-IsSound, release_due_addresses-IsSound, mark_address_funded-IsSound,
}

-- The accounts once one has claimed an index.
abbrev pub bumped : ℕ → List HdAccount → List HdAccount
bumped account =
    update_where (λ (a : HdAccount). (a.id == account) && a.is_active)
      (λ (a : HdAccount). record a { next_index = a.next_index + 1 })

next_index-le_bumped :
    (k account : ℕ) (accounts : List HdAccount)
    → next_index_of k accounts ≤ next_index_of k (bumped account accounts)
unfolding find update_where
next_index-le_bumped k account [] = omega arith
next_index-le_bumped k account (a ∷ accounts) =
    ground (arith, next_index-le_bumped k account accounts)

pub lock_account-lt_bumped :
    (account : ℕ) (db : PoolTables) (a : HdAccount)
    → lock_account account db ≡ some a
    → (a.id ≡ account) × (a.next_index < next_index_of account (bumped account db.accounts))
unfolding lock_account find update_where
lock_account-lt_bumped account db a e = walk db.accounts e
  where
    walk :
        (accounts : List HdAccount)
        → active (find (λ (b : HdAccount). b.id) account accounts) ≡ some a
        → (a.id ≡ account) × (a.next_index < next_index_of account (bumped account accounts))
    walk [] e = cc
    walk (b ∷ accounts) e = ground (arith, walk accounts)

module _ (derive : ℕ → ℕ → ℕ) where
  inserted-RowIsSound :
      (i account index : ℕ) (invoice block : Option ℕ)
      → is_none invoice ≡ is_none block
      → RowIsSound derive (record {
        id = i;
        hd_account_id = account;
        derivation_index = index;
        address = derive account index;
        status = status_for invoice;
        current_invoice_id = invoice;
        reserved_from_block = block;
        cooldown_until = none;
        ever_funded = false;
        first_seen_funds_at = none;
      })
  inserted-RowIsSound i account index none none both = record {
    funded_iff = refl;
    free_clean = λ _. (refl, refl, refl);
    reserved_bound = λ e. cc;
    derived = refl;
  }
  inserted-RowIsSound i account index (some v) (some b) both = record {
    funded_iff = refl;
    free_clean = λ e. cc;
    reserved_bound = λ _. (refl, refl);
    derived = refl;
  }
  inserted-RowIsSound i account index none (some b) both = cc
  inserted-RowIsSound i account index (some v) none both = cc

  insert_address-IsSound :
      (account index : ℕ) (invoice block : Option ℕ) (db before : PoolTables)
      → is_none invoice ≡ is_none block
      → index < next_index_of account db.accounts
      → IsSound derive db
      → IsSound derive before
      → IsSound derive
          (after (insert_address account index (derive account index) invoice block db) before)
  unfolding insert_address
  insert_address-IsSound account index invoice block db before both claimed ok old =
      let r : ReceiveAddress = record {
        id = db.next_id;
        hd_account_id = account;
        derivation_index = index;
        address = derive account index;
        status = status_for invoice;
        current_invoice_id = invoice;
        reserved_from_block = block;
        cooldown_until = none;
        ever_funded = false;
        first_seen_funds_at = none;
      } in
      let inserted : IsSound derive
          (record db { next_id = db.next_id + 1; addresses = r ∷ db.addresses }) =
        record {
          keys = (All-map (λ q h e. omega arith) db.addresses ok.ids, ok.keys);
          ids = (omega arith, All-map (λ q h. omega arith) db.addresses ok.ids);
          rows = (inserted-RowIsSound db.next_id account index invoice block both, ok.rows);
          indices = (claimed, ok.indices);
        } in
      elim (Bool-cases (conflicts r db.addresses)) [ inl e ↦ rw e old | inr e ↦ rw e inserted ]

  bump_next_index-IsSound :
      (account : ℕ) (db : PoolTables)
      → IsSound derive db
      → IsSound derive (bump_next_index account db)
  unfolding bump_next_index
  bump_next_index-IsSound account db ok = record {
    keys = ok.keys;
    ids = ok.ids;
    rows = ok.rows;
    indices =
        All-map (λ q h. omega (arith, next_index-le_bumped q.hd_account_id account db.accounts))
          db.addresses ok.indices;
  }

  derive_new_address-IsSound :
      (account : ℕ) (invoice block : Option ℕ) (db : PoolTables)
      → is_none invoice ≡ is_none block
      → IsSound derive db
      → IsSound derive (after (derive_new_address derive account invoice block db) db)
  unfolding derive_new_address
  derive_new_address-IsSound account invoice block db both ok =
      elim (Option-cases (lock_account account db)) [
        | inl e ↦ rw (e, derive_on) ok
        | inr (a, e) ↦
            rw (e, derive_on)
              (elim (Bool-cases (leb a.max_active_addresses (count_reserved a.id db.addresses))) [
                | inl full ↦ rw full ok
                | inr room ↦
                    let (same, claimed) = lock_account-lt_bumped account db a e in
                    rw room (
                      insert_address-IsSound a.id a.next_index invoice block
                        (bump_next_index a.id db) db both
                        (unfold bump_next_index in (rw same claimed))
                        (bump_next_index-IsSound a.id db ok) ok)
              ])
      ]

  reserve_address_for_invoice-IsSound :
      (locked : ℕ → Bool) (account invoice block : ℕ) (db : PoolTables)
      → IsSound derive db
      → IsSound derive
          (after (reserve_address_for_invoice derive locked account invoice block db) db)
  unfolding reserve_address_for_invoice
  reserve_address_for_invoice-IsSound locked account invoice block db ok =
      elim (Option-cases (peek_free_from_pool locked account db)) [
        | inl e ↦ rw e (derive_new_address-IsSound account (some invoice) (some block) db refl ok)
        | inr (r, e) ↦ rw e (take-IsSound derive locked account invoice block db r ok e)
      ]

  allocate_free_address-IsSound :
      (locked : ℕ → Bool) (account : ℕ) (db : PoolTables)
      → IsSound derive db
      → IsSound derive (after (allocate_free_address derive locked account db) db)
  unfolding allocate_free_address
  allocate_free_address-IsSound locked account db ok =
      elim (Option-cases (peek_free_from_pool locked account db)) [
        | inl e ↦ rw e (derive_new_address-IsSound account none none db refl ok)
        | inr (r, e) ↦ rw e ok
      ]

  -- One operation of the pool; or time passes. Where the pool is worked on `alone`, no row is locked by
  -- another transaction.
  pub data Step (alone : Bool) : PoolTables → PoolTables → Type 0 where
    reserves :
        (locked : ℕ → Bool) (account invoice block : ℕ) (db : PoolTables)
        → (alone ≡ true → (i : ℕ) → locked i ≡ false)
        → Step alone db
            (after (reserve_address_for_invoice derive locked account invoice block db) db)
    allocates :
        (locked : ℕ → Bool) (account : ℕ) (db : PoolTables)
        → (alone ≡ true → (i : ℕ) → locked i ≡ false)
        → Step alone db (after (allocate_free_address derive locked account db) db)
    binds :
        (i invoice block : ℕ) (db : PoolTables)
        → Step alone db (after (bind_address_to_invoice i invoice block db) db)
    schedules : (i until : ℕ) (db : PoolTables) → Step alone db (schedule_release i until db).1
    releases :
        (live : ℕ → Bool) (account : ℕ) (db : PoolTables)
        → Step alone db (release_due_addresses live account db).1
    funds : (i : ℕ) (db : PoolTables) → Step alone db (mark_address_funded i db).1
    waits : (now : ℕ) (db : PoolTables) → Step alone db (record db { now = now })

  pub data Run (alone : Bool) : PoolTables → PoolTables → Type 0 where
    start : (db : PoolTables) → Run alone db db
    then_step :
        (first last end : PoolTables)
        → Run alone first last
        → Step alone last end
        → Run alone first end

  pub Step-IsSound :
      (alone : Bool) (db end : PoolTables)
      → Step alone db end
      → IsSound derive db
      → IsSound derive end
  Step-IsSound alone _ _ (reserves locked account invoice block db _) ok =
      reserve_address_for_invoice-IsSound locked account invoice block db ok
  Step-IsSound alone _ _ (allocates locked account db _) ok =
      allocate_free_address-IsSound locked account db ok
  Step-IsSound alone _ _ (binds i invoice block db) ok =
      bind_address_to_invoice-IsSound derive i invoice block db ok
  Step-IsSound alone _ _ (schedules i until db) ok = schedule_release-IsSound derive i until db ok
  Step-IsSound alone _ _ (releases live account db) ok =
      release_due_addresses-IsSound derive live account db ok
  Step-IsSound alone _ _ (funds i db) ok = mark_address_funded-IsSound derive i db ok
  Step-IsSound alone _ _ (waits now db) ok = record {
    keys = ok.keys;
    ids = ok.ids;
    rows = ok.rows;
    indices = ok.indices;
  }

  -- From sound tables, every run of the pool's operations, by any number of processes and whatever rows
  -- they find locked, leads to sound tables.
  pub Run-IsSound :
      (alone : Bool) (first last : PoolTables)
      → Run alone first last
      → IsSound derive first
      → IsSound derive last
  Run-IsSound alone _ _ (start db) ok = ok
  Run-IsSound alone _ _ (then_step first last end run step) ok =
      Step-IsSound alone last end step (Run-IsSound alone first last run ok)
