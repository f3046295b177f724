-- ===== src/Deriver/Pool/Ceiling.antt =====
-- The ceiling of an account (deriver/pool.py): how many addresses may be in use at once.
use notchstave.Common.{
  ℕ, ◌+◌, ◌≡◌, refl, inl, inr, Bool, true, false, not, ◌&&◌, Option, none, some, ◌∷◌, leb, ◌==◌,
  if◌then◌else◌, arith, Bool-cases, Option-cases,
}
use notchstave.Common.Rows.{filter}
use notchstave.Common.Tables.{All-map, All-always, first, all_fail-first, total}
use notchstave.Enums.{AddressStatus}
use notchstave.Deriver.Pool.{
  HdAccount, ReceiveAddress, PoolTables, is_reserved, is_swept, is_available, peek_free_from_pool,
  bound_to, bind_row, change_addresses, lock_account, count_reserved, bump_next_index, conflicts,
  insert_address, bind_address_to_invoice, status_for,
}
use notchstave.Deriver.Pool.Operations.{
  is_due, derive_on, derive_new_address, allocate_free_address, reserve_address_for_invoice,
  schedule_release, release_due_addresses, mark_address_funded, latched,
}
use notchstave.Deriver.Pool.Sound.{IsSound, after, peek-IsAvailable}
use notchstave.Deriver.Pool.Runs.{bumped, Step, Run, Run-IsSound}
use notchstave.Deriver.Pool.Pooled.{
  is_pooled, count_pooled, ceiling_of, Reaches, IsWithin, Reaches-le, change-IsWithin, reserved-le,
  ceiling_of-bumped, ceiling_of-locked, room_left,
}

module _ (derive : ℕ → ℕ → ℕ) where
  insert_address-IsWithin :
      (account index address : ℕ) (invoice block : Option ℕ) (db before : PoolTables)
      → ((k : ℕ)
          → Reaches
              (ceiling_of k db.accounts)
              ((if account == k then 1 else 0) + count_pooled k db.addresses))
      → IsWithin before
      → IsWithin (after (insert_address account index address invoice block db) before)
  unfolding insert_address count_pooled total
  insert_address-IsWithin account index address invoice block db before room old =
      let r : ReceiveAddress = record {
        id = db.next_id;
        hd_account_id = account;
        derivation_index = index;
        address = address;
        status = status_for invoice;
        current_invoice_id = invoice;
        reserved_from_block = block;
        cooldown_until = none;
        ever_funded = false;
        first_seen_funds_at = none;
      } in
      let inserted : IsWithin
          (record db { next_id = db.next_id + 1; addresses = r ∷ db.addresses }) =
        record {
          within = λ k. Reaches-le (ceiling_of k db.accounts) _ _ (ground arith) (room k);
        } in
      elim (Bool-cases (conflicts r db.addresses)) [ inl e ↦ rw e old | inr e ↦ rw e inserted ]

  room_for :
      (locked : ℕ → Bool) (account k : ℕ) (db : PoolTables) (a : HdAccount)
      → ((i : ℕ) → locked i ≡ false)
      → peek_free_from_pool locked account db ≡ none
      → IsSound derive db
      → IsWithin db
      → lock_account account db ≡ some a
      → leb a.max_active_addresses (count_reserved a.id db.addresses) ≡ false
      → Reaches
          (ceiling_of k (bumped a.id db.accounts))
          ((if a.id == k then 1 else 0) + count_pooled k db.addresses)
  unfolding lock_account peek_free_from_pool
  room_for locked account k db a alone empty sound ok e room =
      let (same, ceiling) = ceiling_of-locked account db.accounts a e in
      let all_reserved = reserved-le account db.now locked derive db.addresses alone sound.rows (
        all_fail-first (λ (r : ReceiveAddress). r.derivation_index)
          (is_available locked account db.now) db.addresses empty) in
      rw (ceiling_of-bumped k a.id db.accounts) (elim (Bool-cases (a.id == k)) [
        | inl own ↦
            let at_account : k ≡ account = ground arith in
            rw (own, at_account, ceiling) (room_left account db.addresses a same all_reserved room)
        | inr other ↦
            rw other (Reaches-le (ceiling_of k db.accounts) _ _ (omega arith) (ok.within k))
      ])

  derive_new_address-IsWithin :
      (locked : ℕ → Bool) (account : ℕ) (invoice block : Option ℕ) (db : PoolTables)
      → ((i : ℕ) → locked i ≡ false)
      → peek_free_from_pool locked account db ≡ none
      → IsSound derive db
      → IsWithin db
      → IsWithin (after (derive_new_address derive account invoice block db) db)
  unfolding derive_new_address derive_on
  derive_new_address-IsWithin locked account invoice block db alone empty sound ok =
      elim (Option-cases (lock_account account db)) [
        | inl e ↦ rw (e, derive_on) ok
        | inr (a, e) ↦
            rw (e, derive_on)
              (elim (Bool-cases (leb a.max_active_addresses (count_reserved a.id db.addresses))) [
                | inl full ↦ rw full ok
                | inr room ↦ rw room (
                    insert_address-IsWithin a.id a.next_index _ invoice block
                      (bump_next_index a.id db) db
                      (λ k. room_for locked account k db a alone empty sound ok e room) ok)
              ])
      ]

  available-IsPooled :
      (locked : ℕ → Bool) (account now : ℕ) (r : ReceiveAddress)
      → is_available locked account now r ≡ true
      → is_pooled r.status ≡ true
  available-IsPooled locked account now r h = ground arith

  spent-IsPooled : (s : AddressStatus) → is_pooled AddressStatus.funded ≡ true → is_pooled s ≡ true
  spent-IsPooled s h = cc

  due-IsPooled :
      (live : ℕ → Bool) (account now : ℕ) (r : ReceiveAddress)
      → is_due live account now r ≡ true
      → is_pooled r.status ≡ true
  due-IsPooled live account now r h = ground arith

  take-IsWithin :
      (locked : ℕ → Bool) (account invoice block : ℕ) (db : PoolTables) (r : ReceiveAddress)
      → IsSound derive db
      → peek_free_from_pool locked account db ≡ some r
      → IsWithin db
      → IsWithin
          (change_addresses (λ (q : ReceiveAddress). q.id == r.id) (bound_to invoice block) db)
  take-IsWithin locked account invoice block db r sound picked ok =
      change-IsWithin (λ (q : ReceiveAddress). q.id == r.id) (bound_to invoice block) db (λ q. refl)
        (All-map (λ q h same _. available-IsPooled locked account db.now q (h (ground arith)))
          db.addresses (peek-IsAvailable derive locked account db r sound.keys picked))
        ok

  Step-IsWithin :
      (db end : PoolTables)
      → Step derive true db end
      → IsSound derive db
      → IsWithin db
      → IsWithin end
  unfolding reserve_address_for_invoice allocate_free_address bind_address_to_invoice
      schedule_release release_due_addresses mark_address_funded
  Step-IsWithin _ _ (Step.reserves locked account invoice block db alone) sound ok =
      elim (Option-cases (peek_free_from_pool locked account db)) [
        | inl e ↦ rw e (
            derive_new_address-IsWithin locked account (some invoice) (some block) db (alone refl) e
              sound ok)
        | inr (r, e) ↦ rw e (take-IsWithin locked account invoice block db r sound e ok)
      ]
  Step-IsWithin _ _ (Step.allocates locked account db alone) sound ok =
      elim (Option-cases (peek_free_from_pool locked account db)) [
        | inl e ↦
            rw e (derive_new_address-IsWithin locked account none none db (alone refl) e sound ok)
        | inr (r, e) ↦ rw e ok
      ]
  Step-IsWithin _ _ (Step.binds i invoice block db) sound ok =
      let target = λ (r : ReceiveAddress). (r.id == i) && bind_row r in
      let changed : IsWithin (change_addresses target (bound_to invoice block) db) =
        change-IsWithin target (bound_to invoice block) db (λ q. refl)
          (All-always (λ q h _. ground arith) db.addresses) ok in
      elim (Option-cases (first (filter target db.addresses))) [
        | inl e ↦ rw e ok
        | inr (r, e) ↦ rw e changed
      ]
  Step-IsWithin _ _ (Step.schedules i until db) sound ok =
      change-IsWithin (λ (r : ReceiveAddress). (r.id == i) && is_reserved r.status)
        (λ (r : ReceiveAddress). record r { cooldown_until = some until }) db (λ q. refl)
        (All-always (λ q h k. k) db.addresses) ok
  Step-IsWithin _ _ (Step.releases live account db) sound ok =
      change-IsWithin (is_due live account db.now) _ db (λ q. refl)
        (All-always (λ q h _. due-IsPooled live account db.now q h) db.addresses) ok
  Step-IsWithin _ _ (Step.funds i db) sound ok =
      change-IsWithin (λ (r : ReceiveAddress). (r.id == i) && not (is_swept r.status))
        (latched db.now) db (λ q. refl)
        (All-always (λ q _ k. spent-IsPooled q.status k) db.addresses) ok
  Step-IsWithin _ _ (Step.waits now db) sound ok = record { within = ok.within }

  -- Where one process at a time works on the pool, no run of its operations leaves an account with more
  -- addresses free and reserved together than its ceiling.
  pub Run-IsWithin :
      (first last : PoolTables)
      → Run derive true first last
      → IsSound derive first
      → IsWithin first
      → IsWithin last
  Run-IsWithin _ _ (Run.start db) sound ok = ok
  Run-IsWithin _ _ (Run.then_step first last end run step) sound ok =
      Step-IsWithin last end step (Run-IsSound derive true first last run sound)
        (Run-IsWithin first last run sound ok)
