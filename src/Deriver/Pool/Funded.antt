-- ===== src/Deriver/Pool/Funded.antt =====
-- An address that has held funds (deriver/pool.py): it never goes back into the pool.
use notchstave.Common.{
  ℕ, ◌≡◌, refl, sym, ◌∙◌, ◌≢◌, inl, inr, Bool, true, false, ◌&&◌, ◌||◌, Option, none, some, List,
  [], ◌∷◌, ◌==◌, arith, Option-cases,
}
use notchstave.Common.Tables.{All, All-map, first, update_where}
use notchstave.Common.Rows.{filter}
use notchstave.Deriver.Pool.{
  ReceiveAddress, PoolTables, PooledAddress, done, is_available, peek_free_from_pool, bind_row,
  bump_next_index, insert_address, bind_address_to_invoice,
}
use notchstave.Deriver.Pool.Operations.{
  derive_on, derive_new_address, allocate_free_address, reserve_address_for_invoice,
  schedule_release, release_due_addresses, mark_address_funded,
}
use notchstave.Deriver.Pool.Sound.{IsSound, after, peek-IsAvailable}
use notchstave.Deriver.Pool.Runs.{Step, Run, Run-IsSound}

-- A row with the id has held funds.
unfoldable pub has_funds : ℕ → List ReceiveAddress → Bool
has_funds i [] = false
has_funds i (r ∷ rows) = ((r.id == i) && r.ever_funded) || has_funds i rows

change-has_funds :
    (i : ℕ) (test : ReceiveAddress → Bool) (f : ReceiveAddress → ReceiveAddress)
    (rows : List ReceiveAddress)
    → ((r : ReceiveAddress) → ((f r).id ≡ r.id) × (r.ever_funded ≡ true → (f r).ever_funded ≡ true))
    → has_funds i rows ≡ true
    → has_funds i (update_where test f rows) ≡ true
unfolding has_funds update_where
change-has_funds i test f [] keeps h = h
change-has_funds i test f (r ∷ rows) keeps h =
    ground (arith, (keeps r).0, (keeps r).1, change-has_funds i test f rows keeps)

no_funds :
    (i : ℕ) (rows : List ReceiveAddress)
    → All (λ r. r.id ≡ i → r.ever_funded ≡ false) rows
    → has_funds i rows ≡ false
unfolding has_funds
no_funds i [] h = refl
no_funds i (r ∷ rows) (h, hs) = ground (arith, h, no_funds i rows hs)

module _ (derive : ℕ → ℕ → ℕ) where
  derive_new_address-has_funds :
      (i account : ℕ) (invoice block : Option ℕ) (db : PoolTables)
      → has_funds i db.addresses ≡ true
      → has_funds i (after (derive_new_address derive account invoice block db) db).addresses ≡ true
  unfolding derive_new_address insert_address has_funds bump_next_index derive_on
  derive_new_address-has_funds i account invoice block db h = ground arith

  Step-has_funds :
      (i : ℕ) (alone : Bool) (db end : PoolTables)
      → Step derive alone db end
      → has_funds i db.addresses ≡ true
      → has_funds i end.addresses ≡ true
  unfolding reserve_address_for_invoice allocate_free_address bind_address_to_invoice
      schedule_release release_due_addresses mark_address_funded
  Step-has_funds i alone _ _ (Step.reserves locked account invoice block db _) h =
      elim (Option-cases (peek_free_from_pool locked account db)) [
        | inl e ↦ rw e (derive_new_address-has_funds i account (some invoice) (some block) db h)
        | inr (r, e) ↦ rw e (change-has_funds i _ _ db.addresses (λ q. (refl, λ k. k)) h)
      ]
  Step-has_funds i alone _ _ (Step.allocates locked account db _) h =
      elim (Option-cases (peek_free_from_pool locked account db)) [
        | inl e ↦ rw e (derive_new_address-has_funds i account none none db h)
        | inr (r, e) ↦ rw e h
      ]
  Step-has_funds i alone _ _ (Step.binds j invoice block db) h =
      elim (Option-cases
        (first (filter (λ (r : ReceiveAddress). (r.id == j) && bind_row r) db.addresses))) [
          | inl e ↦ rw e h
          | inr (r, e) ↦ rw e (change-has_funds i _ _ db.addresses (λ q. (refl, λ k. k)) h)
        ]
  Step-has_funds i alone _ _ (Step.schedules j until db) h =
      change-has_funds i _ _ db.addresses (λ q. (refl, λ k. k)) h
  Step-has_funds i alone _ _ (Step.releases live account db) h =
      change-has_funds i _ _ db.addresses (λ q. (refl, λ k. k)) h
  Step-has_funds i alone _ _ (Step.funds j db) h =
      change-has_funds i _ _ db.addresses (λ q. (refl, λ k. refl)) h
  Step-has_funds i alone _ _ (Step.waits now db) h = h

  Run-has_funds :
      (i : ℕ) (alone : Bool) (first last : PoolTables)
      → Run derive alone first last
      → has_funds i first.addresses ≡ true
      → has_funds i last.addresses ≡ true
  Run-has_funds i alone _ _ (Run.start db) h = h
  Run-has_funds i alone _ _ (Run.then_step first last end run step) h =
      Step-has_funds i alone last end step (Run-has_funds i alone first last run h)

  derived-ne :
      (i account : ℕ) (invoice block : Option ℕ) (db end : PoolTables) (a : PooledAddress)
      → derive_new_address derive account invoice block db ≡ done (a, end)
      → a.address_id ≡ db.next_id
  unfolding derive_new_address derive_on insert_address bump_next_index
  derived-ne i account invoice block db end a e = ground arith

  available-unfunded :
      (locked : ℕ → Bool) (account now : ℕ) (r : ReceiveAddress)
      → is_available locked account now r ≡ true
      → r.ever_funded ≡ false
  available-unfunded locked account now r h = ground arith

  picked-ne :
      (i account : ℕ) (locked : ℕ → Bool) (db : PoolTables) (r : ReceiveAddress)
      → IsSound derive db
      → has_funds i db.addresses ≡ true
      → peek_free_from_pool locked account db ≡ some r
      → r.id ≢ i
  picked-ne i account locked db r ok h picked same =
      let spare : All (λ q. q.id ≡ i → q.ever_funded ≡ false) db.addresses =
        All-map
          (λ q available (e : q.id ≡ i).
            available-unfunded locked account db.now q (available (e ∙ sym same)))
          db.addresses (peek-IsAvailable derive locked account db r ok.keys picked) in
      cc (no_funds i db.addresses spare)

  fresh-ne :
      (i : ℕ) (db : PoolTables)
      → IsSound derive db
      → has_funds i db.addresses ≡ true
      → db.next_id ≢ i
  fresh-ne i db ok h same =
      cc (no_funds i db.addresses (All-map (λ q below e. absurd (omega arith)) db.addresses ok.ids))

  reserve-ne :
      (i account invoice block : ℕ) (locked : ℕ → Bool) (db end : PoolTables) (a : PooledAddress)
      → IsSound derive db
      → has_funds i db.addresses ≡ true
      → reserve_address_for_invoice derive locked account invoice block db ≡ done (a, end)
      → a.address_id ≢ i
  unfolding reserve_address_for_invoice
  reserve-ne i account invoice block locked db end a ok h e =
      elim (Option-cases (peek_free_from_pool locked account db)) [
        | inl p ↦
            let new = derived-ne i account (some invoice) (some block) db end a (rw p at e) in
            rw new (fresh-ne i db ok h)
        | inr (r, p) ↦
            let taken = rw p at e in
            let same : r.id ≡ a.address_id = ground arith in
            rw (← same) (picked-ne i account locked db r ok h p)
      ]

  -- Once an address has held funds, no reservation returns it again, whatever operations ran since, by
  -- however many processes.
  pub reserve_address_for_invoice-NeverFunded :
      (i account invoice block : ℕ) (locked : ℕ → Bool) (alone : Bool) (first last end : PoolTables)
      (a : PooledAddress)
      → IsSound derive first
      → has_funds i first.addresses ≡ true
      → Run derive alone first last
      → reserve_address_for_invoice derive locked account invoice block last ≡ done (a, end)
      → a.address_id ≢ i
  reserve_address_for_invoice-NeverFunded i account invoice block locked alone first last end a ok h
        run e =
      reserve-ne i account invoice block locked last end a
        (Run-IsSound derive alone first last run ok) (Run-has_funds i alone first last run h) e
