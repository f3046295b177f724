-- ===== src/Deriver/Pool/Refusals.antt =====
-- Why a reservation is refused (deriver/pool.py).
use notchstave.Common.{
  ℕ, ◌<◌, ◌≤◌, ◌≡◌, refl, sym, ap, ◌∙◌, ◌≢◌, inl, inr, ◌⊎◌, Bool, false, Option, none, some, List,
  [], ◌∷◌, leb, arith, Bool-cases, Option-cases,
}
use notchstave.Common.Rows.{find}
use notchstave.Common.Tables.{All}
use notchstave.Deriver.Pool.{
  HdAccount, ReceiveAddress, PoolTables, PooledAddress, PoolError, Result, raised,
  inactive_hd_account, address_pool_exhausted, status_for, peek_free_from_pool, lock_account,
  count_reserved, active, bump_next_index, conflicts, insert_address,
}
use notchstave.Deriver.Pool.Operations.{derive_on, reserve_address_for_invoice}
use notchstave.Deriver.Pool.Sound.{index_of, next_index_of, RowIsSound, IsSound}
use notchstave.Deriver.Pool.Runs.{lock_account-lt_bumped}

-- What the code relies on of BIP-32: two indices do not derive one address.
abbrev pub IsInjective : (ℕ → ℕ → ℕ) → Type 0
IsInjective derive = (a i b j : ℕ) → derive a i ≡ derive b j → (a ≡ b) × (i ≡ j)

raised_inj :
    {d e : PoolError} → ◌≡◌ {A = Result (PooledAddress × PoolTables)} (raised d) (raised e) → e ≡ d
raised_inj h = cc

module _ (derive : ℕ → ℕ → ℕ) (injective : IsInjective derive) where
  next-conflicts :
      (r : ReceiveAddress) (accounts : List HdAccount) (rows : List ReceiveAddress)
      → r.address ≡ derive r.hd_account_id r.derivation_index
      → r.derivation_index ≡ next_index_of r.hd_account_id accounts
      → All (RowIsSound derive) rows
      → All (λ q. q.derivation_index < next_index_of q.hd_account_id accounts) rows
      → conflicts r rows ≡ false
  unfolding conflicts
  next-conflicts r accounts [] derived next ok below = refl
  next-conflicts r accounts (q ∷ rows) derived next (ok, oks) (h, hs) =
      let apart : (q.hd_account_id ≡ r.hd_account_id)
          → (q.derivation_index ≡ r.derivation_index)
          → ⊥ =
        λ a i. omega (arith, ap (λ (k : ℕ). next_index_of k accounts) a) in
      let other : q.address ≢ r.address =
        λ same. let (a, i) = injective _ _ _ _ (sym ok.derived ∙ same ∙ derived) in apart a i in
      ground (arith, other, apart, next-conflicts r accounts rows derived next oks hs)

  locked_next :
      (account : ℕ) (db : PoolTables) (a : HdAccount)
      → lock_account account db ≡ some a
      → next_index_of account db.accounts ≡ a.next_index
  unfolding lock_account
  locked_next account db a e = next_of (find (λ (b : HdAccount). b.id) account db.accounts) e
    where
      next_of : (o : Option HdAccount) → active o ≡ some a → index_of o ≡ a.next_index
      next_of none e = cc
      next_of (some b) e = ground arith

  claims-conflicts :
      (account : ℕ) (invoice block : Option ℕ) (db : PoolTables) (a : HdAccount) (e : PoolError)
      → IsSound derive db
      → lock_account account db ≡ some a
      → insert_address a.id a.next_index
          (derive a.id a.next_index)
          invoice
          block
          (bump_next_index a.id db)
        ≢ raised e
  unfolding insert_address bump_next_index
  claims-conflicts account invoice block db a e ok locked refused =
      let (same, _) = lock_account-lt_bumped account db a locked in
      let next = locked_next account db a locked in
      let free =
        next-conflicts
          (record {
            id = db.next_id;
            hd_account_id = a.id;
            derivation_index = a.next_index;
            address = derive a.id a.next_index;
            status = status_for invoice;
            current_invoice_id = invoice;
            reserved_from_block = block;
            cooldown_until = none;
            ever_funded = false;
            first_seen_funds_at = none;
          })
          db.accounts db.addresses refl
          (sym next ∙ ap (λ (k : ℕ). next_index_of k db.accounts) (sym same)) ok.rows ok.indices in
      cc (rw free at refused)

  -- In sound tables, a reservation that is refused has found no available address of the account; and
  -- either the account is missing or inactive, or as many of its addresses are reserved as it may have.
  -- No unique constraint ever refuses one.
  pub reserve_address_for_invoice-raised :
      (locked : ℕ → Bool) (account invoice block : ℕ) (db : PoolTables) (e : PoolError)
      → IsSound derive db
      → reserve_address_for_invoice derive locked account invoice block db ≡ raised e
      → (peek_free_from_pool locked account db ≡ none)
        × (((e ≡ inactive_hd_account) × (lock_account account db ≡ none))
            ⊎ ((e ≡ address_pool_exhausted)
                × ((a : HdAccount) × (lock_account account db ≡ some a)
                    × (a.max_active_addresses ≤ count_reserved account db.addresses))))
  unfolding reserve_address_for_invoice
  reserve_address_for_invoice-raised locked account invoice block db e ok refused =
      elim (Option-cases (peek_free_from_pool locked account db)) [
        | inr (r, p) ↦ cc (rw p at refused)
        | inl p ↦ (
          p,
          elim (Option-cases (lock_account account db)) [
            | inl l ↦ inl (raised_inj (rw (p, l, derive_on) at refused), l)
            | inr (a, l) ↦
                elim (Bool-cases (leb a.max_active_addresses (count_reserved a.id db.addresses))) [
                  | inl full ↦ inr (
                    raised_inj (rw (p, l, derive_on, full) at refused),
                    (
                      a,
                      l,
                      ground (
                        arith,
                        full,
                        ap (λ (k : ℕ). count_reserved k db.addresses)
                            (lock_account-lt_bumped account db a l).0,
                      ),
                    ),
                  )
                  | inr room ↦ absurd (
                      claims-conflicts account (some invoice) (some block) db a e ok l
                        (rw (p, l, derive_on, room) at refused))
                ]
          ],
        )
      ]
