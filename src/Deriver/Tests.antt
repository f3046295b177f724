-- ===== src/Deriver/Tests.antt =====
-- Runs of the deriver (deriver/) on small tables: one account with two addresses, of which one is free.
mod Queues
use notchstave.Common.{
  ℕ, zero, suc, ◌+◌, ◌*◌, ◌≡◌, ◌≤◌, ◌⊎◌, refl, sym, inl, inr, ◌==◌, Bool-cases, Bool, true, false,
  Option, none, some, List, [], ◌∷◌, arith,
}
use notchstave.Common.Rows.{find, order_by, filter}
use notchstave.Common.Tables.{update_where, total}
use notchstave.Enums.{AddressStatus}
use notchstave.Deriver.Pool.{
  HdAccount, ReceiveAddress, PoolTables, PooledAddress, PoolError, Result, done, raised, pooled,
  address_pool_exhausted, inactive_hd_account, peek_free_from_pool, lock_account, count_reserved,
}
use notchstave.Deriver.Pool.Operations.{reserve_address_for_invoice}
use notchstave.Deriver.Pool.Sound.{RowIsSound, IsSound, after}
use notchstave.Deriver.Pool.Runs.{Step, Run, Run-IsSound}
use notchstave.Deriver.Pool.Ceiling.{Run-IsWithin}
use notchstave.Deriver.Pool.Pooled.{IsWithin, count_pooled}
use notchstave.Deriver.Pool.Refusals.{IsInjective, reserve_address_for_invoice-raised}

-- A derivation that is injective.
derive : ℕ → ℕ → ℕ
derive zero i = 2 * i + 1
derive (suc a) i = 2 * derive a i

derive-IsInjective : IsInjective derive
unfolding derive
derive-IsInjective zero i zero j e = (refl, omega arith)
derive-IsInjective zero i (suc b) j e = absurd (omega arith)
derive-IsInjective (suc a) i zero j e = absurd (omega arith)
derive-IsInjective (suc a) i (suc b) j e =
    let (same, index) = derive-IsInjective a i b j (omega arith) in (omega arith, index)

abbrev account : HdAccount
account = record { id = 1; next_index = 2; max_active_addresses = 2; is_active = true }

abbrev row : ℕ → AddressStatus → Option ℕ → ReceiveAddress
row i status invoice = record {
  id = i;
  hd_account_id = 1;
  derivation_index = i;
  address = 4 * i + 2;
  status = status;
  current_invoice_id = invoice;
  reserved_from_block = invoice;
  cooldown_until = none;
  ever_funded = false;
  first_seen_funds_at = none;
}

abbrev pub tables : PoolTables
tables = record {
  now = 100;
  next_id = 2;
  accounts = account ∷ [];
  addresses = row 0 AddressStatus.reserved (some 70) ∷ row 1 AddressStatus.free none ∷ [];
}

derive-one : (i : ℕ) → derive 1 i ≡ 4 * i + 2
unfolding derive
derive-one i = omega arith

reserved-RowIsSound :
    (i invoice : ℕ) → RowIsSound derive (row i AddressStatus.reserved (some invoice))
reserved-RowIsSound i invoice = record {
  funded_iff = refl;
  free_clean = λ e. cc;
  reserved_bound = λ e. (refl, refl);
  derived = sym (derive-one i);
}

tables-IsSound : IsSound derive tables
unfolding find
tables-IsSound = record {
  keys = ((omega arith, tt), (tt, tt));
  ids = omega arith;
  rows = (
    reserved-RowIsSound 0 70,
    (
      record {
        funded_iff = refl;
        free_clean = λ e. (refl, refl, refl);
        reserved_bound = λ e. cc;
        derived = sym (derive-one 1);
      },
      tt,
    ),
  );
  indices = omega arith;
}

tables-IsWithin : IsWithin tables
unfolding find count_pooled
tables-IsWithin = record {
  within = λ k. elim (Bool-cases (1 == k)) [ inl e ↦ rw e (omega arith) | inr e ↦ rw e tt ];
}

none_locked : ℕ → Bool
none_locked i = false

never_locked : (i : ℕ) → none_locked i ≡ false
unfolding none_locked
never_locked i = refl

-- The free address is taken; the ceiling is then reached.
abbrev taken : Result (PooledAddress × PoolTables)
taken = reserve_address_for_invoice derive none_locked 1 71 500 tables

takes : taken ≡ done (pooled false (row 1 AddressStatus.free none), after taken tables)
unfolding reserve_address_for_invoice peek_free_from_pool none_locked
takes = refl

abbrev full : PoolTables
full = record tables {
  addresses = row 0 AddressStatus.reserved (some 70) ∷ row 1 AddressStatus.reserved (some 71) ∷ [];
}

is_full :
    reserve_address_for_invoice derive none_locked 1 72 501 full ≡ raised address_pool_exhausted
unfolding reserve_address_for_invoice peek_free_from_pool none_locked find
is_full = refl

abbrev one_reservation : Run derive true tables (after taken tables)
one_reservation =
    Run.then_step tables tables (after taken tables) (Run.start tables)
      (Step.reserves none_locked 1 71 500 tables (λ _ i. never_locked i))

Run-IsSound_example : IsSound derive (after taken tables)
Run-IsSound_example =
    Run-IsSound derive true tables (after taken tables) one_reservation tables-IsSound

Run-IsWithin_example : IsWithin (after taken tables)
Run-IsWithin_example =
    Run-IsWithin derive tables (after taken tables) one_reservation tables-IsSound tables-IsWithin

full-IsSound : IsSound derive full
unfolding find
full-IsSound = record {
  keys = ((omega arith, tt), (tt, tt));
  ids = omega arith;
  rows = (reserved-RowIsSound 0 70, (reserved-RowIsSound 1 71, tt));
  indices = omega arith;
}

reserve_address_for_invoice-raised_example :
    (peek_free_from_pool none_locked 1 full ≡ none)
    × (((address_pool_exhausted ≡ inactive_hd_account) × (lock_account 1 full ≡ none))
        ⊎ ((address_pool_exhausted ≡ address_pool_exhausted)
            × ((a : HdAccount) × (lock_account 1 full ≡ some a)
                × (a.max_active_addresses ≤ count_reserved 1 full.addresses))))
reserve_address_for_invoice-raised_example =
    reserve_address_for_invoice-raised derive derive-IsInjective none_locked 1 72 501 full
      address_pool_exhausted full-IsSound is_full
