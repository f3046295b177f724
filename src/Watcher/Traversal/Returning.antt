-- ===== src/Watcher/Traversal/Returning.antt =====
-- A block that returns to the chain after a reorg (watcher/traversal.py over watcher/store/postgres.py).
use notchstave.Common.{ℕ, zero, suc, ◌≡◌, refl, ◌∙◌, Bool, true, none, some, List, [], ◌∷◌, arith}
use notchstave.Common.Int.{ℤ}
use notchstave.Watcher.Rpc.Pool.{ok}
use notchstave.Watcher.Store.{
  BlockStatus, BlockHeader, TransferEvent, Store, has_hash, canonical_in, canonical_block,
  insert_block, orphan_blocks_above, promote_confirmed_blocks, set_checkpoint, insert_payment,
  insert_payments,
}
use notchstave.Watcher.Store.Blocks.{
  canonical_block-orphan_blocks_above, has_hash-orphan_above, has_hash-promote_up_to,
  canonical_in-promote_up_to,
}
use notchstave.Watcher.Traversal.{ChainConfig, TraversalSettings, Provider, step}
use notchstave.Watcher.Traversal.Keeps.{IsKept, step-Keeps}

insert_payment-blocks :
    (enabled : ℕ → Bool) (e : TransferEvent) (s : Store)
    → (insert_payment enabled e s).1.blocks ≡ s.blocks
unfolding insert_payment
insert_payment-blocks enabled e s = ground arith

insert_payments-blocks :
    (enabled : ℕ → Bool) (es : List TransferEvent) (s : Store)
    → (insert_payments enabled es s).1.blocks ≡ s.blocks
unfolding insert_payments
insert_payments-blocks enabled [] s = refl
insert_payments-blocks enabled (e ∷ es) s =
    insert_payments-blocks enabled es (insert_payment enabled e s).1
    ∙ insert_payment-blocks enabled e s

-- The height has no canonical block, though a row, an orphaned one, has the hash.
record IsMissing (height hash : ℕ) (s : Store) : Type 0 where
  missing : canonical_block height s ≡ none
  known : has_hash hash s.blocks ≡ true

insert_block-IsMissing :
    (height hash : ℕ) (h : BlockHeader) (status : BlockStatus) (s s' : Store) (written : Bool)
    → (h.number ≡ height → h.hash ≡ hash)
    → canonical_block height s ≡ none
    → has_hash hash s.blocks ≡ true
    → insert_block h status s ≡ some (written, s')
    → (canonical_block height s' ≡ none) × (has_hash hash s'.blocks ≡ true)
unfolding insert_block canonical_block canonical_in
insert_block-IsMissing height hash h status s s' written same missing known e = ground arith

IsMissing-IsKept :
    (height hash : ℕ) → IsKept (IsMissing height hash) (λ h. h.number ≡ height → h.hash ≡ hash)
unfolding canonical_block promote_confirmed_blocks orphan_blocks_above set_checkpoint
IsMissing-IsKept height hash = record {
  inserts = λ h status s r same p e.
      let (missing, known) =
        insert_block-IsMissing height hash h status s r.1 r.0 same p.missing p.known e in
      record { missing = missing; known = known };
  orphans = λ n s p. record {
    missing = ground (arith, canonical_block-orphan_blocks_above n height s, p.missing);
    known = has_hash-orphan_above n hash s.blocks ∙ p.known;
  };
  promotes = λ n s p. promoted n s p;
  pays = λ enabled es s p. record {
    missing = rw (insert_payments-blocks enabled es s) p.missing;
    known = rw (insert_payments-blocks enabled es s) p.known;
  };
  checkpoints = λ n s p. record { missing = p.missing; known = p.known };
}
  where
    promoted :
        (n : ℤ) (s : Store)
        → IsMissing height hash s
        → IsMissing height hash (promote_confirmed_blocks n s)
    promoted n s p = record {
      missing = ground (arith, canonical_in-promote_up_to n height s.blocks p.missing);
      known = ground (arith, has_hash-promote_up_to n hash s.blocks, p.known);
    }

module _ {W : Type 0} (chain : ChainConfig) (settings : TraversalSettings) (provider : Provider W)
    (watched : List ℕ) (enabled : ℕ → Bool) where
  -- Steps one after another, each from what the one before it leaves, whether it raised or not.
  unfoldable pub steps : ℕ → Store → W → Store × W
  steps zero s w = (s, w)
  steps (suc count) s w =
      let (result, s', w') = step chain settings provider watched enabled s w in steps count s' w'

  steps-IsMissing :
      (height hash : ℕ)
      → ((n : ℕ) (w : W) (h : BlockHeader)
          → (provider.get_block n w).0 ≡ ok h
          → h.number ≡ height
          → h.hash ≡ hash)
      → (count : ℕ) (s : Store) (w : W) → IsMissing height hash s
      → IsMissing height hash (steps count s w).0
  unfolding steps
  steps-IsMissing height hash same zero s w p = p
  steps-IsMissing height hash same (suc count) s w p = steps-IsMissing height hash same count _ _ (
      step-Keeps chain settings provider watched enabled (IsMissing height hash)
        (λ h. h.number ≡ height → h.hash ≡ hash) (IsMissing-IsKept height hash) same s w p)

  -- Where the tables have no canonical block of a height but an orphaned row with a hash, as a rollback leaves
  -- them, and the provider's block of that height has this hash, the reorg being undone, no number of steps
  -- gives the height a canonical block again.
  pub steps-missing :
      (height hash : ℕ)
      → ((n : ℕ) (w : W) (h : BlockHeader)
          → (provider.get_block n w).0 ≡ ok h
          → h.number ≡ height
          → h.hash ≡ hash)
      → (count : ℕ) (s : Store) (w : W) → canonical_block height s ≡ none
      → has_hash hash s.blocks ≡ true
      → canonical_block height (steps count s w).0 ≡ none
  steps-missing height hash same count s w missing known =
      (steps-IsMissing height hash same count s w
        (record { missing = missing; known = known })).missing
