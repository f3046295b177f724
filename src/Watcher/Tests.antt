-- ===== src/Watcher/Tests.antt =====
-- Runs of the watcher's tables and of its walk (watcher/store/postgres.py, watcher/traversal.py).
use notchstave.Common.{
  ℕ, ◌+◌, ◌-◌, ◌<◌, ◌≡◌, ◌≢◌, ◌↔◌, inr, refl, Bool, true, false, none, some, [], ◌∷◌, arith, leb,
  if◌then◌else◌,
}
use notchstave.Common.Int.{pos}
use notchstave.Watcher.Rpc.Errors.{RpcErrorClass}
use notchstave.Watcher.Rpc.Pool.{ok, err, failure}
use notchstave.Watcher.Store.{
  BlockStatus, BlockHeader, StoredBlock, TransferEvent, ReceiveAddress, Store, canonical_block,
  latest_canonical_block, insert_block, bound_invoice, payment_anomaly, insert_payments,
  canonical_in,
}
use notchstave.Watcher.Store.Blocks.{IsTable}
use notchstave.Watcher.Store.Payments.{bound_iff_no_anomaly, insert_payments_twice}
use notchstave.Watcher.Traversal.{
  ChainConfig, TraversalSettings, Provider, raised, rpc, rollback, step,
}
use notchstave.Watcher.Traversal.Ancestor.{Agrees, RollsBack, rollback-RollsBack}
use notchstave.Watcher.Traversal.Checkpoint.{rollback_skips_logs}
use notchstave.Watcher.Traversal.Returning.{steps, steps-missing}
use notchstave.Watcher.Traversal.Crash.{step-raised}

-- An address reserved from block 4 on for invoice 70, and a transfer to it.
abbrev address : ReceiveAddress
address = record {
  id = 1;
  reserved_from_block = 4;
  invoice = some (record { id = 70; chain_id = 1; asset_id = 9 });
}

abbrev transfer : TransferEvent
transfer = record {
  tx_hash = 501;
  log_index = pos 0;
  block_number = 5;
  block_hash = 5;
  address_id = 1;
  asset_id = 9;
  amount_raw = 1_000_000;
}

abbrev stored : ℕ → BlockStatus → StoredBlock
stored n status = record { number = n; hash = n; parent_hash = n - 1; status = status }

-- The blocks 4 to 6 with the checkpoint at 3: a walk was cut off before it recorded their logs.
abbrev store : Store
store = record {
  chain_id = 1;
  last_indexed_block = 3;
  blocks =
      stored 6 BlockStatus.pending
      ∷ stored 5 BlockStatus.pending
      ∷ stored 4 BlockStatus.confirmed
      ∷ [];
  payments = [];
  addresses = address ∷ [];
}

store-IsTable : IsTable store.blocks
unfolding canonical_in
store-IsTable = (refl, inr refl, (refl, inr refl, (refl, inr refl, tt)))

-- Block 6 was orphaned by a reorg, and the reorg is undone.
abbrev undone : Store
undone = record store { blocks = stored 6 BlockStatus.orphaned ∷ stored 5 BlockStatus.pending ∷ [] }

undone-missing : canonical_block 6 undone ≡ none
unfolding canonical_block
undone-missing = refl

bound_iff_no_anomaly_example :
    (bound_invoice true 1 transfer address ≢ none)
    ↔ (payment_anomaly true 1 transfer address ≡ none)
bound_iff_no_anomaly_example = bound_iff_no_anomaly true 1 transfer address

abbrev all_enabled : ℕ → Bool
all_enabled asset = true

insert_payments_twice_example :
    insert_payments all_enabled
      (transfer ∷ [])
      (insert_payments all_enabled (transfer ∷ []) store).1
    ≡ (
      record { inserted = []; conflicted = transfer ∷ [] },
      (insert_payments all_enabled (transfer ∷ []) store).1,
    )
insert_payments_twice_example = insert_payments_twice all_enabled all_enabled (transfer ∷ []) store

-- The provider's chain leaves the stored one above block 5.
abbrev view : ℕ → BlockHeader
view n = record {
  number = n;
  hash = if leb n 5 then n else n + 100;
  parent_hash = if leb n 6 then n - 1 else n + 99;
}

abbrev provider : Provider ℕ
provider = record {
  latest = λ w. (ok 6, w + 1);
  finalized = λ w. (ok 4, w + 1);
  get_block = λ n w. (ok (view n), w + 1);
  transfers = λ from_block to_block w. (ok [], w + 1);
}

abbrev chain : ChainConfig
chain = record { min_confirmations = 2; use_finalized_tag = false }

abbrev settings : TraversalSettings
settings = record { max_blocks_per_step = 10; initial_lookback_blocks = 5; max_reorg_depth = 8 }

steady : (n : ℕ) (w : ℕ) → (provider.get_block n w).0 ≡ ok (view n)
steady n w = refl

rollback-RollsBack_example :
    let (r, s', w') = rollback chain settings provider [] all_enabled 6 store 0 in
    RollsBack chain settings provider [] all_enabled view steady 6 store r s'
rollback-RollsBack_example =
    rollback-RollsBack chain settings provider [] all_enabled view steady 6 store 0

tip : latest_canonical_block store ≡ some (stored 6 BlockStatus.pending)
unfolding latest_canonical_block
tip = refl

fifth-Agrees : Agrees chain settings provider [] all_enabled view steady 5 store
unfolding canonical_block
fifth-Agrees = inr (stored 5 BlockStatus.pending, refl, refl)

rollback_skips_logs_example :
    let s' = (step chain settings provider [] all_enabled store 0).1 in
    (3 < s'.last_indexed_block) × (s'.payments ≡ [])
rollback_skips_logs_example =
    rollback_skips_logs chain settings provider [] all_enabled view steady store 0 6
      (stored 6 BlockStatus.pending) 5 refl tip (λ e. omega (arith, e)) fifth-Agrees (omega arith)
      (omega arith) (omega arith)

-- A provider on the stored chain, one block further, whose requests for logs time out.
abbrev broken : Provider ℕ
broken = record {
  latest = λ w. (ok 7, w + 1);
  finalized = λ w. (ok 4, w + 1);
  get_block = λ n w. (ok (record { number = n; hash = n; parent_hash = n - 1 }), w + 1);
  transfers = λ from_block to_block w. (err (failure RpcErrorClass.timeout), w + 1);
}

logs_time_out :
    (step chain settings broken (1 ∷ []) all_enabled store 0).0
    ≡ raised (rpc (failure RpcErrorClass.timeout))
unfolding step latest_canonical_block canonical_block insert_block
logs_time_out = refl

step-raised_example :
    let s' = (step chain settings broken (1 ∷ []) all_enabled store 0).1 in
    (s'.last_indexed_block ≡ 3) × (s'.payments ≡ [])
step-raised_example =
    step-raised chain settings broken (1 ∷ []) all_enabled store 0
      (rpc (failure RpcErrorClass.timeout)) logs_time_out

broken-sixth :
    (n : ℕ) (w : ℕ) (h : BlockHeader) → (broken.get_block n w).0 ≡ ok h → h.number ≡ 6 → h.hash ≡ 6
broken-sixth n w h e k = ground (arith, e, k)

steps-missing_example :
    canonical_block 6 (steps chain settings broken (1 ∷ []) all_enabled 3 undone 0).0 ≡ none
steps-missing_example =
    steps-missing chain settings broken (1 ∷ []) all_enabled 6 6 broken-sixth 3 undone 0
      undone-missing refl
