-- ===== src/Watcher/Traversal.antt =====
-- The walk from the checkpoint to the head (watcher/traversal.py, `ChainWalker`). A method is an
-- action on the tables and on the world of the provider; each write commits by itself, so what was
-- written stays written when the method raises. `Provider` is the pool with the decoder of the logs:
-- `transfers` stands for `get_logs_chunked` and `decode_transfer_logs`. Native transfers, the
-- sampling of a second provider and the metrics are not modelled.
mod Monad
mod Records
pub mod Ancestor
pub mod Checkpoint
pub mod Keeps
pub mod Crash
pub mod Returning
pub use Monad.*
pub use Records.*
use notchstave.Common.{
  ℕ, zero, suc, ◌+◌, ◌-◌, min, Bool, true, false, Option, none, some, List, [], ◌∷◌, leb, ltb, ◌==◌,
  if◌then◌else◌, length,
}
use notchstave.Common.Int.{pos, sub_ℕ}
use notchstave.Watcher.Rpc.Errors.{RpcError}
use notchstave.Watcher.Rpc.Pool.{Outcome, ok, err}
use notchstave.Watcher.Store.{
  BlockStatus, BlockHeader, StoredBlock, TransferEvent, Store, PaymentWriteResult, canonical_block,
  latest_canonical_block, insert_block, orphan_blocks_above, promote_confirmed_blocks,
  set_checkpoint, insert_payments,
}

module _ {W : Type 0} (chain : ChainConfig) (settings : TraversalSettings) (provider : Provider W)
    (watched : List ℕ) (enabled : ℕ → Bool) where
  open provider use {latest, finalized, get_block, transfers}

  abbrev pub Action : Type 0 → Type 0
  Action A = Store → W → Result A × Store × W

  -- `_effective_checkpoint`
  unfoldable pub effective_checkpoint : ℕ → Action ℕ
  effective_checkpoint head = do
    last ← gets (λ s. s.last_indexed_block)
    return (if ltb 0 last then last else head - settings.initial_lookback_blocks)

  -- `_status_for`
  unfoldable pub status_for : ℕ → ℕ → BlockStatus
  status_for number head =
      if leb (chain.min_confirmations + number) (head + 1)
      then BlockStatus.confirmed
      else BlockStatus.pending

  -- The loop of `_rollback`, with the rounds left; `none` is the end of the loop with no ancestor.
  unfoldable pub find_ancestor : ℕ → ℕ → Action (Option ℕ)
  find_ancestor zero number = return none
  find_ancestor (suc rounds) number = do
    stored ← gets (canonical_block number)
    elim stored [
      | none ↦ return (some number)
      | some row ↦ do
        remote ← ask (get_block number)
        if remote.hash == row.hash
            then return (some number)
            else elim number [ zero ↦ return none | suc below ↦ find_ancestor rounds below ]
    ]

  unfoldable pub finish_rollback : Option ℕ → Action ReorgReport
  finish_rollback none = raise reorg_too_deep
  finish_rollback (some ancestor) = do
    orphaned ← change (orphan_blocks_above ancestor)
    write (set_checkpoint ancestor)
    return (record { common_ancestor = ancestor; orphaned_numbers = sorted orphaned })

  -- `_rollback`
  unfoldable pub rollback : ℕ → Action ReorgReport
  unfolding find_ancestor finish_rollback
  rollback from_number = do
    ancestor ← find_ancestor (settings.max_reorg_depth + 1) from_number
    finish_rollback ancestor

  unfoldable pub some_rollback : ℕ → Action (Option ReorgReport)
  unfolding rollback
  some_rollback from_number = do report ← rollback from_number; return (some report)

  -- The height below is -1 for block 0, where nothing is stored and a rollback finds no ancestor.
  unfoldable pub below_block : ℕ → Store → Option StoredBlock
  below_block zero s = none
  below_block (suc n) s = canonical_block n s

  unfoldable pub rollback_below : ℕ → Action (Option ReorgReport)
  unfolding some_rollback
  rollback_below zero = raise reorg_too_deep
  rollback_below (suc n) = some_rollback n

  -- `_check_parent`
  unfoldable pub check_parent : BlockHeader → Action (Option ReorgReport)
  unfolding below_block rollback_below some_rollback
  check_parent header = do
    previous ← gets (below_block header.number)
    elim previous [
      | none ↦ do
        existing ← gets (canonical_block header.number)
        elim existing [
          | none ↦ return none
          | some row ↦ if row.hash == header.hash then return none else rollback_below header.number
        ]
      | some row ↦ if row.hash == header.parent_hash then return none else some_rollback row.number
    ]

  -- What the provider says of a stored tip: an error is no evidence of a reorg.
  unfoldable pub judge_tail : StoredBlock → Outcome BlockHeader → Action (Option ReorgReport)
  unfolding some_rollback
  judge_tail row (err e) = return none
  judge_tail row (ok remote) =
      if remote.hash == row.hash then return none else some_rollback row.number

  -- `_verify_tail`
  unfoldable pub verify_tail : Action (Option ReorgReport)
  unfolding judge_tail
  verify_tail = do
    newest ← gets latest_canonical_block
    elim newest [
      | none ↦ return none
      | some row ↦ do remote ← attempt (get_block row.number); judge_tail row remote
    ]

  -- Phase one of `step`: the headers of `count` heights from `number` on.
  unfoldable pub walk_headers : ℕ → ℕ → ℕ → Action Headers
  unfolding check_parent status_for
  walk_headers head zero number = return (record { reorg = none; headers = []; written = 0 })
  walk_headers head (suc count) number = do
    header ← ask (get_block number)
    reorg ← check_parent header
    elim reorg [
      | some r ↦ return (record { reorg = some r; headers = []; written = 0 })
      | none ↦ do
        written ← insert (insert_block header (status_for header.number head))
        rest ← walk_headers head count (number + 1)
        return (add_header header written rest)
    ]

  -- `_detect_range`, without native transfers. With no ERC-20 asset the source asks for no logs; the
  -- provider's `transfers` is then one that answers `[]` and leaves its world.
  unfoldable pub detect_range : List BlockHeader → Action (List TransferEvent)
  unfolding keep_verified
  detect_range [] = return []
  detect_range (h ∷ hs) = elim watched [
    | [] ↦ return []
    | a ∷ others ↦ do
      decoded ← ask (transfers h.number (last_number h.number hs))
      return (keep_verified (h ∷ hs) decoded)
  ]

  -- The part of `_promote_confirmed` that asks for the `finalized` tag.
  unfoldable pub promote_finalized : Bool → Action (Unit {0})
  promote_finalized false = return tt
  promote_finalized true = do
    answer ← attempt finalized
    elim answer [ ok height ↦ write (promote_confirmed_blocks (pos height)) | err e ↦ return tt ]

  -- `_promote_confirmed`
  unfoldable pub promote_confirmed : ℕ → Action (Unit {0})
  unfolding promote_finalized
  promote_confirmed head = do
    write (promote_confirmed_blocks (sub_ℕ (head + 1) chain.min_confirmations))
    promote_finalized chain.use_finalized_tag

  -- Phase two and the end of `step`, for the headers of the span.
  unfoldable pub record_span : ℕ → SyncOutcome → List BlockHeader → ℕ → Action SyncOutcome
  unfolding detect_range promote_confirmed
  record_span head outcome [] written = return outcome
  record_span head outcome (h ∷ hs) written = do
    events ← detect_range (h ∷ hs)
    result ← change (insert_payments enabled events)
    write (set_checkpoint (last_number h.number hs))
    promote_confirmed head
    return (record outcome {
      to_block = last_number h.number hs;
      blocks_written = written;
      events = result.inserted;
      conflicted_events = result.conflicted;
    })

  unfoldable pub close_span : ℕ → SyncOutcome → Headers → Action SyncOutcome
  unfolding record_span
  close_span head outcome r = elim r.reorg [
    | some report ↦ return (with_reorg report (record outcome { blocks_written = r.written }))
    | none ↦ record_span head outcome r.headers r.written
  ]

  -- The walk of `step` past the check of the tip.
  unfoldable pub walk_span : ℕ → ℕ → Action SyncOutcome
  unfolding walk_headers close_span
  walk_span head checkpoint =
      if leb head checkpoint then return (no_progress head checkpoint) else do
        found ←
            walk_headers head (min head (checkpoint + settings.max_blocks_per_step) - checkpoint)
              (checkpoint + 1)
        close_span head (no_progress head checkpoint) found

  -- `step`
  unfoldable pub step : Action SyncOutcome
  unfolding effective_checkpoint verify_tail walk_span
  step = do
    head ← ask latest
    checkpoint ← effective_checkpoint head
    tail ← verify_tail
    elim tail [
      | some report ↦ return (with_reorg report (no_progress head checkpoint))
      | none ↦ walk_span head checkpoint
    ]
