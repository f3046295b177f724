-- ===== src/Watcher/Traversal/Keeps.antt =====
-- What a step keeps of the tables, whatever the provider answers: a predicate that each write keeps is
-- kept by the whole of `step`, one that raises half way included.
use notchstave.Common.{ℕ, zero, suc, ◌+◌, ◌≡◌, refl, Bool, some, List, [], ◌∷◌, arith}
use notchstave.Common.Int.{ℤ}
use notchstave.Watcher.Rpc.Pool.{Outcome, ok, err}
use notchstave.Watcher.Store.{
  BlockStatus, BlockHeader, TransferEvent, Store, insert_block, orphan_blocks_above,
  promote_confirmed_blocks, set_checkpoint, insert_payments,
}
use notchstave.Watcher.Traversal.{
  ChainConfig, TraversalSettings, Provider, SyncOutcome, effective_checkpoint, find_ancestor,
  finish_rollback, rollback, some_rollback, below_block, rollback_below, check_parent, judge_tail,
  verify_tail, walk_headers, detect_range, promote_finalized, promote_confirmed, record_span,
  close_span, walk_span, step,
}

-- What is asked of a predicate on the tables, for headers that satisfy `Q`: that each write keeps it.
pub record IsKept (P : Store → Type 0) (Q : BlockHeader → Type 0) : Type 0 where
  pub inserts :
      (h : BlockHeader) (status : BlockStatus) (s : Store) (r : Bool × Store)
      → Q h
      → P s
      → insert_block h status s ≡ some r
      → P r.1
  pub orphans : (n : ℕ) (s : Store) → P s → P (orphan_blocks_above n s).1
  pub promotes : (n : ℤ) (s : Store) → P s → P (promote_confirmed_blocks n s)
  pub pays :
      (enabled : ℕ → Bool) (es : List TransferEvent) (s : Store)
      → P s
      → P (insert_payments enabled es s).1
  pub checkpoints : (n : ℕ) (s : Store) → P s → P (set_checkpoint n s)

module _ {W : Type 0} (chain : ChainConfig) (settings : TraversalSettings) (provider : Provider W)
    (watched : List ℕ) (enabled : ℕ → Bool) where
  open provider use {latest, finalized, get_block, transfers}

  pub detect_range-store :
      (hs : List BlockHeader) (s : Store) (w : W)
      → (detect_range chain settings provider watched enabled hs s w).1 ≡ s
  unfolding detect_range
  detect_range-store [] s w = refl
  detect_range-store (h ∷ hs) s w = ground arith

  effective_checkpoint-store :
      (head : ℕ) (s : Store) (w : W)
      → (effective_checkpoint chain settings provider watched enabled head s w).1 ≡ s
  unfolding effective_checkpoint
  effective_checkpoint-store head s w = ground arith

module _ {W : Type 0} (chain : ChainConfig) (settings : TraversalSettings) (provider : Provider W)
    (watched : List ℕ) (enabled : ℕ → Bool) (P : Store → Type 0) (Q : BlockHeader → Type 0)
    (kept : IsKept P Q)
    (answers : (n : ℕ) (w : W) (h : BlockHeader) → (provider.get_block n w).0 ≡ ok h → Q h) where
  open provider use {latest, finalized, get_block, transfers}

  find_ancestor-Keeps :
      (rounds n : ℕ) (s : Store) (w : W)
      → P s
      → P (find_ancestor chain settings provider watched enabled rounds n s w).1
  unfolding find_ancestor
  find_ancestor-Keeps zero n s w p = p
  find_ancestor-Keeps (suc rounds) zero s w p = ground arith
  find_ancestor-Keeps (suc rounds) (suc n) s w p =
      ground (arith, find_ancestor-Keeps rounds n s (get_block (suc n) w).1 p)

  rollback-Keeps :
      (n : ℕ) (s : Store) (w : W)
      → P s
      → P (rollback chain settings provider watched enabled n s w).1
  unfolding rollback finish_rollback
  rollback-Keeps n s w p = grind (
    arith,
    find_ancestor-Keeps (settings.max_reorg_depth + 1) n s w p,
    kept.orphans,
    kept.checkpoints,
  )

  check_parent-Keeps :
      (h : BlockHeader) (s : Store) (w : W)
      → P s
      → P (check_parent chain settings provider watched enabled h s w).1
  unfolding check_parent some_rollback rollback_below below_block
  check_parent-Keeps h s w p = grind (arith, rollback-Keeps)

  verify_tail-Keeps :
      (s : Store) (w : W) → P s → P (verify_tail chain settings provider watched enabled s w).1
  unfolding verify_tail judge_tail some_rollback
  verify_tail-Keeps s w p = grind (arith, rollback-Keeps)

  walk_headers-Keeps :
      (head count number : ℕ) (s : Store) (w : W)
      → P s
      → P (walk_headers chain settings provider watched enabled head count number s w).1
  unfolding walk_headers
  walk_headers-Keeps head zero number s w p = p
  walk_headers-Keeps head (suc count) number s w p =
      go (walk_headers-Keeps head count (number + 1)) (get_block number w).0 refl
    where
      go :
          ((t : Store) (v : W)
            → P t
            → P
                (walk_headers chain settings provider watched enabled head count
                  (number + 1)
                  t
                  v).1)
          → (o : Outcome BlockHeader) → (get_block number w).0 ≡ o
          → P (walk_headers chain settings provider watched enabled head (suc count) number s w).1
      go more (err e) answer = grind (arith, answer)
      go more (ok h) answer =
          let insert = λ (status : BlockStatus) (t : Store) (r : Bool × Store).
            kept.inserts h status t r (answers number w h answer) in
          grind (arith, answer, check_parent-Keeps h s (get_block number w).1 p, insert, more)

  promote_confirmed-Keeps :
      (head : ℕ) (s : Store) (w : W)
      → P s
      → P (promote_confirmed chain settings provider watched enabled head s w).1
  unfolding promote_confirmed promote_finalized
  promote_confirmed-Keeps head s w p = grind (arith, kept.promotes)

  record_span-Keeps :
      (head : ℕ) (o : SyncOutcome) (hs : List BlockHeader) (written : ℕ) (s : Store) (w : W)
      → P s
      → P (record_span chain settings provider watched enabled head o hs written s w).1
  unfolding record_span
  record_span-Keeps head o [] written s w p = p
  record_span-Keeps head o (h ∷ hs) written s w p = grind (
    arith,
    detect_range-store chain settings provider watched enabled (h ∷ hs) s w,
    kept.pays,
    kept.checkpoints,
    promote_confirmed-Keeps,
  )

  walk_span-Keeps :
      (head checkpoint : ℕ) (s : Store) (w : W)
      → P s
      → P (walk_span chain settings provider watched enabled head checkpoint s w).1
  unfolding walk_span close_span
  walk_span-Keeps head checkpoint s w p = grind (arith, walk_headers-Keeps, record_span-Keeps)

  -- Whatever the provider answers, and where the step raises half way too, a step keeps a predicate that each
  -- of its writes keeps.
  pub step-Keeps :
      (s : Store) (w : W) → P s → P (step chain settings provider watched enabled s w).1
  unfolding step
  step-Keeps s w p = grind (
    arith,
    effective_checkpoint-store chain settings provider watched enabled,
    verify_tail-Keeps,
    walk_span-Keeps,
  )
