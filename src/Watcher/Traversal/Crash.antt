-- ===== src/Watcher/Traversal/Crash.antt =====
-- A step that raises: the checkpoint has not passed a block whose payments were not written.
use notchstave.Common.{ℕ, zero, suc, ◌+◌, ◌≡◌, refl, Bool, none, some, List, [], ◌∷◌, arith}
use notchstave.Watcher.Store.{BlockStatus, BlockHeader, Store, insert_block}
use notchstave.Watcher.Traversal.{
  ChainConfig, TraversalSettings, Provider, done, raised, StepError, SyncOutcome, Headers,
  find_ancestor, finish_rollback, rollback, some_rollback, below_block, rollback_below,
  check_parent, judge_tail, verify_tail, walk_headers, promote_finalized, promote_confirmed,
  record_span, close_span, walk_span, step,
}
use notchstave.Watcher.Traversal.Keeps.{detect_range-store}

-- The checkpoint and the payments are those that were.
unfoldable pub IsUnmoved : Store → Store → Type 0
IsUnmoved s s' = (s'.last_indexed_block ≡ s.last_indexed_block) × (s'.payments ≡ s.payments)

IsUnmoved-refl : (s : Store) → IsUnmoved s s
unfolding IsUnmoved
IsUnmoved-refl s = (refl, refl)

insert_block-IsUnmoved :
    (t : Store) (h : BlockHeader) (status : BlockStatus) (s : Store) (r : Bool × Store)
    → IsUnmoved t s
    → insert_block h status s ≡ some r
    → IsUnmoved t r.1
unfolding insert_block IsUnmoved
insert_block-IsUnmoved t h status s r p e = ground arith

module _ {W : Type 0} (chain : ChainConfig) (settings : TraversalSettings) (provider : Provider W)
    (watched : List ℕ) (enabled : ℕ → Bool) where
  open provider use {latest, finalized, get_block, transfers}

  find_ancestor-store :
      (rounds n : ℕ) (s : Store) (w : W)
      → (find_ancestor chain settings provider watched enabled rounds n s w).1 ≡ s
  unfolding find_ancestor
  find_ancestor-store zero n s w = refl
  find_ancestor-store (suc rounds) zero s w = ground arith
  find_ancestor-store (suc rounds) (suc n) s w =
      ground (arith, find_ancestor-store rounds n s (get_block (suc n) w).1)

  rollback-raised :
      (n : ℕ) (s : Store) (w : W) (e : StepError)
      → (rollback chain settings provider watched enabled n s w).0 ≡ raised e
      → (rollback chain settings provider watched enabled n s w).1 ≡ s
  unfolding rollback finish_rollback
  rollback-raised n s w e h =
      ground (arith, find_ancestor-store (settings.max_reorg_depth + 1) n s w)

  check_parent-raised :
      (h : BlockHeader) (s : Store) (w : W) (e : StepError)
      → (check_parent chain settings provider watched enabled h s w).0 ≡ raised e
      → (check_parent chain settings provider watched enabled h s w).1 ≡ s
  unfolding check_parent some_rollback rollback_below below_block
  check_parent-raised h s w e r = grind (arith, rollback-raised)

  check_parent-none :
      (h : BlockHeader) (s : Store) (w : W)
      → (check_parent chain settings provider watched enabled h s w).0 ≡ done none
      → (check_parent chain settings provider watched enabled h s w).1 ≡ s
  unfolding check_parent some_rollback rollback_below below_block
  check_parent-none h s w r = grind arith

  verify_tail-raised :
      (s : Store) (w : W) (e : StepError)
      → (verify_tail chain settings provider watched enabled s w).0 ≡ raised e
      → (verify_tail chain settings provider watched enabled s w).1 ≡ s
  unfolding verify_tail judge_tail some_rollback
  verify_tail-raised s w e r = grind (arith, rollback-raised)

  verify_tail-none :
      (s : Store) (w : W)
      → (verify_tail chain settings provider watched enabled s w).0 ≡ done none
      → (verify_tail chain settings provider watched enabled s w).1 ≡ s
  unfolding verify_tail judge_tail some_rollback
  verify_tail-none s w r = grind arith

  promote_confirmed-done :
      (head : ℕ) (s : Store) (w : W)
      → (promote_confirmed chain settings provider watched enabled head s w).0 ≡ done tt
  unfolding promote_confirmed promote_finalized
  promote_confirmed-done head s w = ground arith

  walk_headers-raised :
      (t : Store) (head count number : ℕ) (s : Store) (w : W) (e : StepError)
      → IsUnmoved t s
      → (walk_headers chain settings provider watched enabled head count number s w).0 ≡ raised e
      → IsUnmoved t (walk_headers chain settings provider watched enabled head count number s w).1
  unfolding walk_headers
  walk_headers-raised t head zero number s w e p h = p
  walk_headers-raised t head (suc count) number s w e p h = grind (
    arith,
    check_parent-raised,
    check_parent-none,
    insert_block-IsUnmoved t,
    walk_headers-raised t head count (number + 1),
  )

  walk_headers-none :
      (t : Store) (head count number : ℕ) (s : Store) (w : W) (r : Headers)
      → IsUnmoved t s
      → (walk_headers chain settings provider watched enabled head count number s w).0 ≡ done r
      → r.reorg ≡ none
      → IsUnmoved t (walk_headers chain settings provider watched enabled head count number s w).1
  unfolding walk_headers
  walk_headers-none t head zero number s w r p h n = p
  walk_headers-none t head (suc count) number s w r p h n = grind (
    arith,
    check_parent-none,
    insert_block-IsUnmoved t,
    walk_headers-none t head count (number + 1),
  )

  record_span-raised :
      (head : ℕ) (o : SyncOutcome) (hs : List BlockHeader) (written : ℕ) (s : Store) (w : W)
      (e : StepError)
      → (record_span chain settings provider watched enabled head o hs written s w).0 ≡ raised e
      → (record_span chain settings provider watched enabled head o hs written s w).1 ≡ s
  unfolding record_span
  record_span-raised head o [] written s w e r = cc
  record_span-raised head o (h ∷ hs) written s w e r = grind (
    arith,
    detect_range-store chain settings provider watched enabled (h ∷ hs) s w,
    promote_confirmed-done,
  )

  close_span-raised :
      (t : Store) (head : ℕ) (o : SyncOutcome) (r : Headers) (s : Store) (w : W) (e : StepError)
      → (r.reorg ≡ none → IsUnmoved t s)
      → (close_span chain settings provider watched enabled head o r s w).0 ≡ raised e
      → IsUnmoved t (close_span chain settings provider watched enabled head o r s w).1
  unfolding close_span
  close_span-raised t head o r s w e p h = grind (arith, record_span-raised)

  walk_span-raised :
      (head checkpoint : ℕ) (s : Store) (w : W) (e : StepError)
      → (walk_span chain settings provider watched enabled head checkpoint s w).0 ≡ raised e
      → IsUnmoved s (walk_span chain settings provider watched enabled head checkpoint s w).1
  unfolding walk_span
  walk_span-raised head checkpoint s w e h =
      grind
        (arith, IsUnmoved-refl s, walk_headers-raised s, walk_headers-none s, close_span-raised s)

  step-IsUnmoved :
      (s : Store) (w : W) (e : StepError)
      → (step chain settings provider watched enabled s w).0 ≡ raised e
      → IsUnmoved s (step chain settings provider watched enabled s w).1
  unfolding step
  step-IsUnmoved s w e h =
      grind (arith, IsUnmoved-refl s, verify_tail-raised s, verify_tail-none s, walk_span-raised)

  -- A step that raises, wherever it does and whatever the provider answers, leaves the checkpoint and
  -- the payments as they were.
  pub step-raised :
      (s : Store) (w : W) (e : StepError)
      → (step chain settings provider watched enabled s w).0 ≡ raised e
      → let s' = (step chain settings provider watched enabled s w).1 in
        (s'.last_indexed_block ≡ s.last_indexed_block) × (s'.payments ≡ s.payments)
  unfolding IsUnmoved
  step-raised s w e h = step-IsUnmoved s w e h
