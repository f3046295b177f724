-- ===== src/Watcher/Traversal/Checkpoint.antt =====
-- Where a rollback leaves the checkpoint of a step.
use notchstave.Common.{
  ℕ, ◌+◌, ◌≤◌, ◌<◌, ◌≡◌, ◌≢◌, refl, inl, inr, Bool, some, List, arith, ltb, Bool-cases, ◌∙◌,
}
use notchstave.Watcher.Rpc.Pool.{ok}
use notchstave.Watcher.Store.{BlockHeader, StoredBlock, Store, latest_canonical_block}
use notchstave.Watcher.Traversal.{
  ChainConfig, TraversalSettings, ReorgReport, Provider, Result, done, raised, rollback,
  some_rollback, judge_tail, verify_tail, step,
}
use notchstave.Watcher.Traversal.Ancestor.{Agrees, Differs, RollsBack, rollback-RollsBack}

module _ {W : Type 0} (chain : ChainConfig) (settings : TraversalSettings) (provider : Provider W)
    (watched : List ℕ) (enabled : ℕ → Bool) (view : ℕ → BlockHeader)
    (steady : (n : ℕ) (w : W) → (provider.get_block n w).0 ≡ ok (view n)) where
  abbrev Jumped : Store → {A : Type 0} → Result A → Store → Type 0
  Jumped s (done a) s' = (s.last_indexed_block < s'.last_indexed_block) × (s'.payments ≡ s.payments)
  Jumped s (raised e) s' = ⊥

  not-Agrees-Differs :
      (n : ℕ) (s : Store)
      → Agrees chain settings provider watched enabled view steady n s
      → Differs chain settings provider watched enabled view steady n s
      → ⊥
  not-Agrees-Differs n s (inl e) (row, e', ne) = cc
  not-Agrees-Differs n s (inr (row', e', eq)) (row, e, ne) = ground arith

  -- A rollback from `n` that differs at `n` and agrees at some `t` above the checkpoint.
  RollsBack-Jumped :
      (n t : ℕ) (s : Store) (r : Result ReorgReport) (s' : Store)
      → Agrees chain settings provider watched enabled view steady t s
      → s.last_indexed_block < t
      → t ≤ n
      → n ≤ t + settings.max_reorg_depth
      → RollsBack chain settings provider watched enabled view steady n s r s'
      → Jumped s r s'
  RollsBack-Jumped n t s (done report) s' agrees lo hi near
        (le, agrees', above, moved, paid, kept) =
      elim (Bool-cases (ltb report.common_ancestor t)) [
        | inl low ↦ absurd (not-Agrees-Differs t s agrees (above t (ground arith) hi))
        | inr high ↦ (ground arith, paid)
      ]
  RollsBack-Jumped n t s (raised e) s' agrees lo hi near (deep, same, differ) =
      not-Agrees-Differs t s agrees (differ t hi near)

  some_rollback-Jumped :
      (n : ℕ) (s : Store) (w : W)
      → (let (r, s', w') = rollback chain settings provider watched enabled n s w in Jumped s r s')
      → (report : ReorgReport) × (s' : Store) × (w' : W) × (some_rollback chain settings provider
            watched enabled n s w
          ≡ (done (some report), s', w'))
        × (s.last_indexed_block < s'.last_indexed_block)
        × (s'.payments ≡ s.payments)
  unfolding some_rollback
  some_rollback-Jumped n s w j = go (rollback chain settings provider watched enabled n s w) refl j
    where
      go :
          (o : Result ReorgReport × Store × W)
          → rollback chain settings provider watched enabled n s w ≡ o
          → Jumped s o.0 o.1
          → (report : ReorgReport) × (s' : Store) × (w' : W) × (some_rollback chain settings
                provider watched enabled n s w
              ≡ (done (some report), s', w'))
            × (s.last_indexed_block < s'.last_indexed_block)
            × (s'.payments ≡ s.payments)
      go (done report, s', w') e j' = (report, s', w', ground arith, j'.0, j'.1)
      go (raised x, s', w') e j' = absurd j'

  verify_tail-differs :
      (s : Store) (w : W) (tip : StoredBlock)
      → latest_canonical_block s ≡ some tip
      → (view tip.number).hash ≢ tip.hash
      → verify_tail chain settings provider watched enabled s w
        ≡ some_rollback chain settings provider watched enabled tip.number s
            (provider.get_block tip.number w).1
  unfolding verify_tail judge_tail
  verify_tail-differs s w tip e ne = ground (arith, steady tip.number w)

  step-reorg :
      (s s' : Store) (w w' : W) (head : ℕ) (report : ReorgReport)
      → (provider.latest w).0 ≡ ok head
      → verify_tail chain settings provider watched enabled s (provider.latest w).1
        ≡ (done (some report), s', w')
      → (step chain settings provider watched enabled s w).1 ≡ s'
  unfolding step
  step-reorg s s' w w' head report h t = ground arith

  -- Against a provider that gives the same block whenever it is asked for a height, a step whose stored
  -- tip the provider denies, while a block above the checkpoint within the depth limit still agrees,
  -- raises the checkpoint and writes no payment.
  pub rollback_skips_logs :
      (s : Store) (w : W) (head : ℕ) (tip : StoredBlock) (t : ℕ)
      → (provider.latest w).0 ≡ ok head
      → latest_canonical_block s ≡ some tip
      → (view tip.number).hash ≢ tip.hash
      → Agrees chain settings provider watched enabled view steady t s
      → s.last_indexed_block < t
      → t ≤ tip.number
      → tip.number ≤ t + settings.max_reorg_depth
      → let s' = (step chain settings provider watched enabled s w).1 in
        (s.last_indexed_block < s'.last_indexed_block) × (s'.payments ≡ s.payments)
  rollback_skips_logs s w head tip t h newest denied agrees lo hi near =
      let v = (provider.get_block tip.number (provider.latest w).1).1 in
      let (report, s', w', e, moved, paid) = some_rollback-Jumped tip.number s v (
        RollsBack-Jumped tip.number t s _ _ agrees lo hi near (
          rollback-RollsBack chain settings provider watched enabled view steady tip.number s v)) in
      rw
        (step-reorg s s' w w' head report h
          (verify_tail-differs s (provider.latest w).1 tip newest denied ∙ e))
        (moved, paid)
