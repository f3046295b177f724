-- ===== src/Watcher/Traversal/Ancestor.antt =====
-- The rollback, against a provider that gives the same block whenever it is asked for a height.
use notchstave.Common.{
  Option-cases, ℕ, zero, suc, ◌+◌, ◌≤◌, ◌<◌, ◌≡◌, ◌≢◌, refl, ◌⊎◌, inl, inr, Bool, true, false,
  Option, none, some, List, arith, ltb, ◌==◌, if◌then◌else◌, Bool-cases,
}
use notchstave.Watcher.Rpc.Pool.{ok}
use notchstave.Watcher.Store.{
  BlockHeader, StoredBlock, Store, canonical_block, orphan_blocks_above, set_checkpoint,
}
use notchstave.Watcher.Store.Blocks.{canonical_block-orphan_blocks_above}
use notchstave.Watcher.Traversal.{
  ChainConfig, TraversalSettings, ReorgReport, Provider, Result, done, raised, reorg_too_deep,
  find_ancestor, finish_rollback, rollback, ◌>>=◌,
}

module _ {W : Type 0} (chain : ChainConfig) (settings : TraversalSettings) (provider : Provider W)
    (watched : List ℕ) (enabled : ℕ → Bool) (view : ℕ → BlockHeader)
    (steady : (n : ℕ) (w : W) → (provider.get_block n w).0 ≡ ok (view n)) where
  -- Nothing is stored at the height, or what is stored has the provider's hash.
  abbrev pub Agrees : ℕ → Store → Type 0
  Agrees n s =
      (canonical_block n s ≡ none)
      ⊎ ((row : StoredBlock) × (canonical_block n s ≡ some row) × ((view n).hash ≡ row.hash))

  abbrev pub Differs : ℕ → Store → Type 0
  Differs n s = (row : StoredBlock) × (canonical_block n s ≡ some row) × ((view n).hash ≢ row.hash)

  abbrev FindsAncestor : ℕ → ℕ → Store → Result (Option ℕ) → Type 0
  FindsAncestor rounds n s (done (some a)) =
      (a ≤ n) × Agrees a s × ((m : ℕ) → a < m → m ≤ n → Differs m s)
  FindsAncestor rounds n s (done none) = (m : ℕ) → m ≤ n → n < m + rounds → Differs m s
  FindsAncestor rounds n s (raised e) = ⊥

  -- One round lower: the height itself differs, too.
  FindsAncestor-suc :
      (rounds n : ℕ) (s : Store) (r : Result (Option ℕ))
      → Differs (suc n) s
      → FindsAncestor rounds n s r
      → FindsAncestor (suc rounds) (suc n) s r
  FindsAncestor-suc rounds n s (done (some a)) d (le, agrees, above) = (
    omega arith,
    agrees,
    λ m lo hi. elim (Bool-cases (m == suc n)) [
      | inl e ↦ let e' : m ≡ suc n = ground arith in rw e' d
      | inr e ↦ above m lo (ground arith)
    ],
  )
  FindsAncestor-suc rounds n s (done none) d below = λ m hi lo. elim (Bool-cases (m == suc n)) [
    | inl e ↦ let e' : m ≡ suc n = ground arith in rw e' d
    | inr e ↦ below m (ground arith) (omega arith)
  ]
  FindsAncestor-suc rounds n s (raised e) d h = h

  Differs-top :
      (s : Store) (row : StoredBlock) (n : ℕ)
      → canonical_block n s ≡ some row
      → ((view n).hash == row.hash) ≡ false
      → Differs n s
  Differs-top s row n stored ne = (row, stored, ground arith)

  -- The world once the height has been asked for.
  abbrev asked : ℕ → W → W
  asked n w = (provider.get_block n w).1

  find_ancestor-missing :
      (rounds n : ℕ) (s : Store) (w : W)
      → canonical_block n s ≡ none
      → find_ancestor chain settings provider watched enabled (suc rounds) n s w
        ≡ (done (some n), s, w)
  unfolding find_ancestor
  find_ancestor-missing rounds n s w e = ground arith

  find_ancestor-equal :
      (rounds n : ℕ) (s : Store) (w : W) (row : StoredBlock)
      → canonical_block n s ≡ some row
      → ((view n).hash == row.hash) ≡ true
      → find_ancestor chain settings provider watched enabled (suc rounds) n s w
        ≡ (done (some n), s, asked n w)
  unfolding find_ancestor
  find_ancestor-equal rounds n s w row e h = ground (arith, steady n w)

  find_ancestor-bottom :
      (rounds : ℕ) (s : Store) (w : W) (row : StoredBlock)
      → canonical_block 0 s ≡ some row
      → ((view 0).hash == row.hash) ≡ false
      → find_ancestor chain settings provider watched enabled (suc rounds) 0 s w
        ≡ (done none, s, asked 0 w)
  unfolding find_ancestor
  find_ancestor-bottom rounds s w row e h = ground (arith, steady 0 w)

  find_ancestor-lower :
      (rounds n : ℕ) (s : Store) (w : W) (row : StoredBlock)
      → canonical_block (suc n) s ≡ some row
      → ((view (suc n)).hash == row.hash) ≡ false
      → find_ancestor chain settings provider watched enabled (suc rounds) (suc n) s w
        ≡ find_ancestor chain settings provider watched enabled rounds n s (asked (suc n) w)
  unfolding find_ancestor
  find_ancestor-lower rounds n s w row e h = ground (arith, steady (suc n) w)

  find_ancestor-Finds :
      (rounds n : ℕ) (s : Store) (w : W)
      → let (r, s', w') = find_ancestor chain settings provider watched enabled rounds n s w in
        FindsAncestor rounds n s r × (s' ≡ s)
  find_ancestor-Finds zero n s w = unfold find_ancestor in (λ m hi lo. absurd (omega arith), refl)
  find_ancestor-Finds (suc rounds) zero s w = elim (Option-cases (canonical_block 0 s)) [
    | inl e ↦
        rw (find_ancestor-missing rounds 0 s w e)
          ((omega arith, inl e, λ m lo hi. absurd (omega arith)), refl)
    | inr (row, e) ↦ elim (Bool-cases ((view 0).hash == row.hash)) [
      | inl h ↦
          rw (find_ancestor-equal rounds 0 s w row e h)
            ((omega arith, inr (row, e, ground arith), λ m lo hi. absurd (omega arith)), refl)
      | inr h ↦
          rw (find_ancestor-bottom rounds s w row e h)
            (λ m hi lo. let z : m ≡ 0 = omega arith in rw z (Differs-top s row 0 e h), refl)
    ]
  ]
  find_ancestor-Finds (suc rounds) (suc n) s w = elim (Option-cases (canonical_block (suc n) s)) [
    | inl e ↦
        rw (find_ancestor-missing rounds (suc n) s w e)
          ((omega arith, inl e, λ m lo hi. absurd (omega arith)), refl)
    | inr (row, e) ↦ elim (Bool-cases ((view (suc n)).hash == row.hash)) [
      | inl h ↦
          rw (find_ancestor-equal rounds (suc n) s w row e h)
            ((omega arith, inr (row, e, ground arith), λ m lo hi. absurd (omega arith)), refl)
      | inr h ↦
          let (found, same) = find_ancestor-Finds rounds n s (asked (suc n) w) in
          rw (find_ancestor-lower rounds n s w row e h)
            (FindsAncestor-suc rounds n s _ (Differs-top s row (suc n) e h) found, same)
    ]
  ]

  -- How a rollback from height `n` ends, and the tables that it leaves.
  abbrev pub RollsBack : ℕ → Store → Result ReorgReport → Store → Type 0
  RollsBack n s (done report) s' =
      let a = report.common_ancestor in
      (a ≤ n)
      × Agrees a s
      × ((m : ℕ) → a < m → m ≤ n → Differs m s)
      × (s'.last_indexed_block ≡ a)
      × (s'.payments ≡ s.payments)
      × ((k : ℕ) → canonical_block k s' ≡ (if ltb a k then none else canonical_block k s))
  RollsBack n s (raised e) s' =
      (e ≡ reorg_too_deep)
      × (s' ≡ s)
      × ((m : ℕ) → m ≤ n → n ≤ m + settings.max_reorg_depth → Differs m s)

  finish-RollsBack :
      (n : ℕ) (s : Store) (w : W) (r : Option ℕ)
      → FindsAncestor (settings.max_reorg_depth + 1) n s (done r)
      → let (r', s', w') = finish_rollback chain settings provider watched enabled r s w in
        RollsBack n s r' s'
  unfolding finish_rollback orphan_blocks_above set_checkpoint canonical_block
  finish-RollsBack n s w none below = (refl, refl, λ m hi lo. below m hi (omega arith))
  finish-RollsBack n s w (some a) (le, agrees, above) =
      (le, agrees, above, refl, refl, λ k. canonical_block-orphan_blocks_above a k s)

  bind-RollsBack :
      (n : ℕ) (s : Store) (r : Result (Option ℕ)) (s' : Store) (w' : W)
      → FindsAncestor (settings.max_reorg_depth + 1) n s r
      → s' ≡ s
      → let (r'', s'', w'') =
          ◌>>=◌
            (λ (t : Store) (v : W). (r, s', w'))
            (finish_rollback chain settings provider watched enabled)
            s
            w' in
        RollsBack n s r'' s''
  bind-RollsBack n s (done a) s' w' found same = rw same (finish-RollsBack n s w' a found)
  bind-RollsBack n s (raised e) s' w' found same = absurd found

  -- Against a provider that gives the same block whenever it is asked for a height, a rollback
  -- stops at the highest height, from its start down, where nothing is stored or the stored hash is
  -- the provider's, makes it the checkpoint, orphans exactly what is above it, and touches no
  -- payment. It raises `ReorgTooDeep` only where every height down to the depth limit differs, and
  -- then changes nothing.
  pub rollback-RollsBack :
      (n : ℕ) (s : Store) (w : W)
      → let (r, s', w') = rollback chain settings provider watched enabled n s w in
        RollsBack n s r s'
  unfolding rollback
  rollback-RollsBack n s w =
      let (found, same) = find_ancestor-Finds (settings.max_reorg_depth + 1) n s w in
      bind-RollsBack n s
        (find_ancestor chain settings provider watched enabled (settings.max_reorg_depth + 1) n s
          w).0
        _ _ found same
