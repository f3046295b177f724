-- ===== src/Watcher/Rpc/Logs/Chunks.antt =====
-- The logs of a range of blocks for a list of addresses, as a plain recursion over a chain, and how
-- they divide along the blocks and along the addresses, as the chunks do.
use mathlib.Core.List.{append_assoc, perm_append_comm}
use mathlib.Core.List.Perm
use notchstave.Common.{
  ℕ, zero, suc, ◌+◌, ◌-◌, ◌≤◌, ◌<◌, min, max, ◌≡◌, refl, sym, ap, ◌∙◌, List, [], ◌∷◌, ◌++◌, arith,
  leb, ltb, length, take, drop, take-append-drop, length-drop, Bool-cases, inl, inr,
}
use mathlib.Core.List.{Perm}
use mathlib.Core.Path.{subst}
use notchstave.Watcher.Rpc.Logs.{ranges_from, chunk_ranges, groups, chunk_sequence}

module _ {Addr Log : Type 0} (chain : ℕ → Addr → List Log) where
  -- The logs of block `n` to these addresses, and those of `count` blocks from `start` on.
  unfoldable pub logs_at : ℕ → List Addr → List Log
  logs_at n [] = []
  logs_at n (a ∷ addresses) = chain n a ++ logs_at n addresses

  unfoldable pub logs_from : ℕ → ℕ → List Addr → List Log
  unfolding logs_at
  logs_from start zero addresses = []
  logs_from start (suc count) addresses =
      logs_at start addresses ++ logs_from (start + 1) count addresses

  -- The logs of the blocks from `from_block` to `to_block`, both included.
  abbrev pub logs_between : ℕ → ℕ → List Addr → List Log
  logs_between from_block to_block addresses =
      logs_from from_block (to_block + 1 - from_block) addresses

  logs_from-add :
      (start m n : ℕ) (addresses : List Addr)
      → logs_from start m addresses ++ logs_from (start + m) n addresses
        ≡ logs_from start (m + n) addresses
  unfolding logs_from
  logs_from-add start zero n addresses =
      let e : start + 0 ≡ start = omega arith in let e' : 0 + n ≡ n = omega arith in rw (e, e')
  logs_from-add start (suc m) n addresses =
      let e : start + suc m ≡ start + 1 + m = omega arith in
      let e' : suc m + n ≡ suc (m + n) = omega arith in
      rw (e, e', append_assoc)
        (ap (◌++◌ (logs_at start addresses)) (logs_from-add (start + 1) m n addresses))

  -- Two neighbouring ranges make up the whole range.
  pub logs_between-split :
      (from_block middle to_block : ℕ) (addresses : List Addr)
      → from_block ≤ middle + 1
      → middle ≤ to_block
      → logs_between from_block middle addresses ++ logs_between (middle + 1) to_block addresses
        ≡ logs_between from_block to_block addresses
  logs_between-split from_block middle to_block addresses lo hi =
      let m : middle + 1 ≡ from_block + (middle + 1 - from_block) = omega arith in
      let n : middle + 1 - from_block + (to_block + 1 - (middle + 1)) ≡ to_block + 1 - from_block =
        omega arith in
      ap
        (λ (k : ℕ).
          logs_between from_block middle addresses
          ++ logs_from k (to_block + 1 - (middle + 1)) addresses)
        m
      ∙ (logs_from-add from_block (middle + 1 - from_block) (to_block + 1 - (middle + 1)) addresses
          ∙ ap (λ (k : ℕ). logs_from from_block k addresses) n)

  logs_at-append : (n : ℕ) (xs ys : List Addr) → logs_at n (xs ++ ys) ≡ logs_at n xs ++ logs_at n ys
  unfolding logs_at
  logs_at-append n [] ys = refl
  logs_at-append n (x ∷ xs) ys = rw (append_assoc, logs_at-append n xs ys)

  shuffle : (a b c d : List Log) → Perm ((a ++ b) ++ (c ++ d)) ((a ++ c) ++ (b ++ d))
  shuffle a b c d =
      rw (append_assoc a b (c ++ d), append_assoc a c (b ++ d))
        (Perm.append_left a (
          rw (← append_assoc b c d, ← append_assoc c b d)
            (Perm.append_right d (perm_append_comm b c))))

  logs_from-append :
      (start count : ℕ) (xs ys : List Addr)
      → Perm
          (logs_from start count xs ++ logs_from start count ys)
          (logs_from start count (xs ++ ys))
  unfolding logs_from
  logs_from-append start zero xs ys = Perm.nil
  logs_from-append start (suc count) xs ys = rw (logs_at-append start xs ys) (
      Perm.trans
        (shuffle (logs_at start xs) (logs_from (start + 1) count xs) (logs_at start ys)
          (logs_from (start + 1) count ys))
        (Perm.append_left (logs_at start xs ++ logs_at start ys)
          (logs_from-append (start + 1) count xs ys)))

  -- Two groups of addresses make up the whole list, up to the order of the logs.
  pub logs_between-append :
      (from_block to_block : ℕ) (xs ys : List Addr)
      → Perm
          (logs_between from_block to_block xs ++ logs_between from_block to_block ys)
          (logs_between from_block to_block (xs ++ ys))
  logs_between-append from_block to_block xs ys =
      logs_from-append from_block (to_block + 1 - from_block) xs ys

  -- So do the first `n` addresses and the others.
  pub take_drop-Perm :
      (from_block to_block n : ℕ) (xs : List Addr)
      → Perm
          (logs_between from_block to_block (take n xs)
            ++ logs_between from_block to_block (drop n xs))
          (logs_between from_block to_block xs)
  take_drop-Perm from_block to_block n xs =
      subst
        (λ l.
          Perm
            (logs_between from_block to_block (take n xs)
              ++ logs_between from_block to_block (drop n xs))
            (logs_between from_block to_block l))
        (take-append-drop n xs) (logs_between-append from_block to_block (take n xs) (drop n xs))

  logs_from-nil : (start count : ℕ) → logs_from start count [] ≡ []
  unfolding logs_from
  logs_from-nil start zero = refl
  logs_from-nil start (suc count) = logs_from-nil (start + 1) count

  pub logs_between-nil : (from_block to_block : ℕ) → logs_between from_block to_block [] ≡ []
  logs_between-nil from_block to_block = logs_from-nil from_block (to_block + 1 - from_block)

  logs_between-empty :
      (start to_block : ℕ) (addresses : List Addr)
      → to_block < start
      → logs_between start to_block addresses ≡ []
  unfolding logs_from
  logs_between-empty start to_block addresses h =
      let e : to_block + 1 - start ≡ 0 = omega arith in rw e

  -- The logs of some ranges in turn.
  abbrev pub over_ranges : List (ℕ × ℕ) → List Addr → List Log
  over_ranges [] addresses = []
  over_ranges ((start, end) ∷ ranges) addresses =
      logs_between start end addresses ++ over_ranges ranges addresses

  ranges_from-cover :
      (fuel start to_block span : ℕ) (addresses : List Addr)
      → 1 ≤ span
      → to_block + 1 - start ≤ fuel
      → over_ranges (ranges_from fuel start to_block span) addresses
        ≡ logs_between start to_block addresses
  unfolding ranges_from
  ranges_from-cover zero start to_block span addresses pos h =
      sym (logs_between-empty start to_block addresses (omega arith))
  ranges_from-cover (suc fuel) start to_block span addresses pos h =
      elim (Bool-cases (leb start to_block)) [
        | inl in_range ↦
            let end = min (start + span - 1) to_block in
            rw in_range (
              ap (◌++◌ (logs_between start end addresses))
                (ranges_from-cover fuel (end + 1) to_block span addresses pos (ground arith))
              ∙ logs_between-split start end to_block addresses (ground arith) (omega arith))
        | inr past ↦ rw past (sym (logs_between-empty start to_block addresses (ground arith)))
      ]

  pub chunk_ranges-cover :
      (from_block to_block span : ℕ) (addresses : List Addr)
      → over_ranges (chunk_ranges from_block to_block span) addresses
        ≡ logs_between from_block to_block addresses
  unfolding chunk_ranges
  chunk_ranges-cover from_block to_block span addresses =
      elim (Bool-cases (ltb to_block from_block)) [
        | inl none_left ↦
            rw none_left (sym (logs_between-empty from_block to_block addresses (ground arith)))
        | inr some_left ↦ rw some_left (
            ranges_from-cover (to_block + 1 - from_block) from_block to_block (max span 1) addresses
              (omega arith) (omega arith))
      ]

  -- The logs of one range for some groups in turn.
  abbrev pub over_groups : ℕ → ℕ → List (List Addr) → List Log
  over_groups from_block to_block [] = []
  over_groups from_block to_block (g ∷ gs) =
      logs_between from_block to_block g ++ over_groups from_block to_block gs

  groups-cover :
      (fuel from_block to_block : ℕ) (items : List Addr) (size : ℕ)
      → 1 ≤ size
      → length items ≤ fuel
      → Perm
          (over_groups from_block to_block (groups fuel items size))
          (logs_between from_block to_block items)
  unfolding groups
  groups-cover zero from_block to_block [] size pos h =
      rw (logs_between-nil from_block to_block) Perm.nil
  groups-cover zero from_block to_block (x ∷ items) size pos h = absurd (omega arith)
  groups-cover (suc fuel) from_block to_block [] size pos h =
      rw (logs_between-nil from_block to_block) Perm.nil
  groups-cover (suc fuel) from_block to_block (x ∷ items) size pos h =
      let first = take size (x ∷ items) in
      let others = drop size (x ∷ items) in
      let ih =
        groups-cover fuel from_block to_block others size pos
          (omega (arith, length-drop size (x ∷ items))) in
      Perm.trans (Perm.append_left (logs_between from_block to_block first) ih)
        (take_drop-Perm from_block to_block size (x ∷ items))

  pub chunk_sequence-cover :
      (from_block to_block : ℕ) (items : List Addr) (size : ℕ)
      → Perm
          (over_groups from_block to_block (chunk_sequence items size))
          (logs_between from_block to_block items)
  unfolding chunk_sequence
  chunk_sequence-cover from_block to_block items size =
      groups-cover (length items) from_block to_block items (max size 1) (omega arith) (omega arith)
