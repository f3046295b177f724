-- ===== src/Watcher/Rpc/Logs/Complete.antt =====
-- `get_logs_chunked` (watcher/rpc/pool.py) returns every log of the range once, whatever the
-- splitting.
use mathlib.Core.List.{Perm}
use mathlib.Core.List.Perm
use mathlib.Core.Path.{subst}
use notchstave.Common.{
  ℕ, zero, suc, ◌+◌, ◌-◌, ◌/◌, ◌≤◌, ◌≡◌, Option, none, some, List, [], ◌∷◌, ◌++◌, arith, length,
  take, drop,
}
use notchstave.Watcher.Rpc.Pool.{Outcome, ok, err}
use notchstave.Watcher.Rpc.Logs.{
  ChunkPolicy, join, join_right, adaptive, get_logs_adaptive, collect_ranges, collect_groups,
  get_logs_chunked, chunk_ranges, chunk_sequence,
}
use notchstave.Watcher.Rpc.Logs.Chunks.{
  logs_between, take_drop-Perm, logs_between-split, over_ranges, over_groups, chunk_ranges-cover,
  chunk_sequence-cover,
}
use notchstave.Watcher.Rpc.Logs.Cases.{adaptive_cases}

module _ {S Addr Log : Type 0} (chunks : ChunkPolicy)
    (get_logs : ℕ → ℕ → List Addr → S → Outcome (List Log) × S) where
  -- A successful result holds these logs, up to their order.
  abbrev Holds : List Log → Option (Outcome (List Log) × S) → Type 0
  Holds spec none = Unit
  Holds spec (some (ok logs, s)) = Perm logs spec
  Holds spec (some (err e, s)) = Unit

  Holds-Perm :
      (spec spec' : List Log) (r : Option (Outcome (List Log) × S))
      → Perm spec spec'
      → Holds spec r
      → Holds spec' r
  Holds-Perm spec spec' none p h = tt
  Holds-Perm spec spec' (some (ok logs, s)) p h = Perm.trans h p
  Holds-Perm spec spec' (some (err e, s)) p h = tt

  Holds-join_right :
      (left spec spec' : List Log) (r : Option (Outcome (List Log) × S))
      → Perm left spec
      → Holds spec' r
      → Holds (spec ++ spec') (join_right chunks get_logs left r)
  Holds-join_right left spec spec' none p h = tt
  Holds-join_right left spec spec' (some (ok logs, s)) p h = Perm.append p h
  Holds-join_right left spec spec' (some (err e, s)) p h = tt

  Holds-join :
      (spec spec' : List Log) (r : Option (Outcome (List Log) × S))
      (right : S → Option (Outcome (List Log) × S))
      → Holds spec r
      → ((s : S) → Holds spec' (right s))
      → Holds (spec ++ spec') (join chunks get_logs r right)
  Holds-join spec spec' none right h k = tt
  Holds-join spec spec' (some (ok left, s)) right h k =
      Holds-join_right left spec spec' (right s) h (k s)
  Holds-join spec spec' (some (err e, s)) right h k = tt

  module _ (chain : ℕ → Addr → List Log)
      (honest : (from_block to_block : ℕ) (addresses : List Addr) (s : S) (logs : List Log)
        → (get_logs from_block to_block addresses s).0 ≡ ok logs
        → Perm logs (logs_between chain from_block to_block addresses)) where
    adaptive-Holds :
        (fuel from_block to_block : ℕ) (addresses : List Addr) (s : S)
        → 1 ≤ chunks.min_block_span
        → Holds
            (logs_between chain from_block to_block addresses)
            (adaptive chunks get_logs fuel from_block to_block addresses s)
    adaptive-Holds zero from_block to_block addresses s mb = unfold adaptive in tt
    adaptive-Holds (suc fuel) from_block to_block addresses s mb =
        let middle = from_block + (to_block + 1 - from_block) / 2 - 1 in
        let half = length addresses / 2 in
        let spec = logs_between chain from_block to_block addresses in
        adaptive_cases chunks get_logs (Holds spec) fuel from_block to_block addresses s
          (λ logs r. honest from_block to_block addresses s logs r) (λ _ _. tt)
          (λ wide.
            Holds-Perm
              (logs_between chain from_block middle addresses
                ++ logs_between chain (middle + 1) to_block addresses)
              spec _
              (rw
                (logs_between-split chain from_block middle to_block addresses (omega arith)
                  (omega arith))
                (Perm.refl spec))
              (Holds-join _ _ _ _ (adaptive-Holds fuel from_block middle addresses _ mb)
                (λ t. adaptive-Holds fuel (middle + 1) to_block addresses t mb)))
          (λ narrow many.
            Holds-Perm
              (logs_between chain from_block to_block (take half addresses)
                ++ logs_between chain from_block to_block (drop half addresses))
              spec _ (take_drop-Perm chain from_block to_block half addresses)
              (Holds-join _ _ _ _
                (adaptive-Holds fuel from_block to_block (take half addresses) _ mb)
                (λ t. adaptive-Holds fuel from_block to_block (drop half addresses) t mb)))

    collect_ranges-Holds :
        (ranges : List (ℕ × ℕ)) (group : List Addr) (s : S)
        → 1 ≤ chunks.min_block_span
        → Holds (over_ranges chain ranges group) (collect_ranges chunks get_logs ranges group s)
    unfolding collect_ranges get_logs_adaptive
    collect_ranges-Holds [] group s mb = Perm.nil
    collect_ranges-Holds ((start, end) ∷ ranges) group s mb =
        Holds-join (logs_between chain start end group) (over_ranges chain ranges group) _ _
          (adaptive-Holds (end + 1 - start + length group + 1) start end group s mb)
          (λ t. collect_ranges-Holds ranges group t mb)

    collect_groups-Holds :
        (from_block to_block : ℕ) (groups : List (List Addr)) (s : S)
        → 1 ≤ chunks.min_block_span
        → Holds (over_groups chain from_block to_block groups) (
            collect_groups chunks get_logs
              (chunk_ranges from_block to_block chunks.max_block_span)
              groups
              s)
    unfolding collect_groups
    collect_groups-Holds from_block to_block [] s mb = Perm.nil
    collect_groups-Holds from_block to_block (group ∷ groups) s mb =
        let ranges = chunk_ranges from_block to_block chunks.max_block_span in
        Holds-join (logs_between chain from_block to_block group)
          (over_groups chain from_block to_block groups) _ _
          (subst (λ l. Holds l (collect_ranges chunks get_logs ranges group s))
            (chunk_ranges-cover chain from_block to_block chunks.max_block_span group)
            (collect_ranges-Holds ranges group s mb))
          (λ t. collect_groups-Holds from_block to_block groups t mb)

    chunked-Holds :
        (from_block to_block : ℕ) (addresses : List Addr) (s : S)
        → 1 ≤ chunks.min_block_span
        → Holds
            (logs_between chain from_block to_block addresses)
            (get_logs_chunked chunks get_logs from_block to_block addresses s)
    unfolding get_logs_chunked
    chunked-Holds from_block to_block addresses s mb =
        Holds-Perm _ _ _
          (chunk_sequence-cover chain from_block to_block addresses chunks.max_addresses)
          (collect_groups-Holds from_block to_block (chunk_sequence addresses chunks.max_addresses)
            s mb)

    -- Where every request that succeeds is answered by exactly the logs of its range and addresses,
    -- and the smallest span is a block or more, a chunked fetch that succeeds returns the logs of the
    -- whole range for all the addresses, each as often as it stands on the chain, up to their order,
    -- however the range and the addresses were split.
    pub get_logs_chunked_complete :
        (from_block to_block : ℕ) (addresses : List Addr) (s s' : S) (logs : List Log)
        → 1 ≤ chunks.min_block_span
        → get_logs_chunked chunks get_logs from_block to_block addresses s ≡ some (ok logs, s')
        → Perm logs (logs_between chain from_block to_block addresses)
    get_logs_chunked_complete from_block to_block addresses s s' logs mb returned =
        subst (Holds (logs_between chain from_block to_block addresses)) returned
          (chunked-Holds from_block to_block addresses s mb)
