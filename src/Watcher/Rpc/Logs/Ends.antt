-- ===== src/Watcher/Rpc/Logs/Ends.antt =====
-- The splitting of `get_logs_chunked` (watcher/rpc/pool.py) ends on the fuel that it is given.
use notchstave.Common.{
  ℕ, zero, suc, ◌+◌, ◌-◌, ◌/◌, ◌≤◌, ◌<◌, ◌≡◌, refl, Option, none, some, List, [], ◌∷◌, arith,
  length, take, drop, length-take, length-drop,
}
use notchstave.Watcher.Rpc.Pool.{Outcome, ok, err}
use notchstave.Watcher.Rpc.Logs.{
  ChunkPolicy, join, join_right, adaptive, get_logs_adaptive, collect_ranges, collect_groups,
  get_logs_chunked, chunk_ranges, chunk_sequence,
}
use notchstave.Watcher.Rpc.Logs.Cases.{adaptive_cases}

module _ {S Addr Log : Type 0} (chunks : ChunkPolicy)
    (get_logs : ℕ → ℕ → List Addr → S → Outcome (List Log) × S) where
  -- The end of the fuel is not reached.
  abbrev Ends : Option (Outcome (List Log) × S) → Type 0
  Ends none = ⊥
  Ends (some r) = Unit

  Ends-join_right :
      (left : List Log) (r : Option (Outcome (List Log) × S))
      → Ends r
      → Ends (join_right chunks get_logs left r)
  Ends-join_right left none h = h
  Ends-join_right left (some (ok logs, s)) h = tt
  Ends-join_right left (some (err e, s)) h = tt

  Ends-join :
      (r : Option (Outcome (List Log) × S)) (right : S → Option (Outcome (List Log) × S))
      → Ends r
      → ((s : S) → Ends (right s))
      → Ends (join chunks get_logs r right)
  Ends-join none right h k = h
  Ends-join (some (ok left, s)) right h k = Ends-join_right left (right s) (k s)
  Ends-join (some (err e, s)) right h k = tt

  Ends-some :
      (r : Option (Outcome (List Log) × S)) → Ends r → (x : Outcome (List Log) × S) × (r ≡ some x)
  Ends-some none h = absurd h
  Ends-some (some x) h = (x, refl)

  -- Each split makes the blocks or the addresses fewer.
  adaptive-Ends :
      (fuel from_block to_block : ℕ) (addresses : List Addr) (s : S)
      → 1 ≤ chunks.min_block_span
      → 1 ≤ chunks.min_addresses
      → to_block + 1 - from_block + length addresses < fuel
      → Ends (adaptive chunks get_logs fuel from_block to_block addresses s)
  adaptive-Ends zero from_block to_block addresses s mb ma h = elim h [ ]
  adaptive-Ends (suc fuel) from_block to_block addresses s mb ma h =
      let half = length addresses / 2 in
      adaptive_cases chunks get_logs Ends fuel from_block to_block addresses s (λ _ _. tt)
        (λ _ _. tt)
        (λ wide.
          Ends-join _ _
            (adaptive-Ends fuel from_block (from_block + (to_block + 1 - from_block) / 2 - 1)
              addresses _ mb ma (omega arith))
            (λ t.
              adaptive-Ends fuel (from_block + (to_block + 1 - from_block) / 2 - 1 + 1) to_block
                addresses t mb ma (omega arith)))
        (λ narrow many.
          Ends-join _ _
            (adaptive-Ends fuel from_block to_block (take half addresses) _ mb ma
              (omega (arith, length-take half addresses)))
            (λ t.
              adaptive-Ends fuel from_block to_block (drop half addresses) t mb ma
                (omega (arith, length-drop half addresses))))

  collect_ranges-Ends :
      (ranges : List (ℕ × ℕ)) (group : List Addr) (s : S)
      → 1 ≤ chunks.min_block_span
      → 1 ≤ chunks.min_addresses
      → Ends (collect_ranges chunks get_logs ranges group s)
  unfolding collect_ranges get_logs_adaptive
  collect_ranges-Ends [] group s mb ma = tt
  collect_ranges-Ends ((start, end) ∷ ranges) group s mb ma =
      Ends-join _ _
        (adaptive-Ends (end + 1 - start + length group + 1) start end group s mb ma (omega arith))
        (λ t. collect_ranges-Ends ranges group t mb ma)

  collect_groups-Ends :
      (ranges : List (ℕ × ℕ)) (groups : List (List Addr)) (s : S)
      → 1 ≤ chunks.min_block_span
      → 1 ≤ chunks.min_addresses
      → Ends (collect_groups chunks get_logs ranges groups s)
  unfolding collect_groups
  collect_groups-Ends ranges [] s mb ma = tt
  collect_groups-Ends ranges (group ∷ groups) s mb ma =
      Ends-join _ _ (collect_ranges-Ends ranges group s mb ma)
        (λ t. collect_groups-Ends ranges groups t mb ma)

  -- With floors of one block and one address or more, the splitting ends, whatever the provider
  -- answers: the fetch returns logs or an error.
  pub get_logs_chunked_returns :
      (from_block to_block : ℕ) (addresses : List Addr) (s : S)
      → 1 ≤ chunks.min_block_span
      → 1 ≤ chunks.min_addresses
      → (r : Outcome (List Log) × S) × (get_logs_chunked chunks get_logs from_block to_block
            addresses s
          ≡ some r)
  unfolding get_logs_chunked
  get_logs_chunked_returns from_block to_block addresses s mb ma = Ends-some _ (
      collect_groups-Ends (chunk_ranges from_block to_block chunks.max_block_span)
        (chunk_sequence addresses chunks.max_addresses) s mb ma)
