-- ===== src/Watcher/Rpc/Logs.antt =====
-- Chunked and adaptive `eth_getLogs` (watcher/rpc/pool.py): the ranges of blocks, the groups of
-- addresses, and the halving on `range_too_large`. `get_logs` is one request through the pool, an
-- action on the state of the pool and the network; the contract filter and the leading topics are
-- the same in every request of a call and belong to it.
pub mod Chunks
pub mod Cases
pub mod Complete
pub mod Ends
use notchstave.Common.{
  ℕ, zero, suc, ◌+◌, ◌-◌, ◌/◌, min, max, Bool, true, false, Option, none, some, List, [], ◌∷◌, ◌++◌,
  leb, ltb, ◌==◌, if◌then◌else◌, length, take, drop,
}
use notchstave.Watcher.Rpc.Errors.{RpcError, should_split_range}
use notchstave.Watcher.Rpc.Pool.{Outcome, ok, err}

pub record ChunkPolicy : Type 0 where
  pub max_block_span : ℕ
  pub max_addresses : ℕ
  pub min_block_span : ℕ
  pub min_addresses : ℕ

-- The generator `chunk_ranges`, on fuel; `chunk_ranges` gives a round for each block.
unfoldable pub ranges_from : ℕ → ℕ → ℕ → ℕ → List (ℕ × ℕ)
ranges_from zero start to_block span = []
ranges_from (suc fuel) start to_block span =
    let end = min (start + span - 1) to_block in
    let rest = ranges_from fuel (end + 1) to_block span in
    if leb start to_block then (start, end) ∷ rest else []

unfoldable pub chunk_ranges : ℕ → ℕ → ℕ → List (ℕ × ℕ)
unfolding ranges_from
chunk_ranges from_block to_block span =
    if ltb to_block from_block
    then []
    else ranges_from (to_block + 1 - from_block) from_block to_block (max span 1)

module _ {ℓ} {A : Type ℓ} where
  -- The offsets of `chunk_sequence`, on fuel; it gives a round for each item.
  unfoldable pub groups : ℕ → List A → ℕ → List (List A)
  groups zero items size = []
  groups (suc fuel) [] size = []
  groups (suc fuel) (x ∷ items) size =
      let rest = groups fuel (drop size (x ∷ items)) size in take size (x ∷ items) ∷ rest

  unfoldable pub chunk_sequence : List A → ℕ → List (List A)
  unfolding groups
  chunk_sequence items size = groups (length items) items (max size 1)

module _ {S Addr Log : Type 0} (chunks : ChunkPolicy)
    (get_logs : ℕ → ℕ → List Addr → S → Outcome (List Log) × S) where
  abbrev pub Fetch : Type 0
  Fetch = S → Option (Outcome (List Log) × S)

  -- `left + right`, where an error of either is raised; `none` is the end of the fuel.
  abbrev pub join_right :
      List Log → Option (Outcome (List Log) × S) → Option (Outcome (List Log) × S)
  join_right left none = none
  join_right left (some (ok right, s)) = some (ok (left ++ right), s)
  join_right left (some (err e, s)) = some (err e, s)

  abbrev pub join : Option (Outcome (List Log) × S) → Fetch → Option (Outcome (List Log) × S)
  join none right = none
  join (some (ok left, s)) right = join_right left (right s)
  join (some (err e, s)) right = some (err e, s)

  -- `_get_logs_adaptive`, on fuel.
  unfoldable pub adaptive : ℕ → ℕ → ℕ → List Addr → Fetch
  adaptive zero from_block to_block addresses s = none
  adaptive (suc fuel) from_block to_block addresses s =
      let span = to_block + 1 - from_block in
      let middle = from_block + span / 2 - 1 in
      let half = length addresses / 2 in
      let by_blocks = λ (t : S).
        join (adaptive fuel from_block middle addresses t)
          (adaptive fuel (middle + 1) to_block addresses) in
      let by_addresses = λ (t : S).
        join (adaptive fuel from_block to_block (take half addresses) t)
          (adaptive fuel from_block to_block (drop half addresses)) in
      let (reply, s') = get_logs from_block to_block addresses s in
      elim reply [
        | ok logs ↦ some (ok logs, s')
        | err e ↦
            if should_split_range e
            then (if ltb chunks.min_block_span span
                then by_blocks s'
                else if ltb chunks.min_addresses (length addresses)
                then by_addresses s'
                else some (err e, s'))
            else some (err e, s')
      ]

  -- The fuel is one more than the blocks and the addresses of the request.
  unfoldable pub get_logs_adaptive : ℕ → ℕ → List Addr → Fetch
  unfolding adaptive
  get_logs_adaptive from_block to_block addresses s =
      adaptive (to_block + 1 - from_block + length addresses + 1) from_block to_block addresses s

  -- The inner loop of `get_logs_chunked`, over the ranges for one group.
  unfoldable pub collect_ranges : List (ℕ × ℕ) → List Addr → Fetch
  collect_ranges [] group s = some (ok [], s)
  collect_ranges ((start, end) ∷ ranges) group s =
      join (get_logs_adaptive start end group s) (collect_ranges ranges group)

  -- The outer loop, over the groups.
  unfoldable pub collect_groups : List (ℕ × ℕ) → List (List Addr) → Fetch
  unfolding collect_ranges
  collect_groups ranges [] s = some (ok [], s)
  collect_groups ranges (group ∷ groups) s =
      join (collect_ranges ranges group s) (collect_groups ranges groups)

  unfoldable pub get_logs_chunked : ℕ → ℕ → List Addr → Fetch
  unfolding collect_groups
  get_logs_chunked from_block to_block addresses s =
      collect_groups (chunk_ranges from_block to_block chunks.max_block_span)
        (chunk_sequence addresses chunks.max_addresses) s
