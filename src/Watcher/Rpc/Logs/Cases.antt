-- ===== src/Watcher/Rpc/Logs/Cases.antt =====
-- The ways in which one request of `_get_logs_adaptive` (watcher/rpc/pool.py) goes on.
use notchstave.Common.{
  ℕ, suc, ◌+◌, ◌-◌, ◌/◌, ◌≤◌, ◌<◌, ◌≡◌, refl, Option, some, List, arith, ltb, length, take, drop,
  Bool-cases, inl, inr,
}
use notchstave.Watcher.Rpc.Errors.{RpcError, should_split_range}
use notchstave.Watcher.Rpc.Pool.{Outcome, ok, err}
use notchstave.Watcher.Rpc.Logs.{ChunkPolicy, join, adaptive}

module _ {S Addr Log : Type 0} (chunks : ChunkPolicy)
    (get_logs : ℕ → ℕ → List Addr → S → Outcome (List Log) × S) where
  -- The ways in which one request of the adaptive loop goes on.
  pub adaptive_cases {ℓ} :
      (P : Option (Outcome (List Log) × S) → Type ℓ) (fuel from_block to_block : ℕ)
      (addresses : List Addr) (s : S)
      → let span = to_block + 1 - from_block in
        let middle = from_block + span / 2 - 1 in
        let half = length addresses / 2 in
        let s' = (get_logs from_block to_block addresses s).1 in
        ((logs : List Log)
          → (get_logs from_block to_block addresses s).0 ≡ ok logs
          → P (some (ok logs, s')))
        → ((e : RpcError)
            → (get_logs from_block to_block addresses s).0 ≡ err e
            → P (some (err e, s')))
        → (chunks.min_block_span < span
            → P (
                join chunks get_logs
                  (adaptive chunks get_logs fuel from_block middle addresses s')
                  (adaptive chunks get_logs fuel (middle + 1) to_block addresses)))
        → (span ≤ chunks.min_block_span
            → chunks.min_addresses < length addresses
            → P (
                join chunks get_logs
                  (adaptive chunks get_logs fuel from_block to_block (take half addresses) s')
                  (adaptive chunks get_logs fuel from_block to_block (drop half addresses))))
        → P (adaptive chunks get_logs (suc fuel) from_block to_block addresses s)
  unfolding adaptive
  adaptive_cases P fuel from_block to_block addresses s answered raised by_blocks by_addresses =
      go (get_logs from_block to_block addresses s).0 refl
    where
      go :
          (o : Outcome (List Log))
          → (get_logs from_block to_block addresses s).0 ≡ o
          → P (adaptive chunks get_logs (suc fuel) from_block to_block addresses s)
      go (ok logs) r = rw (r, adaptive) (answered logs r)
      go (err e) r = elim (Bool-cases (should_split_range e)) [
        | inr f ↦ rw (r, adaptive) (rw f (raised e r))
        | inl f ↦ elim (Bool-cases (ltb chunks.min_block_span (to_block + 1 - from_block))) [
          | inl b ↦ rw (r, adaptive) (rw (f, b) (by_blocks (ground arith)))
          | inr b ↦ elim (Bool-cases (ltb chunks.min_addresses (length addresses))) [
            | inl a ↦ rw (r, adaptive) (rw (f, b, a) (by_addresses (ground arith) (ground arith)))
            | inr a ↦ rw (r, adaptive) (rw (f, b, a) (raised e r))
          ]
        ]
      ]
