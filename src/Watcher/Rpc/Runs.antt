-- ===== src/Watcher/Rpc/Runs.antt =====
-- Runs of the pool and of the chunked fetch (watcher/rpc/pool.py) on scripted providers.
use mathlib.Core.List.{Perm}
use mathlib.Core.List.Perm
use notchstave.Common.{
  ℕ, zero, suc, ◌+◌, ◌*◌, ◌≤◌, ◌≡◌, ◌⊎◌, refl, true, some, List, [], ◌∷◌, ◌++◌, arith, length,
}
use notchstave.Watcher.Rpc.Errors.{
  RpcErrorClass, RpcError, should_failover, should_split_range, counts_as_provider_failure,
  retryable,
}
use notchstave.Watcher.Rpc.Breaker.{
  BreakerState, BreakerPolicy, CircuitBreaker, new, record_failure, allow, cooldown,
}
use notchstave.Watcher.Rpc.Breaker.Trips.{IsWaiting}
use notchstave.Watcher.Rpc.Budget.{try_spend}
use notchstave.Watcher.Rpc.Pool.{
  Outcome, ok, err, Net, RetryPolicy, ProviderSlot, failure, call_slot, run,
}
use notchstave.Watcher.Rpc.Pool.Calls.{trial_permit_leak}
use notchstave.Watcher.Rpc.Pool.Sent.{Counts}
use notchstave.Watcher.Rpc.Pool.Walk.{Walk, run-IsWalk, run-sent}
use notchstave.Watcher.Rpc.Pool.Spending.{IsForward, AllOpen, spent_all, limit_all, run-sent_budget}
use notchstave.Watcher.Rpc.Logs.{
  ChunkPolicy, get_logs_chunked, get_logs_adaptive, chunk_ranges, chunk_sequence,
}
use notchstave.Watcher.Rpc.Logs.Chunks.{logs_between, logs_from, logs_at}
use notchstave.Watcher.Rpc.Logs.Complete.{get_logs_chunked_complete}
use notchstave.Watcher.Rpc.Logs.Ends.{get_logs_chunked_returns}

-- The time, the requests sent, and the replies to come; a provider without one resets connections.
record World : Type 0 where
  time : ℕ
  sent : ℕ
  replies : List (Outcome ℕ)

abbrev next_reply : List (Outcome ℕ) → Outcome ℕ
next_reply [] = err (failure RpcErrorClass.transport)
next_reply (r ∷ rs) = r

abbrev later_replies : List (Outcome ℕ) → List (Outcome ℕ)
later_replies [] = []
later_replies (r ∷ rs) = rs

abbrev net : Net World ℕ
net = record {
  clock = λ w. w.time;
  sleep = λ d w. record w { time = w.time + d };
  uniform = λ c w. (c, w);
  send = λ p w.
      (next_reply w.replies, record w { sent = w.sent + 1; replies = later_replies w.replies });
}

abbrev retry : RetryPolicy
retry = record {
  max_attempts_per_provider = 2;
  base_delay_seconds = 1;
  max_delay_seconds = 8;
  rate_limit_delay_multiplier = 4;
}

abbrev breaker_policy : BreakerPolicy
breaker_policy = record {
  failure_threshold = 2;
  cooldown_seconds = 10;
  cooldown_backoff_factor = 2;
  max_cooldown_seconds = 60;
}

abbrev slot_of : ℕ → CircuitBreaker → ProviderSlot
slot_of n b = record {
  name = n;
  breaker = b;
  budget = record { limit = some 9; window_seconds = 60; window_start = 0; spent = 0; total = 0 };
}

abbrev first : ProviderSlot
first = slot_of 0 (new breaker_policy)

abbrev second : ProviderSlot
second = slot_of 1 (new breaker_policy)

-- Two connections reset, which spends the attempts of the first provider, and then an answer.
abbrev world : World
world = record {
  time = 1;
  sent = 0;
  replies =
      err (failure RpcErrorClass.transport) ∷ err (failure RpcErrorClass.transport) ∷ ok 42 ∷ [];
}

net-Counts : Counts net retry (λ w. w.sent)
net-Counts = record {
  sends_one = λ p w. refl;
  sleep_sends_none = λ d w. refl;
  uniform_sends_none = λ c w. refl;
}

first_call :
    ((call_slot net retry first world).0 ≡ err (failure RpcErrorClass.transport))
    × (should_failover (failure RpcErrorClass.transport) ≡ true)
unfolding call_slot new should_failover try_spend allow record_failure should_split_range retryable
    counts_as_provider_failure
first_call = (refl, refl)

run-IsWalk_example :
    Walk net retry (first ∷ second ∷ []) world (run net retry (first ∷ second ∷ []) world)
run-IsWalk_example = run-IsWalk net retry (first ∷ second ∷ []) world

net-IsForward : IsForward net retry
net-IsForward = record {
  send_forward = λ p w. omega arith;
  sleep_forward = λ d w. omega arith;
  uniform_forward = λ c w. omega arith;
}

walk_time : (run net retry (first ∷ second ∷ []) world).2.time ≡ 2
unfolding run call_slot new should_failover try_spend allow record_failure should_split_range
    retryable counts_as_provider_failure
walk_time = refl

-- Both windows are open when the walk has ended.
walk-AllOpen :
    AllOpen net retry (run net retry (first ∷ second ∷ []) world).2.time (first ∷ second ∷ [])
walk-AllOpen = rw walk_time (
  record { limited = refl; within = omega arith; open_at = omega arith },
  (record { limited = refl; within = omega arith; open_at = omega arith }, tt),
)

run-sent_budget_example :
    (run net retry (first ∷ second ∷ []) world).2.sent + spent_all net retry (first ∷ second ∷ [])
    ≤ world.sent + limit_all net retry (first ∷ second ∷ [])
run-sent_budget_example =
    run-sent_budget net retry net-IsForward (λ w. w.sent) net-Counts (first ∷ second ∷ []) world
      walk-AllOpen

run-sent_example :
    (run net retry (first ∷ second ∷ []) world).2.sent
    ≤ world.sent + length (first ∷ second ∷ []) * retry.max_attempts_per_provider
run-sent_example = run-sent net retry (λ w. w.sent) net-Counts (first ∷ second ∷ []) world

-- A slot whose breaker has tripped, the time past its cooldown, and a provider that finds the range
-- of the trial too large.
abbrev cooled : ProviderSlot
cooled = slot_of 0 (record_failure 6 7 (record_failure 5 5 (new breaker_policy)))

abbrev too_large : RpcError
too_large = failure RpcErrorClass.range_too_large

abbrev trial_world : World
trial_world = record { time = 20; sent = 0; replies = err too_large ∷ ok 42 ∷ [] }

-- The healthy provider a long time later.
abbrev later : World
later = record { time = 9000; sent = 1; replies = ok 42 ∷ [] }

cooled-opened : cooled.breaker.state ≡ BreakerState.opened
unfolding record_failure new
cooled-opened = refl

cooled-until : cooled.breaker.cooldown_until ≤ 20
unfolding record_failure new cooldown
cooled-until = omega arith

cooled-funded : (try_spend 20 1 cooled.budget).1 ≡ true
unfolding try_spend
cooled-funded = refl

too_large-splits : should_split_range too_large ≡ true
unfolding should_split_range
too_large-splits = refl

trial_permit_leak_example :
    let (reply, slot', w') = call_slot net retry cooled trial_world in
    let (reply', slot'', w'') = call_slot net retry slot' later in
    (reply ≡ err too_large)
    × ((reply' ≡ err (failure RpcErrorClass.circuit_open))
        ⊎ (reply' ≡ err (failure RpcErrorClass.budget_exhausted)))
    × (slot''.breaker ≡ slot'.breaker)
    × (w'' ≡ later)
    × IsWaiting slot''.breaker
trial_permit_leak_example =
    trial_permit_leak net retry cooled trial_world too_large later (omega arith) cooled-opened
      cooled-until cooled-funded refl too_large-splits

-- A chain with one log for each block and address, and a provider that refuses its first request
-- as too large.
abbrev one_log : ℕ → ℕ → List (ℕ × ℕ)
one_log n a = (n, a) ∷ []

abbrev get_logs : ℕ → ℕ → List ℕ → ℕ → Outcome (List (ℕ × ℕ)) × ℕ
get_logs from_block to_block addresses zero = (err too_large, 1)
get_logs from_block to_block addresses (suc n) =
    (ok (logs_between one_log from_block to_block addresses), suc (suc n))

honest :
    (from_block to_block : ℕ) (addresses : List ℕ) (s : ℕ) (logs : List (ℕ × ℕ))
    → (get_logs from_block to_block addresses s).0 ≡ ok logs
    → Perm logs (logs_between one_log from_block to_block addresses)
honest from_block to_block addresses zero logs e = cc
honest from_block to_block addresses (suc n) logs e =
    let same : logs ≡ logs_between one_log from_block to_block addresses = cc in
    rw same (Perm.refl _)

abbrev chunks : ChunkPolicy
chunks = record { max_block_span = 3; max_addresses = 2; min_block_span = 1; min_addresses = 1 }

-- Two ranges; the first is halved.
abbrev fetched : List (ℕ × ℕ)
fetched =
    logs_between one_log 10 10 (1 ∷ 2 ∷ [])
    ++ (logs_between one_log 11 12 (1 ∷ 2 ∷ []) ++ logs_between one_log 13 14 (1 ∷ 2 ∷ []))

fetch : get_logs_chunked chunks get_logs 10 14 (1 ∷ 2 ∷ []) 0 ≡ some (ok fetched, 4)
unfolding get_logs_chunked should_split_range chunk_sequence chunk_ranges get_logs_adaptive
    logs_from logs_at
fetch = refl

get_logs_chunked_complete_example : Perm fetched (logs_between one_log 10 14 (1 ∷ 2 ∷ []))
get_logs_chunked_complete_example =
    get_logs_chunked_complete chunks get_logs one_log honest 10 14 (1 ∷ 2 ∷ []) 0 4 fetched
      (omega arith) fetch

get_logs_chunked_returns_example :
    (r : Outcome (List (ℕ × ℕ)) × ℕ) × (get_logs_chunked chunks get_logs 10 14 (1 ∷ 2 ∷ []) 0
      ≡ some r)
get_logs_chunked_returns_example =
    get_logs_chunked_returns chunks get_logs 10 14 (1 ∷ 2 ∷ []) 0 (omega arith) (omega arith)
