-- ===== src/Watcher/Traversal/Records.antt =====
-- The settings and the outcome of a step of the walk, the provider that it reads, and the helpers on
-- headers (watcher/traversal.py).
use notchstave.Common.{
  ℕ, ◌+◌, Bool, true, Option, none, some, List, [], ◌∷◌, leb, ◌==◌, if◌then◌else◌,
}
use notchstave.Watcher.Rpc.Pool.{Outcome}
use notchstave.Watcher.Store.{BlockHeader, TransferEvent}

-- The row of `chains`, its checkpoint apart.
pub record ChainConfig : Type 0 where
  pub min_confirmations : ℕ
  pub use_finalized_tag : Bool

pub record TraversalSettings : Type 0 where
  pub max_blocks_per_step : ℕ
  pub initial_lookback_blocks : ℕ
  pub max_reorg_depth : ℕ

pub record ReorgReport : Type 0 where
  pub common_ancestor : ℕ
  pub orphaned_numbers : List ℕ

pub record SyncOutcome : Type 0 where
  pub head : ℕ
  pub from_block : ℕ
  pub to_block : ℕ
  pub blocks_written : ℕ
  pub reorg : Option ReorgReport
  pub events : List TransferEvent
  pub conflicted_events : List TransferEvent

-- `SyncOutcome.payments_written` and `payments_conflicted` are the lengths of these lists.
abbrev pub no_progress : ℕ → ℕ → SyncOutcome
no_progress head checkpoint = record {
  head = head;
  from_block = checkpoint + 1;
  to_block = checkpoint;
  blocks_written = 0;
  reorg = none;
  events = [];
  conflicted_events = [];
}

abbrev pub with_reorg : ReorgReport → SyncOutcome → SyncOutcome
with_reorg r o = record o { reorg = some r; to_block = r.common_ancestor }

-- `watched` and `enabled` are the watched addresses and the assets' `is_enabled`, as loaded.
pub record Provider (W : Type 0) : Type 0 where
  pub latest : W → Outcome ℕ × W
  pub finalized : W → Outcome ℕ × W
  pub get_block : ℕ → W → Outcome BlockHeader × W
  pub transfers : ℕ → ℕ → W → Outcome (List TransferEvent) × W

-- What phase one found: a reorg, or the headers of the span, with the number of rows written.
pub record Headers : Type 0 where
  pub reorg : Option ReorgReport
  pub headers : List BlockHeader
  pub written : ℕ

abbrev pub add_header : BlockHeader → Bool → Headers → Headers
add_header h written r = record r {
  headers = h ∷ r.headers;
  written = (if written then 1 else 0) + r.written;
}

abbrev pub last_number : ℕ → List BlockHeader → ℕ
last_number n [] = n
last_number n (h ∷ hs) = last_number h.number hs

abbrev pub hash_at : ℕ → List BlockHeader → Option ℕ
hash_at n [] = none
hash_at n (h ∷ hs) =
    let later = hash_at n hs in
    elim later [ some x ↦ some x | none ↦ if h.number == n then some h.hash else none ]

-- A decoded event is dropped where the header verified at its height has another hash.
abbrev pub is_verified : List BlockHeader → TransferEvent → Bool
is_verified hs e = elim (hash_at e.block_number hs) [ none ↦ true | some x ↦ x == e.block_hash ]

unfoldable pub keep_verified : List BlockHeader → List TransferEvent → List TransferEvent
keep_verified hs [] = []
keep_verified hs (e ∷ es) =
    let rest = keep_verified hs es in if is_verified hs e then e ∷ rest else rest

abbrev insert_sorted : ℕ → List ℕ → List ℕ
insert_sorted n [] = n ∷ []
insert_sorted n (m ∷ ms) =
    let later = m ∷ insert_sorted n ms in if leb n m then n ∷ m ∷ ms else later

-- Python's `sorted`.
unfoldable pub sorted : List ℕ → List ℕ
sorted [] = []
sorted (n ∷ ns) = insert_sorted n (sorted ns)
