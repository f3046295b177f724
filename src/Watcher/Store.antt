-- ===== src/Watcher/Store.antt =====
-- The watcher's tables (watcher/store/postgres.py, watcher/models.py), for one chain: its blocks,
-- its checkpoint, its payments, and the receive addresses that an insert of a payment reads. Hashes
-- and addresses are numbers, compared only for equality. Timestamps are not modelled.
pub mod Blocks
pub mod Payments
use notchstave.Common.{
  ℕ, ◌≡◌, Bool, true, false, not, ◌&&◌, ◌||◌, Option, none, some, List, [], ◌∷◌, ◌++◌, leb, ltb,
  ◌==◌, if◌then◌else◌,
}
use notchstave.Common.Int.{ℤ, pos, leb_ℤ, ltb_ℤ, eq_ℤ}
pub use notchstave.Enums.{BlockStatus, PaymentAnomaly}

pub record BlockHeader : Type 0 where
  pub number : ℕ
  pub hash : ℕ
  pub parent_hash : ℕ

pub record StoredBlock : Type 0 where
  pub number : ℕ
  pub hash : ℕ
  pub parent_hash : ℕ
  pub status : BlockStatus

-- `log_index` is -1 for a transfer of the native coin.
pub record TransferEvent : Type 0 where
  pub tx_hash : ℕ
  pub log_index : ℤ
  pub block_number : ℕ
  pub block_hash : ℕ
  pub address_id : ℕ
  pub asset_id : ℕ
  pub amount_raw : ℕ

pub record Payment : Type 0 where
  pub tx_hash : ℕ
  pub log_index : ℤ
  pub block_number : ℕ
  pub address_id : ℕ
  pub invoice_id : Option ℕ
  pub asset_id : ℕ
  pub amount_raw : ℕ
  pub anomaly : Option PaymentAnomaly

-- The invoice that an address is reserved for, as `LEFT JOIN invoices` finds it.
pub record Invoice : Type 0 where
  pub id : ℕ
  pub chain_id : ℕ
  pub asset_id : ℕ

-- `reserved_from_block` is 0 where the column is NULL.
pub record ReceiveAddress : Type 0 where
  pub id : ℕ
  pub reserved_from_block : ℕ
  pub invoice : Option Invoice

pub record Store : Type 0 where
  pub chain_id : ℕ
  pub last_indexed_block : ℕ
  pub blocks : List StoredBlock
  pub payments : List Payment
  pub addresses : List ReceiveAddress

abbrev pub is_orphaned : BlockStatus → Bool
is_orphaned BlockStatus.orphaned = true
is_orphaned _ = false

abbrev pub is_pending : BlockStatus → Bool
is_pending BlockStatus.pending = true
is_pending _ = false

-- `SQL_CANONICAL_BLOCK`
unfoldable pub canonical_in : ℕ → List StoredBlock → Option StoredBlock
canonical_in n [] = none
canonical_in n (b ∷ bs) =
    if (b.number == n) && not (is_orphaned b.status) then some b else canonical_in n bs

unfoldable pub canonical_block : ℕ → Store → Option StoredBlock
unfolding canonical_in
canonical_block n s = canonical_in n s.blocks

-- The higher of a block and the best of the others, for `ORDER BY number DESC LIMIT 1`.
abbrev pub higher : StoredBlock → Option StoredBlock → Option StoredBlock
higher b none = some b
higher b (some c) = if ltb b.number c.number then some c else some b

-- `SQL_LATEST_CANONICAL_BLOCK`
unfoldable pub latest_in : List StoredBlock → Option StoredBlock
latest_in [] = none
latest_in (b ∷ bs) = let best = latest_in bs in if is_orphaned b.status then best else higher b best

unfoldable pub latest_canonical_block : Store → Option StoredBlock
unfolding latest_in
latest_canonical_block s = latest_in s.blocks

abbrev pub has_hash : ℕ → List StoredBlock → Bool
has_hash h [] = false
has_hash h (b ∷ bs) = b.hash == h || has_hash h bs

abbrev pub is_some : {A : Type 0} → Option A → Bool
is_some none = false
is_some (some a) = true

-- `SQL_INSERT_BLOCK`. A known hash, of an orphaned row too, writes nothing. `none` is the
-- IntegrityError of the unique index over the canonical blocks of a height.
unfoldable pub insert_block : BlockHeader → BlockStatus → Store → Option (Bool × Store)
unfolding canonical_block
insert_block h status s =
    if has_hash h.hash s.blocks
    then some (false, s)
    else if not (is_orphaned status) && is_some (canonical_block h.number s)
    then none
    else some (true, record s { blocks = row ∷ s.blocks })
  where
    row : StoredBlock
    row = record { number = h.number; hash = h.hash; parent_hash = h.parent_hash; status = status }

-- `SQL_ORPHAN_ABOVE`: the rows after it, and the heights that it returns.
unfoldable pub orphan_above : ℕ → List StoredBlock → List StoredBlock
orphan_above n [] = []
orphan_above n (b ∷ bs) =
    (if ltb n b.number then record b { status = BlockStatus.orphaned } else b) ∷ orphan_above n bs

unfoldable pub orphaned_numbers : ℕ → List StoredBlock → List ℕ
orphaned_numbers n [] = []
orphaned_numbers n (b ∷ bs) =
    let rest = orphaned_numbers n bs in
    if ltb n b.number && not (is_orphaned b.status) then b.number ∷ rest else rest

unfoldable pub orphan_blocks_above : ℕ → Store → List ℕ × Store
unfolding orphan_above orphaned_numbers
orphan_blocks_above n s =
    (orphaned_numbers n s.blocks, record s { blocks = orphan_above n s.blocks })

-- `SQL_PROMOTE_CONFIRMED`
unfoldable pub promote_up_to : ℤ → List StoredBlock → List StoredBlock
promote_up_to n [] = []
promote_up_to n (b ∷ bs) =
    (if leb_ℤ (pos b.number) n && is_pending b.status
      then record b { status = BlockStatus.confirmed }
      else b)
    ∷ promote_up_to n bs

unfoldable pub promote_confirmed_blocks : ℤ → Store → Store
unfolding promote_up_to
promote_confirmed_blocks n s =
    if ltb_ℤ n (pos 0) then s else record s { blocks = promote_up_to n s.blocks }

unfoldable pub set_checkpoint : ℕ → Store → Store
set_checkpoint n s = record s { last_indexed_block = n }

-- The two `CASE` expressions of `SQL_INSERT_PAYMENT`, in their order.
unfoldable pub bound_invoice : Bool → ℕ → TransferEvent → ReceiveAddress → Option ℕ
bound_invoice enabled chain_id e a = elim a.invoice [
  | none ↦ none
  | some i ↦
      if enabled
        && (i.chain_id == chain_id
            && (i.asset_id == e.asset_id && leb a.reserved_from_block e.block_number))
      then some i.id
      else none
]

unfoldable pub payment_anomaly : Bool → ℕ → TransferEvent → ReceiveAddress → Option PaymentAnomaly
payment_anomaly enabled chain_id e a =
    if not enabled then some PaymentAnomaly.wrong_asset else elim a.invoice [
      | none ↦ some PaymentAnomaly.unassigned_payment
      | some i ↦
          if not (i.chain_id == chain_id)
          then some PaymentAnomaly.wrong_chain
          else if ltb e.block_number a.reserved_from_block
          then some PaymentAnomaly.orphan_payment
          else if not (i.asset_id == e.asset_id)
          then some PaymentAnomaly.wrong_asset
          else none
    ]

unfoldable pub has_payment : ℕ → ℤ → List Payment → Bool
has_payment tx index [] = false
has_payment tx index (p ∷ ps) = p.tx_hash == tx && eq_ℤ p.log_index index || has_payment tx index ps

unfoldable pub find_address : ℕ → List ReceiveAddress → Option ReceiveAddress
find_address id [] = none
find_address id (a ∷ rest) = if a.id == id then some a else find_address id rest

-- `SQL_INSERT_PAYMENT` for one event: `true` where a row was written.
unfoldable pub insert_payment : (ℕ → Bool) → TransferEvent → Store → Bool × Store
unfolding bound_invoice payment_anomaly has_payment find_address
insert_payment enabled e s = elim (find_address e.address_id s.addresses) [
  | none ↦ (false, s)
  | some a ↦ if has_payment e.tx_hash e.log_index s.payments then (false, s) else (
    true,
    record s {
      payments =
          record {
            tx_hash = e.tx_hash;
            log_index = e.log_index;
            block_number = e.block_number;
            address_id = a.id;
            invoice_id = bound_invoice (enabled e.asset_id) s.chain_id e a;
            asset_id = e.asset_id;
            amount_raw = e.amount_raw;
            anomaly = payment_anomaly (enabled e.asset_id) s.chain_id e a;
          }
          ∷ s.payments;
    },
  )
]

pub record PaymentWriteResult : Type 0 where
  pub inserted : List TransferEvent
  pub conflicted : List TransferEvent

-- The batch, in one transaction, in the order of the events.
unfoldable pub insert_payments :
    (ℕ → Bool) → List TransferEvent → Store → PaymentWriteResult × Store
unfolding insert_payment
insert_payments enabled [] s = (record { inserted = []; conflicted = [] }, s)
insert_payments enabled (e ∷ es) s =
    let (written, s') = insert_payment enabled e s in
    let (r, s'') = insert_payments enabled es s' in
    (
      if written
          then record r { inserted = e ∷ r.inserted }
          else record r { conflicted = e ∷ r.conflicted },
      s'',
    )
