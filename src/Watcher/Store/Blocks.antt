-- ===== src/Watcher/Store/Blocks.antt =====
-- The blocks table: one canonical row for a height, and what the writes do to the canonical rows.
use notchstave.Common.{
  ℕ, ◌≡◌, refl, ◌⊎◌, Bool, true, false, Option, none, some, List, [], ◌∷◌, arith, ltb,
  if◌then◌else◌,
}
use notchstave.Common.Int.{ℤ}
use notchstave.Watcher.Store.{
  BlockStatus, BlockHeader, StoredBlock, Store, is_orphaned, has_hash, canonical_in,
  canonical_block, insert_block, orphan_above, orphan_blocks_above, promote_up_to,
  promote_confirmed_blocks,
}

-- At most one row that is not orphaned for each height, and one row for each hash.
abbrev pub IsTable : List StoredBlock → Type 0
IsTable [] = Unit
IsTable (b ∷ bs) =
    (has_hash b.hash bs ≡ false)
    × ((is_orphaned b.status ≡ true) ⊎ (canonical_in b.number bs ≡ none))
    × IsTable bs

pub insert_block-IsTable :
    (h : BlockHeader) (status : BlockStatus) (s s' : Store) (written : Bool)
    → IsTable s.blocks
    → insert_block h status s ≡ some (written, s')
    → IsTable s'.blocks
unfolding insert_block
insert_block-IsTable h status s s' written t e = ground arith

canonical_in-orphan_above :
    (n k : ℕ) (bs : List StoredBlock)
    → canonical_in k (orphan_above n bs) ≡ (if ltb n k then none else canonical_in k bs)
unfolding canonical_in orphan_above
canonical_in-orphan_above n k [] = ground arith
canonical_in-orphan_above n k (b ∷ bs) = ground (arith, canonical_in-orphan_above n k bs)

-- After orphaning above a height no block above it is canonical, and the canonical blocks up to it
-- are those that were.
pub canonical_block-orphan_blocks_above :
    (n k : ℕ) (s : Store)
    → canonical_block k (orphan_blocks_above n s).1
      ≡ (if ltb n k then none else canonical_block k s)
unfolding canonical_block orphan_blocks_above
canonical_block-orphan_blocks_above n k s = canonical_in-orphan_above n k s.blocks

pub has_hash-orphan_above :
    (n h : ℕ) (bs : List StoredBlock) → has_hash h (orphan_above n bs) ≡ has_hash h bs
unfolding orphan_above
has_hash-orphan_above n h [] = refl
has_hash-orphan_above n h (b ∷ bs) = ground (arith, has_hash-orphan_above n h bs)

pub orphan_above-IsTable :
    (n : ℕ) (bs : List StoredBlock) → IsTable bs → IsTable (orphan_above n bs)
unfolding orphan_above
orphan_above-IsTable n [] t = tt
orphan_above-IsTable n (b ∷ bs) t = ground (
  arith,
  orphan_above-IsTable n bs t.2,
  has_hash-orphan_above n b.hash bs,
  canonical_in-orphan_above n b.number bs,
)

pub has_hash-promote_up_to :
    (n : ℤ) (h : ℕ) (bs : List StoredBlock) → has_hash h (promote_up_to n bs) ≡ has_hash h bs
unfolding promote_up_to
has_hash-promote_up_to n h [] = refl
has_hash-promote_up_to n h (b ∷ bs) = ground (arith, has_hash-promote_up_to n h bs)

pub canonical_in-promote_up_to :
    (n : ℤ) (k : ℕ) (bs : List StoredBlock)
    → canonical_in k bs ≡ none
    → canonical_in k (promote_up_to n bs) ≡ none
unfolding canonical_in promote_up_to
canonical_in-promote_up_to n k [] e = refl
canonical_in-promote_up_to n k (b ∷ bs) e = ground (arith, canonical_in-promote_up_to n k bs)

pub promote_up_to-IsTable :
    (n : ℤ) (bs : List StoredBlock) → IsTable bs → IsTable (promote_up_to n bs)
unfolding promote_up_to
promote_up_to-IsTable n [] t = tt
promote_up_to-IsTable n (b ∷ bs) t = ground (
  arith,
  promote_up_to-IsTable n bs t.2,
  has_hash-promote_up_to n b.hash bs,
  canonical_in-promote_up_to n b.number bs,
)

-- A write to the blocks table.
pub data Write : Type 0 where
  inserts : BlockHeader → BlockStatus → Write
  orphans : ℕ → Write
  promotes : ℤ → Write

abbrev pub after_insert : Store → Option (Bool × Store) → Store
after_insert s none = s
after_insert s (some (written, s')) = s'

pub write : Write → Store → Store
write (inserts h status) s = after_insert s (insert_block h status s)
write (orphans n) s = (orphan_blocks_above n s).1
write (promotes n) s = promote_confirmed_blocks n s

-- Every write, one refused by the index included, keeps one row for each hash and at most one
-- canonical row for each height.
pub write-IsTable : (c : Write) (s : Store) → IsTable s.blocks → IsTable (write c s).blocks
unfolding write orphan_blocks_above promote_confirmed_blocks
write-IsTable (inserts h status) s t = go (insert_block h status s) refl
  where
    go :
        (o : Option (Bool × Store))
        → insert_block h status s ≡ o
        → IsTable (after_insert s o).blocks
    go none e = t
    go (some (written, s')) e = insert_block-IsTable h status s s' written t e
write-IsTable (orphans n) s t = orphan_above-IsTable n s.blocks t
write-IsTable (promotes n) s t = ground (arith, promote_up_to-IsTable n s.blocks t)
