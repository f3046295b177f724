-- ===== src/Settler/Ledger/Payments.antt =====
-- The statements on `payments` and `blocks` (settler/repository.py): the settled total, the two
-- compare-and-sets, the finalized head, and the rollback of orphaned heights.
use notchstave.Common.{
  ℕ, ◌+◌, max, Bool, true, false, not, ◌&&◌, Option, none, some, List, [], ◌∷◌, ◌==◌, if◌then◌else◌,
}
use notchstave.Common.Int.{ℤ, pos, leb_ℤ}
use notchstave.Common.Rows.{find, update}
use notchstave.Enums.{BlockStatus, PaymentStatus, is_creditable, is_arrived, counts}
use notchstave.Settler.Ledger.{Payment, Block, Ledger}
use notchstave.Settler.Ledger.Invoices.{is_for}

-- `SQL_INVOICE_PAYMENTS`
unfoldable pub invoice_payments : ℕ → List Payment → List Payment
invoice_payments i [] = []
invoice_payments i (p ∷ ps) =
    let rest = invoice_payments i ps in if is_for i p.invoice_id then p ∷ rest else rest

-- The conditions of `SQL_SETTLED_TOTAL` on a row.
abbrev pub counts_for : ℕ → ℕ → ℕ → ℤ → Payment → Bool
counts_for i asset chain cutoff p =
    is_for i p.invoice_id
    && (is_creditable p.status
        && ((p.asset_id == asset)
            && ((p.chain_id == chain) && (leb_ℤ (pos p.block_number) cutoff && counts p.anomaly))))

-- `settled_total_raw`
unfoldable pub settled_total_raw : ℕ → ℕ → ℕ → ℤ → List Payment → ℕ
settled_total_raw i asset chain cutoff [] = 0
settled_total_raw i asset chain cutoff (p ∷ ps) =
    (if counts_for i asset chain cutoff p then p.amount_raw else 0)
    + settled_total_raw i asset chain cutoff ps

-- The greater of a height and the greatest of the others, for `MAX`.
abbrev pub greatest : ℕ → Option ℕ → Option ℕ
greatest n none = some n
greatest n (some m) = some (max n m)

abbrev pub is_confirmed : BlockStatus → Bool
is_confirmed BlockStatus.confirmed = true
is_confirmed _ = false

abbrev pub is_orphaned : BlockStatus → Bool
is_orphaned BlockStatus.orphaned = true
is_orphaned _ = false

-- `SQL_FINALIZED_HEAD`
unfoldable pub finalized_head : ℕ → List Block → Option ℕ
finalized_head chain [] = none
finalized_head chain (b ∷ bs) =
    let rest = finalized_head chain bs in
    if (b.chain_id == chain) && is_confirmed b.status then greatest b.number rest else rest

abbrev pub change_payment : ℕ → (Payment → Payment) → Ledger → Ledger
change_payment id f db = record db { payments = update (λ (p : Payment). p.id) id f db.payments }

abbrev pub payment_has : (Payment → Bool) → Option Payment → Bool
payment_has t none = false
payment_has t (some p) = t p

abbrev pub find_payment : ℕ → Ledger → Option Payment
find_payment id db = find (λ (p : Payment). p.id) id db.payments

abbrev pub is_seen : PaymentStatus → Bool
is_seen PaymentStatus.seen = true
is_seen _ = false

abbrev pub is_payment_confirmed : PaymentStatus → Bool
is_payment_confirmed PaymentStatus.confirmed = true
is_payment_confirmed _ = false

-- `promote_payment_to_confirmed`
unfoldable pub promote_payment_to_confirmed : ℕ → Ledger → Bool × Ledger
unfolding find update
promote_payment_to_confirmed id db =
    if payment_has (λ p. is_seen p.status) (find_payment id db)
    then (
      true,
      change_payment id
          (λ p. if is_seen p.status then record p { status = PaymentStatus.confirmed } else p) db,
    )
    else (false, db)

-- `credit_payment`
unfoldable pub credit_payment : ℕ → ℕ → Ledger → Bool × Ledger
unfolding find update
credit_payment id confirmations db =
    if payment_has (λ p. is_payment_confirmed p.status) (find_payment id db)
    then (
      true,
      change_payment id
          (λ p.
            if is_payment_confirmed p.status
            then record p {
              status = PaymentStatus.credited;
              confirmations_at_credit = some confirmations;
            }
            else p)
          db,
    )
    else (false, db)

abbrev pub is_unnotified : Option ℕ → Bool
is_unnotified none = true
is_unnotified (some t) = false

-- `mark_payment_seen_notified`
unfoldable pub mark_payment_seen_notified : ℕ → Ledger → Bool × Ledger
unfolding find update
mark_payment_seen_notified id db =
    if payment_has (λ p. is_unnotified p.seen_notified_at) (find_payment id db)
    then (true, change_payment id (λ p. record p { seen_notified_at = some db.now }) db)
    else (false, db)

-- A block of the chain at the height, orphaned or not.
unfoldable pub has_block : Bool → ℕ → ℕ → List Block → Bool
has_block orphaned chain n [] = false
has_block orphaned chain n (b ∷ bs) =
    if (b.chain_id == chain)
      && ((b.number == n)
          && (if orphaned then is_orphaned b.status else not (is_orphaned b.status)))
    then true
    else has_block orphaned chain n bs

-- The conditions of `SQL_REVERT_PAYMENTS_IN_ORPHANED_BLOCKS` on a row.
unfoldable pub is_rolled_back : ℕ → List Block → Payment → Bool
unfolding has_block
is_rolled_back chain blocks p =
    (p.chain_id == chain)
    && (is_arrived p.status
        && (has_block true p.chain_id p.block_number blocks
            && not (has_block false p.chain_id p.block_number blocks)))

-- `revert_payments_in_orphaned_blocks`: the rows that it changed, and the table after it.
unfoldable pub reverted_rows : ℕ → List Block → List Payment → List Payment
reverted_rows chain blocks [] = []
reverted_rows chain blocks (p ∷ ps) =
    let rest = reverted_rows chain blocks ps in
    if is_rolled_back chain blocks p then p ∷ rest else rest

unfoldable pub revert_rows : ℕ → List Block → List Payment → List Payment
revert_rows chain blocks [] = []
revert_rows chain blocks (p ∷ ps) =
    (if is_rolled_back chain blocks p then record p { status = PaymentStatus.reverted } else p)
    ∷ revert_rows chain blocks ps

unfoldable pub revert_payments_in_orphaned_blocks : ℕ → Ledger → List Payment × Ledger
unfolding reverted_rows revert_rows
revert_payments_in_orphaned_blocks chain db = (
  reverted_rows chain db.blocks db.payments,
  record db { payments = revert_rows chain db.blocks db.payments },
)
