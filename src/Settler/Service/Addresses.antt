-- ===== src/Settler/Service/Addresses.antt =====
-- `sync_address_lifecycle` (settler/service.py), with its reads (settler/repository.py).
use notchstave.Common.{
  ℕ, ◌+◌, max, Bool, true, false, not, ◌&&◌, ◌||◌, Option, none, some, List, [], ◌∷◌, ◌==◌,
  if◌then◌else◌, take,
}
use notchstave.Common.Rows.{filter, order_by}
use notchstave.Enums.{AddressStatus, PaymentStatus, is_live}
use notchstave.Settler.Ledger.{Invoice, ReceiveAddress, Payment, LifecycleAction, Ledger}
use notchstave.Settler.Ledger.Invoices.{find_invoice}
use notchstave.Settler.Ledger.Payments.{is_unnotified}
use notchstave.Settler.Ledger.Outbox.{has_open_request, enqueue_address_request}

abbrev is_free : AddressStatus → Bool
is_free AddressStatus.free = true
is_free _ = false

abbrev pub is_reserved : AddressStatus → Bool
is_reserved AddressStatus.reserved = true
is_reserved _ = false

abbrev pub is_reverted : PaymentStatus → Bool
is_reverted PaymentStatus.reverted = true
is_reverted _ = false

-- A payment on the address; where `standing`, one that is not reverted.
unfoldable pub holds_payment : Bool → ℕ → List Payment → Bool
holds_payment standing a [] = false
holds_payment standing a (p ∷ ps) =
    if (p.address_id == a) && not (standing && is_reverted p.status)
    then true
    else holds_payment standing a ps

-- The conditions of `SQL_ADDRESSES_NEEDING_FUNDED_LATCH`.
unfoldable pub needs_latch : Ledger → ReceiveAddress → Bool
unfolding holds_payment has_open_request
needs_latch db a =
    (is_free a.status || is_reserved a.status)
    && (not a.ever_funded
        && (holds_payment true a.id db.payments
            && not (has_open_request a.id LifecycleAction.mark_funded db.requests)))

unfoldable pub addresses_needing_funded_latch : ℕ → Ledger → List ReceiveAddress
unfolding filter order_by needs_latch
addresses_needing_funded_latch limit db =
    take limit (order_by (λ (a : ReceiveAddress). a.id) (filter (needs_latch db) db.addresses))

-- The tenant of an address, where it is no longer live.
abbrev pub ended : Option Invoice → Option Invoice
ended none = none
ended (some r) = if is_live r.status then none else some r

abbrev pub past_tenant : ReceiveAddress → Ledger → Option Invoice
past_tenant a db = elim a.current_invoice_id [ none ↦ none | some i ↦ ended (find_invoice i db) ]

-- The conditions of `SQL_ADDRESSES_READY_FOR_RELEASE`, but for the tenant.
unfoldable pub is_unused : Ledger → ReceiveAddress → Bool
unfolding holds_payment has_open_request
is_unused db a =
    is_reserved a.status
    && (not a.ever_funded
        && (is_unnotified a.cooldown_until
            && (not (holds_payment false a.id db.payments)
                && not (has_open_request a.id LifecycleAction.release db.requests))))

abbrev with_tenant :
    ReceiveAddress
    → Option Invoice
    → List (ReceiveAddress × Invoice)
    → List (ReceiveAddress × Invoice)
with_tenant a none rows = rows
with_tenant a (some r) rows = (a, r) ∷ rows

unfoldable pub join_tenants : Ledger → List ReceiveAddress → List (ReceiveAddress × Invoice)
join_tenants db [] = []
join_tenants db (a ∷ as_) = with_tenant a (past_tenant a db) (join_tenants db as_)

unfoldable pub addresses_ready_for_release : ℕ → Ledger → List (ReceiveAddress × Invoice)
unfolding filter order_by is_unused join_tenants
addresses_ready_for_release limit db =
    take limit (
      join_tenants db
        (order_by (λ (a : ReceiveAddress). a.id) (filter (is_unused db) db.addresses)))

abbrev count : Option ℕ → ℕ → ℕ
count none n = n
count (some id) n = n + 1

unfoldable pub latch_rows : List ReceiveAddress → Ledger → ℕ × Ledger
unfolding enqueue_address_request
latch_rows [] db = (0, db)
latch_rows (a ∷ rows) db =
    let (id, db1) =
      enqueue_address_request a.id a.current_invoice_id LifecycleAction.mark_funded none db in
    let (n, db2) = latch_rows rows db1 in (count id n, db2)

unfoldable pub release_rows : ℕ → List (ReceiveAddress × Invoice) → Ledger → ℕ × Ledger
unfolding enqueue_address_request
release_rows cooldown [] db = (0, db)
release_rows cooldown ((a, r) ∷ rows) db =
    let (id, db1) =
      enqueue_address_request a.id a.current_invoice_id LifecycleAction.release
        (some (max r.topup_window_until db.now + cooldown)) db in
    let (n, db2) = release_rows cooldown rows db1 in (count id n, db2)

-- `sync_address_lifecycle`: how many requests it enqueued, of each kind.
unfoldable pub sync_address_lifecycle : ℕ → ℕ → Ledger → ℕ × ℕ × Ledger
unfolding latch_rows release_rows addresses_needing_funded_latch addresses_ready_for_release
sync_address_lifecycle cooldown limit db =
    let (latched, db1) = latch_rows (addresses_needing_funded_latch limit db) db in
    let (released, db2) = release_rows cooldown (addresses_ready_for_release limit db1) db1 in
    (latched, released, db2)
