-- ===== src/Settler/Service/Swept.antt =====
-- The sweep past the window for top-ups (settler/service.py): what it leaves of the invoices it reads.
use notchstave.Common.{
  ℕ, ◌≡◌, ◌==◌, Option, some, inl, inr, Bool-cases, refl, Bool, true, false, ◌&&◌, List, [], ◌∷◌,
  arith, ltb, if◌then◌else◌, map, take,
}
use notchstave.Common.Rows.{find, update, filter, order_by, option_map, find-update}
use notchstave.Enums.{InvoiceStatus, is_live}
use notchstave.Settler.Ledger.{Invoice, Payment, Ledger}
use notchstave.Settler.Ledger.Invoices.{find_invoice, row_has, expire_invoice}
use notchstave.Settler.Ledger.Outbox.{open_manual_review, write_audit}
use notchstave.Settler.Service.Sweeps.{
  has_money, invoices_past_topup_window, sweep_target, sweep_row, sweep_rows,
  sweep_expired_invoices, invoices_past_topup_window,
}

-- Where money that has arrived and stands sends an invoice, and where none does.
unfoldable pub route : ℕ → List Payment → InvoiceStatus
route i payments =
    if has_money i payments then InvoiceStatus.manual_review else InvoiceStatus.expired

-- The status of an invoice, where there is one.
unfoldable pub status_in : ℕ → List Invoice → Option InvoiceStatus
unfolding find
status_in i rows = option_map (λ (r : Invoice). r.status) (find (λ (r : Invoice). r.id) i rows)

-- The invoice has the status that its money asks for.
unfoldable pub IsRouted : List Payment → ℕ → Ledger → Type 0
unfolding status_in
IsRouted payments i db = status_in i db.invoices ≡ some (route i payments)

-- Every invoice of the list is reported with that status, and has it in the tables.
unfoldable pub AllRouted : List Payment → List (ℕ × InvoiceStatus) → Ledger → Type 0
AllRouted payments [] db = Unit
AllRouted payments ((i, status) ∷ moved) db =
    (status ≡ route i payments) × IsRouted payments i db × AllRouted payments moved db

unfoldable AllFlagged : List Payment → List (Invoice × Bool) → Type 0
AllFlagged payments [] = Unit
AllFlagged payments ((r, money) ∷ rows) =
    (money ≡ has_money r.id payments) × AllFlagged payments rows

sweep_row-invoices :
    (r : Invoice) (money : Bool) (db : Ledger)
    → let (moved, db1) = sweep_row r money db in
      db1.invoices ≡ (
        if moved
        then update
            (λ (q : Invoice). q.id)
            r.id
            (λ q. record q { status = sweep_target money })
            db.invoices
        else db.invoices)
unfolding sweep_row expire_invoice open_manual_review write_audit
sweep_row-invoices r money db = ground arith

status_in-update :
    (k j : ℕ) (status : InvoiceStatus) (rows : List Invoice)
    → status_in k (update (λ (q : Invoice). q.id) j (λ q. record q { status = status }) rows)
      ≡ (if k == j then option_map (λ _. status) (status_in k rows) else status_in k rows)
unfolding status_in
status_in-update k j status rows =
    rw
      (find-update (λ (q : Invoice). q.id) k j (λ q. record q { status = status }) rows (λ q. refl))
      (ground arith)

-- The statuses that a round leaves.
sweep_row-status_in :
    (k : ℕ) (r : Invoice) (money : Bool) (db : Ledger)
    → let (moved, db1) = sweep_row r money db in
      status_in k db1.invoices ≡ (
        if moved
        then (if k == r.id
            then option_map (λ _. sweep_target money) (status_in k db.invoices)
            else status_in k db.invoices)
        else status_in k db.invoices)
sweep_row-status_in k r money db =
    rw (sweep_row-invoices r money db) (elim (Bool-cases (sweep_row r money db).0) [
      | inl moved ↦ rw moved (status_in-update k r.id (sweep_target money) db.invoices)
      | inr stays ↦ rw stays refl
    ])

-- A row that a round moves is in the table.
sweep_row-found :
    (r : Invoice) (money : Bool) (db : Ledger)
    → (sweep_row r money db).0 ≡ true
    → option_map (λ _. sweep_target money) (status_in r.id db.invoices) ≡ some (sweep_target money)
unfolding sweep_row expire_invoice status_in
sweep_row-found r money db moved = ground arith

-- A round keeps what has been routed.
sweep_row-IsRouted :
    (payments : List Payment) (k : ℕ) (r : Invoice) (db : Ledger)
    → IsRouted payments k db
    → IsRouted payments k (sweep_row r (has_money r.id payments) db).1
unfolding IsRouted
sweep_row-IsRouted payments k r db routed =
    rw (sweep_row-status_in k r (has_money r.id payments) db) (ground (arith, routed, sames))
  where
    sames : k ≡ r.id → route k payments ≡ sweep_target (has_money r.id payments)
    sames e = rw e (unfold route in refl)

-- The invoice that a round moves is routed by it.
sweep_row-routes :
    (payments : List Payment) (r : Invoice) (db : Ledger)
    → (sweep_row r (has_money r.id payments) db).0 ≡ true
    → IsRouted payments r.id (sweep_row r (has_money r.id payments) db).1
unfolding IsRouted route
sweep_row-routes payments r db moved =
    rw (sweep_row-status_in r.id r (has_money r.id payments) db, moved)
      (ground (arith, sweep_row-found r (has_money r.id payments) db moved))

sweep_rows-IsRouted :
    (payments : List Payment) (k : ℕ) (rows : List (Invoice × Bool)) (db : Ledger)
    → AllFlagged payments rows
    → IsRouted payments k db
    → IsRouted payments k (sweep_rows rows db).1
unfolding sweep_rows AllFlagged
sweep_rows-IsRouted payments k [] db flagged routed = routed
sweep_rows-IsRouted payments k ((r, money) ∷ rows) db (flag, flagged) routed =
    sweep_rows-IsRouted payments k rows (sweep_row r money db).1 flagged
      (rw flag (sweep_row-IsRouted payments k r db routed))

sweep_rows-AllRouted :
    (payments : List Payment) (rows : List (Invoice × Bool)) (db : Ledger)
    → AllFlagged payments rows
    → AllRouted payments (sweep_rows rows db).0 (sweep_rows rows db).1
unfolding sweep_rows AllFlagged AllRouted
sweep_rows-AllRouted payments [] db flagged = tt
sweep_rows-AllRouted payments ((r, money) ∷ rows) db (flag, flagged) =
    let rest = sweep_rows-AllRouted payments rows (sweep_row r money db).1 flagged in
    elim (Bool-cases (sweep_row r money db).0) [
      | inr stays ↦ rw stays rest
      | inl moved ↦ rw moved (
        unfold route in rw flag refl,
        sweep_rows-IsRouted payments r.id rows (sweep_row r money db).1 flagged
            (rw flag (sweep_row-routes payments r db (rw flag at moved))),
        rest,
      )
    ]

map-AllFlagged :
    (payments : List Payment) (rows : List Invoice)
    → AllFlagged payments (map (λ (r : Invoice). (r, has_money r.id payments)) rows)
unfolding AllFlagged
map-AllFlagged payments [] = tt
map-AllFlagged payments (r ∷ rows) = (refl, map-AllFlagged payments rows)

-- Every invoice that the sweep past the top-up window reports has, in the tables that the whole sweep leaves,
-- the status that is reported of it: `manual_review` if a payment of it has arrived and stands, and `expired`
-- if none has.
pub sweep_expired_invoices-AllRouted :
    (limit : ℕ) (db : Ledger)
    → AllRouted db.payments (sweep_expired_invoices limit db).0 (sweep_expired_invoices limit db).1
unfolding sweep_expired_invoices invoices_past_topup_window
sweep_expired_invoices-AllRouted limit db =
    sweep_rows-AllRouted db.payments
      (map (λ (r : Invoice). (r, has_money r.id db.payments))
        (take limit (
          order_by (λ (r : Invoice). r.topup_window_until)
            (filter (λ (r : Invoice). is_live r.status && ltb r.topup_window_until db.now)
              db.invoices))))
      db (map-AllFlagged db.payments _)

-- The invoice of the id is live and past its window for top-ups.
unfoldable pub IsDue : ℕ → Ledger → Type 0
unfolding find
IsDue i db =
    row_has (λ (r : Invoice). is_live r.status && ltb r.topup_window_until db.now)
      (find_invoice i db)
    ≡ true

unfoldable pub is_among : ℕ → List (Invoice × Bool) → Bool
is_among i [] = false
is_among i ((r, money) ∷ rows) = if r.id == i then true else is_among i rows

sweep_row-moves :
    (r : Invoice) (money : Bool) (db : Ledger) → IsDue r.id db → (sweep_row r money db).0 ≡ true
unfolding sweep_row expire_invoice IsDue
sweep_row-moves r money db due = ground (arith, due)

now-sweep_row : (r : Invoice) (money : Bool) (db : Ledger) → (sweep_row r money db).1.now ≡ db.now
unfolding sweep_row expire_invoice open_manual_review write_audit
now-sweep_row r money db = ground arith

find-sweep_row :
    (k : ℕ) (r : Invoice) (money : Bool) (db : Ledger)
    → (k == r.id) ≡ false
    → find_invoice k (sweep_row r money db).1 ≡ find_invoice k db
find-sweep_row k r money db other =
    rw (sweep_row-invoices r money db) (elim (Bool-cases (sweep_row r money db).0) [
      | inl moved ↦ rw moved (
          rw
            (
              find-update (λ (q : Invoice). q.id) k r.id
                  (λ q. record q { status = sweep_target money }) db.invoices (λ q. refl),
              other,
            )
            refl)
      | inr stays ↦ rw stays refl
    ])

sweep_row-IsDue :
    (k : ℕ) (r : Invoice) (money : Bool) (db : Ledger)
    → (k == r.id) ≡ false
    → IsDue k db
    → IsDue k (sweep_row r money db).1
unfolding IsDue
sweep_row-IsDue k r money db other due =
    rw (find-sweep_row k r money db other, now-sweep_row r money db) due

sweep_rows-routes :
    (payments : List Payment) (k : ℕ) (rows : List (Invoice × Bool)) (db : Ledger)
    → AllFlagged payments rows
    → is_among k rows ≡ true
    → IsDue k db
    → IsRouted payments k (sweep_rows rows db).1
unfolding sweep_rows AllFlagged is_among
sweep_rows-routes payments k [] db flagged among due = cc
sweep_rows-routes payments k ((r, money) ∷ rows) db (flag, flagged) among due =
    elim (Bool-cases (r.id == k)) [
      | inl own ↦ sweep_rows-IsRouted payments k rows (sweep_row r money db).1 flagged (here own)
      | inr other ↦
          sweep_rows-routes payments k rows (sweep_row r money db).1 flagged (rw other at among)
            (sweep_row-IsDue k r money db (ground (arith, other)) due)
    ]
  where
    here : (r.id == k) ≡ true → IsRouted payments k (sweep_row r money db).1
    here own =
        let same : r.id ≡ k = ground (arith, own) in
        rw (← same, flag)
          (sweep_row-routes payments r db
            (sweep_row-moves r (has_money r.id payments) db (rw same due)))

-- The sweep leaves no invoice that it has read as it was: one that its query selects and that is live and past
-- its window for top-ups has in the tables afterwards the status `manual_review` if a payment of it has
-- arrived and stands, and `expired` if none has.
pub sweep_expired_invoices-IsRouted :
    (i limit : ℕ) (db : Ledger)
    → is_among i (invoices_past_topup_window limit db) ≡ true
    → IsDue i db
    → IsRouted db.payments i (sweep_expired_invoices limit db).1
unfolding sweep_expired_invoices invoices_past_topup_window
sweep_expired_invoices-IsRouted i limit db among due =
    sweep_rows-routes db.payments i
      (map (λ (r : Invoice). (r, has_money r.id db.payments))
        (take limit (
          order_by (λ (r : Invoice). r.topup_window_until)
            (filter (λ (r : Invoice). is_live r.status && ltb r.topup_window_until db.now)
              db.invoices))))
      db (map-AllFlagged db.payments _) among due
