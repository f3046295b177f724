-- ===== src/Settler/Service/Announced.antt =====
-- `notify_seen_payments` (settler/service.py) by two workers that read the same payments.
use notchstave.Common.{ℕ, ◌≡◌, refl, false, none, some, List, [], ◌∷◌, arith}
use notchstave.Common.Rows.{find-update}
use notchstave.Settler.Ledger.{Invoice, Payment, NotificationKind, Ledger}
use notchstave.Settler.Ledger.Payments.{
  is_unnotified, payment_has, find_payment, mark_payment_seen_notified,
}
use notchstave.Settler.Ledger.Outbox.{enqueue_notification}
use notchstave.Settler.Service.Sweeps.{
  notify_seen_row, notify_seen_rows, notify_seen_payments, unnotified_seen_payments,
}

-- The payment is claimed: the compare-and-set of `seen_notified_at` fails.
unfoldable IsClaimed : ℕ → Ledger → Type 0
IsClaimed id db = payment_has (λ p. is_unnotified p.seen_notified_at) (find_payment id db) ≡ false

mark-IsClaimed :
    (j id : ℕ) (db : Ledger) → IsClaimed j db → IsClaimed j (mark_payment_seen_notified id db).1
unfolding mark_payment_seen_notified IsClaimed
mark-IsClaimed j id db claimed = ground (
  arith,
  find-update (λ (p : Payment). p.id) j id (λ p. record p { seen_notified_at = some db.now })
      db.payments (λ p. refl),
)

mark-claims : (id : ℕ) (db : Ledger) → IsClaimed id (mark_payment_seen_notified id db).1
unfolding mark_payment_seen_notified IsClaimed
mark-claims id db = ground (
  arith,
  find-update (λ (p : Payment). p.id) id id (λ p. record p { seen_notified_at = some db.now })
      db.payments (λ p. refl),
)

enqueue-IsClaimed :
    (j user : ℕ) (kind : NotificationKind) (ref key : ℕ) (db : Ledger)
    → IsClaimed j db
    → IsClaimed j (enqueue_notification user kind ref key db).1
unfolding enqueue_notification IsClaimed
enqueue-IsClaimed j user kind ref key db claimed = ground arith

notify_seen_row-IsClaimed :
    (j : ℕ) (p : Payment) (r : Invoice) (db : Ledger)
    → IsClaimed j db
    → IsClaimed j (notify_seen_row p r db).1
unfolding notify_seen_row
notify_seen_row-IsClaimed j p r db claimed =
    grind (arith, mark-IsClaimed j p.id db claimed, enqueue-IsClaimed j)

notify_seen_row-claims :
    (p : Payment) (r : Invoice) (db : Ledger) → IsClaimed p.id (notify_seen_row p r db).1
unfolding notify_seen_row
notify_seen_row-claims p r db = grind (arith, mark-claims p.id db, enqueue-IsClaimed p.id)

notify_seen_rows-IsClaimed :
    (j : ℕ) (rows : List (Payment × Invoice)) (db : Ledger)
    → IsClaimed j db
    → IsClaimed j (notify_seen_rows rows db).1
unfolding notify_seen_rows
notify_seen_rows-IsClaimed j [] db claimed = claimed
notify_seen_rows-IsClaimed j ((p, r) ∷ rows) db claimed =
    notify_seen_rows-IsClaimed j rows (notify_seen_row p r db).1
      (notify_seen_row-IsClaimed j p r db claimed)

unfoldable AllClaimed : List (Payment × Invoice) → Ledger → Type 0
AllClaimed [] db = Unit
AllClaimed ((p, r) ∷ rows) db = IsClaimed p.id db × AllClaimed rows db

notify_seen_rows-AllClaimed :
    (rows : List (Payment × Invoice)) (db : Ledger) → AllClaimed rows (notify_seen_rows rows db).1
unfolding notify_seen_rows AllClaimed
notify_seen_rows-AllClaimed [] db = tt
notify_seen_rows-AllClaimed ((p, r) ∷ rows) db =
    let db1 = (notify_seen_row p r db).1 in
    (
      notify_seen_rows-IsClaimed p.id rows db1 (notify_seen_row-claims p r db),
      notify_seen_rows-AllClaimed rows db1,
    )

claimed_row :
    (p : Payment) (r : Invoice) (db : Ledger)
    → IsClaimed p.id db
    → notify_seen_row p r db ≡ (none, db)
unfolding notify_seen_row mark_payment_seen_notified IsClaimed
claimed_row p r db claimed = rw claimed refl

claimed_rows :
    (rows : List (Payment × Invoice)) (db : Ledger)
    → AllClaimed rows db
    → notify_seen_rows rows db ≡ ([], db)
unfolding notify_seen_rows AllClaimed
claimed_rows [] db claimed = refl
claimed_rows ((p, r) ∷ rows) db (claimed, rest) =
    rw (claimed_row p r db claimed, claimed_rows rows db rest) refl

-- Where one worker has announced the payments that it read, a second worker that read the same payments
-- before announces none of them and changes nothing.
pub notify_seen_rows-once :
    (limit : ℕ) (db : Ledger)
    → notify_seen_rows (unnotified_seen_payments limit db) (notify_seen_payments limit db).1
      ≡ ([], (notify_seen_payments limit db).1)
unfolding notify_seen_payments
notify_seen_rows-once limit db =
    claimed_rows (unnotified_seen_payments limit db)
      (notify_seen_rows (unnotified_seen_payments limit db) db).1
      (notify_seen_rows-AllClaimed (unnotified_seen_payments limit db) db)
