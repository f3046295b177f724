-- ===== src/Watcher/Store/Payments.antt =====
-- What an insert of payments writes, and that it is idempotent.
use notchstave.Common.{ℕ, ◌≡◌, ◌≢◌, refl, ◌↔◌, ◌⊎◌, Bool, true, false, none, List, [], ◌∷◌, arith}
use notchstave.Watcher.Store.{
  TransferEvent, Payment, ReceiveAddress, Store, bound_invoice, payment_anomaly, has_payment,
  find_address, insert_payment, insert_payments,
}

-- A payment is bound to an invoice exactly when it has no anomaly: the two expressions of the insert
-- agree on every combination of asset, chain, height and reservation.
pub bound_iff_no_anomaly :
    (enabled : Bool) (chain_id : ℕ) (e : TransferEvent) (a : ReceiveAddress)
    → (bound_invoice enabled chain_id e a ≢ none) ↔ (payment_anomaly enabled chain_id e a ≡ none)
unfolding bound_invoice payment_anomaly
bound_iff_no_anomaly enabled chain_id e a = ground arith

-- No two rows have the same transaction and log index.
abbrev pub AreDistinct : List Payment → Type 0
AreDistinct [] = Unit
AreDistinct (p ∷ ps) = (has_payment p.tx_hash p.log_index ps ≡ false) × AreDistinct ps

insert_payment-AreDistinct :
    (enabled : ℕ → Bool) (e : TransferEvent) (s : Store)
    → AreDistinct s.payments
    → AreDistinct (insert_payment enabled e s).1.payments
unfolding insert_payment
insert_payment-AreDistinct enabled e s d = ground arith

-- A batch keeps the rows distinct by transaction and log index.
pub insert_payments-AreDistinct :
    (enabled : ℕ → Bool) (es : List TransferEvent) (s : Store)
    → AreDistinct s.payments
    → AreDistinct (insert_payments enabled es s).1.payments
unfolding insert_payments
insert_payments-AreDistinct enabled [] s d = d
insert_payments-AreDistinct enabled (e ∷ es) s d =
    insert_payments-AreDistinct enabled es (insert_payment enabled e s).1
      (insert_payment-AreDistinct enabled e s d)

-- The insert of this event writes nothing: its address is not there, or its row is.
abbrev IsKnown : TransferEvent → Store → Type 0
IsKnown e s =
    (find_address e.address_id s.addresses ≡ none)
    ⊎ (has_payment e.tx_hash e.log_index s.payments ≡ true)

abbrev AllKnown : List TransferEvent → Store → Type 0
AllKnown [] s = Unit
AllKnown (e ∷ es) s = IsKnown e s × AllKnown es s

insert_payment-known :
    (enabled : ℕ → Bool) (e : TransferEvent) (s : Store)
    → IsKnown e s
    → insert_payment enabled e s ≡ (false, s)
unfolding insert_payment
insert_payment-known enabled e s k = ground arith

insert_payment-IsKnown :
    (enabled : ℕ → Bool) (e : TransferEvent) (s : Store) → IsKnown e (insert_payment enabled e s).1
unfolding insert_payment
insert_payment-IsKnown enabled e s = ground arith

insert_payment-keeps :
    (enabled : ℕ → Bool) (e f : TransferEvent) (s : Store)
    → IsKnown f s
    → IsKnown f (insert_payment enabled e s).1
unfolding insert_payment
insert_payment-keeps enabled e f s k = ground arith

insert_payments-keeps :
    (enabled : ℕ → Bool) (es : List TransferEvent) (f : TransferEvent) (s : Store)
    → IsKnown f s
    → IsKnown f (insert_payments enabled es s).1
unfolding insert_payments
insert_payments-keeps enabled [] f s k = k
insert_payments-keeps enabled (e ∷ es) f s k =
    insert_payments-keeps enabled es f (insert_payment enabled e s).1
      (insert_payment-keeps enabled e f s k)

insert_payments-AllKnown :
    (enabled : ℕ → Bool) (es : List TransferEvent) (s : Store)
    → AllKnown es (insert_payments enabled es s).1
unfolding insert_payments
insert_payments-AllKnown enabled [] s = tt
insert_payments-AllKnown enabled (e ∷ es) s =
    let s' = (insert_payment enabled e s).1 in
    (
      insert_payments-keeps enabled es e s' (insert_payment-IsKnown enabled e s),
      insert_payments-AllKnown enabled es s',
    )

insert_payments-known :
    (enabled : ℕ → Bool) (es : List TransferEvent) (s : Store)
    → AllKnown es s
    → insert_payments enabled es s ≡ (record { inserted = []; conflicted = es }, s)
unfolding insert_payments
insert_payments-known enabled [] s k = refl
insert_payments-known enabled (e ∷ es) s (k, ks) =
    rw (insert_payment-known enabled e s k) (rw (insert_payments-known enabled es s ks))

-- A batch that is inserted again, under any enabling of the assets, writes nothing: every event is
-- reported as a conflict and the tables stay as they are.
pub insert_payments_twice :
    (enabled enabled' : ℕ → Bool) (es : List TransferEvent) (s : Store)
    → insert_payments enabled' es (insert_payments enabled es s).1
      ≡ (record { inserted = []; conflicted = es }, (insert_payments enabled es s).1)
insert_payments_twice enabled enabled' es s =
    insert_payments-known enabled' es _ (insert_payments-AllKnown enabled es s)
