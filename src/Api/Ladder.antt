-- ===== src/Api/Ladder.antt =====
-- What each stage says of the invoice, and what the count of confirmations is.
use mathlib.Core.Path.{subst}
use notchstave.Common.{
  sym, ℕ, ◌≤◌, ◌<◌, ◌≡◌, ◌≢◌, ◌⊎◌, inl, inr, refl, true, false, Option, none, some, List, [], ◌∷◌,
  ltb, if◌then◌else◌, arith, Bool-cases, min,
}
use notchstave.Api.{
  InvoiceStatus, Stage, PaymentProgress, InvoiceProgress, is_pending, least_pending, lesser,
  confirmations, terminal, is_settled, stage_of,
}

-- An invoice without a live grant, a human's verdict or the settler's.
abbrev pub IsOpen : InvoiceProgress → Type 0
IsOpen p = (p.access_granted ≡ false) × (terminal p.status ≡ none) × (is_settled p.status ≡ false)

-- Some money is credited and some is owed.
abbrev pub IsShort : InvoiceProgress → Type 0
IsShort p = (0 < p.amount_paid_raw) × (p.amount_paid_raw < p.amount_due_raw)

-- The invoices that a stage stands for; no invoice is in two of them.
unfoldable pub IsRung : InvoiceProgress → Stage → Type 0
IsRung p Stage.granted = p.access_granted ≡ true
IsRung p Stage.manual_review = (p.access_granted ≡ false) × (p.status ≡ InvoiceStatus.manual_review)
IsRung p Stage.reverted = (p.access_granted ≡ false) × (p.status ≡ InvoiceStatus.reverted)
IsRung p Stage.cancelled = (p.access_granted ≡ false) × (p.status ≡ InvoiceStatus.cancelled)
IsRung p Stage.paid =
    (p.access_granted ≡ false)
    × ((p.status ≡ InvoiceStatus.paid) ⊎ (p.status ≡ InvoiceStatus.overpaid))
IsRung p Stage.underpaid = IsOpen p × IsShort p
IsRung p Stage.confirming = IsOpen p × (IsShort p → ⊥) × (p.payments ≢ [])
IsRung p Stage.expired =
    IsOpen p × (IsShort p → ⊥) × (p.payments ≡ []) × (p.status ≡ InvoiceStatus.expired)
IsRung p Stage.awaiting =
    IsOpen p × (IsShort p → ⊥) × (p.payments ≡ []) × (p.status ≢ InvoiceStatus.expired)

-- The page shows a stage only to the invoices that it stands for: a live grant outranks everything, a
-- human's verdict every sum, `underpaid` says that some money is credited and some owed, and the
-- remaining stages that this is not so.
pub stage_of-IsRung : (p : InvoiceProgress) → IsRung p (stage_of p)
unfolding stage_of IsRung
stage_of-IsRung p = ground arith

-- A pending payment with this count stands in the list.
abbrev pub IsCounted : ℕ → List PaymentProgress → Type 0
IsCounted n [] = ⊥
IsCounted n (p ∷ ps) = ((is_pending p.status ≡ true) × (p.confirmations ≡ n)) ⊎ IsCounted n ps

-- No pending payment has a count below this one.
abbrev pub IsBelow : ℕ → List PaymentProgress → Type 0
IsBelow n [] = Unit
IsBelow n (p ∷ ps) = (is_pending p.status ≡ true → n ≤ p.confirmations) × IsBelow n ps

abbrev pub NonePending : List PaymentProgress → Type 0
NonePending [] = Unit
NonePending (p ∷ ps) = (is_pending p.status ≡ false) × NonePending ps

unfoldable pub IsLeast : Option ℕ → List PaymentProgress → Type 0
IsLeast none ps = NonePending ps
IsLeast (some n) ps = IsCounted n ps × IsBelow n ps

IsBelow-le : (n m : ℕ) (ps : List PaymentProgress) → n ≤ m → IsBelow m ps → IsBelow n ps
IsBelow-le n m [] h b = tt
IsBelow-le n m (p ∷ ps) h b = (λ e. omega (arith, b.0 e), IsBelow-le n m ps h b.1)

NonePending-IsBelow : (n : ℕ) (ps : List PaymentProgress) → NonePending ps → IsBelow n ps
NonePending-IsBelow n [] h = tt
NonePending-IsBelow n (p ∷ ps) h = (λ e. cc, NonePending-IsBelow n ps h.1)

-- One payment more in front of a list whose least count is known.
cons-IsLeast :
    (p : PaymentProgress) (ps : List PaymentProgress) (o : Option ℕ)
    → IsLeast o ps
    → IsLeast (if is_pending p.status then lesser p.confirmations o else o) (p ∷ ps)
unfolding IsLeast
cons-IsLeast p ps none h = elim (Bool-cases (is_pending p.status)) [
  | inl e ↦ rw e (inl (e, refl), ((λ _. omega arith), NonePending-IsBelow p.confirmations ps h))
  | inr e ↦ rw e (e, h)
]
cons-IsLeast p ps (some m) (counted, below) = elim (Bool-cases (is_pending p.status)) [
  | inr e ↦ rw e (inr counted, ((λ pending. cc), below))
  | inl e ↦ elim (Bool-cases (ltb m p.confirmations)) [
    | inl lt ↦
        let least : min p.confirmations m ≡ m = ground arith in
        rw e (
          subst (λ k. IsLeast (some k) (p ∷ ps)) (sym least)
            (inr counted, ((λ _. ground arith), below)))
    | inr ge ↦
        let least : min p.confirmations m ≡ p.confirmations = ground arith in
        rw e (
          subst (λ k. IsLeast (some k) (p ∷ ps)) (sym least)
            (
              inl (e, refl),
              ((λ _. omega arith), IsBelow-le p.confirmations m ps (ground arith) below),
            ))
  ]
]

least_pending-IsLeast : (ps : List PaymentProgress) → IsLeast (least_pending ps) ps
unfolding least_pending
least_pending-IsLeast [] = unfold IsLeast in tt
least_pending-IsLeast (p ∷ ps) = cons-IsLeast p ps (least_pending ps) (least_pending-IsLeast ps)

-- The count on the page is that of a pending payment and no pending payment has a lower one; there is
-- no count exactly where nothing is pending.
pub confirmations-IsLeast : (p : InvoiceProgress) → IsLeast (confirmations p) p.payments
unfolding confirmations
confirmations-IsLeast p = least_pending-IsLeast p.payments
