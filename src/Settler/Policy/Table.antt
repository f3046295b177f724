-- ===== src/Settler/Policy/Table.antt =====
-- The table of settler/policy.py as statements about `classify`: each outcome against the amounts.
-- `IsExact` is the range where Python's 28 digits hold the difference of two amounts.
use notchstave.Common.{
  ℕ, ◌+◌, ◌-◌, ◌≤◌, ◌<◌, min, max, Bool, true, false, ◌&&◌, Option, none, some, leb, ltb, ◌≡◌,
  arith, ◌⊎◌,
}
use notchstave.Common.Int.{pos, ◌-ℤ◌}
use notchstave.Settler.Decimal.{Decimal, fix, digits, precision}
use notchstave.Settler.Amounts.{usd_to_raw}
use notchstave.Settler.Policy.{
  Outcome, is_granting, MoneyPolicy, pct_part, underpay_tolerance_raw, overpay_tolerance_raw,
  AmountDecision, classify_short, classify_covered, classify, difference,
}

-- Python's digits hold the difference of two amounts.
unfoldable pub IsExact : ℕ → ℕ → Type 0
IsExact due total = (digits (total - due) ≤ precision) × (digits (due - total) ≤ precision)

fix-exact : (n : ℕ) → digits n ≤ precision → fix n ≡ n
unfolding fix
fix-exact n small = ground arith

pub difference-exact :
    (due total : ℕ) → IsExact due total → difference total due ≡ pos total -ℤ pos due
unfolding difference IsExact ◌-ℤ◌
difference-exact due total (over, under) =
    rw (fix-exact (total - due) over, fix-exact (due - total) under) (ground arith)

-- The row of the table for an outcome, for a percentage and a bound of each tolerance; the outcomes
-- of other modules have none.
unfoldable pub IsRow : (due total now until under_part cap over_part base : ℕ) → Outcome → Type 0
IsRow due total now until under cap over base Outcome.no_funds = total ≡ 0
IsRow due total now until under cap over base Outcome.paid = (0 < total) × (total ≡ due)
IsRow due total now until under cap over base Outcome.underpaid_tolerated =
    (0 < total) × (total < due) × (due ≤ total + under) × (due ≤ total + cap)
IsRow due total now until under cap over base Outcome.partially_paid =
    (0 < total) × (total < due) × ((total + under < due) ⊎ (total + cap < due)) × (now ≤ until)
IsRow due total now until under cap over base Outcome.underpaid_manual_review =
    (0 < total) × (total < due) × ((total + under < due) ⊎ (total + cap < due)) × (until < now)
IsRow due total now until under cap over base Outcome.overpaid_credited =
    (0 < total) × (due < total) × ((total ≤ due + over) ⊎ (total ≤ due + base))
IsRow due total now until under cap over base Outcome.overpaid_refund_pending =
    (0 < total) × (due < total) × (due + over < total) × (due + base < total)
IsRow due total now until under cap over base _ = ⊥

-- A decision was made and it stands in the row of its outcome.
unfoldable pub Decides :
    (due total now until under_part cap over_part base : ℕ) → Option AmountDecision → Type 0
Decides due total now until under cap over base none = ⊥
Decides due total now until under cap over base (some d) =
    (d.delta_raw ≡ pos total -ℤ pos due) × IsRow due total now until under cap over base d.outcome

module _ (due total now until under cap over base : ℕ) (funded : 0 < total) where
  short-Decides :
      total < due
      → Decides due total now until under cap over base
          (classify_short (some (min under cap)) due total (pos total -ℤ pos due) now until)
  unfolding Decides IsRow classify_short ◌-ℤ◌
  short-Decides short = ground arith

  covered-Decides :
      due ≤ total
      → Decides due total now until under cap over base
          (classify_covered (some (max over base)) due total (pos total -ℤ pos due))
  unfolding Decides IsRow classify_covered ◌-ℤ◌
  covered-Decides covered = ground arith

unfoldable pub grants : Option AmountDecision → Bool
grants none = false
grants (some d) = is_granting d.outcome

-- A decision delivers the product for the amounts within both parts of the tolerance, and no others.
grants-amount :
    (due total now until under cap over base : ℕ)
    → (d : Option AmountDecision) → Decides due total now until under cap over base d
    → grants d ≡ (ltb 0 total && leb due (total + min under cap))
unfolding grants Decides IsRow
grants-amount due total now until under cap over base d decided = ground arith

module _ (p : MoneyPolicy) (due decimals cap base : ℕ) (rate : Decimal)
    (has_cap : usd_to_raw p.underpay_tolerance_cap_usd decimals rate ≡ some cap)
    (has_base : usd_to_raw p.overpay_tolerance_floor_usd decimals rate ≡ some base) where
  -- For a rate with which both bounds of the policy convert to base units, and amounts whose
  -- difference 28 digits hold, `classify` returns a decision at every time; its difference is
  -- `total - due`, and the amounts and the clock satisfy the row of its outcome. An invoice that is
  -- short by more than the percentage or by more than the cap is only ever `partially_paid` or, past
  -- the top-up window, `underpaid_manual_review`.
  pub classify-Decides :
      (total now until : ℕ)
      → IsExact due total
      → Decides due total now until
          (pct_part due p.underpay_tolerance_pct)
          cap
          (pct_part due p.overpay_tolerance_pct)
          base
          (classify p due total decimals rate now until)
  unfolding classify underpay_tolerance_raw overpay_tolerance_raw Decides IsRow ◌-ℤ◌
  classify-Decides total now until exact =
      rw (difference-exact due total exact, has_cap, has_base) (ground arith)

  -- For a rate with which both bounds of the policy convert to base units, and amounts whose
  -- differences 28 digits hold, a larger total never loses a grant: where `classify` delivers the
  -- product for an amount, it delivers it for every larger one, at every other time too.
  pub grants-monotone :
      (total more now later until : ℕ)
      → IsExact due total
      → IsExact due more
      → total ≤ more
      → grants (classify p due total decimals rate now until) ≡ true
      → grants (classify p due more decimals rate later until) ≡ true
  grants-monotone total more now later until exact exact_more le granted =
      let under = pct_part due p.underpay_tolerance_pct in
      let over = pct_part due p.overpay_tolerance_pct in
      let few = grants-amount due total now until under cap over base in
      let many = grants-amount due more later until under cap over base in
      let before =
        few (classify p due total decimals rate now until)
          (classify-Decides total now until exact) in
      let after =
        many (classify p due more decimals rate later until)
          (classify-Decides more later until exact_more) in
      ground arith
