-- ===== src/Settler/Policy.antt =====
-- The money policy (settler/policy.py): the tolerances and `classify`. Amounts of base units are
-- whole numbers; the difference is signed. `none` is the `ValueError` of `usd_to_raw`.
pub mod Table
use notchstave.Common.{
  ℕ, ◌+◌, ◌-◌, ◌≤◌, min, max, Bool, true, false, Option, none, some, leb, ltb, ◌==◌, if◌then◌else◌,
}
use notchstave.Common.Int.{ℤ, pos, negsuc, pos_part, neg_part, ltb_ℤ, leb_ℤ, eq_ℤ}
use notchstave.Settler.Decimal.{Decimal, whole, mul, floor, fix}
use notchstave.Settler.Amounts.{usd_to_raw}

pub data Outcome : Type 0 where
  no_funds awaiting_confirmations : Outcome
  paid underpaid_tolerated overpaid_credited overpaid_refund_pending : Outcome
  partially_paid underpaid_manual_review anomaly_manual_review : Outcome
  already_settled skipped_busy not_live integrity_failed : Outcome

-- `SETTLED_OUTCOMES`, and `GRANTING_OUTCOMES`, which is the same set.
abbrev pub is_granting : Outcome → Bool
is_granting Outcome.paid = true
is_granting Outcome.underpaid_tolerated = true
is_granting Outcome.overpaid_credited = true
is_granting Outcome.overpaid_refund_pending = true
is_granting _ = false

pub record MoneyPolicy : Type 0 where
  pub underpay_tolerance_pct : Decimal
  pub underpay_tolerance_cap_usd : Decimal
  pub overpay_tolerance_pct : Decimal
  pub overpay_tolerance_floor_usd : Decimal

abbrev pub default_policy : MoneyPolicy
default_policy = record {
  underpay_tolerance_pct = record { coefficient = 5; scale = 3 };
  underpay_tolerance_cap_usd = whole 1;
  overpay_tolerance_pct = record { coefficient = 5; scale = 2 };
  overpay_tolerance_floor_usd = whole 5;
}

abbrev pub map_raw : (ℕ → ℕ) → Option ℕ → Option ℕ
map_raw f none = none
map_raw f (some n) = some (f n)

-- `(due_raw * pct).to_integral_value(rounding=ROUND_FLOOR)`
unfoldable pub pct_part : ℕ → Decimal → ℕ
pct_part due pct = floor (mul (whole due) pct)

unfoldable pub underpay_tolerance_raw : MoneyPolicy → ℕ → ℕ → Decimal → Option ℕ
underpay_tolerance_raw p due decimals rate =
    map_raw (min (pct_part due p.underpay_tolerance_pct))
      (usd_to_raw p.underpay_tolerance_cap_usd decimals rate)

unfoldable pub overpay_tolerance_raw : MoneyPolicy → ℕ → ℕ → Decimal → Option ℕ
overpay_tolerance_raw p due decimals rate =
    map_raw (max (pct_part due p.overpay_tolerance_pct))
      (usd_to_raw p.overpay_tolerance_floor_usd decimals rate)

pub record AmountDecision : Type 0 where
  pub outcome : Outcome
  pub due_raw : ℕ
  pub total_raw : ℕ
  pub delta_raw : ℤ
  pub tolerance_raw : ℕ

-- Minus a number.
abbrev pub negated : ℕ → ℤ
negated n = if n == 0 then pos 0 else negsuc (n - 1)

-- `total_raw - due_raw`, rounded to the digits of the context.
unfoldable pub difference : ℕ → ℕ → ℤ
difference total due =
    if leb due total then pos (fix (total - due)) else negated (fix (due - total))

-- `shortfall_raw` and `excess_raw`
unfoldable pub shortfall_raw : AmountDecision → ℕ
shortfall_raw d = neg_part d.delta_raw

unfoldable pub excess_raw : AmountDecision → ℕ
excess_raw d = pos_part d.delta_raw

abbrev pub decide : Outcome → ℕ → ℕ → ℤ → ℕ → AmountDecision
decide o due total delta tolerance = record {
  outcome = o;
  due_raw = due;
  total_raw = total;
  delta_raw = delta;
  tolerance_raw = tolerance;
}

-- `classify` past its first test, with the tolerance of the side that the amount is on.
unfoldable pub classify_short : Option ℕ → ℕ → ℕ → ℤ → ℕ → ℕ → Option AmountDecision
classify_short none due total delta now until = none
classify_short (some tolerance) due total delta now until =
    if leb (neg_part delta) tolerance
    then some (decide Outcome.underpaid_tolerated due total delta tolerance)
    else if leb now until
    then some (decide Outcome.partially_paid due total delta tolerance)
    else some (decide Outcome.underpaid_manual_review due total delta tolerance)

unfoldable pub classify_covered : Option ℕ → ℕ → ℕ → ℤ → Option AmountDecision
classify_covered none due total delta = none
classify_covered (some tolerance) due total delta =
    if eq_ℤ delta (pos 0)
    then some (decide Outcome.paid due total delta tolerance)
    else if leb_ℤ delta (pos tolerance)
    then some (decide Outcome.overpaid_credited due total delta tolerance)
    else some (decide Outcome.overpaid_refund_pending due total delta tolerance)

unfoldable pub classify : MoneyPolicy → ℕ → ℕ → ℕ → Decimal → ℕ → ℕ → Option AmountDecision
unfolding classify_short classify_covered difference
classify policy due total decimals rate now until =
    let delta = difference total due in
    if leb total 0
    then some (decide Outcome.no_funds due total delta 0)
    else if ltb_ℤ delta (pos 0)
    then classify_short (underpay_tolerance_raw policy due decimals rate) due total delta now until
    else classify_covered (overpay_tolerance_raw policy due decimals rate) due total delta
