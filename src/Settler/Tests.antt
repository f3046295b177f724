-- ===== src/Settler/Tests.antt =====
-- Runs of the money policy (settler/policy.py) with the default thresholds.
use notchstave.Common.{◌+◌, ◌≤◌, ◌≡◌, ◌↔◌, refl, true, some, arith}
use notchstave.Common.Int.{pos, ◌≤ℤ◌}
use notchstave.Settler.Decimal.{Decimal, whole, fix, digits}
use notchstave.Settler.Amounts.{usd_to_raw}
use notchstave.Settler.Policy.{default_policy, pct_part, underpay_tolerance_raw, classify}
use notchstave.Settler.Policy.Table.{IsExact, Decides, classify-Decides, grants, grants-monotone}
use notchstave.Settler.Confirmations.{
  ConfirmationRule, creditable_cutoff_height, IsFinal, cutoff_iff,
}

abbrev par : Decimal
par = whole 1

-- 1 USD and 5 USD of a token with 6 decimals at a rate of 1, and of one with none at a rate of 3.
cap : usd_to_raw default_policy.underpay_tolerance_cap_usd 6 par ≡ some 1_000_000
unfolding usd_to_raw
cap = refl

base : usd_to_raw default_policy.overpay_tolerance_floor_usd 6 par ≡ some 5_000_000
unfolding usd_to_raw
base = refl

third : usd_to_raw (whole 1) 6 (whole 3) ≡ some 333_333
unfolding usd_to_raw
third = refl

-- A bill of 100 tokens, and 99.6 paid.
short-IsExact : IsExact 100_000_000 99_600_000
unfolding IsExact digits
short-IsExact = (omega arith, omega arith)

paid-IsExact : IsExact 100_000_000 100_000_000
unfolding IsExact digits
paid-IsExact = (omega arith, omega arith)

classify-Decides_example :
    Decides 100_000_000 99_600_000 7 9
      (pct_part 100_000_000 default_policy.underpay_tolerance_pct)
      1_000_000
      (pct_part 100_000_000 default_policy.overpay_tolerance_pct)
      5_000_000
      (classify default_policy 100_000_000 99_600_000 6 par 7 9)
classify-Decides_example =
    classify-Decides default_policy 100_000_000 6 1_000_000 5_000_000 par cap base 99_600_000 7 9
      short-IsExact

short_grants : grants (classify default_policy 100_000_000 99_600_000 6 par 7 9) ≡ true
unfolding grants classify underpay_tolerance_raw usd_to_raw pct_part fix
short_grants = refl

grants-monotone_example : grants (classify default_policy 100_000_000 100_000_000 6 par 8 9) ≡ true
grants-monotone_example =
    grants-monotone default_policy 100_000_000 6 1_000_000 5_000_000 par cap base 99_600_000
      100_000_000 7 8 9 short-IsExact paid-IsExact (omega arith) short_grants

abbrev rule : ConfirmationRule
rule = record {
  needs_finality = true;
  min_confirmations = 12;
  amount_usd = whole 100;
  credit_threshold_usd = whole 20;
}

cutoff_iff_example :
    (pos 80 ≤ℤ creditable_cutoff_height 100 rule (some 85))
    ↔ ((80 + 12 ≤ 100 + 1) × (true ≡ true → IsFinal 80 (some 85)))
cutoff_iff_example = cutoff_iff 80 100 rule (some 85)
