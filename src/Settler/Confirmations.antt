-- ===== src/Settler/Confirmations.antt =====
-- When a payment is safe to credit (settler/confirmations.py). A cutoff is a signed height.
use notchstave.Common.{ℕ, ◌+◌, ◌≤◌, ◌≡◌, ◌↔◌, Bool, true, Option, none, some, arith, if◌then◌else◌}
use notchstave.Common.Int.{ℤ, pos, negsuc, sub_ℕ, leb_ℤ, ◌≤ℤ◌}
use notchstave.Settler.Decimal.{Decimal, greater}
use notchstave.Settler.Amounts.{raw_to_usd}

pub record ConfirmationRule : Type 0 where
  pub needs_finality : Bool
  pub min_confirmations : ℕ
  pub amount_usd : Decimal
  pub credit_threshold_usd : Decimal

unfoldable pub required_rule : ℕ → ℕ → Decimal → ℕ → Decimal → ConfirmationRule
unfolding raw_to_usd greater
required_rule amount decimals rate confirmations threshold =
    let usd = raw_to_usd amount decimals rate in
    record {
      needs_finality = greater usd threshold;
      min_confirmations = confirmations;
      amount_usd = usd;
      credit_threshold_usd = threshold;
    }

abbrev pub min_ℤ : ℤ → ℤ → ℤ
min_ℤ a b = if leb_ℤ a b then a else b

-- -1 where nothing is final yet.
abbrev pub final_cutoff : ℤ → Option ℕ → ℤ
final_cutoff by_count none = negsuc 0
final_cutoff by_count (some finalized) = min_ℤ by_count (pos finalized)

unfoldable pub creditable_cutoff_height : ℕ → ConfirmationRule → Option ℕ → ℤ
creditable_cutoff_height head rule finalized =
    let by_count = sub_ℕ (head + 1) rule.min_confirmations in
    if rule.needs_finality then final_cutoff by_count finalized else by_count

abbrev pub IsFinal : ℕ → Option ℕ → Type 0
IsFinal block none = ⊥
IsFinal block (some finalized) = block ≤ finalized

-- A block is at or below the cutoff exactly when it has the required confirmations under the head
-- and, where the amount needs finality, is at or below the finalized head; with no finalized head no
-- block is.
pub cutoff_iff :
    (block head : ℕ) (rule : ConfirmationRule) (finalized : Option ℕ)
    → (pos block ≤ℤ creditable_cutoff_height head rule finalized) ↔ (
        (block + rule.min_confirmations ≤ head + 1)
        × (rule.needs_finality ≡ true → IsFinal block finalized))
unfolding creditable_cutoff_height
cutoff_iff block head rule none = ground arith
cutoff_iff block head rule (some f) = ground arith
