-- ===== src/Invoicing/Rates.antt =====
-- Prices of invoices (core/invoicing/rates.py): the sources of a rate and the amount due in base units.
use notchstave.Common.{
  ℕ, ◌*◌, ◌-◌, ◌^◌, Bool, ◌&&◌, Option, none, some, List, [], ◌∷◌, map, leb, ◌==◌, if◌then◌else◌,
}
use notchstave.Common.Text.{codes}
use notchstave.Settler.Decimal.{Decimal, whole, digits, drop_digits, fix_to, div_to, ceiling}

-- The context of `price_to_raw`.
abbrev pub rate_precision : ℕ
rate_precision = 60

-- `str.upper` on ASCII.
unfoldable pub to_upper : List ℕ → List ℕ
to_upper = map (λ c. if leb b'a' c && leb c b'z' then c - 32 else c)

unfoldable pub is_same_text : List ℕ → List ℕ → Bool
is_same_text [] [] = Bool.true
is_same_text (x ∷ xs) (y ∷ ys) = (x == y) && is_same_text xs ys
is_same_text _ _ = Bool.false

-- A rate by its upper-case symbol.
unfoldable pub lookup_rate : List ℕ → List (List ℕ × Decimal) → Option Decimal
unfolding is_same_text
lookup_rate symbol [] = none
lookup_rate symbol ((s, rate) ∷ rates) =
    let rest = lookup_rate symbol rates in if is_same_text s symbol then some rate else rest

abbrev pub pegged_symbols : List (List ℕ)
pegged_symbols = codes "USDC" ∷ codes "USDT" ∷ codes "DAI" ∷ codes "PYUSD" ∷ []

-- `PeggedRates.quote`; `none` is `RateUnavailable`.
unfoldable pub pegged_quote : List (List ℕ) → List ℕ → Option Decimal
unfolding lookup_rate to_upper
pegged_quote symbols symbol = lookup_rate (to_upper symbol) (map (λ s. (s, whole 1)) symbols)

abbrev pub positive : Option Decimal → Option Decimal
positive none = none
positive (some rate) = if rate.coefficient == 0 then none else some rate

-- `StaticRates.quote`; `none` is `RateUnavailable`.
unfoldable pub static_quote : List (List ℕ × Decimal) → List ℕ → Option Decimal
unfolding lookup_rate to_upper
static_quote rates symbol = positive (lookup_rate (to_upper symbol) rates)

-- `price_to_raw`; `none` is its `ValueError` for a price or a rate that is not positive.
unfoldable pub price_to_raw : Decimal → ℕ → Decimal → Option ℕ
unfolding digits drop_digits ceiling
price_to_raw price_usd decimals rate =
    let units = div_to rate_precision price_usd rate in
    if rate.coefficient == 0
    then none
    else if price_usd.coefficient == 0
    then none
    else some (
        ceiling (record {
          coefficient = fix_to rate_precision (units.coefficient * 10 ^ decimals);
          scale = units.scale;
        }))
