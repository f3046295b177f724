-- ===== src/Settler/Amounts.antt =====
-- Conversions between base units and USD (settler/amounts.py). `RAW_PRECISION` digits are more than
-- any amount of base units has, so a division by a power of ten is exact there.
use notchstave.Common.{ℕ, ◌^◌, Option, none, some, ◌==◌, if◌then◌else◌}
use notchstave.Settler.Decimal.{Decimal, whole, mul, div, floor}

-- `whole_units`
unfoldable pub whole_units : ℕ → ℕ → Decimal
whole_units raw decimals = record { coefficient = raw; scale = decimals }

-- `raw_to_usd`
unfoldable pub raw_to_usd : ℕ → ℕ → Decimal → Decimal
unfolding whole_units mul
raw_to_usd raw decimals rate = mul (whole_units raw decimals) rate

-- `usd_to_raw`; `none` is its `ValueError` for a rate that is not positive.
unfoldable pub usd_to_raw : Decimal → ℕ → Decimal → Option ℕ
unfolding mul div floor
usd_to_raw usd decimals rate =
    if rate.coefficient == 0
    then none
    else some (floor (mul (div usd rate) (whole (10 ^ decimals))))
