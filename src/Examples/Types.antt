-- ===== src/Examples/Types.antt =====
-- A decimal that fits a column of a smaller scale, and other values at other types.
use adelie.Base.{◌≡◌, ◌<◌, refl, none, some}
use adelie.Types.{
  pos, negsuc, unsigned_abs, DataType, DecimalType, Decimal, Value, pow10, new_decimal,
}
use adelie.Types.Fit.{
  times, rescaled, rescale, coerce, float_to_int, whole, int_to_float, nat_to_float, log2,
  date_to_timestamp,
}
use adelie.Types.Fit.Lossless.{rescale-lossless}

abbrev one_and_a_half : Decimal
one_and_a_half = record { unscaled = negsuc 149; scale = 2 }

abbrev short : Decimal
short = record { unscaled = negsuc 14; scale = 1 }

abbrev column : DecimalType
column = record { precision = 5; scale = 1 }

runs : rescale one_and_a_half column ≡ some short
unfolding rescale rescaled new_decimal
runs = refl

-- -2.0 is the pattern c000000000000000, and 3.0 is 4008000000000000.
floats :
    (coerce (Value.float64 13835058055282163712) DataType.int64 ≡ some (Value.int64 (negsuc 1)))
    × (coerce (Value.float64 4613937818241073152) DataType.int64 ≡ some (Value.int64 (pos 3)))
    × (coerce (Value.float64 4609434218613702656) DataType.int64 ≡ none)
    × (coerce (Value.int64 (pos 3)) DataType.float64 ≡ some (Value.float64 4613937818241073152))
unfolding coerce float_to_int whole int_to_float nat_to_float log2
floats = (refl, refl, refl, refl)

days :
    coerce (Value.date (negsuc 0)) DataType.timestamp
    ≡ some (Value.timestamp (negsuc 86_399_999_999_999))
unfolding coerce date_to_timestamp
days = refl

rescale-lossless_example :
    (short.scale ≡ column.scale)
    × (unsigned_abs (negsuc 14) < pow10 5)
    × (times (negsuc 14) (pow10 2) ≡ times (negsuc 149) (pow10 1))
rescale-lossless_example = rescale-lossless one_and_a_half column short runs
