-- ===== src/Types/Fit.antt =====
-- `coerce` of src/types/fit.rs: a value at a column's type, or nothing if it does not fit exactly.
pub mod Lossless
use adelie.Base.{ℕ, zero, suc, ◌+◌, ◌-◌, ◌*◌, ◌/◌, ◌%◌, ◌^◌, Bool, true, false, not}
use adelie.Base.{Option, none, some, ltb, leb, ◌==◌, ◌&&◌, if◌then◌else◌}
use adelie.Types.{ℤ, pos, negsuc, unsigned_abs, DecimalType, DataType, Checked, ok, err}
use adelie.Types.{Decimal, new_decimal, pow10, Value, Values, nil, cons}

abbrev pub or_none {ℓ κ} : {A : Type ℓ} {B : Type κ} → Option A → (A → Option B) → Option B
or_none none f = none
or_none (some a) f = f a

-- `.ok()`
abbrev pub accepted {ℓ} : {A : Type ℓ} → Checked A → Option A
accepted (ok a) = some a
accepted (err e) = none

-- The ranges of `i64` and `i128`.
abbrev pub is_i64 : ℤ → Bool
is_i64 (pos n) = ltb n (2 ^ 63)
is_i64 (negsuc n) = ltb n (2 ^ 63)

abbrev pub is_i128 : ℤ → Bool
is_i128 (pos n) = ltb n (2 ^ 127)
is_i128 (negsuc n) = ltb n (2 ^ 127)

abbrev pub checked {ℓ} : {A : Type ℓ} → Bool → A → Option A
checked true a = some a
checked false a = none

abbrev pub times : ℤ → ℕ → ℤ
times (pos n) p = pos (n * p)
times (negsuc n) p = if p == 0 then pos 0 else negsuc ((n + 1) * p - 1)

-- `checked_mul` of `i128` by a positive number.
abbrev pub checked_mul : ℤ → ℕ → Option ℤ
checked_mul n p = checked (is_i128 (times n p)) (times n p)

-- By a positive divisor.
abbrev pub rem_euclid : ℤ → ℕ → ℕ
rem_euclid (pos n) d = n % d
rem_euclid (negsuc n) d = d - 1 - n % d

abbrev pub div_euclid : ℤ → ℕ → ℤ
div_euclid (pos n) d = pos (n / d)
div_euclid (negsuc n) d = negsuc (n / d)

-- The unscaled digits at the scale `target`, if no digit is lost and none overflows.
unfoldable pub rescaled : Decimal → ℕ → Option ℤ
rescaled d target =
    if leb d.scale target
    then checked_mul d.unscaled (pow10 (target - d.scale))
    else checked (rem_euclid d.unscaled (pow10 (d.scale - target)) == 0)
        (div_euclid d.unscaled (pow10 (d.scale - target)))

abbrev pub within : DecimalType → ℤ → Option Decimal
within dt unscaled =
    if leb (pow10 dt.precision) (unsigned_abs unscaled)
    then none
    else accepted (new_decimal unscaled dt.scale)

unfoldable pub rescale : Decimal → DecimalType → Option Decimal
rescale d dt = or_none (rescaled d dt.scale) (within dt)

abbrev as_decimal : Option Decimal → Option Value
as_decimal none = none
as_decimal (some d) = some (Value.decimal d)

unfoldable pub int_to_decimal : ℤ → DecimalType → Option Value
int_to_decimal n dt = as_decimal (or_none (checked_mul n (pow10 dt.scale)) (within dt))

-- The fields of an `f64`: sign, exponent and significand.
abbrev pub negative : ℕ → Bool
negative f = leb (2 ^ 63) f

abbrev pub exponent : ℕ → ℕ
exponent f = f / 2 ^ 52 % 2048

abbrev pub significand : ℕ → ℕ
significand f = if exponent f == 0 then f % 2 ^ 52 else f % 2 ^ 52 + 2 ^ 52

abbrev pub is_finite : ℕ → Bool
is_finite f = not (exponent f == 2047)

-- The power of two that the significand is scaled by, plus 1075.
abbrev pub scale_of : ℕ → ℕ
scale_of f = if exponent f == 0 then 1 else exponent f

-- The magnitude of an `f64` without a fraction.
unfoldable pub whole : ℕ → Option ℕ
whole f =
    if leb 1075 (scale_of f)
    then some (significand f * 2 ^ (scale_of f - 1075))
    else checked (significand f % 2 ^ (1075 - scale_of f) == 0)
        (significand f / 2 ^ (1075 - scale_of f))

-- `-n`
abbrev pub opposite : ℕ → ℤ
opposite zero = pos 0
opposite (suc n) = negsuc n

unfoldable pub float_to_int : ℕ → Option Value
float_to_int f =
    if is_finite f
    then or_none (whole f) (λ n.
      if negative f
      then checked (leb n (2 ^ 63)) (Value.int64 (opposite n))
      else checked (ltb n (2 ^ 63)) (Value.int64 (pos n)))
    else none

unfoldable pub float_to_uint : ℕ → Option Value
float_to_uint f =
    if is_finite f
    then or_none (whole f)
        (λ n. checked ((if negative f then n == 0 else true) && ltb n (2 ^ 64)) (Value.uint64 n))
    else none

-- The place of the highest bit of `n`, of `bits` at most.
unfoldable pub log2 : ℕ → ℕ → ℕ
log2 zero n = 0
log2 (suc bits) n = let rest = log2 bits (n / 2) in if ltb n 2 then 0 else rest + 1

-- `as f64` of a number up to 2 ^ 53, which is exact.
unfoldable pub nat_to_float : ℕ → ℕ
nat_to_float zero = 0
nat_to_float (suc n) =
    let k = log2 64 (suc n) in (k + 1023) * 2 ^ 52 + (suc n * 2 ^ 52 / 2 ^ k - 2 ^ 52)

unfoldable pub int_to_float : ℤ → ℕ
int_to_float (pos n) = nat_to_float n
int_to_float (negsuc n) = 2 ^ 63 + nat_to_float (n + 1)

-- `decimal_to_int` and `decimal_to_uint` up to their ranges.
unfoldable pub decimal_whole : Decimal → Option ℤ
decimal_whole d =
    checked (rem_euclid d.unscaled (pow10 d.scale) == 0) (div_euclid d.unscaled (pow10 d.scale))

unfoldable pub decimal_to_int : Decimal → Option Value
decimal_to_int d = or_none (decimal_whole d) (λ n. checked (is_i64 n) (Value.int64 n))

abbrev pub to_uint : ℤ → Option Value
to_uint (pos n) = checked (ltb n (2 ^ 64)) (Value.uint64 n)
to_uint (negsuc n) = none

unfoldable pub decimal_to_uint : Decimal → Option Value
decimal_to_uint d = or_none (decimal_whole d) to_uint

unfoldable pub date_to_timestamp : ℤ → Option Value
date_to_timestamp days =
    let ns = times days 86_400_000_000_000 in checked (is_i64 ns) (Value.timestamp ns)

abbrev pub int_to_uint : ℤ → Option Value
int_to_uint (pos n) = some (Value.uint64 n)
int_to_uint (negsuc n) = none

unfoldable mutual
  pub coerce : Value → DataType → Option Value
  coerce Value.null ty = some Value.null
  coerce (Value.bool b) DataType.bool = some (Value.bool b)
  coerce (Value.int64 n) DataType.int64 = some (Value.int64 n)
  coerce (Value.int64 n) DataType.uint64 = int_to_uint n
  coerce (Value.int64 n) DataType.float64 =
      checked (leb (unsigned_abs n) (2 ^ 53)) (Value.float64 (int_to_float n))
  coerce (Value.int64 n) (DataType.decimal dt) = int_to_decimal n dt
  coerce (Value.uint64 n) DataType.uint64 = some (Value.uint64 n)
  coerce (Value.uint64 n) DataType.int64 = checked (ltb n (2 ^ 63)) (Value.int64 (pos n))
  coerce (Value.uint64 n) DataType.float64 =
      checked (leb n (2 ^ 53)) (Value.float64 (nat_to_float n))
  coerce (Value.uint64 n) (DataType.decimal dt) = int_to_decimal (pos n) dt
  coerce (Value.float64 f) DataType.float64 = some (Value.float64 f)
  coerce (Value.float64 f) DataType.int64 = float_to_int f
  coerce (Value.float64 f) DataType.uint64 = float_to_uint f
  coerce (Value.decimal d) (DataType.decimal dt) = as_decimal (rescale d dt)
  coerce (Value.decimal d) DataType.int64 = decimal_to_int d
  coerce (Value.decimal d) DataType.uint64 = decimal_to_uint d
  coerce (Value.string s) DataType.string = some (Value.string s)
  coerce (Value.bytes b) DataType.bytes = some (Value.bytes b)
  coerce (Value.timestamp t) DataType.timestamp = some (Value.timestamp t)
  coerce (Value.date d) DataType.date = some (Value.date d)
  coerce (Value.date d) DataType.timestamp = date_to_timestamp d
  coerce (Value.uuid u) DataType.uuid = some (Value.uuid u)
  coerce (Value.ip a) DataType.ip = some (Value.ip a)
  coerce (Value.list items) (DataType.list elem) =
      or_none (coerce_items items elem) (λ vs. some (Value.list vs))
  coerce v ty = none

  pub coerce_items : Values → DataType → Option Values
  coerce_items nil elem = some nil
  coerce_items (cons v vs) elem =
      or_none (coerce v elem) (λ w. or_none (coerce_items vs elem) (λ ws. some (cons w ws)))

unfoldable pub fits : Value → DataType → Bool
fits v ty = elim (coerce v ty) [ none ↦ false | some w ↦ true ]
