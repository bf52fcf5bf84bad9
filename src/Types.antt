-- ===== src/Types.antt =====
-- src/types/datatype.rs and src/types/value.rs: the column types and the runtime values. A signed
-- integer of any width is an integer with its range written out; a FLOAT64 is its IEEE 754 bit
-- pattern; a STRING is its UTF-8 bytes; the 16 bytes of UUID and IP are a list.
pub mod Fit
use adelie.Base.{ℕ, ◌+◌, ◌-◌, ◌^◌, List, Bool, true, false}
use adelie.Base.{ltb, leb, ◌==◌, ◌||◌, if◌then◌else◌}
use adelie.Base.Text.{Text}

-- `negsuc n` is -(n + 1).
pub data ℤ : Type 0 where
  pos : ℕ → ℤ
  negsuc : ℕ → ℤ

-- `unsigned_abs`
abbrev pub unsigned_abs : ℤ → ℕ
unsigned_abs (pos n) = n
unsigned_abs (negsuc n) = n + 1

pub record DecimalType : Type 0 where
  pub precision : ℕ
  pub scale : ℕ

pub data DataType : Type 0 where
  bool int64 uint64 float64 : DataType
  decimal : DecimalType → DataType
  string bytes timestamp date uuid ip : DataType
  list : DataType → DataType

pub data TypeError : Type 0 where
  decimal_precision : ℕ → TypeError
  decimal_scale : ℕ → ℕ → TypeError
  nested_list : TypeError

pub data Checked {ℓ} (A : Type ℓ) : Type ℓ where
  ok : A → Checked A
  err : TypeError → Checked A

-- `DecimalType::new`
unfoldable pub new_decimal_type : ℕ → ℕ → Checked DecimalType
new_decimal_type precision scale =
    if precision == 0 || ltb 38 precision
    then err (decimal_precision precision)
    else if ltb precision scale
    then err (decimal_scale precision scale)
    else ok (record { precision = precision; scale = scale })

-- `ListType::new`
unfoldable pub new_list_type : DataType → Checked DataType
new_list_type (DataType.list elem) = err nested_list
new_list_type elem = ok (DataType.list elem)

pub record Decimal : Type 0 where
  pub unscaled : ℤ
  pub scale : ℕ

mutual
  pub data Value : Type 0 where
    null : Value
    bool : Bool → Value
    int64 : ℤ → Value
    uint64 : ℕ → Value
    float64 : ℕ → Value
    decimal : Decimal → Value
    string : Text → Value
    bytes : List ℕ → Value
    timestamp : ℤ → Value
    date : ℤ → Value
    uuid : List ℕ → Value
    ip : List ℕ → Value
    list : Values → Value

  -- `Vec<Value>`
  pub data Values : Type 0 where
    nil : Values
    cons : Value → Values → Values

unfoldable pub is_null : Value → Bool
is_null Value.null = true
is_null v = false

abbrev pub pow10 : ℕ → ℕ
pow10 exp = 10 ^ exp

-- `Decimal::new`
unfoldable pub new_decimal : ℤ → ℕ → Checked Decimal
new_decimal unscaled scale =
    if ltb 38 scale
    then err (decimal_scale 38 scale)
    else if leb (pow10 38) (unsigned_abs unscaled)
    then err (decimal_precision 39)
    else ok (record { unscaled = unscaled; scale = scale })
