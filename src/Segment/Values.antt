-- ===== src/Segment/Values.antt =====
-- src/storage/segment/value.rs: the codec of a Value of a known type. An integer is written as its two's
-- complement.
use adelie.Base.{ℕ, suc, ◌-◌, ◌*◌, ◌^◌, ◌<◌, ◌≡◌, refl, ap, arith, length}
use adelie.Base.{Bool, true, false, Option, none, some, ltb, leb, ◌==◌, if◌then◌else◌}
use adelie.Base.Utf8.{is_utf8}
use adelie.Types.{
  ℤ, pos, negsuc, unsigned_abs, DataType, DecimalType, Decimal, Value, Checked, new_decimal, pow10,
}
use adelie.Wire.{Result, DecodeError, ok, err, malformed, ◌>>=◌, ◌>>◌, fail_if, IsU64}
use adelie.Wire.Sink.{Sink}
use adelie.Wire.Sink
use adelie.Wire.Cursor.{Cursor}
use adelie.Wire.Cursor
use adelie.Wire.Trips.{Trips, Writer, Reader, writes, field_then, last_field}
use adelie.Wire.Trips.Fields.{bytes-Trips, str-Trips, u8-Trips, word-Trips, raw-Trips, write_opt}
use adelie.Segment.TypeId.{or_malformed}

-- The bits of a signed word, for words from -half up to half, and back.
abbrev pub to_bits : ℕ → ℤ → ℕ
to_bits half (pos n) = n
to_bits half (negsuc n) = 2 * half - 1 - n

abbrev pub of_bits : ℕ → ℕ → ℤ
of_bits half b = if ltb b half then pos b else negsuc (2 * half - 1 - b)

abbrev pub Fits : ℕ → ℤ → Type 0
Fits half (pos n) = n < half
Fits half (negsuc n) = n < half

pub of_bits-to_bits : (half : ℕ) (z : ℤ) → Fits half z → of_bits half (to_bits half z) ≡ z
of_bits-to_bits half (pos n) h = ground arith
of_bits-to_bits half (negsuc n) h = rw high (ap negsuc (omega arith))
  where
    high : ltb (2 * half - 1 - n) half ≡ false
    high = ground arith

pub to_bits-lt : (half : ℕ) (z : ℤ) → Fits half z → to_bits half z < 2 * half
to_bits-lt half (pos n) h = omega arith
to_bits-lt half (negsuc n) h = omega arith

abbrev bool_byte : Bool → ℕ
bool_byte true = 1
bool_byte false = 0

-- A value that does not match the type is a panic.
unfoldable pub encode_value : Value → DataType → Writer
encode_value (Value.bool b) DataType.bool buf = some (Sink.u8 buf (bool_byte b))
encode_value (Value.int64 x) DataType.int64 buf = some (Sink.i64 buf (to_bits (2 ^ 63) x))
encode_value (Value.uint64 x) DataType.uint64 buf = some (Sink.u64 buf x)
encode_value (Value.float64 x) DataType.float64 buf = some (Sink.u64 buf x)
encode_value (Value.decimal d) (DataType.decimal dt) buf =
    some (Sink.i128 buf (to_bits (2 ^ 127) d.unscaled))
encode_value (Value.string s) DataType.string buf = some (Sink.str buf s)
encode_value (Value.bytes b) DataType.bytes buf = some (Sink.bytes buf b)
encode_value (Value.timestamp x) DataType.timestamp buf = some (Sink.i64 buf (to_bits (2 ^ 63) x))
encode_value (Value.date x) DataType.date buf = some (Sink.i32 buf (to_bits (2 ^ 31) x))
encode_value (Value.uuid u) DataType.uuid buf = some (Sink.raw buf u)
encode_value (Value.ip ip) DataType.ip buf = some (Sink.raw buf ip)
encode_value v ty buf = none

abbrev pub read_as : {A : Type 0} → (A → Value) → Reader DecodeError A → Reader DecodeError Value
read_as make read cur = read cur >>= (λ x. ok (make x.0, x.1))

abbrev pub bool_of : ℕ → Result Bool
bool_of n =
    if n == 0 then ok false else if n == 1 then ok true else err (malformed "bool byte not 0 or 1")

unfoldable pub decode_decimal : DecimalType → Reader DecodeError Value
decode_decimal dt cur = do
  (bits, cur') ← Cursor.i128 cur
  let unscaled = of_bits (2 ^ 127) bits
  fail_if (leb (pow10 dt.precision) (unsigned_abs unscaled))
      (malformed "decimal magnitude exceeds precision")
  d ← or_malformed (new_decimal unscaled dt.scale) (malformed "bad decimal value")
  ok (Value.decimal d, cur')

unfoldable pub decode_value : DataType → Reader DecodeError Value
decode_value DataType.bool cur = do
  (n, cur') ← Cursor.u8 cur
  b ← bool_of n
  ok (Value.bool b, cur')
decode_value DataType.int64 cur = read_as (λ n. Value.int64 (of_bits (2 ^ 63) n)) Cursor.i64 cur
decode_value DataType.uint64 cur = read_as Value.uint64 Cursor.u64 cur
decode_value DataType.float64 cur = read_as Value.float64 Cursor.u64 cur
decode_value (DataType.decimal dt) cur = decode_decimal dt cur
decode_value DataType.string cur = read_as Value.string Cursor.str cur
decode_value DataType.bytes cur = read_as Value.bytes Cursor.bytes cur
decode_value DataType.timestamp cur =
    read_as (λ n. Value.timestamp (of_bits (2 ^ 63) n)) Cursor.i64 cur
decode_value DataType.date cur = read_as (λ n. Value.date (of_bits (2 ^ 31) n)) Cursor.i32 cur
decode_value DataType.uuid cur = read_as Value.uuid (Cursor.raw 16) cur
decode_value DataType.ip cur = read_as Value.ip (Cursor.raw 16) cur
decode_value (DataType.list elem) cur = err (malformed "list has no value codec")

unfoldable pub encode_opt : Option Value → DataType → Writer
encode_opt v ty = write_opt (λ v. encode_value v ty) v

unfoldable pub decode_opt : DataType → Reader DecodeError (Option Value)
decode_opt ty cur = do
  (tag, cur') ← Cursor.u8 cur
  if tag == 0
      then ok (none, cur')
      else if tag == 1
      then (decode_value ty cur' >>= (λ x. ok (some x.0, x.1)))
      else err (malformed "opt_value tag not 0 or 1")

pub record IsDecimal (d : Decimal) (dt : DecimalType) : Type 0 where
  pub below : unsigned_abs d.unscaled < pow10 dt.precision
  pub scale : d.scale ≡ dt.scale
  pub new : new_decimal d.unscaled d.scale ≡ Checked.ok d
  pub fits : Fits (2 ^ 127) d.unscaled

-- A value of the type, within the ranges of the source's integers; LIST has none with a codec.
abbrev pub IsValue : Value → DataType → Type 0
IsValue (Value.bool b) DataType.bool = Unit
IsValue (Value.int64 x) DataType.int64 = Fits (2 ^ 63) x
IsValue (Value.uint64 x) DataType.uint64 = IsU64 x
IsValue (Value.float64 x) DataType.float64 = IsU64 x
IsValue (Value.decimal d) (DataType.decimal dt) = IsDecimal d dt
IsValue (Value.string s) DataType.string = is_utf8 s ≡ true
IsValue (Value.bytes b) DataType.bytes = Unit
IsValue (Value.timestamp x) DataType.timestamp = Fits (2 ^ 63) x
IsValue (Value.date x) DataType.date = Fits (2 ^ 31) x
IsValue (Value.uuid u) DataType.uuid = length u ≡ 16
IsValue (Value.ip ip) DataType.ip = length ip ≡ 16
IsValue v ty = ⊥

pub no_list : (v : Value) (elem : DataType) → IsValue v (DataType.list elem) → ⊥
no_list Value.null elem h = h
no_list (Value.bool b) elem h = h
no_list (Value.int64 x) elem h = h
no_list (Value.uint64 x) elem h = h
no_list (Value.float64 x) elem h = h
no_list (Value.decimal d) elem h = h
no_list (Value.string s) elem h = h
no_list (Value.bytes b) elem h = h
no_list (Value.timestamp x) elem h = h
no_list (Value.date x) elem h = h
no_list (Value.uuid u) elem h = h
no_list (Value.ip ip) elem h = h
no_list (Value.list vs) elem h = h

-- The reader of a value's last field.
read_as-Trips :
    {A : Type 0} {w : Writer} {read : Reader DecodeError A} {a : A} (make : A → Value) (v : Value)
    → make a ≡ v
    → Trips w read a
    → Trips w (read_as make read) v
read_as-Trips make v e t = last_field _ (λ c. ap (λ v. ok (v, c)) e) t

signed-Trips :
    (n half : ℕ) (x : ℤ) (make : ℤ → Value)
    → 2 * half ≡ 256 ^ suc n
    → Fits half x
    → Trips
        (writes (λ buf. Sink.raw buf (Sink.to_le_bytes (suc n) (to_bits half x))))
        (read_as (λ b. make (of_bits half b)) (Cursor.word (suc n)))
        (make x)
signed-Trips n half x make e h =
    read_as-Trips (λ b. make (of_bits half b)) (make x) (ap make (of_bits-to_bits half x h))
      (word-Trips n (to_bits half x) (omega (arith, to_bits-lt half x h)))

decimal-Trips :
    (d : Decimal) (dt : DecimalType)
    → IsDecimal d dt
    → Trips
        (encode_value (Value.decimal d) (DataType.decimal dt))
        (decode_decimal dt)
        (Value.decimal d)
unfolding encode_value decode_decimal Sink.i128 Cursor.i128
decimal-Trips d dt h =
    last_field _ (λ c. rw (of_bits-to_bits (2 ^ 127) d.unscaled h.fits, small, ← h.scale, h.new))
      (word-Trips 15 (to_bits (2 ^ 127) d.unscaled)
        (omega (arith, to_bits-lt (2 ^ 127) d.unscaled h.fits)))
  where
    small : leb (pow10 dt.precision) (unsigned_abs d.unscaled) ≡ false
    small = ground (arith, h.below)

-- A value of the type is read back as it was, and to write it does not panic.
pub value-Trips :
    (v : Value) (ty : DataType) → IsValue v ty → Trips (encode_value v ty) (decode_value ty) v
unfolding encode_value decode_value Sink.i64 Sink.i32 Sink.u64 Cursor.i64 Cursor.i32 Cursor.u64
value-Trips (Value.bool true) DataType.bool h = last_field _ (λ c. refl) (u8-Trips 1)
value-Trips (Value.bool false) DataType.bool h = last_field _ (λ c. refl) (u8-Trips 0)
value-Trips (Value.int64 x) DataType.int64 h = signed-Trips 7 (2 ^ 63) x Value.int64 (omega arith) h
value-Trips (Value.uint64 x) DataType.uint64 h =
    read_as-Trips Value.uint64 _ refl (word-Trips 7 x h)
value-Trips (Value.float64 x) DataType.float64 h =
    read_as-Trips Value.float64 _ refl (word-Trips 7 x h)
value-Trips (Value.decimal d) (DataType.decimal dt) h = decimal-Trips d dt h
value-Trips (Value.string s) DataType.string h = read_as-Trips Value.string _ refl (str-Trips s h)
value-Trips (Value.bytes b) DataType.bytes h = read_as-Trips Value.bytes _ refl (bytes-Trips b)
value-Trips (Value.timestamp x) DataType.timestamp h =
    signed-Trips 7 (2 ^ 63) x Value.timestamp (omega arith) h
value-Trips (Value.date x) DataType.date h = signed-Trips 3 (2 ^ 31) x Value.date (omega arith) h
value-Trips (Value.uuid u) DataType.uuid h = read_as-Trips Value.uuid _ refl (raw-Trips 15 u h)
value-Trips (Value.ip ip) DataType.ip h = read_as-Trips Value.ip _ refl (raw-Trips 15 ip h)
value-Trips v ty h = elim h [ ]

pub opt_value-Trips :
    (v : Option Value) (ty : DataType)
    → ((x : Value) → v ≡ some x → IsValue x ty)
    → Trips (encode_opt v ty) (decode_opt ty) v
unfolding encode_opt decode_opt
opt_value-Trips none ty h = last_field _ (λ c. refl) (u8-Trips 0)
opt_value-Trips (some v) ty h =
    field_then _ (u8-Trips 1) (last_field _ (λ c. refl) (value-Trips v ty (h v refl)))
