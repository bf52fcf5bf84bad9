-- ===== src/Wire.antt =====
-- src/storage/segment/wire.rs and error.rs: the error and result of a decoder, its state-passing
-- composition, and the zigzag map. A byte, and a word of any width, is a number; a signed word is
-- its two's complement bit pattern, so that the casts between `i64` and `u64` change nothing.
-- The two sides of the format are the children Sink and Cursor.
pub mod Sink
pub mod Cursor
pub mod RoundTrip
pub mod Varint
pub mod Fixed
pub mod Zigzag
pub mod Bytes
pub mod Bounds
pub mod Trips
pub mod Yields
use Prim.Native.String.{String}
use adelie.Base.{ℕ, ◌+◌, ◌-◌, ◌*◌, ◌/◌, ◌%◌, ◌^◌, ◌<◌, bit_and, bit_xor, Bool, true, false}
use adelie.Base.{List, Option, none, some, ltb, ◌==◌, if◌then◌else◌, ◌≡◌, refl, arith}

pub data DecodeError : Type 0 where
  truncated : DecodeError
  malformed : String → DecodeError
  unknown_type_id : ℕ → DecodeError
  unknown_encoding : ℕ → DecodeError

-- `Result<A, E>`, for the decoders' errors and for those of what calls them.
pub data Outcome {ℓ} (E : Type 0) (A : Type ℓ) : Type ℓ where
  ok : A → Outcome E A
  err : E → Outcome E A

abbrev pub Result {ℓ} : Type ℓ → Type ℓ
Result A = Outcome DecodeError A

-- `?`: a decoder's step, and what is done with its value.
abbrev pub ◌>>=◌ {ℓ ℓ'} :
    {E : Type 0} {Value : Type ℓ} {Next : Type ℓ'}
    → Outcome E Value
    → (Value → Outcome E Next)
    → Outcome E Next
err why >>= next = err why
ok value >>= next = next value

abbrev pub ◌>>◌ {ℓ} :
    {E : Type 0} {Next : Type ℓ} → Outcome E (Unit {0}) → Outcome E Next → Outcome E Next
check >> next = check >>= (λ _. next)

infixl 5 ◌>>=◌ ◌>>◌
-- A chain that succeeds has passed each of its steps.
pub ok_split {ℓ ℓ'} :
    {E : Type 0} {Value : Type ℓ} {Next : Type ℓ'} (step : Outcome E Value)
    (next : Value → Outcome E Next) {out : Next}
    → (step >>= next) ≡ ok out
    → (value : Value) × (step ≡ ok value) × (next value ≡ ok out)
ok_split (err why) next done = cc
ok_split (ok value) next done = (value, refl, done)

-- An early `return Err(e)` where a condition holds.
abbrev pub fail_if : {E : Type 0} → Bool → E → Outcome E (Unit {0})
fail_if true e = err e
fail_if false e = ok tt

abbrev pub ok_or {ℓ} : {E : Type 0} {A : Type ℓ} → Option A → E → Outcome E A
ok_or none e = err e
ok_or (some a) e = ok a

-- 2 ^ 64 words, as `u64` or as the bit pattern of an `i64`.
abbrev pub u64_mod : ℕ
u64_mod = 2 ^ 64

abbrev pub IsU64 : ℕ → Type 0
IsU64 v = v < 2 ^ 64

abbrev pub IsByte : ℕ → Type 0
IsByte b = b < 256

abbrev pub wrapping_add : ℕ → ℕ → ℕ
wrapping_add a b = (a + b) % u64_mod

abbrev pub wrapping_sub : ℕ → ℕ → ℕ
wrapping_sub a b = (a + u64_mod - b) % u64_mod

-- `MAX_DECODE_ROWS` and `MAX_DECODE_BYTES` of segment/mod.rs
abbrev pub max_decode_rows : ℕ
max_decode_rows = 2 ^ 22

abbrev pub max_decode_bytes : ℕ
max_decode_bytes = 2 ^ 30

-- `v >> 63` of an `i64` copies the sign into every bit.
abbrev pub sign_fill : ℕ → ℕ
sign_fill v = if ltb v (2 ^ 63) then 0 else 2 ^ 64 - 1

unfoldable pub zigzag : ℕ → ℕ
zigzag v = bit_xor (v * 2 % 2 ^ 64) (sign_fill v)

-- `-((v & 1) as i64)`
abbrev pub wrapping_neg : ℕ → ℕ
wrapping_neg v = (2 ^ 64 - v) % 2 ^ 64

unfoldable pub unzigzag : ℕ → ℕ
unzigzag v = bit_xor (v / 2) (wrapping_neg (bit_and v 1))
