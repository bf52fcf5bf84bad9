-- ===== src/Bitpack.antt =====
-- src/storage/segment/encode/bitpack.rs: fields of any width up to 64 packed lowest bit first, and
-- the frame-of-reference block over them. A `u8` count of bits is a number, as all words are.
pub mod Writer
pub mod Reader
pub mod Fields
pub mod Block
use adelie.Base.{
  ℕ, zero, suc, ◌+◌, ◌-◌, ◌*◌, ◌/◌, ◌%◌, ◌^◌, min, bit_and, bit_or, List, [], ◌∷◌, ◌++◌,
}
use adelie.Base.{not, max, length, get_or, ltb, leb, ◌==◌, if◌then◌else◌}
use adelie.Wire.{Result, ok, err, truncated, malformed, fail_if, ◌>>=◌, ◌>>◌}
use adelie.Wire.{wrapping_add, wrapping_sub}
use adelie.Wire.Sink.{Sink}
use adelie.Wire.Cursor.{Cursor}
use adelie.Wire.Sink
use adelie.Wire.Cursor

-- `1u64 << 64` would overflow, hence the test.
unfoldable pub mask : ℕ → ℕ
mask bits = if leb 64 bits then 2 ^ 64 - 1 else 2 ^ bits - 1

pub record BitWriter : Type 0 where
  pub buf : List ℕ
  pub bits : ℕ

abbrev pub new : BitWriter
new = record { buf = []; bits = 0 }

-- `*buf.last_mut() |= b`. The buffer is not empty where this is called.
unfoldable pub or_last : List ℕ → ℕ → List ℕ
or_last [] b = []
or_last (x ∷ []) b = bit_or x b ∷ []
or_last (x ∷ y ∷ xs) b = x ∷ or_last (y ∷ xs) b

-- One round of the `while remaining > 0` of `write`: how many bits it takes, and the new writer.
abbrev pub room : ℕ → ℕ → ℕ
room bits remaining = min remaining (8 - bits % 8)

unfoldable pub write_round : ℕ → ℕ → BitWriter → BitWriter
unfolding mask or_last
write_round value remaining w =
    let bit_off = w.bits % 8 in
    let buf = if bit_off == 0 then w.buf ++ (0 ∷ []) else w.buf in
    let n = room w.bits remaining in
    let chunk = bit_and value (mask n) % 256 in
    record { buf = or_last buf (chunk * 2 ^ bit_off % 256); bits = w.bits + n }

-- The rounds, with fuel: each takes a bit at least, so `remaining` rounds are enough.
unfoldable pub write_loop : ℕ → ℕ → ℕ → BitWriter → BitWriter
write_loop zero value remaining w = w
write_loop (suc fuel) value remaining w =
    let n = room w.bits remaining in
    let next = write_loop fuel (value / 2 ^ n) (remaining - n) (write_round value remaining w) in
    if remaining == 0 then w else next

unfoldable pub write : ℕ → ℕ → BitWriter → BitWriter
unfolding mask write_loop write_round
write value bits w = write_loop bits (bit_and value (mask bits)) bits w

pub record BitReader : Type 0 where
  pub buf : List ℕ
  pub bits : ℕ

-- The `while got < bits` of `read`, with as much fuel as there are bits to get. The index stays in
-- the buffer because `read` has checked the length.
unfoldable pub read_loop : ℕ → ℕ → ℕ → ℕ → BitReader → ℕ × BitReader
unfolding mask
read_loop zero bits got result r = (result, r)
read_loop (suc fuel) bits got result r =
    let bit_off = r.bits % 8 in
    let n = room r.bits (bits - got) in
    let bits_here = bit_and (get_or r.buf (r.bits / 8) 0 / 2 ^ bit_off) (mask n % 256) in
    let result' = bit_or result (bits_here * 2 ^ got % 2 ^ 64) in
    let next = read_loop fuel bits (got + n) result' (record r { bits = r.bits + n }) in
    if ltb got bits then next else (result, r)

unfoldable pub read : ℕ → BitReader → Result (ℕ × BitReader)
unfolding read_loop
read bits r = do
  fail_if (ltb (length r.buf * 8) (r.bits + bits)) truncated
  ok (read_loop bits bits 0 0 r)

-- `values.iter().copied().min()` and `max()`, with `unwrap_or(0)`.
unfoldable pub minimum : List ℕ → ℕ
minimum [] = 0
minimum (x ∷ []) = x
minimum (x ∷ y ∷ xs) = min x (minimum (y ∷ xs))

unfoldable pub maximum : List ℕ → ℕ
maximum [] = 0
maximum (x ∷ xs) = max x (maximum xs)

-- `leading_zeros` of a word of `w` bits.
unfoldable pub leading_zeros : ℕ → ℕ → ℕ
leading_zeros zero x = 0
leading_zeros (suc w) x = let below = leading_zeros w x in if ltb x (2 ^ w) then suc below else 0

unfoldable pub write_all : ℕ → ℕ → List ℕ → BitWriter → BitWriter
write_all low width [] w = w
write_all low width (v ∷ vs) w = write_all low width vs (write (wrapping_sub v low) width w)

unfoldable pub write_for : List ℕ → Sink → Sink
unfolding write_all minimum maximum leading_zeros
write_for values out =
    let low = minimum values in
    let width = 64 - leading_zeros 64 (maximum values - low) in
    Sink.bytes (Sink.u8 (Sink.u64 out low) width) (write_all low width values new).buf

unfoldable pub read_all : ℕ → ℕ → ℕ → BitReader → Result (List ℕ)
read_all zero low width r = ok []
read_all (suc n) low width r = do
  (v, r') ← read width r
  vs ← read_all n low width r'
  ok (wrapping_add low v ∷ vs)

unfoldable pub read_for : ℕ → Cursor → Result (List ℕ × Cursor)
unfolding read_all
read_for rows c = do
  (low, c1) ← Cursor.u64 c
  (width, c2) ← Cursor.u8 c1
  fail_if (ltb 64 width) (malformed "for width exceeds 64")
  n ← Cursor.guard_len rows 0 c2
  (packed, c3) ← Cursor.bytes c2
  fail_if (not (length packed == (n * width + 7) / 8)) (malformed "for packed length mismatch")
  values ← read_all n low width (record { buf = packed; bits = 0 })
  ok (values, c3)
