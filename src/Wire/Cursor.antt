-- ===== src/Wire/Cursor.antt =====
-- `Cursor` of src/storage/segment/wire.rs: a buffer and a position. Each method takes the cursor
-- and returns its answer with the cursor moved on, or an error.
use adelie.Base.{ℕ, zero, suc, ◌+◌, ◌-◌, ◌*◌, ◌%◌, ◌^◌, bit_and, bit_or, Bool, ◌&&◌}
use adelie.Base.{List, [], ◌∷◌, length, drop, take as take_bytes, get_or, ltb, leb, ◌==◌}
use adelie.Base.{if◌then◌else◌, not}
use adelie.Base.Utf8.{is_utf8}
use adelie.Wire.{Result, ok, err, truncated, malformed, fail_if, ◌>>=◌, ◌>>◌, unzigzag}
use adelie.Wire.{max_decode_rows}

pub record Cursor : Type 0 where
  pub buf : List ℕ
  pub pos : ℕ

unfoldable pub new : List ℕ → Cursor
new buf = record { buf = buf; pos = 0 }

abbrev pub remaining : Cursor → ℕ
remaining c = length c.buf - c.pos

abbrev pub is_empty : Cursor → Bool
is_empty c = remaining c == 0

unfoldable pub take : ℕ → Cursor → Result (List ℕ × Cursor)
take n c =
    if ltb (remaining c) n
    then err truncated
    else ok (take_bytes n (drop c.pos c.buf), record c { pos = c.pos + n })

unfoldable pub u8 : Cursor → Result (ℕ × Cursor)
u8 c = do (s, c') ← take 1 c; ok (get_or s 0 0, c')

unfoldable pub from_le_bytes : List ℕ → ℕ
from_le_bytes [] = 0
from_le_bytes (b ∷ bs) = b + 256 * from_le_bytes bs

-- A little-endian word of `n` bytes.
unfoldable pub word : ℕ → Cursor → Result (ℕ × Cursor)
word n c = do (s, c') ← take n c; ok (from_le_bytes s, c')

unfoldable pub u32 : Cursor → Result (ℕ × Cursor)
u32 = word 4

unfoldable pub u64 : Cursor → Result (ℕ × Cursor)
u64 = word 8

unfoldable pub i32 : Cursor → Result (ℕ × Cursor)
i32 = word 4

unfoldable pub i64 : Cursor → Result (ℕ × Cursor)
i64 = word 8

unfoldable pub i128 : Cursor → Result (ℕ × Cursor)
i128 = word 16

-- `result |= ((byte & 0x7f) as u64) << (7 * i)`
abbrev pub or_group : ℕ → ℕ → ℕ → ℕ
or_group result byte i = bit_or result (bit_and byte 0x7f * 2 ^ (7 * i) % 2 ^ 64)

-- `for i in 0..10`, with the rounds that are left.
unfoldable pub uvarint_loop : ℕ → ℕ → ℕ → Cursor → Result (ℕ × Cursor)
uvarint_loop zero i result c = err (malformed "varint overflow")
uvarint_loop (suc left) i result c = do
  (byte, c') ← u8 c
  let result' = or_group result byte i
  let next = uvarint_loop left (i + 1) result' c'
  if i == 9 && ltb 1 byte
      then err (malformed "varint overflow")
      else if bit_and byte 0x80 == 0
      then ok (result', c')
      else next

unfoldable pub uvarint : Cursor → Result (ℕ × Cursor)
uvarint c = uvarint_loop 10 0 0 c

unfoldable pub svarint : Cursor → Result (ℕ × Cursor)
svarint c = do (v, c') ← uvarint c; ok (unzigzag v, c')

-- `usize` has 64 bits, so `usize::try_from` does not fail.
unfoldable pub bytes : Cursor → Result (List ℕ × Cursor)
bytes c = do (len, c') ← uvarint c; take len c'

unfoldable pub str : Cursor → Result (List ℕ × Cursor)
str c = do (s, c') ← bytes c; fail_if (not (is_utf8 s)) (malformed "invalid utf-8"); ok (s, c')

unfoldable pub raw : ℕ → Cursor → Result (List ℕ × Cursor)
raw n c = take n c

-- The body of a record as a cursor of its own, and the outer cursor behind the whole body.
unfoldable pub record_body : Cursor → Result (Cursor × Cursor)
record_body c = do (b, c') ← bytes c; ok (new b, c')

-- The product that `checked_mul` refuses does not fit a `u64`.
unfoldable pub guard_len : ℕ → ℕ → Cursor → Result ℕ
guard_len n min_bytes_each c = do
  fail_if (ltb max_decode_rows n) (malformed "row count exceeds MAX_DECODE_ROWS")
  fail_if (leb (2 ^ 64) (n * min_bytes_each)) truncated
  fail_if (ltb (remaining c) (n * min_bytes_each)) truncated
  ok n
