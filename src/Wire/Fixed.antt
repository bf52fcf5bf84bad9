-- ===== src/Wire/Fixed.antt =====
-- The fixed-width words of src/storage/segment/wire.rs, and its single bytes.
use adelie.Base.{ℕ, zero, suc, ◌/◌, ◌^◌, ◌<◌, ◌≤◌, ◌≡◌, refl, ap, arith, pow-suc}
use adelie.Base.{List, [], ◌∷◌, ◌++◌, length, All}
use adelie.Wire.{ok, IsByte}
use adelie.Wire.Sink.{Sink, to_le_bytes}
use adelie.Wire.Cursor.{Cursor, from_le_bytes, word, take}
use adelie.Wire.Sink
use adelie.Wire.Cursor
use adelie.Wire.RoundTrip.{RoundTrips, cursor_at, take-cursor_at}

pub length-to_le_bytes : (n v : ℕ) → length (to_le_bytes n v) ≡ n
unfolding to_le_bytes
length-to_le_bytes zero v = refl
length-to_le_bytes (suc n) v = ap suc (length-to_le_bytes n (v / 256))

pub to_le_bytes-IsByte : (n v : ℕ) → All IsByte (to_le_bytes n v)
unfolding to_le_bytes
to_le_bytes-IsByte zero v = tt
to_le_bytes-IsByte (suc n) v = (omega arith, to_le_bytes-IsByte n (v / 256))

pub from_le_bytes-to_le_bytes : (n v : ℕ) → v < 256 ^ n → from_le_bytes (to_le_bytes n v) ≡ v
unfolding from_le_bytes to_le_bytes
from_le_bytes-to_le_bytes zero v h = omega arith
from_le_bytes-to_le_bytes (suc n) v h =
    omega (arith, from_le_bytes-to_le_bytes n (v / 256) (omega (arith, pow-suc 256 n)))

pub word-cursor_at :
    (n v : ℕ) (pre post : List ℕ)
    → v < 256 ^ n
    → word n (cursor_at pre (to_le_bytes n v ++ post))
      ≡ ok (v, cursor_at (pre ++ to_le_bytes n v) post)
unfolding word
word-cursor_at n v pre post h =
    let e = take-cursor_at pre (to_le_bytes n v) post in
    rw (rw length-to_le_bytes at e, from_le_bytes-to_le_bytes n v h)

pub u8-cursor_at :
    (v : ℕ) (pre post : List ℕ)
    → Cursor.u8 (cursor_at pre (v ∷ post)) ≡ ok (v, cursor_at (pre ++ (v ∷ [])) post)
unfolding Cursor.u8
u8-cursor_at v pre post = rw (take-cursor_at pre (v ∷ []) post)

-- A byte.
pub u8-RoundTrips : (v : ℕ) → RoundTrips Sink.u8 Cursor.u8 v
unfolding Sink.u8
u8-RoundTrips v = record { written = v ∷ []; writes = λ buf. refl; reads = u8-cursor_at v }

pub u8_written : (v : ℕ) → 1 ≤ length (u8-RoundTrips v).written
unfolding u8-RoundTrips
u8_written v = omega arith

pub u32-RoundTrips : (v : ℕ) → v < 2 ^ 32 → RoundTrips Sink.u32 Cursor.u32 v
unfolding Sink.u32 Cursor.u32
u32-RoundTrips v h = record {
  written = to_le_bytes 4 v;
  writes = λ buf. refl;
  reads = λ pre post. word-cursor_at 4 v pre post h;
}

-- For every `u64`, `Cursor::u64` reads back what `Sink::u64` appended.
pub u64-RoundTrips : (v : ℕ) → v < 2 ^ 64 → RoundTrips Sink.u64 Cursor.u64 v
unfolding Sink.u64 Cursor.u64
u64-RoundTrips v h = record {
  written = to_le_bytes 8 v;
  writes = λ buf. refl;
  reads = λ pre post. word-cursor_at 8 v pre post h;
}

-- For every `i128` bit pattern, `Cursor::i128` reads back what `Sink::i128` appended.
pub i128-RoundTrips : (v : ℕ) → v < 2 ^ 128 → RoundTrips Sink.i128 Cursor.i128 v
unfolding Sink.i128 Cursor.i128
i128-RoundTrips v h = record {
  written = to_le_bytes 16 v;
  writes = λ buf. refl;
  reads = λ pre post. word-cursor_at 16 v pre post h;
}
