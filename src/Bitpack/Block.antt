-- ===== src/Bitpack/Block.antt =====
-- The frame-of-reference block of src/storage/segment/encode/bitpack.rs: the smallest value, the
-- width of the widest difference, and the differences packed.
use adelie.Base.{
  ℕ, zero, suc, ◌+◌, ◌-◌, ◌*◌, ◌/◌, ◌%◌, ◌^◌, ◌<◌, ◌≤◌, ◌≡◌, refl, ap, ◌∙◌, arith, min, max,
}
use adelie.Base.{List, [], ◌∷◌, ◌++◌, append_assoc, length, All, ltb, ◌==◌, not, false}
use adelie.Wire.{IsU64, ok, max_decode_rows}
use adelie.Wire.Sink.{Sink}
use adelie.Wire.Sink
use adelie.Wire.Cursor.{Cursor, from_le_bytes}
use adelie.Wire.Cursor
use adelie.Wire.RoundTrip.{RoundTrips}
use adelie.Wire.Fixed.{u8-RoundTrips, u64-RoundTrips}
use adelie.Wire.Bytes.{bytes-RoundTrips}
use adelie.Bitpack.{new, write_all, write_for, read_for, read_all, minimum, maximum, leading_zeros}
use adelie.Bitpack.Writer.{IsPacked}
use adelie.Base.{subst}
use native.Mathlib.Nat.{mod-eq_of_lt}
use adelie.Bitpack.Reader.{field}
use adelie.Bitpack.Fields.{Fits, write_all-Holds, read_all_lem, packed}

leading_zeros_lem :
    (w x : ℕ) → x < 2 ^ w → (leading_zeros w x ≤ w) × (x < 2 ^ (w - leading_zeros w x))
unfolding leading_zeros
leading_zeros_lem zero x h = (omega arith, h)
leading_zeros_lem (suc w) x h = ground (arith, leading_zeros_lem w x)

maximum-ge : (x : ℕ) (vs : List ℕ) → All (λ v. v ≤ x) vs → maximum vs ≤ x
unfolding maximum
maximum-ge x [] h = omega arith
maximum-ge x (v ∷ vs) h = omega (arith, maximum-ge x vs h.1)

All-weaken : (P Q : ℕ → Type 0) → ((v : ℕ) → P v → Q v) → (vs : List ℕ) → All P vs → All Q vs
All-weaken P Q f [] h = tt
All-weaken P Q f (v ∷ vs) h = (f v h.0, All-weaken P Q f vs h.1)

All-both : (P Q : ℕ → Type 0) (vs : List ℕ) → All P vs → All Q vs → All (λ v. P v × Q v) vs
All-both P Q [] h k = tt
All-both P Q (v ∷ vs) h k = ((h.0, k.0), All-both P Q vs h.1 k.1)

minimum-lt : (vs : List ℕ) → All IsU64 vs → IsU64 (minimum vs)
unfolding minimum
minimum-lt [] h = omega arith
minimum-lt (v ∷ []) h = h.0
minimum-lt (v ∷ w ∷ vs) h = omega (arith, h.0)

le-maximum : (vs : List ℕ) → All (λ v. v ≤ maximum vs) vs
unfolding maximum
le-maximum [] = tt
le-maximum (v ∷ vs) = (
  omega arith,
  All-weaken _ (λ x. x ≤ max v (maximum vs)) (λ x h. omega arith) vs (le-maximum vs),
)

minimum-le : (vs : List ℕ) → All (λ v. minimum vs ≤ v) vs
unfolding minimum
minimum-le [] = tt
minimum-le (v ∷ []) = (omega arith, tt)
minimum-le (v ∷ w ∷ vs) = (
  omega arith,
  All-weaken _ (λ x. min v (minimum (w ∷ vs)) ≤ x) (λ x h. omega arith) (w ∷ vs)
      (minimum-le (w ∷ vs)),
)

pub new-IsPacked : IsPacked new
unfolding from_le_bytes
new-IsPacked = record { filled = refl; clear = omega arith; small = tt }

-- A count without a claim on the bytes left is only held to the cap.
pub guard_len_zero : (n : ℕ) (c : Cursor) → n ≤ max_decode_rows → Cursor.guard_len n 0 c ≡ ok n
unfolding Cursor.guard_len
guard_len_zero n c h = ground arith

mul-le : (n w : ℕ) → w ≤ 64 → n * w ≤ n * 64
mul-le n w h = grind arith

module _ (vs : List ℕ) (h : All IsU64 vs) (few : length vs ≤ max_decode_rows) where
  low : ℕ
  low = minimum vs

  spread : ℕ
  spread = maximum vs - minimum vs

  width : ℕ
  unfolding spread
  width = 64 - leading_zeros 64 spread

  low-lt : IsU64 low
  unfolding low
  low-lt = minimum-lt vs h

  spread-lt : IsU64 spread
  unfolding spread
  spread-lt = omega (
    arith,
    maximum-ge (2 ^ 64 - 1) vs (All-weaken _ (λ v. v ≤ 2 ^ 64 - 1) (λ v k. omega arith) vs h),
  )

  width-le : width ≤ 64
  unfolding width
  width-le = omega arith

  values-Fits : All (Fits low width) vs
  unfolding low spread width
  values-Fits =
      All-weaken _ (Fits low width)
        (λ v k. (k.0, k.1.0, omega (arith, k.1.1, k.0, leading_zeros_lem 64 spread spread-lt))) vs
        (All-both _ _ vs (minimum-le vs) (All-both _ _ vs h (le-maximum vs)))

  buf : List ℕ
  buf = (write_all low width vs new).buf

  length-buf : length buf ≡ (length vs * width + 7) / 8
  unfolding buf
  length-buf =
      let (p, bits, _) = write_all-Holds low width vs new width-le values-Fits new-IsPacked in
      omega (arith, p.filled, bits)

  number-buf : field (from_le_bytes buf) 0 (length vs * width) ≡ packed low width vs
  unfolding buf from_le_bytes
  number-buf =
      let (p, bits, number) = write_all-Holds low width vs new width-le values-Fits new-IsPacked in
      let e : (write_all low width vs new).bits ≡ length vs * width = omega (arith, bits) in
      let under : packed low width vs < 2 ^ (write_all low width vs new).bits =
        omega (arith, p.clear) in
      ap (λ (t : ℕ). t % 2 ^ (length vs * width)) (omega arith) ∙ mod-eq_of_lt (rw e at under)

  unpacked : read_all (length vs) low width (record { buf = buf; bits = 0 }) ≡ ok vs
  unfolding buf
  unpacked =
      let (p, _, _) = write_all-Holds low width vs new width-le values-Fits new-IsPacked in
      read_all_lem low width vs buf 0 width-le p.small values-Fits (omega (arith, length-buf))
        number-buf

  unpacked_long : not (length buf == (length vs * width + 7) / 8) ≡ false
  unpacked_long = ground (arith, length-buf)

  narrow : ltb 64 width ≡ false
  narrow = ground (arith, width-le)

  head : RoundTrips Sink.u64 Cursor.u64 low
  head = u64-RoundTrips low low-lt

  middle : RoundTrips Sink.u8 Cursor.u8 width
  middle = u8-RoundTrips width

  body : RoundTrips Sink.bytes Cursor.bytes buf
  body = bytes-RoundTrips buf (omega (arith, length-buf, mul-le (length vs) width width-le, few))

  -- `read_for` gives back the values that `write_for` packed.
  pub write_for-RoundTrips :
      RoundTrips (λ out values. write_for values out) (read_for (length vs)) vs
  unfolding write_for read_for low spread width buf
  write_for-RoundTrips = record {
    written = head.written ++ (middle.written ++ body.written);
    writes = λ out. rw (head.writes out, middle.writes, body.writes) (simp append_assoc);
    reads = λ pre post. simp append_assoc (
        rw
          (
            head.reads,
            middle.reads,
            narrow,
            guard_len_zero (length vs) _ few,
            body.reads,
            unpacked_long,
            unpacked,
          )
          (simp append_assoc));
  }

-- The same for a reader that is told the number of rows.
pub write_for-RoundTrips_rows :
    (rows : ℕ) (vs : List ℕ)
    → length vs ≡ rows
    → All IsU64 vs
    → rows ≤ max_decode_rows
    → RoundTrips (λ out values. write_for values out) (read_for rows) vs
write_for-RoundTrips_rows rows vs e h few =
    subst (λ n. RoundTrips (λ out values. write_for values out) (read_for n) vs) e
      (write_for-RoundTrips vs h (omega arith))
