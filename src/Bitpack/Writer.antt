-- ===== src/Bitpack/Writer.antt =====
-- The buffer of a `BitWriter` as one number, lowest byte first: a write adds its field above the
-- bits that were written before.
use adelie.Base.{ℕ, zero, suc, ◌+◌, ◌-◌, ◌*◌, ◌/◌, ◌%◌, ◌^◌, ◌<◌, ◌≤◌, ◌≡◌, refl, ap, ◌∙◌, arith}
use adelie.Base.{List, [], ◌∷◌, ◌++◌, length, length-append, All, All-append, bit_and, ◌==◌}
use adelie.Base.{leb, Bool-cases, if◌then◌else◌, inl, inr, true, false}
use adelie.Base.Bits.{and_low_ones, or_above, or-lt}
use adelie.Base.Pow.{pow_add, pow_pos, fits_pow_add}
use native.Mathlib.Nat.{
  zero-add, add-zero, div-lt_iff_lt-mul, mod-lt, mod-eq_of_lt, div-add-mod', pow-le-pow_right,
}
use adelie.Wire.{IsByte}
use adelie.Wire.Cursor.{from_le_bytes}
use adelie.Bitpack.{BitWriter, mask, or_last, room, write_round, write_loop, write}

-- `number buf < 2 ^ bits` says that no bit is set above those written.
pub record IsPacked (w : BitWriter) : Type 0 where
  pub filled : length w.buf ≡ (w.bits + 7) / 8
  pub clear : from_le_bytes w.buf < 2 ^ w.bits
  pub small : All IsByte w.buf

pub mask_ones : (n : ℕ) → n ≤ 64 → mask n ≡ 2 ^ n - 1
unfolding mask
mask_ones n h = elim (Bool-cases (leb 64 n)) [
  | inl full ↦ rw full (ap (λ (t : ℕ). 2 ^ t - 1) {x = 64} (ground arith))
  | inr less ↦ rw less
]

pub mask_lem : (n x : ℕ) → n ≤ 64 → bit_and x (mask n) ≡ x % 2 ^ n
mask_lem n x h = rw (mask_ones n h) (and_low_ones n x)

-- Everything that follows is about the position `8 * (length buf - 1) + off`.
from_le_bytes-append_zero : (buf : List ℕ) → from_le_bytes (buf ++ (0 ∷ [])) ≡ from_le_bytes buf
unfolding from_le_bytes
from_le_bytes-append_zero [] = refl
from_le_bytes-append_zero (b ∷ bs) = omega (arith, from_le_bytes-append_zero bs)

length-or_last : (buf : List ℕ) (b : ℕ) → length (or_last buf b) ≡ length buf
unfolding or_last
length-or_last [] b = refl
length-or_last (x ∷ []) b = refl
length-or_last (x ∷ y ∷ xs) b = ap suc (length-or_last (y ∷ xs) b)

eight_up : (n off : ℕ) → 2 ^ (8 * suc n + off) ≡ 256 * 2 ^ (8 * n + off)
eight_up n off = ap (λ (t : ℕ). 2 ^ t) (regroup n off) ∙ pow_add 8 (8 * n + off)
  where
    regroup : (n off : ℕ) → 8 * suc n + off ≡ 8 + (8 * n + off)
    regroup n off = omega arith

or_last_lem :
    (x : ℕ) (buf : List ℕ) (q off : ℕ)
    → from_le_bytes (x ∷ buf) < 2 ^ (8 * length buf + off)
    → from_le_bytes (or_last (x ∷ buf) (q * 2 ^ off))
      ≡ from_le_bytes (x ∷ buf) + q * 2 ^ (8 * length buf + off)
unfolding or_last from_le_bytes
or_last_lem x [] q off h =
    rw zero-add (omega (arith, or_above off x q (rw (add-zero, zero-add) at h)))
or_last_lem x (y ∷ xs) q off h = omega (
  arith,
  ap (λ (t : ℕ). q * t) (eight_up (length xs) off),
  or_last_lem y xs q off (omega (arith, eight_up (length xs) off)),
)

or_last-IsByte : (buf : List ℕ) (b : ℕ) → All IsByte buf → b < 256 → All IsByte (or_last buf b)
unfolding or_last
or_last-IsByte [] b h k = tt
or_last-IsByte (x ∷ []) b h k = (or-lt 8 x b h.0 k, tt)
or_last-IsByte (x ∷ y ∷ xs) b h k = (h.0, or_last-IsByte (y ∷ xs) b h.1 k)

-- The buffer that a round or-s into: one byte for every eight bits before, and one more.
opened : BitWriter → List ℕ
opened w = if w.bits % 8 == 0 then w.buf ++ (0 ∷ []) else w.buf

record IsOpen (w : BitWriter) (buf : List ℕ) : Type 0 where
  long : length buf ≡ w.bits / 8 + 1
  same : from_le_bytes buf ≡ from_le_bytes w.buf
  small : All IsByte buf

opened-IsOpen : (w : BitWriter) → IsPacked w → IsOpen w (opened w)
unfolding opened
opened-IsOpen w p = elim (Bool-cases (w.bits % 8 == 0)) [
  | inl fresh ↦ rw fresh (record {
    long = omega (arith, length-append w.buf (0 ∷ []), p.filled, aligned fresh);
    same = from_le_bytes-append_zero w.buf;
    small = All-append IsByte w.buf (0 ∷ []) p.small (omega arith, tt);
  })
  | inr within ↦
      rw within
        (record { long = omega (arith, p.filled, unaligned within); same = refl; small = p.small })
]
  where
    aligned : (w.bits % 8 == 0) ≡ true → w.bits % 8 ≡ 0
    aligned e = ground arith

    unaligned : (w.bits % 8 == 0) ≡ false → 0 < w.bits % 8
    unaligned e = ground arith

-- Or-ing a chunk into the open byte adds it at the writer's position.
or_last-IsOpen :
    (w : BitWriter) (buf : List ℕ) (q : ℕ)
    → IsPacked w
    → IsOpen w buf
    → from_le_bytes (or_last buf (q * 2 ^ (w.bits % 8))) ≡ from_le_bytes w.buf + q * 2 ^ w.bits
or_last-IsOpen w [] q p o = absurd (omega (arith, o.long))
or_last-IsOpen w (x ∷ xs) q p o =
    let place : 8 * length xs + w.bits % 8 ≡ w.bits = omega (arith, o.long) in
    let e = or_last_lem x xs q (w.bits % 8) (rw (place, o.same) p.clear) in rw (place, o.same) at e

byte_fits : (n x : ℕ) → n ≤ 8 → x < 2 ^ n → x < 256
byte_fits n x h k = omega (arith, pow-le-pow_right {n = 2} (omega arith) h)

shifted_chunk :
    (value n off : ℕ)
    → n + off ≤ 8
    → bit_and value (mask n) % 256 * 2 ^ off % 256 ≡ value % 2 ^ n * 2 ^ off
shifted_chunk value n off h =
    let low = mod-lt value (pow_pos n) in
    let chunk : bit_and value (mask n) % 256 ≡ value % 2 ^ n =
      rw (mask_lem n value (omega arith))
        (mod-eq_of_lt (byte_fits n (value % 2 ^ n) (omega arith) low)) in
    rw chunk (
      mod-eq_of_lt (
        byte_fits (off + n) (value % 2 ^ n * 2 ^ off) (omega arith)
          (omega (arith, fits_pow_add off n 0 (value % 2 ^ n) (pow_pos off) low))))

-- A round writes the lowest bits of `value`, as many as it takes.
write_round-IsPacked :
    (value remaining : ℕ) (w : BitWriter)
    → IsPacked w
    → 0 < remaining
    → IsPacked (write_round value remaining w)
      × (from_le_bytes (write_round value remaining w).buf
          ≡ from_le_bytes w.buf + value % 2 ^ room w.bits remaining * 2 ^ w.bits)
unfolding write_round opened
write_round-IsPacked value remaining w p h =
    let n = room w.bits remaining in
    let o = opened-IsOpen w p in
    let added =
      ap (λ t. from_le_bytes (or_last (opened w) t))
        (shifted_chunk value n (w.bits % 8) (omega arith))
      ∙ or_last-IsOpen w (opened w) (value % 2 ^ n) p o in
    (
      record {
        filled = length-or_last (opened w) _ ∙ omega (arith, o.long);
        clear = rw added (
            fits_pow_add w.bits n (from_le_bytes w.buf) (value % 2 ^ n) p.clear
              (mod-lt value (pow_pos n)));
        small = or_last-IsByte (opened w) _ o.small (omega arith);
      },
      added,
    )

-- The rest of the value, above what a round took.
split_value :
    (value n bits : ℕ)
    → value * 2 ^ bits ≡ value % 2 ^ n * 2 ^ bits + value / 2 ^ n * 2 ^ (bits + n)
split_value value n bits = omega (
  arith,
  ap (λ (t : ℕ). t * 2 ^ bits) (div-add-mod' value (2 ^ n)),
  ap (λ (t : ℕ). value / 2 ^ n * t) (pow_add bits n),
)

shifted-lt :
    (value n remaining : ℕ)
    → n ≤ remaining
    → value < 2 ^ remaining
    → value / 2 ^ n < 2 ^ (remaining - n)
shifted-lt value n remaining h k =
    (div-lt_iff_lt-mul (pow_pos n)).1 (rw (← pow_add (remaining - n) n, refill) k)
  where
    refill : remaining - n + n ≡ remaining
    refill = omega arith

nothing : (value n : ℕ) → n ≡ 0 → value < 2 ^ n → value ≡ 0
nothing value zero e h = omega arith
nothing value (suc n) e h = absurd (omega arith)

bits-write_round :
    (value remaining : ℕ) (w : BitWriter)
    → (write_round value remaining w).bits ≡ w.bits + room w.bits remaining
unfolding write_round
bits-write_round value remaining w = refl

-- What the writer holds after `n` more bits of value `v`.
abbrev pub Holds : BitWriter → ℕ → ℕ → BitWriter → Type 0
Holds w v n w' =
    IsPacked w'
    × (w'.bits ≡ w.bits + n)
    × (from_le_bytes w'.buf ≡ from_le_bytes w.buf + v * 2 ^ w.bits)

write_loop-Holds :
    (fuel value remaining : ℕ) (w : BitWriter)
    → IsPacked w
    → remaining ≤ fuel
    → value < 2 ^ remaining
    → Holds w value remaining (write_loop fuel value remaining w)
unfolding write_loop
write_loop-Holds zero value remaining w p hf hv =
    (p, omega arith, rw (nothing value remaining (omega arith) hv) (omega arith))
write_loop-Holds (suc fuel) value remaining w p hf hv = elim (Bool-cases (remaining == 0)) [
  | inl done ↦
      rw done (p, ground arith, rw (nothing value remaining (ground arith) hv) (omega arith))
  | inr more ↦
      let n = room w.bits remaining in
      let (p', added) = write_round-IsPacked value remaining w p (ground arith) in
      let w' = write_round value remaining w in
      let (p'', bits, number) =
        write_loop-Holds fuel (value / 2 ^ n) (remaining - n) w' p' (ground arith)
          (shifted-lt value n remaining (omega arith) hv) in
      rw more (
        p'',
        omega (arith, bits-write_round value remaining w),
        omega (
          arith,
          split_value value n w.bits,
          ap (λ (t : ℕ). value / 2 ^ n * 2 ^ t) (bits-write_round value remaining w),
        ),
      )
]

-- `write` puts the low `n` bits of a value above everything written before, and moves on by `n`.
pub write-Holds :
    (value n : ℕ) (w : BitWriter)
    → n ≤ 64
    → IsPacked w
    → Holds w (value % 2 ^ n) n (write value n w)
unfolding write
write-Holds value n w h p =
    rw (mask_lem n value h)
      (write_loop-Holds n (value % 2 ^ n) n w p (omega arith) (mod-lt value (pow_pos n)))
