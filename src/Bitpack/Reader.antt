-- ===== src/Bitpack/Reader.antt =====
-- A `BitReader` reads the binary digits of the buffer's number, from its position on.
use adelie.Base.{ℕ, zero, suc, ◌+◌, ◌-◌, ◌*◌, ◌/◌, ◌%◌, ◌^◌, ◌<◌, ◌≤◌, ◌≡◌, ap, ◌∙◌, sym, arith}
use adelie.Base.{List, [], ◌∷◌, length, All, bit_and, bit_or, ltb, get_or}
use adelie.Base.{Bool-cases, if◌then◌else◌, inl, inr}
use adelie.Base.Bits.{and_low_ones, or_above}
use adelie.Base.Pow.{pow_pos, fits_pow_add, mod_pow_add, div_pow_add, high_part, low_part}
use native.Mathlib.Nat.{zero-div, add-zero, add_assoc, mod-lt, mod-eq_of_lt, pow-le-pow_right}
use adelie.Wire.{IsByte, ok, err, truncated}
use adelie.Wire.Cursor.{from_le_bytes}
use adelie.Bitpack.{BitReader, mask, room, read_loop, read}
use adelie.Bitpack.Writer.{mask_ones}

-- The field of `n` digits of `number` from place `p` on.
abbrev pub field : ℕ → ℕ → ℕ → ℕ
field number p n = number / 2 ^ p % 2 ^ n

get_or-from_le_bytes :
    (buf : List ℕ) (i : ℕ) → All IsByte buf → get_or buf i 0 ≡ field (from_le_bytes buf) (8 * i) 8
unfolding from_le_bytes
get_or-from_le_bytes [] i h = rw zero-div
get_or-from_le_bytes (b ∷ bs) zero h = omega arith
get_or-from_le_bytes (b ∷ bs) (suc i) h =
    get_or-from_le_bytes bs i h.1
    ∙ ap (λ (t : ℕ). t / 2 ^ (8 * i) % 2 ^ 8) (next_byte b (from_le_bytes bs) h.0)
    ∙ ap (λ (t : ℕ). t % 2 ^ 8) (sym (div_pow_add (b + 256 * from_le_bytes bs) 8 (8 * i)))
    ∙ ap (λ (t : ℕ). field (b + 256 * from_le_bytes bs) t 8) (omega arith)
  where
    next_byte : (b n : ℕ) → b < 256 → n ≡ (b + 256 * n) / 2 ^ 8
    next_byte b n k = omega arith

mod-mod_pow : (x n c : ℕ) → x % 2 ^ (n + c) % 2 ^ n ≡ x % 2 ^ n
mod-mod_pow x n c =
    ap (λ (t : ℕ). t % 2 ^ n) (mod_pow_add x n c)
    ∙ low_part n (x % 2 ^ n) (x / 2 ^ n % 2 ^ c) (mod-lt x (pow_pos n))

mod-div_pow : (x n c : ℕ) → x % 2 ^ (n + c) / 2 ^ n ≡ x / 2 ^ n % 2 ^ c
mod-div_pow x n c =
    ap (λ (t : ℕ). t / 2 ^ n) (mod_pow_add x n c)
    ∙ high_part n (x % 2 ^ n) (x / 2 ^ n % 2 ^ c) (mod-lt x (pow_pos n))

-- A field of a field.
field-field :
    (number p off n c : ℕ)
    → field number p (off + (n + c)) / 2 ^ off % 2 ^ n ≡ field number (p + off) n
field-field number p off n c =
    ap (λ (t : ℕ). t % 2 ^ n) (mod-div_pow (number / 2 ^ p) off (n + c))
    ∙ mod-mod_pow (number / 2 ^ p / 2 ^ off) n c
    ∙ ap (λ (t : ℕ). t % 2 ^ n) (sym (div_pow_add number p off))

-- Two fields that touch are one.
pub field_add :
    (number p m n : ℕ) → field number p (m + n) ≡ field number p m + field number (p + m) n * 2 ^ m
field_add number p m n =
    mod_pow_add (number / 2 ^ p) m n
    ∙ ap (λ (t : ℕ). field number p m + t % 2 ^ n * 2 ^ m) (sym (div_pow_add number p m))

-- The bits of one byte that a round of the loop takes.
bits_here_lem :
    (buf : List ℕ) (p n : ℕ)
    → All IsByte buf
    → n + p % 8 ≤ 8
    → bit_and (get_or buf (p / 8) 0 / 2 ^ (p % 8)) (mask n % 256) ≡ field (from_le_bytes buf) p n
bits_here_lem buf p n h k =
    let byte = field (from_le_bytes buf) (8 * (p / 8)) 8 in
    rw (get_or-from_le_bytes buf (p / 8) h, low_mask n (omega arith))
      (and_low_ones n (byte / 2 ^ (p % 8))
        ∙ ap (λ (t : ℕ). field (from_le_bytes buf) (8 * (p / 8)) t / 2 ^ (p % 8) % 2 ^ n)
            (whole (p % 8) n k)
        ∙ field-field (from_le_bytes buf) (8 * (p / 8)) (p % 8) n (8 - n - p % 8)
        ∙ ap (λ (t : ℕ). field (from_le_bytes buf) t n) (place p))
  where
    low_mask : (n : ℕ) → n ≤ 8 → mask n % 256 ≡ 2 ^ n - 1
    low_mask n h = rw (mask_ones n (omega arith)) (
        mod-eq_of_lt {m = 256} (omega (arith, pow_pos n, pow-le-pow_right {n = 2} (omega arith) h)))

    whole : (off n : ℕ) → n + off ≤ 8 → 8 ≡ off + (n + (8 - n - off))
    whole off n h = omega arith

    place : (p : ℕ) → 8 * (p / 8) + p % 8 ≡ p
    place p = omega arith

round_lem :
    (got p n result : ℕ) (buf : List ℕ)
    → All IsByte buf
    → n + (p + got) % 8 ≤ 8
    → got + n ≤ 64
    → result ≡ field (from_le_bytes buf) p got
    → bit_or result (
        bit_and (get_or buf ((p + got) / 8) 0 / 2 ^ ((p + got) % 8)) (mask n % 256)
        * 2 ^ got
        % 2 ^ 64)
      ≡ field (from_le_bytes buf) p (got + n)
round_lem got p n result buf h k fits e =
    let number = from_le_bytes buf in
    let bits_here = field number (p + got) n in
    let low = mod-lt (number / 2 ^ p) (pow_pos got) in
    let high = mod-lt (number / 2 ^ (p + got)) (pow_pos n) in
    let small : bits_here * 2 ^ got < 2 ^ 64 = omega (
      arith,
      fits_pow_add got n 0 bits_here (pow_pos got) high,
      pow-le-pow_right {n = 2} (omega arith) fits,
    ) in
    rw (bits_here_lem buf (p + got) n h k, mod-eq_of_lt small, e)
      (or_above got (field number p got) bits_here low ∙ sym (field_add number p got n))

read_loop_lem :
    (fuel bits got p result : ℕ) (buf : List ℕ)
    → All IsByte buf
    → bits ≤ 64
    → got ≤ bits
    → bits ≤ fuel + got
    → result ≡ field (from_le_bytes buf) p got
    → read_loop fuel bits got result (record { buf = buf; bits = p + got })
      ≡ (field (from_le_bytes buf) p bits, record { buf = buf; bits = p + bits })
unfolding read_loop
read_loop_lem zero bits got p result buf h hb hg hf e =
    let done : got ≡ bits = omega arith in rw (e, done)
read_loop_lem (suc fuel) bits got p result buf h hb hg hf e = elim (Bool-cases (ltb got bits)) [
  | inl more ↦
      let n = room (p + got) (bits - got) in
      let result' = bit_or result (
        bit_and (get_or buf ((p + got) / 8) 0 / 2 ^ ((p + got) % 8)) (mask n % 256)
        * 2 ^ got
        % 2 ^ 64) in
      rw (more, add_assoc p got n)
        (read_loop_lem fuel bits (got + n) p result' buf h hb (ground arith) (ground arith)
          (round_lem got p n result buf h (omega arith) (ground arith) e))
  | inr stop ↦ let done : got ≡ bits = ground arith in rw (stop, e, done)
]

-- `read` returns the `n` digits at the reader's position and moves on by `n`, where the buffer has
-- them; and only there.
pub read_lem :
    (n : ℕ) (r : BitReader)
    → All IsByte r.buf
    → n ≤ 64
    → read n r ≡ (
        if ltb (length r.buf * 8) (r.bits + n)
        then err truncated
        else ok (field (from_le_bytes r.buf) r.bits n, record { buf = r.buf; bits = r.bits + n }))
unfolding read
read_lem n r h k = elim (Bool-cases (ltb (length r.buf * 8) (r.bits + n))) [
  | inl short ↦ rw short
  | inr long ↦ rw long (
      ap ok (
        ap (λ t. read_loop n n 0 0 (record { buf = r.buf; bits = t })) (sym (add-zero r.bits))
        ∙ read_loop_lem n n 0 r.bits 0 r.buf h k (omega arith) (omega arith) (omega arith)))
]
