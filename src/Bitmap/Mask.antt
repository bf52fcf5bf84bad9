-- ===== src/Bitmap/Mask.antt =====
-- `mask_trailing` of src/exec/bitmap.rs, digit by digit, and what `new_valid` and `new_null` read.
use adelie.Base.{ℕ, zero, suc, ◌+◌, ◌-◌, ◌/◌, ◌%◌, ◌^◌, ◌<◌, ◌≤◌, ◌≡◌, refl, ap, ◌∙◌, arith}
use adelie.Base.{List, [], ◌∷◌, length, get_or, replicate, length-replicate, All, bit_and}
use adelie.Base.{ltb, ◌==◌, if◌then◌else◌, Bool-cases, inl, inr, true, false, some, none}
use adelie.Base.{get_or-injective, sym, ap₂, dec_lt, ◌*◌}
use adelie.Base.Pow.{pow_pos}
use native.Mathlib.Nat.{zero-div}
use adelie.Base.Bits.{and-lt}
use adelie.Base.Bits.Digit.{digit, digit-bit_and, digit-not, digit_beyond, digits-injective}
use adelie.Wire.{IsU64}
use adelie.Bitmap.{and_last, mask_trailing, word_count, new_valid, new_null, get}
use adelie.Bitmap.Get.{IsClear, digit_at, get_lem, get_or-IsU64, pow-lt}

digit-zero : (k : ℕ) → digit 0 k ≡ 0
digit-zero k = ap (λ (t : ℕ). t % 2) (zero-div (2 ^ k))

-- `(1 << r) - 1` has the digits below `r`.
digit-ones : (r k : ℕ) → digit (2 ^ r - 1) k ≡ (if ltb k r then 1 else 0)
digit-ones r k = elim (Bool-cases (ltb k r)) [
  | inl low ↦ rw low (
      ap (λ (t : ℕ). digit t k) (omega arith)
      ∙ digit-not r 0 k (pow_pos r) (ground arith)
      ∙ ap (λ (t : ℕ). 1 - t) (digit-zero k))
  | inr high ↦ rw high (digit_beyond r (2 ^ r - 1) k (omega (arith, pow_pos r)) (ground arith))
]

get_or_beyond : (ws : List ℕ) (k : ℕ) → length ws ≤ k → get_or ws k 0 ≡ 0
get_or_beyond [] k h = refl
get_or_beyond (w ∷ ws) zero h = absurd (omega arith)
get_or_beyond (w ∷ ws) (suc k) h = get_or_beyond ws k (omega arith)

length-and_last : (ws : List ℕ) (m : ℕ) → length (and_last ws m) ≡ length ws
unfolding and_last
length-and_last [] m = refl
length-and_last (w ∷ []) m = refl
length-and_last (w ∷ x ∷ ws) m = ap suc (length-and_last (x ∷ ws) m)

get_or-and_last :
    (ws : List ℕ) (m k : ℕ)
    → get_or (and_last ws m) k 0
      ≡ (if k + 1 == length ws then bit_and (get_or ws k 0) m else get_or ws k 0)
unfolding and_last
get_or-and_last [] m k = ground arith
get_or-and_last (w ∷ []) m zero = refl
get_or-and_last (w ∷ []) m (suc k) = ground arith
get_or-and_last (w ∷ x ∷ ws) m zero = ground arith
get_or-and_last (w ∷ x ∷ ws) m (suc k) = get_or-and_last (x ∷ ws) m k ∙ ground arith

and_last-IsU64 : (ws : List ℕ) (m : ℕ) → IsU64 m → All IsU64 ws → All IsU64 (and_last ws m)
unfolding and_last
and_last-IsU64 [] m k h = tt
and_last-IsU64 (w ∷ []) m k h = (and-lt 64 w m h.0 k, tt)
and_last-IsU64 (w ∷ x ∷ ws) m k h = (h.0, and_last-IsU64 (x ∷ ws) m k h.1)

-- A partial last word keeps its digits below the length.
digit_at-and_last :
    (ws : List ℕ) (len i : ℕ)
    → length ws ≡ (len + 63) / 64
    → 0 < len % 64
    → digit_at (and_last ws (2 ^ (len % 64) - 1)) i ≡ (if ltb i len then digit_at ws i else 0)
digit_at-and_last ws len i h partial =
    rw (get_or-and_last ws (2 ^ (len % 64) - 1) (i / 64))
      (elim (Bool-cases (i / 64 + 1 == length ws)) [
        | inl last ↦ rw last (
            digit-bit_and (i % 64) (get_or ws (i / 64) 0) (2 ^ (len % 64) - 1)
            ∙ rw (digit-ones (len % 64) (i % 64), same_word last) (ground arith))
        | inr other ↦ rw other (elim (Bool-cases (ltb i len)) [
          | inl low ↦ rw low
          | inr high ↦ rw (high, get_or_beyond ws (i / 64) (ground arith)) (digit-zero (i % 64))
        ])
      ])
  where
    same_word : (i / 64 + 1 == length ws) ≡ true → ltb (i % 64) (len % 64) ≡ ltb i len
    same_word e = ground arith

pub mask_trailing-digit_at :
    (ws : List ℕ) (len i : ℕ)
    → length ws ≡ (len + 63) / 64
    → digit_at (mask_trailing ws len) i ≡ (if ltb i len then digit_at ws i else 0)
unfolding mask_trailing
mask_trailing-digit_at ws len i h = elim (Bool-cases (len % 64 == 0)) [
  | inl whole ↦ rw whole (elim (Bool-cases (ltb i len)) [
    | inl low ↦ rw low
    | inr high ↦ rw (high, get_or_beyond ws (i / 64) (ground arith)) (digit-zero (i % 64))
  ])
  | inr partial ↦ rw partial (digit_at-and_last ws len i h (ground arith))
]

-- What `mask_trailing` leaves is a bitmap with no bit past its length.
pub mask_trailing-IsClear :
    (ws : List ℕ) (len : ℕ)
    → length ws ≡ (len + 63) / 64
    → All IsU64 ws
    → IsClear (record { words = mask_trailing ws len; len = len })
unfolding mask_trailing
mask_trailing-IsClear ws len h small = record {
  long = elim (Bool-cases (len % 64 == 0)) [
    | inl whole ↦ rw whole h
    | inr partial ↦ rw (partial, length-and_last ws (2 ^ (len % 64) - 1)) h
  ];
  small = elim (Bool-cases (len % 64 == 0)) [
    | inl whole ↦ rw whole small
    | inr partial ↦ rw partial (
        and_last-IsU64 ws (2 ^ (len % 64) - 1) (omega (arith, pow-lt (len % 64) (omega arith)))
          small)
  ];
  clear = λ i k. mask_trailing-digit_at ws len i h ∙ ground arith;
}

get_or-replicate : (n x i : ℕ) → get_or (replicate n x) i 0 ≡ (if ltb i n then x else 0)
get_or-replicate zero x i = ground arith
get_or-replicate (suc n) x zero = ground arith
get_or-replicate (suc n) x (suc i) = get_or-replicate n x i ∙ ground arith

replicate-IsU64 : (n x : ℕ) → IsU64 x → All IsU64 (replicate n x)
replicate-IsU64 zero x h = tt
replicate-IsU64 (suc n) x h = (h, replicate-IsU64 n x h)

pub new_valid-IsClear : (len : ℕ) → IsClear (new_valid len)
unfolding new_valid word_count
new_valid-IsClear len =
    mask_trailing-IsClear (replicate ((len + 63) / 64) (2 ^ 64 - 1)) len
      (length-replicate ((len + 63) / 64) (2 ^ 64 - 1))
      (replicate-IsU64 ((len + 63) / 64) (2 ^ 64 - 1) (omega arith))

pub get-new_valid : (len i : ℕ) → get (new_valid len) i ≡ (if ltb i len then some true else none)
unfolding new_valid word_count
get-new_valid len i =
    let words = replicate ((len + 63) / 64) (2 ^ 64 - 1) in
    rw
      (
        get_lem (new_valid len) i,
        mask_trailing-digit_at words len i (length-replicate ((len + 63) / 64) (2 ^ 64 - 1)),
      )
      (elim (Bool-cases (ltb i len)) [
        | inl low ↦
            rw (low, get_or-replicate ((len + 63) / 64) (2 ^ 64 - 1) (i / 64), inside low)
              (rw (digit-ones 64 (i % 64), within) refl)
        | inr high ↦ rw high
      ])
  where
    inside : ltb i len ≡ true → ltb (i / 64) ((len + 63) / 64) ≡ true
    inside e = ground arith

    within : ltb (i % 64) 64 ≡ true
    within = ground arith

-- No row of `new_null` is valid.
null_digit_at : (len i : ℕ) → digit_at (replicate ((len + 63) / 64) 0) i ≡ 0
null_digit_at len i = elim (Bool-cases (ltb (i / 64) ((len + 63) / 64))) [
  | inl low ↦ rw (get_or-replicate ((len + 63) / 64) 0 (i / 64), low) (digit-zero (i % 64))
  | inr high ↦ rw (get_or-replicate ((len + 63) / 64) 0 (i / 64), high) (digit-zero (i % 64))
]

pub new_null-IsClear : (len : ℕ) → IsClear (new_null len)
unfolding new_null word_count
new_null-IsClear len = record {
  long = length-replicate ((len + 63) / 64) 0;
  small = replicate-IsU64 ((len + 63) / 64) 0 (omega arith);
  clear = λ i k. null_digit_at len i;
}

pub get-new_null : (len i : ℕ) → get (new_null len) i ≡ (if ltb i len then some false else none)
unfolding new_null word_count
get-new_null len i = rw (get_lem (new_null len) i, null_digit_at len i)

same_word :
    (xs ys : List ℕ)
    → All IsU64 xs
    → All IsU64 ys
    → ((i : ℕ) → digit_at xs i ≡ digit_at ys i)
    → (i : ℕ) → get_or xs i 0 ≡ get_or ys i 0
same_word xs ys hx hy e i =
    digits-injective 64 (get_or xs i 0) (get_or ys i 0) (get_or-IsU64 xs i hx)
      (get_or-IsU64 ys i hy) digits
  where
    digits : (j : ℕ) → digit (get_or xs i 0) j ≡ digit (get_or ys i 0) j
    digits j = elim (dec_lt j 64) [
      | yes low ↦
          let word : (i * 64 + j) / 64 ≡ i = omega arith in
          let place : (i * 64 + j) % 64 ≡ j = omega arith in
          ap₂ (λ w p. digit (get_or xs w 0) p) (sym word) (sym place)
          ∙ e (i * 64 + j)
          ∙ ap₂ (λ w p. digit (get_or ys w 0) p) word place
      | no high ↦
          digit_beyond 64 (get_or xs i 0) j (get_or-IsU64 xs i hx) (omega arith)
          ∙ sym (digit_beyond 64 (get_or ys i 0) j (get_or-IsU64 ys i hy) (omega arith))
    ]

-- As many words with the same digits are the same words.
pub digit_at-injective :
    (xs ys : List ℕ)
    → length xs ≡ length ys
    → All IsU64 xs
    → All IsU64 ys
    → ((i : ℕ) → digit_at xs i ≡ digit_at ys i)
    → xs ≡ ys
digit_at-injective xs ys h hx hy e = get_or-injective xs ys 0 h (same_word xs ys hx hy e)
