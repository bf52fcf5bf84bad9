-- ===== src/Bitmap/Get.antt =====
-- `get` after `set` and `push` of src/exec/bitmap.rs, and the invariant that no bit is set at or
-- past the length.
use adelie.Base.{ℕ, zero, suc, ◌+◌, ◌-◌, ◌/◌, ◌%◌, ◌^◌, ◌<◌, ◌≤◌, ◌≡◌, refl, ap, ◌∙◌, sym, arith}
use adelie.Base.{
  List, [], ◌∷◌, ◌++◌, length, length-append, length-set, get_or, set as set_elem, All, All-append,
  Bool, true, false, none, some,
}
use adelie.Base.{ltb, ◌==◌, if◌then◌else◌, Bool-cases, inl, inr, ◌≢◌}
use adelie.Base.Pow.{pow_pos}
use native.Mathlib.Nat.{pow-suc, pow-le-pow_right}
use adelie.Base.Bits.{and_low_ones, or-lt, and-lt}
use adelie.Base.Bits.Digit.{digit, digit-bit_or, digit-bit_and, digit-pow, digit-not}
use adelie.Wire.{IsU64}
use adelie.Bitmap.{Bitmap, get, set, set_bit, push}

abbrev pub bit : Bool → ℕ
bit true = 1
bit false = 0

abbrev pub digit_at : List ℕ → ℕ → ℕ
digit_at words i = digit (get_or words (i / 64) 0) (i % 64)

-- The invariant of a bitmap.
pub record IsClear (b : Bitmap) : Type 0 where
  pub long : length b.words ≡ (b.len + 63) / 64
  pub small : All IsU64 b.words
  pub clear : (i : ℕ) → b.len ≤ i → digit_at b.words i ≡ 0

pub pow-lt : (k : ℕ) → k < 64 → 2 ^ k < 2 ^ 64
pow-lt k h = omega (arith, pow-suc 2 k, pow_pos k, pow-le-pow_right {n = 2} (omega arith) h)

set_bit-lt : (w k : ℕ) (v : Bool) → IsU64 w → k < 64 → IsU64 (set_bit w k v)
unfolding set_bit
set_bit-lt w k true h lt = or-lt 64 w (2 ^ k) h (pow-lt k lt)
set_bit-lt w k false h lt = and-lt 64 w (2 ^ 64 - 1 - 2 ^ k) h (omega arith)

digit-set_bit :
    (w k l : ℕ) (v : Bool)
    → k < 64
    → l < 64
    → digit (set_bit w k v) l ≡ (if l == k then bit v else digit w l)
unfolding set_bit
digit-set_bit w k l true hk hl = ground (arith, digit-bit_or l w (2 ^ k), digit-pow l k)
digit-set_bit w k l false hk hl = ground (
  arith,
  digit-bit_and l w (2 ^ 64 - 1 - 2 ^ k),
  digit-not 64 (2 ^ k) l (pow-lt k hk) hl,
  digit-pow l k,
)

get_or-set :
    (xs : List ℕ) (i j v : ℕ)
    → i < length xs
    → get_or (set_elem xs i v) j 0 ≡ (if j == i then v else get_or xs j 0)
get_or-set [] i j v h = absurd (omega arith)
get_or-set (x ∷ xs) zero zero v h = refl
get_or-set (x ∷ xs) zero (suc j) v h = ground arith
get_or-set (x ∷ xs) (suc i) zero v h = ground arith
get_or-set (x ∷ xs) (suc i) (suc j) v h = get_or-set xs i j v (omega arith) ∙ ground arith

-- Writing bit `i` changes that bit alone.
digit_at-set :
    (words : List ℕ) (i j : ℕ) (v : Bool)
    → i / 64 < length words
    → digit_at (set_elem words (i / 64) (set_bit (get_or words (i / 64) 0) (i % 64) v)) j
      ≡ (if j == i then bit v else digit_at words j)
digit_at-set words i j v h =
    rw (get_or-set words (i / 64) (j / 64) (set_bit (get_or words (i / 64) 0) (i % 64) v) h)
      (elim (Bool-cases (j / 64 == i / 64)) [
        | inl here ↦
            let same : j / 64 ≡ i / 64 = ground arith in
            rw here (
              digit-set_bit (get_or words (i / 64) 0) (i % 64) (j % 64) v (omega arith)
                (omega arith)
              ∙ rw (same_bit same) (
                  ap (λ t. if j == i then bit v else digit (get_or words t 0) (j % 64)) (sym same)))
        | inr elsewhere ↦ let other : (j == i) ≡ false = ground arith in rw (elsewhere, other)
      ])
  where
    same_bit : j / 64 ≡ i / 64 → (j % 64 == i % 64) ≡ (j == i)
    same_bit e = ground arith

set-IsU64 : (xs : List ℕ) (i v : ℕ) → IsU64 v → All IsU64 xs → All IsU64 (set_elem xs i v)
set-IsU64 [] i v h k = tt
set-IsU64 (x ∷ xs) zero v h k = (h, k.1)
set-IsU64 (x ∷ xs) (suc i) v h k = (k.0, set-IsU64 xs i v h k.1)

pub get_or-IsU64 : (xs : List ℕ) (i : ℕ) → All IsU64 xs → IsU64 (get_or xs i 0)
get_or-IsU64 [] i h = omega arith
get_or-IsU64 (x ∷ xs) zero h = h.0
get_or-IsU64 (x ∷ xs) (suc i) h = get_or-IsU64 xs i h.1

pub get_lem :
    (b : Bitmap) (i : ℕ) → get b i ≡ (if ltb i b.len then some (digit_at b.words i == 1) else none)
unfolding get
get_lem b i =
    ap (λ t. if ltb i b.len then some (t == 1) else none)
      (and_low_ones 1 (get_or b.words (i / 64) 0 / 2 ^ (i % 64)))

module _ (b : Bitmap) (i : ℕ) (v : Bool) (h : IsClear b) (inside : i < b.len) where
  written : List ℕ
  written = set_elem b.words (i / 64) (set_bit (get_or b.words (i / 64) 0) (i % 64) v)

  written-digit_at : (j : ℕ) → digit_at written j ≡ (if j == i then bit v else digit_at b.words j)
  unfolding written
  written-digit_at j = digit_at-set b.words i j v (omega (arith, h.long))

  -- A row set within the length reads back as set, every other row reads as before, and the
  -- invariant is kept.
  pub get-set :
      (b' : Bitmap) × (set b i v ≡ some b')
      × (b'.len ≡ b.len)
      × IsClear b'
      × ((j : ℕ) → get b' j ≡ (if j == i then some v else get b j))
  unfolding set written
  get-set = (record { words = written; len = b.len }, rw fits, refl, kept, reads)
    where
      fits : ltb i b.len ≡ true
      fits = ground arith

      kept : IsClear (record { words = written; len = b.len })
      kept = record {
        long = length-set b.words (i / 64) _ ∙ h.long;
        small =
            set-IsU64 b.words (i / 64) _
              (set_bit-lt (get_or b.words (i / 64) 0) (i % 64) v
                (get_or-IsU64 b.words (i / 64) h.small) (omega arith))
              h.small;
        clear = λ j k. written-digit_at j ∙ ground (arith, h.clear j k);
      }

      reads :
          (j : ℕ)
          → get (record { words = written; len = b.len }) j ≡ (if j == i then some v else get b j)
      reads j =
          rw (get_lem (record { words = written; len = b.len }) j, get_lem b j, written-digit_at j)
            (ground arith)

get_or-append_zero : (ws : List ℕ) (k : ℕ) → get_or (ws ++ (0 ∷ [])) k 0 ≡ get_or ws k 0
get_or-append_zero [] zero = refl
get_or-append_zero [] (suc k) = refl
get_or-append_zero (w ∷ ws) zero = refl
get_or-append_zero (w ∷ ws) (suc k) = get_or-append_zero ws k

-- The bitmap that `push` sets its last row of: one row longer, the new row null.
longer : Bitmap → Bitmap
longer b = record {
  words = if b.len % 64 == 0 then b.words ++ (0 ∷ []) else b.words;
  len = b.len + 1;
}

longer-digit_at : (b : Bitmap) (i : ℕ) → digit_at (longer b).words i ≡ digit_at b.words i
unfolding longer
longer-digit_at b i = elim (Bool-cases (b.len % 64 == 0)) [
  | inl full ↦ rw full (ap (λ t. digit t (i % 64)) (get_or-append_zero b.words (i / 64)))
  | inr room ↦ rw room
]

longer-IsClear : (b : Bitmap) → IsClear b → IsClear (longer b)
unfolding longer
longer-IsClear b h = record {
  long = elim (Bool-cases (b.len % 64 == 0)) [
    | inl full ↦ rw full (ground (arith, length-append b.words (0 ∷ []), h.long))
    | inr room ↦ rw room (ground (arith, h.long))
  ];
  small = elim (Bool-cases (b.len % 64 == 0)) [
    | inl full ↦ rw full (All-append IsU64 b.words (0 ∷ []) h.small (omega arith, tt))
    | inr room ↦ rw room h.small
  ];
  clear = λ i k. longer-digit_at b i ∙ h.clear i (omega arith);
}

get-longer : (b : Bitmap) (i : ℕ) → i ≢ b.len → get (longer b) i ≡ get b i
get-longer b i n =
    rw (get_lem (longer b) i, get_lem b i, longer-digit_at b i) (unfold longer in ground arith)

-- `push` never fails: it adds one row, which reads as pushed, every row before reads as it did,
-- and the invariant is kept.
pub get-push :
    (b : Bitmap) (v : Bool)
    → IsClear b
    → (b' : Bitmap) × (push b v ≡ some b')
      × (b'.len ≡ b.len + 1)
      × IsClear b'
      × ((i : ℕ) → get b' i ≡ (if i == b.len then some v else get b i))
unfolding push longer
get-push b v h =
    let inside : b.len < (longer b).len = omega arith in
    let (b', made, same, clear, reads) = get-set (longer b) b.len v (longer-IsClear b h) inside in
    (b', made, same, clear, λ i. reads i ∙ unchanged i)
  where
    unchanged :
        (i : ℕ)
        → (if i == b.len then some v else get (longer b) i)
          ≡ (if i == b.len then some v else get b i)
    unchanged i = ground (arith, get-longer b i)
