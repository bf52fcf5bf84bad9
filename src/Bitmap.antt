-- ===== src/Bitmap.antt =====
-- src/exec/bitmap.rs: a column's validity, one bit a row, lowest bit first in words of 64. An
-- `assert!` that fails is `none`. The buffer's capacity (`byte_size`) is not modelled.
pub mod Get
pub mod Mask
pub mod Rows
pub mod FromWords
pub mod Count
use adelie.Base.{
  ℕ, zero, suc, ◌+◌, ◌-◌, ◌*◌, ◌/◌, ◌%◌, ◌^◌, bit_and, bit_or, List, [], ◌∷◌, ◌++◌, Bool, true,
  false,
}
use adelie.Base.{
  Option, none, some, length, get_or, set as set_elem, replicate, ltb, ◌==◌, if◌then◌else◌, not,
  map,
}

pub record Bitmap : Type 0 where
  pub words : List ℕ
  pub len : ℕ

-- `len.div_ceil(64)`
unfoldable pub word_count : ℕ → ℕ
word_count len = (len + 63) / 64

-- `last_mut`, and nothing where there is no word.
unfoldable pub and_last : List ℕ → ℕ → List ℕ
and_last [] m = []
and_last (w ∷ []) m = bit_and w m ∷ []
and_last (w ∷ x ∷ ws) m = w ∷ and_last (x ∷ ws) m

unfoldable pub mask_trailing : List ℕ → ℕ → List ℕ
mask_trailing words len =
    let rem = len % 64 in if rem == 0 then words else and_last words (2 ^ rem - 1)

unfoldable pub new_valid : ℕ → Bitmap
new_valid len = record {
  words = mask_trailing (replicate (word_count len) (2 ^ 64 - 1)) len;
  len = len;
}

unfoldable pub new_null : ℕ → Bitmap
new_null len = record { words = replicate (word_count len) 0; len = len }

unfoldable pub is_empty : Bitmap → Bool
is_empty b = b.len == 0

-- `(self.words[i / 64] >> (i % 64)) & 1`
abbrev pub bit_at : List ℕ → ℕ → ℕ
bit_at words i = bit_and (get_or words (i / 64) 0 / 2 ^ (i % 64)) 1

unfoldable pub get : Bitmap → ℕ → Option Bool
get b i = if ltb i b.len then some (bit_at b.words i == 1) else none

-- `|= 1 << k`, or `&= !(1 << k)`.
unfoldable pub set_bit : ℕ → ℕ → Bool → ℕ
set_bit w k true = bit_or w (2 ^ k)
set_bit w k false = bit_and w (2 ^ 64 - 1 - 2 ^ k)

unfoldable pub set : Bitmap → ℕ → Bool → Option Bitmap
set b i valid =
    if ltb i b.len
    then some (record b {
      words = set_elem b.words (i / 64) (set_bit (get_or b.words (i / 64) 0) (i % 64) valid);
    })
    else none

unfoldable pub push : Bitmap → Bool → Option Bitmap
push b valid =
    let words = if b.len % 64 == 0 then b.words ++ (0 ∷ []) else b.words in
    set (record { words = words; len = b.len + 1 }) b.len valid

-- `u64::count_ones`, over `w` bits.
unfoldable pub count_ones : ℕ → ℕ → ℕ
count_ones zero x = 0
count_ones (suc w) x = x % 2 + count_ones w (x / 2)

unfoldable pub sum_ones : List ℕ → ℕ
sum_ones [] = 0
sum_ones (w ∷ ws) = count_ones 64 w + sum_ones ws

unfoldable pub count_valid : Bitmap → ℕ
count_valid b = sum_ones b.words

unfoldable pub words_eq : List ℕ → List ℕ → Bool
words_eq [] [] = true
words_eq [] (y ∷ ys) = false
words_eq (x ∷ xs) [] = false
words_eq (x ∷ xs) (y ∷ ys) = if x == y then words_eq xs ys else false

unfoldable pub from_words : List ℕ → ℕ → Option Bitmap
from_words words len =
    if not (length words == word_count len)
    then none
    else if words_eq (mask_trailing words len) words
    then some (record { words = words; len = len })
    else none
