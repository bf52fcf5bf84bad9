-- ===== src/Examples/Bitmap.antt =====
-- A bitmap of three rows.
use adelie.Base.{ℕ, ◌<◌, ◌≡◌, refl, arith, List, [], ◌∷◌, true, false, some, ◌==◌, if◌then◌else◌}
use adelie.Base.{zero, suc, ◌≤◌, ◌/◌, ◌%◌, ◌^◌, get_or, dec_lt, ap}
use native.Mathlib.Nat.{zero-div}
use adelie.Base.Bits.Digit.{digit_beyond}
use adelie.Bitmap.{Bitmap, get, set, push}
use adelie.Bitmap.Get.{IsClear, get-set, get-push, digit_at}
use adelie.Bitmap.{from_words, count_valid, new_valid}
use adelie.Bitmap.FromWords.{from_words_iff}
use adelie.Bitmap.Count.{count_valid-count_true}
use adelie.Bitmap.Rows.{new_valid-IsRows}
use adelie.Base.{◌↔◌, none, replicate}

-- Rows valid, null, valid.
abbrev three : Bitmap
three = record { words = 5 ∷ []; len = 3 }

abbrev five : List ℕ
five = 5 ∷ []

beyond : (k : ℕ) → 0 < k → get_or five k 0 ≡ 0
beyond zero h = absurd (omega arith)
beyond (suc k) h = refl

three-clear : (i : ℕ) → 3 ≤ i → digit_at five i ≡ 0
three-clear i h = elim (dec_lt i 64) [
  | yes low ↦
      let first : i / 64 ≡ 0 = omega arith in
      rw first (digit_beyond 3 5 (i % 64) (omega arith) (omega arith))
  | no high ↦ rw (beyond (i / 64) (omega arith)) (ap (λ (t : ℕ). t % 2) (zero-div (2 ^ (i % 64))))
]

three-IsClear : IsClear three
three-IsClear = record { long = refl; small = (omega arith, tt); clear = three-clear }

push_fourth : push three true ≡ some (record { words = 13 ∷ []; len = 4 })
unfolding push set adelie.Bitmap.set_bit
push_fourth = refl

get-set_example :
    (b' : Bitmap) × (set three 1 true ≡ some b')
    × (b'.len ≡ 3)
    × IsClear b'
    × ((j : ℕ) → get b' j ≡ (if j == 1 then some true else get three j))
get-set_example = get-set three 1 true three-IsClear (omega arith)

get-push_example :
    (b' : Bitmap) × (push three false ≡ some b')
    × (b'.len ≡ 4)
    × IsClear b'
    × ((i : ℕ) → get b' i ≡ (if i == 3 then some false else get three i))
get-push_example = get-push three false three-IsClear

from_words_iff_example :
    (from_words five 3 ≡ some (record { words = five; len = 3 }))
    ↔ IsClear (record { words = five; len = 3 })
from_words_iff_example = from_words_iff five 3 (omega arith, tt)

-- The same word with a length of two has a stray bit.
from_words_stray : from_words five 2 ≡ none
unfolding from_words adelie.Bitmap.mask_trailing adelie.Bitmap.words_eq adelie.Bitmap.and_last
    adelie.Bitmap.word_count
from_words_stray = refl

count_valid-count_true_example : count_valid (new_valid 3) ≡ 3
count_valid-count_true_example =
    count_valid-count_true (new_valid 3) (replicate 3 true) (new_valid-IsRows 3)
