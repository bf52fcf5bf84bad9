-- ===== src/Bitmap/FromWords.antt =====
-- `from_words` of src/exec/bitmap.rs takes exactly the words that a bitmap can have.
use adelie.Base.{ℕ, ◌+◌, ◌/◌, ◌≡◌, refl, ap₂, ◌∙◌, sym, arith, subst, ◌↔◌}
use adelie.Base.{List, [], ◌∷◌, length, All, true, false, none, some}
use adelie.Base.{ltb, ◌==◌, if◌then◌else◌, Bool-cases, inl, inr}
use adelie.Wire.{IsU64}
use adelie.Bitmap.{Bitmap, from_words, words_eq, mask_trailing, word_count}
use adelie.Bitmap.Get.{IsClear, digit_at}
use adelie.Bitmap.Mask.{digit_at-injective, mask_trailing-IsClear, mask_trailing-digit_at}

words_eq-true : (xs ys : List ℕ) → words_eq xs ys ≡ true → xs ≡ ys
unfolding words_eq
words_eq-true [] [] h = refl
words_eq-true [] (y ∷ ys) h = cc
words_eq-true (x ∷ xs) [] h = cc
words_eq-true (x ∷ xs) (y ∷ ys) h = elim (Bool-cases (x == y)) [
  | inl same ↦ ap₂ (λ w ws. w ∷ ws) (ground arith) (words_eq-true xs ys (rw same at h))
  | inr other ↦ absurd_bool (rw other at h)
]
  where
    absurd_bool : false ≡ true → x ∷ xs ≡ y ∷ ys
    absurd_bool e = cc

words_eq_refl : (xs : List ℕ) → words_eq xs xs ≡ true
unfolding words_eq
words_eq_refl [] = refl
words_eq_refl (x ∷ xs) = rw same (words_eq_refl xs)
  where
    same : (x == x) ≡ true
    same = ground arith

-- Words of a bitmap with no bit past its length are not changed by `mask_trailing`.
masked :
    (words : List ℕ) (len : ℕ)
    → IsClear (record { words = words; len = len })
    → mask_trailing words len ≡ words
masked words len h =
    let m = mask_trailing-IsClear words len h.long h.small in
    digit_at-injective (mask_trailing words len) words (m.long ∙ sym h.long) m.small h.small
      (λ i. mask_trailing-digit_at words len i h.long ∙ kept i)
  where
    kept : (i : ℕ) → (if ltb i len then digit_at words i else 0) ≡ digit_at words i
    kept i = elim (Bool-cases (ltb i len)) [
      | inl low ↦ rw low
      | inr high ↦ rw high (sym (h.clear i (ground arith)))
    ]

taken :
    (words : List ℕ) (len : ℕ)
    → IsClear (record { words = words; len = len })
    → from_words words len ≡ some (record { words = words; len = len })
unfolding from_words word_count
taken words len h = rw (fits, masked words len h, words_eq_refl words) refl
  where
    fits : (length words == (len + 63) / 64) ≡ true
    fits = ground (arith, h.long)

accepted :
    (words : List ℕ) (len : ℕ)
    → All IsU64 words
    → from_words words len ≡ some (record { words = words; len = len })
    → IsClear (record { words = words; len = len })
unfolding from_words word_count
accepted words len small h = elim (Bool-cases (length words == (len + 63) / 64)) [
  | inl fits ↦ elim (Bool-cases (words_eq (mask_trailing words len) words)) [
    | inl same ↦
        subst (λ ws. IsClear (record { words = ws; len = len }))
          (words_eq-true (mask_trailing words len) words same)
          (mask_trailing-IsClear words len (ground arith) small)
    | inr stray ↦ refused (rw (fits, stray) at h)
  ]
  | inr wrong ↦ refused (rw wrong at h)
]
  where
    refused : {b : Bitmap} → none ≡ some b → IsClear (record { words = words; len = len })
    refused e = absurd cc

-- For any words of 64 bits, `from_words` gives the bitmap of the words and the length exactly when
-- there are as many words as the length needs and no bit is set at or past the length.
pub from_words_iff :
    (words : List ℕ) (len : ℕ)
    → All IsU64 words
    → (from_words words len ≡ some (record { words = words; len = len }))
      ↔ IsClear (record { words = words; len = len })
from_words_iff words len small = (accepted words len small, taken words len)
