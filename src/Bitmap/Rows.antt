-- ===== src/Bitmap/Rows.antt =====
-- What a bitmap of src/exec/bitmap.rs stands for: the list of its rows' bits. Its words are
-- determined by the rows, and `push`, `new_valid` and `new_null` are the lists' operations.
use adelie.Base.{ℕ, ◌+◌, ◌/◌, ◌<◌, ◌≡◌, ap, ap₂, ◌∙◌, sym, arith}
use adelie.Base.{
  List, [], ◌∷◌, ◌++◌, length, length-append, length-replicate, get_elem?, replicate, get_elem-snoc,
  get_elem-replicate,
}
use adelie.Base.{Bool, true, false, none, some, ltb, ◌==◌, if◌then◌else◌, dec_lt}
use adelie.Bitmap.{Bitmap, get, push, new_valid, new_null}
use adelie.Bitmap.Get.{IsClear, digit_at, get_lem, get-push}
use adelie.Bitmap.Mask.{
  digit_at-injective, new_valid-IsClear, get-new_valid, new_null-IsClear, get-new_null,
}

-- The bitmap `b` stands for `rows`: it has as many, `get` reads them, and no other bit is set.
pub record IsRows (b : Bitmap) (rows : List Bool) : Type 0 where
  pub clear : IsClear b
  pub count : b.len ≡ length rows
  pub reads : (i : ℕ) → get b i ≡ get_elem? rows i

pub push-IsRows :
    (b : Bitmap) (rows : List Bool) (v : Bool)
    → IsRows b rows
    → (b' : Bitmap) × (push b v ≡ some b') × IsRows b' (rows ++ (v ∷ []))
push-IsRows b rows v h =
    let (b', made, count, clear, reads) = get-push b v h.clear in
    (
      b',
      made,
      record {
        clear = clear;
        count = omega (arith, count, h.count, length-append rows (v ∷ []));
        reads = λ i. reads i ∙ rw (h.reads i, h.count) (sym (get_elem-snoc rows v i));
      },
    )

pub new_valid-IsRows : (len : ℕ) → IsRows (new_valid len) (replicate len true)
unfolding new_valid
new_valid-IsRows len = record {
  clear = new_valid-IsClear len;
  count = sym (length-replicate len true);
  reads = λ i. get-new_valid len i ∙ sym (get_elem-replicate len i true);
}

pub new_null-IsRows : (len : ℕ) → IsRows (new_null len) (replicate len false)
unfolding new_null
new_null-IsRows len = record {
  clear = new_null-IsClear len;
  count = sym (length-replicate len false);
  reads = λ i. get-new_null len i ∙ sym (get_elem-replicate len i false);
}

same_digit : (a b : ℕ) → a < 2 → b < 2 → (a == 1) ≡ (b == 1) → a ≡ b
same_digit a b h k e = ground arith

some-injective : (x y : Bool) → some x ≡ some y → x ≡ y
some-injective x y e = cc

module _ (a b : Bitmap) (rows : List Bool) (h : IsRows a rows) (k : IsRows b rows) where
  same_len : a.len ≡ b.len
  same_len = h.count ∙ sym k.count

  same_digit_at : (i : ℕ) → digit_at a.words i ≡ digit_at b.words i
  same_digit_at i = elim (dec_lt i a.len) [
    | yes low ↦
        let ra = get_lem a i in
        let rb = get_lem b i in
        same_digit (digit_at a.words i) (digit_at b.words i) (omega arith) (omega arith) (
          some-injective _ _ (
            sym (inside a i low (get_lem a i))
            ∙ h.reads i
            ∙ sym (k.reads i)
            ∙ inside b i (omega (arith, same_len)) (get_lem b i)))
    | no high ↦ h.clear.clear i (omega arith) ∙ sym (k.clear.clear i (omega (arith, same_len)))
  ]
    where
      inside :
          (c : Bitmap) (j : ℕ)
          → j < c.len
          → get c j ≡ (if ltb j c.len then some (digit_at c.words j == 1) else none)
          → get c j ≡ some (digit_at c.words j == 1)
      inside c j lt e = e ∙ ground arith

  -- Two bitmaps that stand for the same rows are equal, words and all.
  pub IsRows-unique : a ≡ b
  IsRows-unique =
      ap₂ (λ w l. record { words = w; len = l })
        (digit_at-injective a.words b.words
          (h.clear.long ∙ ap (λ (t : ℕ). (t + 63) / 64) same_len ∙ sym k.clear.long) h.clear.small
          k.clear.small same_digit_at)
        same_len
