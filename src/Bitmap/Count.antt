-- ===== src/Bitmap/Count.antt =====
-- `count_valid` of src/exec/bitmap.rs counts the rows that are set.
use adelie.Base.{ℕ, zero, suc, ◌+◌, ◌-◌, ◌*◌, ◌/◌, ◌%◌, ◌<◌, ◌≡◌, refl, ap, ap₂, ◌∙◌, sym, arith}
use adelie.Base.{List, [], ◌∷◌, length, get_or, get_elem?, get_elem-some, Bool, true, false}
use adelie.Base.{Option, none, some, ltb, ◌==◌}
use adelie.Base.Bits.Digit.{digit, digit-suc}
use adelie.Bitmap.{Bitmap, get, count_ones, sum_ones, count_valid}
use adelie.Bitmap.Get.{digit_at, get_lem, bit}
use adelie.Bitmap.Rows.{IsRows}

abbrev sum : ℕ → (ℕ → ℕ) → ℕ
sum zero f = 0
sum (suc n) f = f 0 + sum n (λ k. f (suc k))

sum_ext : (n : ℕ) (f g : ℕ → ℕ) → ((k : ℕ) → k < n → f k ≡ g k) → sum n f ≡ sum n g
sum_ext zero f g h = refl
sum_ext (suc n) f g h =
    ap₂ (λ (s t : ℕ). s + t) (h 0 (omega arith))
      (sum_ext n (λ k. f (suc k)) (λ k. g (suc k)) (λ k lt. h (suc k) (omega arith)))

sum_zero : (n : ℕ) (f : ℕ → ℕ) → ((k : ℕ) → k < n → f k ≡ 0) → sum n f ≡ 0
sum_zero zero f h = refl
sum_zero (suc n) f h =
    omega (arith, h 0 (omega arith), sum_zero n (λ k. f (suc k)) (λ k lt. h (suc k) (omega arith)))

sum_add : (m n : ℕ) (f : ℕ → ℕ) → sum (m + n) f ≡ sum m f + sum n (λ k. f (m + k))
sum_add zero n f =
    ap (λ (t : ℕ). sum t f) {y = n} (omega arith)
    ∙ sum_ext n f (λ k. f (0 + k)) (λ k lt. ap f (omega arith))
    ∙ zero_first (sum n (λ k. f (0 + k)))
  where
    zero_first : (s : ℕ) → s ≡ 0 + s
    zero_first s = omega arith
sum_add (suc m) n f =
    ap (λ (t : ℕ). sum t f) {y = suc (m + n)} (omega arith)
    ∙ regroup (f 0) (sum m (λ k. f (suc k))) (sum_add m n (λ k. f (suc k)))
        (sum_ext n (λ k. f (suc (m + k))) (λ k. f (suc m + k)) (λ k lt. ap f (omega arith)))
  where
    regroup : (a t : ℕ) {s u v : ℕ} → s ≡ t + u → u ≡ v → a + s ≡ a + t + v
    regroup a t h k = omega arith

-- A block of `n` terms in front of `l` blocks.
sum_blocks :
    (n l : ℕ) (f d e : ℕ → ℕ)
    → ((k : ℕ) → k < n → d k ≡ f k)
    → ((k : ℕ) → k < l * n → e k ≡ f (n + k))
    → sum n d + sum (l * n) e ≡ sum (suc l * n) f
sum_blocks n l f d e h k =
    ap₂ (λ (s t : ℕ). s + t) (sum_ext n d f h) (sum_ext (l * n) e (λ i. f (n + i)) k)
    ∙ sym (sum_add n (l * n) f)
    ∙ ap (λ (t : ℕ). sum t f) (grind arith)

count_ones-sum : (w x : ℕ) → count_ones w x ≡ sum w (digit x)
unfolding count_ones
count_ones-sum zero x = refl
count_ones-sum (suc w) x =
    ap₂ (λ (s t : ℕ). s + t) (omega arith)
      (count_ones-sum w (x / 2)
        ∙ sum_ext w (digit (x / 2)) (λ k. digit x (suc k)) (λ k lt. sym (digit-suc x k)))

sum_ones-sum : (ws : List ℕ) → sum_ones ws ≡ sum (length ws * 64) (digit_at ws)
unfolding sum_ones
sum_ones-sum [] = refl
sum_ones-sum (w ∷ ws) =
    ap₂ (λ (s t : ℕ). s + t) (count_ones-sum 64 w) (sum_ones-sum ws)
    ∙ sum_blocks 64 (length ws) (digit_at (w ∷ ws)) (digit w) (digit_at ws) first rest
  where
    first : (k : ℕ) → k < 64 → digit w k ≡ digit_at (w ∷ ws) k
    first k lt =
        let word : 0 ≡ k / 64 = omega arith in
        let place : k ≡ k % 64 = omega arith in
        ap₂ (λ i p. digit (get_or (w ∷ ws) i 0) p) word place

    rest : (k : ℕ) → k < length ws * 64 → digit_at ws k ≡ digit_at (w ∷ ws) (64 + k)
    rest k lt =
        let word : suc (k / 64) ≡ (64 + k) / 64 = omega arith in
        let place : k % 64 ≡ (64 + k) % 64 = omega arith in
        ap₂ (λ i p. digit (get_or (w ∷ ws) i 0) p) word place

-- How many of the rows are set.
abbrev pub count_true : List Bool → ℕ
count_true [] = 0
count_true (b ∷ rows) = bit b + count_true rows

bit_of : Option Bool → ℕ
bit_of none = 0
bit_of (some b) = bit b

set_at : List Bool → ℕ → ℕ
set_at rows i = bit_of (get_elem? rows i)

digit_of : (d : ℕ) (x : Bool) → d < 2 → some (d == 1) ≡ some x → d ≡ bit x
digit_of d true lt e = ground arith
digit_of d false lt e = ground arith

count_true-sum : (rows : List Bool) → sum (length rows) (set_at rows) ≡ count_true rows
unfolding set_at bit_of
count_true-sum [] = refl
count_true-sum (b ∷ rows) = ap (λ (t : ℕ). bit b + t) (count_true-sum rows)

row_digit :
    (b : Bitmap) (rows : List Bool)
    → IsRows b rows
    → (k : ℕ) → k < b.len
    → digit_at b.words k ≡ set_at rows k
unfolding set_at bit_of
row_digit b rows h k lt =
    let (x, e) = get_elem-some rows k (omega (arith, h.count)) in
    digit_of (digit_at b.words k) x (omega arith) (sym read ∙ h.reads k ∙ e) ∙ set e
  where
    low : ltb k b.len ≡ true
    low = ground arith

    read : get b k ≡ some (digit_at b.words k == 1)
    read = get_lem b k ∙ rw low refl

    set : {x : Bool} → get_elem? rows k ≡ some x → bit x ≡ set_at rows k
    set e = ap bit_of (sym e)

-- `count_valid` of a bitmap is the number of its rows that are set.
pub count_valid-count_true :
    (b : Bitmap) (rows : List Bool) → IsRows b rows → count_valid b ≡ count_true rows
unfolding count_valid
count_valid-count_true b rows h =
    let D : ℕ → ℕ = digit_at b.words in
    let rest : ℕ = length b.words * 64 - b.len in
    sum_ones-sum b.words
    ∙ ap (λ (t : ℕ). sum t D) {y = b.len + rest} (omega (arith, h.clear.long))
    ∙ sum_add b.len rest D
    ∙ ap₂ (λ (s t : ℕ). s + t)
        (sum_ext b.len D (set_at rows) (row_digit b rows h)
          ∙ ap (λ (t : ℕ). sum t (set_at rows)) h.count
          ∙ count_true-sum rows)
        (sum_zero rest (λ k. D (b.len + k)) (λ k lt. h.clear.clear (b.len + k) (omega arith)))
    ∙ no_more (count_true rows)
  where
    no_more : (s : ℕ) → s + 0 ≡ s
    no_more s = omega arith
