-- ===== src/Kernels/Columns.antt =====
-- The column kernels of src/exec/kernels/boolean.rs work row by row: `and`, `or` and `not` on whole
-- columns against the lists of outcomes that the columns stand for.
use adelie.Base.{
  ℕ, zero, suc, ◌+◌, ◌<◌, ◌≡◌, refl, ap, ◌∙◌, sym, subst, arith, List, [], ◌∷◌, ◌++◌, length,
  length-map, append-nil, append_assoc,
}
use adelie.Base.{get_elem?, map, get_elem-map, get_elem-some, Bool, true, Option, some, ◌==◌}
use mathlib.Core.List.{zip_with}
use adelie.Kernels.{
  BoolColumn, column_len, row_bool, kleene_and, kleene_or, kleene_not, column_and, column_or,
  column_not, row_of_two, ◌>>=◌,
}
use adelie.Kernels.{or_false, push_truthy, truthy}
use adelie.Bitmap.{Bitmap, new_valid}
use adelie.Bitmap.Rows.{IsRows, push-IsRows, new_valid-IsRows}
use adelie.Kernels.Builder.{IsBoolColumn, build}

length-zip_with {ℓ} :
    {A : Type ℓ} (f : A → A → A) (xs ys : List A)
    → length xs ≡ length ys
    → length (zip_with f xs ys) ≡ length xs
unfolding zip_with
length-zip_with f [] ys h = refl
length-zip_with f (x ∷ xs) [] h = absurd (omega arith)
length-zip_with f (x ∷ xs) (y ∷ ys) h = ap suc (length-zip_with f xs ys (omega arith))

get_elem-zip_with {ℓ} :
    {A : Type ℓ} (f : A → A → A) (xs ys : List A) (i : ℕ) (x y : A)
    → get_elem? xs i ≡ some x
    → get_elem? ys i ≡ some y
    → get_elem? (zip_with f xs ys) i ≡ some (f x y)
unfolding zip_with
get_elem-zip_with f [] ys i x y h k = cc
get_elem-zip_with f (a ∷ xs) [] i x y h k = cc
get_elem-zip_with f (a ∷ xs) (b ∷ ys) zero x y h k = cc
get_elem-zip_with f (a ∷ xs) (b ∷ ys) (suc i) x y h k = get_elem-zip_with f xs ys i x y h k

module _ (a b : BoolColumn) (xs ys : List (Option Bool)) (ha : IsBoolColumn a xs)
    (hb : IsBoolColumn b ys) where
  same_len : length xs ≡ length ys → (column_len a == column_len b) ≡ true
  same_len h = ground (arith, ha.count, hb.count)

  row_of_two_lem :
      (f : Option Bool → Option Bool → Option Bool)
      → length xs ≡ length ys
      → (i : ℕ) → i < length (zip_with f xs ys)
      → row_of_two f a b i ≡ get_elem? (zip_with f xs ys) i
  row_of_two_lem f h i lt =
      let size = length-zip_with f xs ys h in
      let (x, ex) = get_elem-some xs i (omega arith) in
      let (y, ey) = get_elem-some ys i (omega arith) in
      rw (ha.reads i, ex, hb.reads i, ey) (sym (get_elem-zip_with f xs ys i x y ex ey))

  -- The conjunction of two BOOL columns of one length never panics and is, row by row, the
  -- conjunction of the rows.
  pub column_and_lem :
      length xs ≡ length ys
      → (c : BoolColumn) × (column_and a b ≡ some c) × IsBoolColumn c (zip_with kleene_and xs ys)
  unfolding column_and
  column_and_lem h =
      let size = length-zip_with kleene_and xs ys h in
      let (c, made, good) =
        build (row_of_two kleene_and a b) (zip_with kleene_and xs ys)
          (row_of_two_lem kleene_and h) in
      (c, rw (same_len h, ha.count) (rw size at made), good)

  -- The disjunction of two BOOL columns of one length never panics and is, row by row, the
  -- disjunction of the rows.
  pub column_or_lem :
      length xs ≡ length ys
      → (c : BoolColumn) × (column_or a b ≡ some c) × IsBoolColumn c (zip_with kleene_or xs ys)
  unfolding column_or
  column_or_lem h =
      let size = length-zip_with kleene_or xs ys h in
      let (c, made, good) =
        build (row_of_two kleene_or a b) (zip_with kleene_or xs ys) (row_of_two_lem kleene_or h) in
      (c, rw (same_len h, ha.count) (rw size at made), good)

-- The negation of a BOOL column never panics and negates it row by row.
pub column_not_lem :
    (a : BoolColumn) (xs : List (Option Bool))
    → IsBoolColumn a xs
    → (c : BoolColumn) × (column_not a ≡ some c) × IsBoolColumn c (map kleene_not xs)
unfolding column_not
column_not_lem a xs ha =
    let size = length-map xs kleene_not in
    let (c, made, good) =
      build (λ i. do x ← row_bool a i; some (kleene_not x)) (map kleene_not xs) rows in
    (c, rw ha.count (rw size at made), good)
  where
    rows :
        (i : ℕ)
        → i < length (map kleene_not xs)
        → (row_bool a i >>= (λ x. some (kleene_not x))) ≡ get_elem? (map kleene_not xs) i
    rows i lt =
        let (x, ex) = get_elem-some xs i (omega (arith, length-map xs kleene_not)) in
        rw (ha.reads i, ex) (sym (get_elem-map kleene_not xs i x ex))

push_truthy_lem :
    (col : BoolColumn) (todo : List (Option Bool)) (done : List Bool) (start : ℕ) (out : Bitmap)
    → ((i : ℕ) → i < length todo → row_bool col (start + i) ≡ get_elem? todo i)
    → IsRows out done
    → (bits : Bitmap) × (push_truthy col (length todo) start out ≡ some bits)
      × IsRows bits (done ++ map or_false todo)
unfolding push_truthy
push_truthy_lem col [] done start out h b =
    (out, refl, subst (IsRows out) (sym (append-nil done)) b)
push_truthy_lem col (x ∷ todo) done start out h b =
    let (out1, made, next) = push-IsRows out done (or_false x) b in
    let (out2, all, last) =
      push_truthy_lem col todo (done ++ (or_false x ∷ [])) (start + 1) out1 later next in
    (
      out2,
      rw (now, made) all,
      subst (IsRows out2) (append_assoc done (or_false x ∷ []) (map or_false todo)) last,
    )
  where
    now : row_bool col start ≡ some x
    now = ap (row_bool col) (omega arith) ∙ h 0 (omega arith)

    later : (i : ℕ) → i < length todo → row_bool col (start + 1 + i) ≡ get_elem? todo i
    later i lt = ap (row_bool col) (omega arith) ∙ h (suc i) (omega arith)

-- `truthy` of a BOOL column never panics, and is the bitmap with the bit of a row set exactly where
-- the row is valid and true.
pub truthy-IsRows :
    (col : BoolColumn) (rows : List (Option Bool))
    → IsBoolColumn col rows
    → (bits : Bitmap) × (truthy col ≡ some bits) × IsRows bits (map or_false rows)
unfolding truthy
truthy-IsRows col rows h = rw h.count (
    push_truthy_lem col rows [] 0 (new_valid 0)
      (λ i lt. ap (row_bool col) (omega arith) ∙ h.reads i) (new_valid-IsRows 0))
