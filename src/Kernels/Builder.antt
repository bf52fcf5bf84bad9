-- ===== src/Kernels/Builder.antt =====
-- `BoolBuilder` of src/exec/kernels/boolean.rs: what `push` and `finish` build reads as the rows
-- that were pushed.
use adelie.Base.{ℕ, zero, suc, ◌+◌, ◌<◌, ◌≤◌, ◌≡◌, refl, ap, ◌∙◌, sym, arith, subst}
use adelie.Base.{
  List, [], ◌∷◌, ◌++◌, length, length-append, length-map, get_elem?, replicate, map, append_assoc,
  append-nil, get_elem-map, get_elem-replicate, get_elem-some, get_elem-none,
}
use adelie.Base.{Bool, true, false, not, Option, none, some, ltb, ◌==◌, dec_lt}
use adelie.Bitmap as bitmap
use adelie.Bitmap.{Bitmap, new_valid}
use adelie.Bitmap.Rows.{IsRows, push-IsRows, new_valid-IsRows}
use adelie.Kernels.{
  BoolColumn, BoolBuilder, new, push, push_validity, finish, bool_column, push_rows, column_len,
  is_null, value_at, row_bool, or_false, is_some, ◌>>=◌,
}

-- The column stands for `rows`: it has as many, and `row_bool` reads them and panics past them.
pub record IsBoolColumn (col : BoolColumn) (rows : List (Option Bool)) : Type 0 where
  pub count : column_len col ≡ length rows
  pub reads : (i : ℕ) → row_bool col i ≡ get_elem? rows i

-- The validity that goes with `rows`: none where no row is NULL.
abbrev pub IsValidity : Option Bitmap → List (Option Bool) → Type 0
IsValidity none rows = map is_some rows ≡ replicate (length rows) true
IsValidity (some v) rows = IsRows v (map is_some rows)

-- The builder has taken `rows`.
record Builds (out : BoolBuilder) (rows : List (Option Bool)) : Type 0 where
  bits : IsRows out.bits (map or_false rows)
  count : out.len ≡ length rows
  valid : IsValidity out.validity rows

map-snoc {ℓ κ} :
    {A : Type ℓ} {B : Type κ} (f : A → B) (xs : List A) (x : A)
    → map f xs ++ (f x ∷ []) ≡ map f (xs ++ (x ∷ []))
map-snoc f [] x = refl
map-snoc f (y ∷ xs) x = ap (λ t. f y ∷ t) (map-snoc f xs x)

replicate-snoc : (n : ℕ) → replicate n true ++ (true ∷ []) ≡ replicate (suc n) true
replicate-snoc zero = refl
replicate-snoc (suc n) = ap (λ t. true ∷ t) (replicate-snoc n)

push_validity-IsValidity :
    (v : Option Bitmap) (rows : List (Option Bool)) (x : Option Bool)
    → IsValidity v rows
    → (v' : Option Bitmap) × (push_validity v (length rows) x ≡ some v')
      × IsValidity v' (rows ++ (x ∷ []))
unfolding push_validity
push_validity-IsValidity (some v) rows x h =
    let (v', made, next) = push-IsRows v (map is_some rows) (is_some x) h in
    (some v', rw made, subst (IsRows v') (map-snoc is_some rows x) next)
push_validity-IsValidity none rows (some b) h = (
  none,
  refl,
  sym (map-snoc is_some rows (some b))
      ∙ ap (λ t. t ++ (true ∷ [])) h
      ∙ replicate-snoc (length rows)
      ∙ ap (λ k. replicate k true) {x = suc (length rows)}
          (omega (arith, length-append rows (some b ∷ []))),
)
push_validity-IsValidity none rows none h =
    let (v', made, next) =
      push-IsRows (new_valid (length rows)) (replicate (length rows) true) false
        (new_valid-IsRows (length rows)) in
    (
      some v',
      rw made,
      subst (IsRows v') (ap (λ t. t ++ (false ∷ [])) (sym h) ∙ map-snoc is_some rows none) next,
    )

push-Builds :
    (out : BoolBuilder) (rows : List (Option Bool)) (x : Option Bool)
    → Builds out rows
    → (out' : BoolBuilder) × (push out x ≡ some out') × Builds out' (rows ++ (x ∷ []))
unfolding push
push-Builds out rows x h =
    let (bits, made, next) = push-IsRows out.bits (map or_false rows) (or_false x) h.bits in
    let (v, put, valid) = push_validity-IsValidity out.validity rows x h.valid in
    (
      record { bits = bits; validity = v; len = out.len + 1 },
      rw (made, h.count, put),
      record {
        bits = subst (IsRows bits) (map-snoc or_false rows x) next;
        count = omega (arith, h.count, length-append rows (x ∷ []));
        valid = valid;
      },
    )

push_rows-Builds :
    (row : ℕ → Option (Option Bool)) (todo done : List (Option Bool)) (start : ℕ)
    (out : BoolBuilder)
    → ((i : ℕ) → i < length todo → row (start + i) ≡ get_elem? todo i)
    → Builds out done
    → (out' : BoolBuilder) × (push_rows row (length todo) start out ≡ some out')
      × Builds out' (done ++ todo)
unfolding push_rows
push_rows-Builds row [] done start out h b =
    (out, refl, subst (Builds out) (sym (append-nil done)) b)
push_rows-Builds row (x ∷ todo) done start out h b =
    let (out1, made, next) = push-Builds out done x b in
    let (out2, all, last) =
      push_rows-Builds row todo (done ++ (x ∷ [])) (start + 1) out1 later next in
    (out2, rw (now, made) all, subst (Builds out2) (append_assoc done (x ∷ []) todo) last)
  where
    now : row start ≡ some x
    now = ap row (omega arith) ∙ h 0 (omega arith)

    later : (i : ℕ) → i < length todo → row (start + 1 + i) ≡ get_elem? todo i
    later i lt = ap row (omega arith) ∙ h (suc i) (omega arith)

new-Builds : Builds new []
unfolding new
new-Builds = record { bits = new_valid-IsRows 0; count = refl; valid = refl }

is_null-inside :
    (bits : Bitmap) (v : Option Bitmap) (rows : List (Option Bool)) (i : ℕ) (x : Option Bool)
    → ltb i bits.len ≡ true
    → i < length rows
    → IsValidity v rows
    → get_elem? rows i ≡ some x
    → is_null (record { values = bits; validity = v }) i ≡ some (not (is_some x))
unfolding is_null column_len
is_null-inside bits (some v) rows i x low lt h e =
    rw (low, h.reads i, get_elem-map is_some rows i x e) refl
is_null-inside bits none rows i x low lt h e = rw low (ap (λ t. some (not t)) (sym valid))
  where
    at_length : ltb i (length rows) ≡ true
    at_length = ground arith

    some-injective : (y z : Bool) → some y ≡ some z → y ≡ z
    some-injective y z k = cc

    valid : is_some x ≡ true
    valid = some-injective (is_some x) true (
        sym (get_elem-map is_some rows i x e)
        ∙ ap (λ t. get_elem? t i) h
        ∙ get_elem-replicate (length rows) i true
        ∙ rw at_length refl)

row_bool-known :
    (col : BoolColumn) (i : ℕ) (x : Option Bool)
    → is_null col i ≡ some (not (is_some x))
    → bitmap.get col.values i ≡ some (or_false x)
    → row_bool col i ≡ some x
unfolding row_bool value_at
row_bool-known col i none null value = rw null refl
row_bool-known col i (some b) null value = rw (null, value) refl

row_bool-beyond : (col : BoolColumn) (i : ℕ) → column_len col ≤ i → row_bool col i ≡ none
unfolding row_bool is_null
row_bool-beyond col i le = rw outside refl
  where
    outside : ltb i (column_len col) ≡ false
    outside = ground arith

pub parts-IsBoolColumn :
    (bits : Bitmap) (v : Option Bitmap) (rows : List (Option Bool))
    → IsRows bits (map or_false rows)
    → IsValidity v rows
    → IsBoolColumn (record { values = bits; validity = v }) rows
unfolding column_len
parts-IsBoolColumn bits v rows b h = record {
  count = b.count ∙ length-map rows or_false;
  reads = λ i. elim (dec_lt i (length rows)) [
    | yes lt ↦
        let (x, e) = get_elem-some rows i lt in
        row_bool-known (record { values = bits; validity = v }) i x
          (is_null-inside bits v rows i x (inside i lt) lt h e)
          (b.reads i ∙ get_elem-map or_false rows i x e)
        ∙ sym e
    | no ge ↦
        row_bool-beyond (record { values = bits; validity = v }) i (beyond i (omega arith))
        ∙ sym (get_elem-none rows i (omega arith))
  ];
}
  where
    inside : (i : ℕ) → i < length rows → ltb i bits.len ≡ true
    inside i lt = ground (arith, b.count, length-map rows or_false)

    beyond : (i : ℕ) → length rows ≤ i → column_len (record { values = bits; validity = v }) ≤ i
    beyond i le = omega (arith, b.count, length-map rows or_false)

bool_column-IsBoolColumn :
    (bits : Bitmap) (v : Option Bitmap) (rows : List (Option Bool))
    → IsRows bits (map or_false rows)
    → IsValidity v rows
    → (col : BoolColumn) × (bool_column bits v ≡ some col) × IsBoolColumn col rows
unfolding bool_column
bool_column-IsBoolColumn bits none rows b h =
    (record { values = bits; validity = none }, refl, parts-IsBoolColumn bits none rows b h)
bool_column-IsBoolColumn bits (some v) rows b h = (
  record { values = bits; validity = some v },
  rw same refl,
  parts-IsBoolColumn bits (some v) rows b h,
)
  where
    same : (v.len == bits.len) ≡ true
    same = ground (arith, b.count, h.count, length-map rows or_false, length-map rows is_some)

-- A kernel's loop over rows that `row` gives, and its `finish`.
pub build :
    (row : ℕ → Option (Option Bool)) (rows : List (Option Bool))
    → ((i : ℕ) → i < length rows → row i ≡ get_elem? rows i)
    → (col : BoolColumn) × ((push_rows row (length rows) 0 new >>= finish) ≡ some col)
      × IsBoolColumn col rows
unfolding finish
build row rows h =
    let (out, all, b) =
      push_rows-Builds row rows [] 0 new (λ i lt. ap row (omega arith) ∙ h i lt) new-Builds in
    let (col, made, good) = bool_column-IsBoolColumn out.bits out.validity rows b.bits b.valid in
    (col, rw all made, good)
