-- ===== src/Kernels.antt =====
-- src/exec/kernels/boolean.rs: three-valued logic on BOOL columns, over the BOOL part of
-- src/exec/column.rs. A panic (an `assert!` or an `expect` that fails) is `none`; a row's outcome
-- is an `Option Bool`, `none` for NULL.
pub mod Builder
pub mod Columns
pub mod Logic
use adelie.Base.{ℕ, zero, suc, ◌+◌, Bool, true, false, not, Option, none, some}
use adelie.Base.{ltb, ◌==◌, if◌then◌else◌}
use adelie.Bitmap as bitmap
use adelie.Bitmap.{Bitmap, new_valid}

-- `Option::unwrap_or(false)`, `is_some` and `map`
abbrev pub or_false : Option Bool → Bool
or_false none = false
or_false (some b) = b

abbrev pub is_some : Option Bool → Bool
is_some none = false
is_some (some b) = true

-- A `Column` of type BOOL.
pub record BoolColumn : Type 0 where
  pub values : Bitmap
  pub validity : Option Bitmap

infixl 5 ◌>>=◌
abbrev pub ◌>>=◌ {ℓ κ} : {A : Type ℓ} {B : Type κ} → Option A → (A → Option B) → Option B
none >>= f = none
some a >>= f = f a

unfoldable pub column_len : BoolColumn → ℕ
column_len col = col.values.len

unfoldable pub is_null : BoolColumn → ℕ → Option Bool
is_null col i =
    if ltb i (column_len col)
    then elim col.validity [ none ↦ some false | some v ↦ do b ← bitmap.get v i; some (not b) ]
    else none

-- `Column::get` of a BOOL column, NULL as `none`.
unfoldable pub value_at : BoolColumn → ℕ → Option (Option Bool)
value_at col i = do
  null ← is_null col i
  if null then some none else do b ← bitmap.get col.values i; some (some b)

unfoldable pub row_bool : BoolColumn → ℕ → Option (Option Bool)
row_bool col i = do null ← is_null col i; if null then some none else value_at col i

-- `Column::from_parts` on BOOL values: the validity has as many rows.
unfoldable pub bool_column : Bitmap → Option Bitmap → Option BoolColumn
bool_column values none = some (record { values = values; validity = none })
bool_column values (some v) =
    if v.len == values.len then some (record { values = values; validity = some v }) else none

pub record BoolBuilder : Type 0 where
  pub bits : Bitmap
  pub validity : Option Bitmap
  pub len : ℕ

unfoldable pub new : BoolBuilder
new = record { bits = new_valid 0; validity = none; len = 0 }

-- The validity behind a pushed row: filled in for all rows before at the first NULL.
unfoldable pub push_validity : Option Bitmap → ℕ → Option Bool → Option (Option Bitmap)
push_validity (some v) len outcome = do v' ← bitmap.push v (is_some outcome); some (some v')
push_validity none len (some b) = some none
push_validity none len none = do v ← bitmap.push (new_valid len) false; some (some v)

unfoldable pub push : BoolBuilder → Option Bool → Option BoolBuilder
push out outcome = do
  bits ← bitmap.push out.bits (or_false outcome)
  validity ← push_validity out.validity out.len outcome
  some (record { bits = bits; validity = validity; len = out.len + 1 })

unfoldable pub finish : BoolBuilder → Option BoolColumn
finish out = bool_column out.bits out.validity

unfoldable pub kleene_and : Option Bool → Option Bool → Option Bool
kleene_and (some false) b = some false
kleene_and none (some false) = some false
kleene_and (some true) (some false) = some false
kleene_and (some true) (some true) = some true
kleene_and none none = none
kleene_and none (some true) = none
kleene_and (some true) none = none

unfoldable pub kleene_or : Option Bool → Option Bool → Option Bool
kleene_or (some true) b = some true
kleene_or none (some true) = some true
kleene_or (some false) (some true) = some true
kleene_or (some false) (some false) = some false
kleene_or none none = none
kleene_or none (some false) = none
kleene_or (some false) none = none

-- `.map(|b| !b)`
unfoldable pub kleene_not : Option Bool → Option Bool
kleene_not none = none
kleene_not (some b) = some (not b)

-- The loop of a kernel: the rows `i`, `i + 1`, … of `n`, each pushed.
unfoldable pub push_rows : (ℕ → Option (Option Bool)) → ℕ → ℕ → BoolBuilder → Option BoolBuilder
push_rows row zero i out = some out
push_rows row (suc n) i out = do
  outcome ← row i
  out' ← push out outcome
  push_rows row n (i + 1) out'

abbrev pub row_of_two :
    (Option Bool → Option Bool → Option Bool) → BoolColumn → BoolColumn → ℕ → Option (Option Bool)
row_of_two f a b i = do x ← row_bool a i; y ← row_bool b i; some (f x y)

unfoldable pub column_and : BoolColumn → BoolColumn → Option BoolColumn
column_and a b =
    if column_len a == column_len b
    then (push_rows (row_of_two kleene_and a b) (column_len a) 0 new >>= finish)
    else none

unfoldable pub column_or : BoolColumn → BoolColumn → Option BoolColumn
column_or a b =
    if column_len a == column_len b
    then (push_rows (row_of_two kleene_or a b) (column_len a) 0 new >>= finish)
    else none

unfoldable pub column_not : BoolColumn → Option BoolColumn
column_not a = do
  out ← push_rows (λ i. do x ← row_bool a i; some (kleene_not x)) (column_len a) 0 new
  finish out

-- The loop of `truthy`.
unfoldable pub push_truthy : BoolColumn → ℕ → ℕ → Bitmap → Option Bitmap
push_truthy col zero i out = some out
push_truthy col (suc n) i out = do
  x ← row_bool col i
  out' ← bitmap.push out (or_false x)
  push_truthy col n (i + 1) out'

unfoldable pub truthy : BoolColumn → Option Bitmap
truthy col = push_truthy col (column_len col) 0 (new_valid 0)
