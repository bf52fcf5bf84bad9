-- ===== src/Examples/Kernels.antt =====
-- BOOL columns of three rows: all true, and all NULL.
use adelie.Base.{◌≡◌, refl, List, [], ◌∷◌, Bool, true, false, Option, none, some, replicate, map}
use mathlib.Core.List.{zip_with}
use adelie.Bitmap.{Bitmap, new_valid, new_null}
use adelie.Bitmap.Rows.{IsRows, new_valid-IsRows, new_null-IsRows, push-IsRows}
use adelie.Bitmap.{push}
use adelie.Kernels.{
  BoolColumn, column_and, column_or, truthy, kleene_and, kleene_or, kleene_not, or_false,
}
use adelie.Kernels.Builder.{IsBoolColumn, parts-IsBoolColumn}
use adelie.Kernels.Columns.{column_and_lem, column_or_lem, truthy-IsRows}
use adelie.Kernels.Logic.{rank, kleene-rank}

abbrev all_true : BoolColumn
all_true = record { values = new_valid 3; validity = none }

abbrev all_null : BoolColumn
all_null = record { values = new_null 3; validity = some (new_null 3) }

abbrev trues : List (Option Bool)
trues = some true ∷ some true ∷ some true ∷ []

abbrev nulls : List (Option Bool)
nulls = none ∷ none ∷ none ∷ []

all_true-IsBoolColumn : IsBoolColumn all_true trues
all_true-IsBoolColumn = parts-IsBoolColumn (new_valid 3) none trues (new_valid-IsRows 3) refl

all_null-IsBoolColumn : IsBoolColumn all_null nulls
all_null-IsBoolColumn =
    parts-IsBoolColumn (new_null 3) (some (new_null 3)) nulls (new_null-IsRows 3)
      (new_null-IsRows 3)

column_and_lem_example :
    (c : BoolColumn) × (column_and all_true all_null ≡ some c)
    × IsBoolColumn c (zip_with kleene_and trues nulls)
column_and_lem_example =
    column_and_lem all_true all_null trues nulls all_true-IsBoolColumn all_null-IsBoolColumn refl

column_or_lem_example :
    (c : BoolColumn) × (column_or all_true all_null ≡ some c)
    × IsBoolColumn c (zip_with kleene_or trues nulls)
column_or_lem_example =
    column_or_lem all_true all_null trues nulls all_true-IsBoolColumn all_null-IsBoolColumn refl

truthy-IsRows_example :
    (bits : Bitmap) × (truthy all_null ≡ some bits) × IsRows bits (map or_false nulls)
truthy-IsRows_example = truthy-IsRows all_null nulls all_null-IsBoolColumn

kleene-rank_example :
    (rank (kleene_and none (some false)) ≡ 0)
    × (rank (kleene_or none (some false)) ≡ 1)
    × (rank (kleene_not none) ≡ 1)
kleene-rank_example = kleene-rank none (some false)

new_valid-IsRows_example : IsRows (new_valid 3) (replicate 3 true)
new_valid-IsRows_example = new_valid-IsRows 3

push-IsRows_example :
    (b' : Bitmap) × (push (new_valid 1) false ≡ some b') × IsRows b' (true ∷ false ∷ [])
push-IsRows_example = push-IsRows (new_valid 1) (true ∷ []) false (new_valid-IsRows 1)

-- What two pushes make of the empty bitmap.
abbrev pushed : Bitmap
pushed = (push-IsRows (new_valid 1) (true ∷ []) true (new_valid-IsRows 1)).0

pushed-IsRows : IsRows pushed (true ∷ true ∷ [])
pushed-IsRows = (push-IsRows (new_valid 1) (true ∷ []) true (new_valid-IsRows 1)).2
