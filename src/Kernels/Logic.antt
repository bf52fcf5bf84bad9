-- ===== src/Kernels/Logic.antt =====
-- The three-valued tables of src/exec/kernels/boolean.rs, as the order false < NULL < true.
use adelie.Base.{ℕ, ◌-◌, ◌≡◌, refl, min, max, Bool, true, false, Option, none, some}
use adelie.Kernels.{kleene_and, kleene_or, kleene_not}

abbrev pub rank : Option Bool → ℕ
rank (some false) = 0
rank none = 1
rank (some true) = 2

-- On the order false < NULL < true, `kleene_and` is the minimum, `kleene_or` the maximum, and NOT
-- the reversal.
pub kleene-rank :
    (a b : Option Bool)
    → (rank (kleene_and a b) ≡ min (rank a) (rank b))
      × (rank (kleene_or a b) ≡ max (rank a) (rank b))
      × (rank (kleene_not a) ≡ 2 - rank a)
unfolding kleene_and kleene_or kleene_not
kleene-rank (some false) (some false) = (refl, refl, refl)
kleene-rank (some false) none = (refl, refl, refl)
kleene-rank (some false) (some true) = (refl, refl, refl)
kleene-rank none (some false) = (refl, refl, refl)
kleene-rank none none = (refl, refl, refl)
kleene-rank none (some true) = (refl, refl, refl)
kleene-rank (some true) (some false) = (refl, refl, refl)
kleene-rank (some true) none = (refl, refl, refl)
kleene-rank (some true) (some true) = (refl, refl, refl)
