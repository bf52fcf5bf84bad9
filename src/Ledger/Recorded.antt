-- ===== src/Ledger/Recorded.antt =====
-- What one more record of a file changes in the checks of src/storage/ledger.rs.
use adelie.Base.{ℕ, ◌≡◌, refl, sym, ap, ◌∙◌, List, [], ◌∷◌, ◌++◌, Bool, true, false}
use adelie.Base.{Option, none, some, ltb, Bool-cases, inl, inr, ◌<◌, arith}
use adelie.Base.Search.{any}
use adelie.Base.Each.{Each}
use adelie.Base.Text.{Text, text_eq, text_eq-true}
use adelie.Wire.{ok}
use adelie.Manifest.{MigrationRecord}
use adelie.Ledger.{File, number_of, higher, highest, check_above}
use adelie.Ledger.Listed.{Numbered}

-- The record of a file that was applied.
abbrev pub record_of : ℕ → File → MigrationRecord
record_of now_ms f = record { name = f.name; checksum = f.checksum; applied_at_ms = now_ms }

pub other_name :
    (f g : File) → Numbered f → Numbered g → f.number < g.number → text_eq f.name g.name ≡ false
other_name f g nf ng below = elim (Bool-cases (text_eq f.name g.name)) [
  | inl same ↦ absurd (clash (sym nf ∙ ap number_of (text_eq-true f.name g.name same) ∙ ng))
  | inr other ↦ other
]
  where
    clash : ◌≡◌ {A = Option ℕ} (some f.number) (some g.number) → ⊥
    clash e = ground (arith, below)

pub Each-map₃ :
    {A : Type 0} (P Q R S : A → Type 0)
    → ((a : A) → P a → Q a → R a → S a)
    → (xs : List A) → Each P xs
    → Each Q xs
    → Each R xs
    → Each S xs
Each-map₃ P Q R S f [] p q r = tt
Each-map₃ P Q R S f (x ∷ xs) (p, ps) (q, qs) (r, rs) = (f x p q r, Each-map₃ P Q R S f xs ps qs rs)

pub any-push :
    (p : MigrationRecord → Bool) (rs : List MigrationRecord) (r : MigrationRecord)
    → p r ≡ false
    → any p (rs ++ (r ∷ [])) ≡ any p rs
any-push p [] r misses = rw misses refl
any-push p (x ∷ xs) r misses = elim (Bool-cases (p x)) [
  | inl found ↦ rw found refl
  | inr next ↦ rw next (any-push p xs r misses)
]

pub any-here :
    (p : MigrationRecord → Bool) (rs : List MigrationRecord) (r : MigrationRecord)
    → p r ≡ true
    → any p (rs ++ (r ∷ [])) ≡ true
any-here p [] r it = rw it refl
any-here p (x ∷ xs) r it = elim (Bool-cases (p x)) [
  | inl found ↦ rw found refl
  | inr next ↦ rw next (any-here p xs r it)
]

pub any-still :
    (p : MigrationRecord → Bool) (rs : List MigrationRecord) (r : MigrationRecord)
    → any p rs ≡ true
    → any p (rs ++ (r ∷ [])) ≡ true
any-still p [] r it = cc
any-still p (x ∷ xs) r it = elim (Bool-cases (p x)) [
  | inl found ↦ rw found refl
  | inr next ↦ rw next (any-still p xs r (rw next at it))
]

pub highest-push :
    (best : Option (ℕ × Text)) (rs : List MigrationRecord) (r : MigrationRecord)
    → highest best (rs ++ (r ∷ [])) ≡ higher (highest best rs) r.name (number_of r.name)
unfolding highest
highest-push best [] r = refl
highest-push best (x ∷ rs) r = highest-push (higher best x.name (number_of x.name)) rs r

-- A file numbered above the one recorded passes the check where it did before.
pub check_above-higher :
    (h : Option (ℕ × Text)) (f g : File)
    → f.number < g.number
    → check_above h g ≡ ok tt
    → check_above (higher h f.name (some f.number)) g ≡ ok tt
check_above-higher none f g below passed = ground (arith, below)
check_above-higher (some (n, name)) f g below passed = elim (Bool-cases (ltb f.number n)) [
  | inl keep ↦ rw keep passed
  | inr leave ↦ rw leave (ground (arith, below))
]
