-- ===== src/Ledger/Pending.antt =====
-- The loop of src/storage/ledger.rs that collects what is pending, before and after a file is recorded.
use adelie.Base.{ℕ, ◌≡◌, refl, sym, ap, ◌∙◌, subst, List, [], ◌∷◌, ◌++◌, true, false}
use adelie.Base.{Option, some, Bool-cases, inl, inr, ◌<◌}
use adelie.Base.Search.{find}
use adelie.Base.Each.{Each}
use adelie.Base.Text.{Text, text_eq, text_eq_refl}
use adelie.Wire.{Outcome, ok, ok_split}
use adelie.Manifest.{MigrationRecord}
use adelie.Ledger.{File, Error, higher, check_above, is_recorded, pending}
use adelie.Ledger.Listed.{Numbered, IsListed}
use adelie.Ledger.Recorded.{
  record_of, other_name, any-push, any-here, any-still, check_above-higher, Each-map₃,
}

pub ok_tt : (step : Outcome Error (Unit {0})) (u : Unit {0}) → step ≡ ok u → step ≡ ok tt
ok_tt step tt e = e

pending-skip :
    (h : Option (ℕ × Text)) (recorded : List MigrationRecord) (f : File) (files : List File)
    → is_recorded recorded f ≡ true
    → pending h recorded (f ∷ files) ≡ pending h recorded files
unfolding pending
pending-skip h recorded f files e = rw e refl

pending-keep :
    (h : Option (ℕ × Text)) (recorded : List MigrationRecord) (f : File) (files : List File)
    (rest : List File)
    → is_recorded recorded f ≡ false
    → check_above h f ≡ ok tt
    → pending h recorded files ≡ ok rest
    → pending h recorded (f ∷ files) ≡ ok (f ∷ rest)
unfolding pending
pending-keep h recorded f files rest fresh above e = rw (fresh, above, e) refl

pending-inv :
    (h : Option (ℕ × Text)) (recorded : List MigrationRecord) (f : File) (files ps : List File)
    → is_recorded recorded f ≡ false
    → pending h recorded (f ∷ files) ≡ ok ps
    → (rest : List File) × (check_above h f ≡ ok tt)
      × (pending h recorded files ≡ ok rest)
      × (f ∷ rest ≡ ps)
unfolding pending
pending-inv h recorded f files ps fresh e =
    let (u, above, e1) = ok_split (check_above h f) _ (rw fresh at e) in
    let (rest, e2, e3) = ok_split (pending h recorded files) _ e1 in
    (rest, ok_tt _ u above, e2, ok-injective e3)
  where
    ok-injective : {a b : List File} → ◌≡◌ {A = Outcome Error (List File)} (ok a) (ok b) → a ≡ b
    ok-injective k = cc

pending_nil :
    (h : Option (ℕ × Text)) (recorded : List MigrationRecord) → pending h recorded [] ≡ ok []
unfolding pending
pending_nil h recorded = refl

pending-nil :
    (h : Option (ℕ × Text)) (recorded : List MigrationRecord) (ps : List File)
    → pending h recorded [] ≡ ok ps
    → [] ≡ ps
unfolding pending
pending-nil h recorded ps k = cc

pub pending-Each :
    (P : File → Type 0) (h : Option (ℕ × Text)) (recorded : List MigrationRecord)
    (files ps : List File)
    → Each P files
    → pending h recorded files ≡ ok ps
    → Each P ps
pending-Each P h recorded [] ps each e = subst (Each P) (pending-nil h recorded ps e) tt
pending-Each P h recorded (f ∷ files) ps (first, each) e =
    elim (Bool-cases (is_recorded recorded f)) [
      | inl old ↦
          pending-Each P h recorded files ps each (sym (pending-skip h recorded f files old) ∙ e)
      | inr fresh ↦
          let (rest, above, e', same) = pending-inv h recorded f files ps fresh e in
          subst (Each P) same (first, pending-Each P h recorded files rest each e')
    ]

-- Files numbered above the one that is recorded stay as they were.
pending-above :
    (h : Option (ℕ × Text)) (recorded : List MigrationRecord) (now_ms : ℕ) (f : File)
    (files rest : List File)
    → Numbered f
    → Each Numbered files
    → Each (λ g. f.number < g.number) files
    → pending h recorded files ≡ ok rest
    → pending (higher h f.name (some f.number)) (recorded ++ (record_of now_ms f ∷ [])) files
      ≡ ok rest
pending-above h recorded now_ms f [] rest nf each below e =
    pending_nil _ _ ∙ ap ok (pending-nil h recorded rest e)
pending-above h recorded now_ms f (g ∷ files) rest nf (ng, each) (low, below) e =
    let other =
      any-push (λ r. text_eq r.name g.name) recorded (record_of now_ms f)
        (other_name f g nf ng low) in
    elim (Bool-cases (is_recorded recorded g)) [
      | inl old ↦
          pending-skip _ _ g files (other ∙ old)
          ∙ pending-above h recorded now_ms f files rest nf each below
              (sym (pending-skip h recorded g files old) ∙ e)
      | inr fresh ↦
          let (rest', above, e', same) = pending-inv h recorded g files rest fresh e in
          pending-keep _ _ g files rest' (other ∙ fresh) (check_above-higher h f g low above)
            (pending-above h recorded now_ms f files rest' nf each below e')
          ∙ ap ok same
    ]

-- The first file that is pending, once it is recorded, is so no more, and what follows stays.
pub pending-record :
    (h : Option (ℕ × Text)) (recorded : List MigrationRecord) (now_ms : ℕ) (f : File)
    (files rest : List File)
    → IsListed files
    → pending h recorded files ≡ ok (f ∷ rest)
    → pending (higher h f.name (some f.number)) (recorded ++ (record_of now_ms f ∷ [])) files
      ≡ ok rest
pending-record h recorded now_ms f [] rest listed e = cons_nil (pending-nil h recorded (f ∷ rest) e)
  where
    cons_nil :
        [] ≡ f ∷ rest
        → pending (higher h f.name (some f.number)) (recorded ++ (record_of now_ms f ∷ [])) []
          ≡ ok rest
    cons_nil k = cc
pending-record h recorded now_ms f (g ∷ files) rest ((ng, each), (low, rising)) e =
    elim (Bool-cases (is_recorded recorded g)) [
      | inl old ↦
          pending-skip _ _ g files
            (any-still (λ r. text_eq r.name g.name) recorded (record_of now_ms f) old)
          ∙ pending-record h recorded now_ms f files rest (each, rising)
              (sym (pending-skip h recorded g files old) ∙ e)
      | inr fresh ↦
          let (rest', above, e', same) = pending-inv h recorded g files (f ∷ rest) fresh e in
          let (first, others) = cons-injective same in
          subst
            (λ k.
              pending (higher h k.name (some k.number)) (recorded ++ (record_of now_ms k ∷ []))
                (g ∷ files)
              ≡ ok rest)
            first
            (pending-skip _ _ g files (
                any-here (λ r. text_eq r.name g.name) recorded (record_of now_ms g)
                  (text_eq_refl g.name))
              ∙ pending-above h recorded now_ms g files rest' ng each low e'
              ∙ ap ok others)
    ]
  where
    cons-injective : {a b : File} {xs ys : List File} → a ∷ xs ≡ b ∷ ys → (a ≡ b) × (xs ≡ ys)
    cons-injective k = (cc, cc)

abbrev pub Found : List File → File → Type 0
Found files f = find (λ g. text_eq g.name f.name) files ≡ some f

-- A file in front with a lower number has another name.
Found-above :
    (g : File) (files qs : List File)
    → Numbered g
    → Each Numbered qs
    → Each (λ f. g.number < f.number) qs
    → Each (Found files) qs
    → Each (Found (g ∷ files)) qs
Found-above g files qs ng each low found =
    Each-map₃ (Found files) Numbered (λ f. g.number < f.number) (Found (g ∷ files))
      (λ f there nf below. rw (other_name g f ng nf below) there) qs found each low

-- Each file that is pending is the one of its name.
pub pending-Found :
    (h : Option (ℕ × Text)) (recorded : List MigrationRecord) (files ps : List File)
    → IsListed files
    → pending h recorded files ≡ ok ps
    → Each (Found files) ps
pending-Found h recorded [] ps listed e = subst (Each _) (pending-nil h recorded ps e) tt
pending-Found h recorded (g ∷ files) ps ((ng, each), (low, rising)) e =
    let later = λ (qs : List File) (k : pending h recorded files ≡ ok qs).
      Found-above g files qs ng (pending-Each Numbered h recorded files qs each k)
        (pending-Each (λ f. g.number < f.number) h recorded files qs low k)
        (pending-Found h recorded files qs (each, rising) k) in
    elim (Bool-cases (is_recorded recorded g)) [
      | inl old ↦ later ps (sym (pending-skip h recorded g files old) ∙ e)
      | inr fresh ↦
          let (rest, above, e', same) = pending-inv h recorded g files ps fresh e in
          subst (Each _) same (rw (text_eq_refl g.name) refl, later rest e')
    ]
