-- ===== src/Ledger/Listed.antt =====
-- What `list` of src/storage/ledger.rs gives: files in the order of the numbers in their names.
use adelie.Base.{ℕ, ◌≡◌, refl, sym, subst, List, [], ◌∷◌, ◌++◌, Bool, true, false, not}
use adelie.Base.{Option, none, some, ltb, ◌==◌, Bool-cases, Option-cases, inl, inr, ◌<◌, arith}
use adelie.Base.Search.{any, sort_in, sort_by}
use adelie.Base.Each.{Each, Each-map, Each-push}
use adelie.Base.Text.{Text}
use adelie.Base.Utf8.{is_utf8}
use adelie.Wire.{Outcome, ok, ok_or, fail_if, ok_split}
use adelie.Ledger.{
  File, DirEntry, Error, migration_invalid, bad_name, strip_sql, parse_number, number_of, sql_file,
  add_file, file_of, list_loop, list,
}

abbrev pub Numbered : File → Type 0
Numbered f = number_of f.name ≡ some f.number

abbrev pub Rising : List File → Type 0
Rising [] = Unit
Rising (f ∷ fs) = Each (λ g. f.number < g.number) fs × Rising fs

abbrev pub IsListed : List File → Type 0
IsListed files = Each Numbered files × Rising files

-- No two of the files have the same number.
abbrev pub Distinct : List File → Type 0
Distinct [] = Unit
Distinct (f ∷ fs) = Each (λ g. f.number == g.number ≡ false) fs × Distinct fs

Distinct-push :
    (fs : List File) (f : File)
    → Each (λ g. g.number == f.number ≡ false) fs
    → Distinct fs
    → Distinct (fs ++ (f ∷ []))
Distinct-push [] f new d = (tt, tt)
Distinct-push (g ∷ fs) f (first, new) (apart, d) =
    (Each-push (λ k. g.number == k.number ≡ false) fs f first apart, Distinct-push fs f new d)

any-Each : (p : File → Bool) (fs : List File) → any p fs ≡ false → Each (λ f. p f ≡ false) fs
any-Each p [] e = tt
any-Each p (f ∷ fs) e = elim (Bool-cases (p f)) [
  | inl found ↦ absurd (clash (rw found at e))
  | inr next ↦ (next, any-Each p fs (rw next at e))
]
  where
    clash : true ≡ false → ⊥
    clash k = cc

-- The order of `sort_by_key`.
abbrev before : File → File → Bool
before f g = ltb f.number g.number

Each-sort_in :
    (P : File → Type 0) (f : File) (fs : List File) → P f → Each P fs → Each P (sort_in before f fs)
Each-sort_in P f [] p each = (p, tt)
Each-sort_in P f (g ∷ fs) p (first, each) = elim (Bool-cases (before g f)) [
  | inl lower ↦ rw lower (first, Each-sort_in P f fs p each)
  | inr higher ↦ rw higher (p, (first, each))
]

Each-sort_by : (P : File → Type 0) (fs : List File) → Each P fs → Each P (sort_by before fs)
unfolding sort_by
Each-sort_by P [] each = tt
Each-sort_by P (f ∷ fs) (first, each) =
    Each-sort_in P f (sort_by before fs) first (Each-sort_by P fs each)

Rising-sort_in :
    (f : File) (fs : List File)
    → Each (λ g. f.number == g.number ≡ false) fs
    → Rising fs
    → Rising (sort_in before f fs)
Rising-sort_in f [] apart rising = (tt, tt)
Rising-sort_in f (g ∷ fs) (first, apart) (low, rising) = elim (Bool-cases (before g f)) [
  | inl lower ↦ rw lower (
    Each-sort_in (λ k. g.number < k.number) f fs (ground (arith, lower)) low,
    Rising-sort_in f fs apart rising,
  )
  | inr higher ↦
      let below : f.number < g.number = ground (arith, higher, first) in
      rw higher
        ((below, Each-map _ _ (λ k above. omega (arith, below, above)) fs low), (low, rising))
]

Rising-sort_by : (fs : List File) → Distinct fs → Rising (sort_by before fs)
unfolding sort_by
Rising-sort_by [] d = tt
Rising-sort_by (f ∷ fs) (apart, d) =
    Rising-sort_in f (sort_by before fs) (Each-sort_by (λ g. f.number == g.number ≡ false) fs apart)
      (Rising-sort_by fs d)

-- A `.sql` file's name ends in the stem that it comes with.
sql_file-strip_sql :
    (entry : DirEntry) (name stem : Text)
    → sql_file entry ≡ some (name, stem)
    → strip_sql name ≡ some stem
sql_file-strip_sql entry name stem e = elim (Bool-cases entry.is_dir) [
  | inl dir ↦ absurd (nothing (rw dir at e))
  | inr plain ↦ elim (Option-cases entry.file_name) [
    | inl none_there ↦ absurd (nothing (rw (plain, none_there) at e))
    | inr (n, there) ↦ elim (Option-cases (strip_sql n)) [
      | inl other ↦ absurd (nothing (rw (plain, there, other) at e))
      | inr (t, stripped) ↦
          let (same, same') = pair-inv n t (rw (plain, there, stripped) at e) in
          rw (sym same, stripped, same') refl
    ]
  ]
]
  where
    nothing : ◌≡◌ {A = Option (Text × Text)} none (some (name, stem)) → ⊥
    nothing k = cc

    pair-inv :
        (n t : Text)
        → ◌≡◌ {A = Option (Text × Text)} (some (n, t)) (some (name, stem))
        → (n ≡ name) × (t ≡ stem)
    pair-inv n t k = (cc, cc)

ok-injective : {A : Type 0} {a b : A} → ◌≡◌ {A = Outcome Error A} (ok a) (ok b) → a ≡ b
ok-injective k = cc

ok_or-inv :
    (o : Option ℕ) (why : Error) (n : ℕ)
    → ◌≡◌ {A = Outcome Error ℕ} (ok_or o why) (ok n)
    → o ≡ some n
ok_or-inv none why n e = cc
ok_or-inv (some m) why n e = cc

fail_if-inv : (b : Bool) (why : Error) (u : Unit {0}) → fail_if b why ≡ ok u → b ≡ false
fail_if-inv true why u e = cc
fail_if-inv false why u e = refl

-- Files found so far: each with the number in its name, and no number twice.
abbrev IsFound : List File → Type 0
IsFound files = Each Numbered files × Distinct files

module _ (xxh64 : Text → ℕ) where
  file_of-new :
      (files : List File) (name stem contents : Text) (file : File)
      → strip_sql name ≡ some stem
      → file_of xxh64 files (name, stem) contents ≡ ok file
      → Numbered file × Each (λ g. g.number == file.number ≡ false) files
  unfolding file_of number_of
  file_of-new files name stem contents file stripped e =
      let (number, parsed, e1) =
        ok_split (ok_or (parse_number stem) (migration_invalid name bad_name)) _ e in
      let (u, new, e2) = ok_split (fail_if (any (λ f. f.number == number) files) _) _ e1 in
      let (v, text, e3) = ok_split (fail_if (not (is_utf8 contents)) _) _ e2 in
      subst (λ k. Numbered k × Each (λ g. g.number == k.number ≡ false) files) (ok-injective e3)
        (
          rw stripped
              (ok_or-inv (parse_number stem) (migration_invalid name bad_name) number parsed),
          any-Each (λ f. f.number == number) files (fail_if-inv _ _ u new),
        )

  add_file-IsFound :
      (files files' : List File) (entry : DirEntry)
      → IsFound files
      → add_file xxh64 files entry.contents (sql_file entry) ≡ ok files'
      → IsFound files'
  add_file-IsFound files files' entry (each, d) e = elim (Option-cases (sql_file entry)) [
    | inl other ↦ subst IsFound (ok-injective (rw other at e)) (each, d)
    | inr ((name, stem), found) ↦
        let (file, made, e') =
          ok_split (file_of xxh64 files (name, stem) entry.contents) _ (rw found at e) in
        let (numbered, new) =
          file_of-new files name stem entry.contents file (sql_file-strip_sql entry name stem found)
            made in
        subst IsFound (ok-injective e')
          (Each-push Numbered files file numbered each, Distinct-push files file new d)
  ]

  list_loop-IsFound :
      (entries : List DirEntry) (files out : List File)
      → IsFound files
      → list_loop xxh64 files entries ≡ ok out
      → IsFound out
  unfolding list_loop
  list_loop-IsFound [] files out found e = subst IsFound (ok-injective e) found
  list_loop-IsFound (entry ∷ entries) files out found e =
      let (files', added, e') =
        ok_split (add_file xxh64 files entry.contents (sql_file entry)) _ e in
      list_loop-IsFound entries files' out (add_file-IsFound files files' entry found added) e'

  -- `list` gives the files in the order of the numbers in their names, none of them twice.
  pub list-IsListed :
      (entries : List DirEntry) (files : List File) → list xxh64 entries ≡ ok files → IsListed files
  unfolding list
  list-IsListed entries files e =
      let (out, made, e') = ok_split (list_loop xxh64 [] entries) _ e in
      let (each, d) = list_loop-IsFound entries [] out (tt, tt) made in
      subst IsListed (ok-injective e') (Each-sort_by Numbered out each, Rising-sort_by out d)
