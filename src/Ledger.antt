-- ===== src/Ledger.antt =====
-- src/storage/ledger.rs: the migration files of a directory, and which of them a run has to apply.
-- A name is the bytes of its UTF-8, and `xxh64` is the hash of segment/hash.rs, with the seed 0:
-- nothing here depends on its values.
pub mod Listed
pub mod Recorded
pub mod Pending
pub mod Resume
pub mod Run
use adelie.Base.{ℕ, ◌+◌, ◌*◌, ◌-◌, ◌^◌, List, [], ◌∷◌, ◌++◌, Bool, true, false, ◌&&◌, not}
use adelie.Base.{Option, none, some, ltb, leb, ◌==◌, if◌then◌else◌}
use adelie.Base.Search.{any, all, find, sort_by}
use adelie.Base.Text.{Text, bytes, text_eq}
use adelie.Base.Utf8.{is_utf8}
use adelie.Wire.{Outcome, ok, err, ok_or, fail_if, ◌>>=◌, ◌>>◌}
use adelie.Manifest.{MigrationRecord}

-- One entry of the directory: its name where that is UTF-8, and its bytes where it is a file.
pub record DirEntry : Type 0 where
  pub file_name : Option Text
  pub is_dir : Bool
  pub contents : Text

pub record File : Type 0 where
  pub name : Text
  pub number : ℕ
  pub checksum : ℕ
  pub sql : Text

-- The detail of a `MigrationInvalid`.
pub data Detail : Type 0 where
  bad_name not_utf8 : Detail
  duplicate_number : ℕ → Detail
  numbered_below : Text → Detail

-- The errors of `storage::Error` that a run gives before it executes anything.
pub data Error : Type 0 where
  migration_changed migration_missing : Text → Error
  migration_invalid : Text → Detail → Error

abbrev pub push : ℕ → Option Text → Option Text
push c none = none
push c (some cs) = some (c ∷ cs)

-- `name.strip_suffix(".sql")`
unfoldable pub strip_sql : Text → Option Text
strip_sql [] = none
strip_sql (c ∷ cs) = if text_eq (c ∷ cs) (bytes ".sql") then some [] else push c (strip_sql cs)

-- The bytes before the first `_`.
unfoldable pub before_underscore : Text → Option Text
before_underscore [] = none
before_underscore (c ∷ cs) = if c == 95 then some [] else push c (before_underscore cs)

abbrev pub is_digit : ℕ → Bool
is_digit c = leb 48 c && leb c 57

abbrev pub decimal : ℕ → Text → ℕ
decimal n [] = n
decimal n (c ∷ cs) = decimal (10 * n + (c - 48)) cs

-- `digits.parse::<u64>().ok()` of ASCII digits.
abbrev pub parse_u64 : Text → Option ℕ
parse_u64 digits = if ltb (decimal 0 digits) (2 ^ 64) then some (decimal 0 digits) else none

abbrev pub number_in : Option Text → Option ℕ
number_in none = none
number_in (some []) = none
number_in (some (c ∷ cs)) = if all is_digit (c ∷ cs) then parse_u64 (c ∷ cs) else none

unfoldable pub parse_number : Text → Option ℕ
parse_number stem = number_in (before_underscore stem)

abbrev pub parse_stem : Option Text → Option ℕ
parse_stem none = none
parse_stem (some stem) = parse_number stem

unfoldable pub number_of : Text → Option ℕ
number_of name = parse_stem (strip_sql name)

-- The name and the stem of an entry that is a `.sql` file.
abbrev pub with_name : Text → Option Text → Option (Text × Text)
with_name name none = none
with_name name (some stem) = some (name, stem)

abbrev pub sql_file : DirEntry → Option (Text × Text)
sql_file entry =
    if entry.is_dir
    then none
    else elim entry.file_name [ none ↦ none | some name ↦ with_name name (strip_sql name) ]

module _ (xxh64 : Text → ℕ) where
  -- The file of an entry whose name ends in `.sql`, behind those found so far.
  unfoldable pub file_of : List File → Text × Text → Text → Outcome Error File
  file_of files (name, stem) contents = do
    number ← ok_or (parse_number stem) (migration_invalid name bad_name)
    fail_if (any (λ f. f.number == number) files) (migration_invalid name (duplicate_number number))
    fail_if (not (is_utf8 contents)) (migration_invalid name not_utf8)
    ok (record { name = name; number = number; checksum = xxh64 contents; sql = contents })

  abbrev pub add_file : List File → Text → Option (Text × Text) → Outcome Error (List File)
  add_file files contents none = ok files
  add_file files contents (some found) = do
    file ← file_of files found contents
    ok (files ++ (file ∷ []))

  -- The loop of `list`, with the files found so far.
  unfoldable pub list_loop : List File → List DirEntry → Outcome Error (List File)
  list_loop files [] = ok files
  list_loop files (entry ∷ entries) = do
    files' ← add_file files entry.contents (sql_file entry)
    list_loop files' entries

  unfoldable pub list : List DirEntry → Outcome Error (List File)
  list entries = do files ← list_loop [] entries; ok (sort_by (λ f g. ltb f.number g.number) files)

-- The checks of what is recorded against the directory.
abbrev pub check_found : MigrationRecord → Option File → Outcome Error (Unit {0})
check_found r none = err (migration_missing r.name)
check_found r (some f) = fail_if (not (f.checksum == r.checksum)) (migration_changed r.name)

unfoldable pub check_recorded : List File → List MigrationRecord → Outcome Error (Unit {0})
check_recorded files [] = ok tt
check_recorded files (r ∷ rs) =
    check_found r (find (λ f. text_eq f.name r.name) files) >> check_recorded files rs

-- `max_by_key`, which keeps the last of the highest.
abbrev pub higher : Option (ℕ × Text) → Text → Option ℕ → Option (ℕ × Text)
higher best name none = best
higher none name (some n) = some (n, name)
higher (some (m, other)) name (some n) = if ltb n m then some (m, other) else some (n, name)

unfoldable pub highest : Option (ℕ × Text) → List MigrationRecord → Option (ℕ × Text)
highest best [] = best
highest best (r ∷ rs) = highest (higher best r.name (number_of r.name)) rs

abbrev pub check_above : Option (ℕ × Text) → File → Outcome Error (Unit {0})
check_above none f = ok tt
check_above (some (n, name)) f =
    fail_if (leb f.number n) (migration_invalid f.name (numbered_below name))

abbrev pub is_recorded : List MigrationRecord → File → Bool
is_recorded recorded f = any (λ r. text_eq r.name f.name) recorded

-- A file that is recorded is passed over; another is checked and goes before the rest.
abbrev pub keep :
    Bool → Option (ℕ × Text) → File → Outcome Error (List File) → Outcome Error (List File)
keep true highest f rest = rest
keep false highest f rest = do check_above highest f; files ← rest; ok (f ∷ files)

-- The loop that collects what is pending.
unfoldable pub pending :
    Option (ℕ × Text) → List MigrationRecord → List File → Outcome Error (List File)
pending highest recorded [] = ok []
pending highest recorded (f ∷ files) =
    keep (is_recorded recorded f) highest f (pending highest recorded files)

-- What a run applies, the oldest first: all of `apply_migrations` before the first `exec`.
unfoldable pub plan : List File → List MigrationRecord → Outcome Error (List File)
plan files recorded = do
  check_recorded files recorded
  pending (highest none recorded) recorded files

unfoldable pub dry_run :
    (Text → ℕ) → List DirEntry → List MigrationRecord → Outcome Error (List File)
dry_run xxh64 entries recorded = do files ← list xxh64 entries; plan files recorded
