-- ===== src/Examples/Ledger.antt =====
-- A directory of migration files, the first of them recorded.
use adelie.Base.{ltb, Bool, ◌+◌, ◌++◌, ℕ, length, ◌≡◌, refl, List, [], ◌∷◌, true, false, none, some}
use adelie.Base.Text.{Text, bytes, text_eq}
use adelie.Base.Utf8.{is_utf8}
use adelie.Base.Search.{sort_by}
use adelie.Wire.{ok, err}
use adelie.Manifest.{Manifest, MigrationRecord, empty}
use adelie.Ledger.{
  DirEntry, File, number_of, list, list_loop, strip_sql, file_of, parse_number, before_underscore,
  plan, check_recorded, pending, highest, dry_run, numbered_below, migration_invalid,
}
use adelie.Ledger.Listed.{IsListed, list-IsListed}
use adelie.Ledger.Run.{Run, apply_migrations, apply_files, record_file}
use adelie.Ledger.Run.Kept.{apply_migrations_lem}
use adelie.Manifest.Commit.{apply, apply_edits, apply_edit, apply_record_migration}

abbrev sql_entry : Text → Text → DirEntry
sql_entry name contents = record { file_name = some name; is_dir = false; contents = contents }

abbrev entries : List DirEntry
entries =
    sql_entry (bytes "10_third.sql") (bytes "select 1;")
    ∷ sql_entry (bytes "readme.txt") (bytes "ignore me")
    ∷ sql_entry (bytes "2_second.sql") (bytes "select")
    ∷ record { file_name = some (bytes "3_dir.sql"); is_dir = true; contents = [] }
    ∷ sql_entry (bytes "0001_first.sql") []
    ∷ []

abbrev first : File
first = record { name = bytes "0001_first.sql"; number = 1; checksum = 0; sql = [] }

abbrev second : File
second = record { name = bytes "2_second.sql"; number = 2; checksum = 6; sql = bytes "select" }

abbrev third : File
third = record { name = bytes "10_third.sql"; number = 10; checksum = 9; sql = bytes "select 1;" }

abbrev recorded_at : ℕ → File → MigrationRecord
recorded_at now_ms f = record { name = f.name; checksum = f.checksum; applied_at_ms = now_ms }

upper_case : number_of (bytes "3_upper.SQL") ≡ none
unfolding number_of strip_sql text_eq
upper_case = refl

number_below :
    dry_run length entries (recorded_at 5 second ∷ [])
    ≡ err (migration_invalid first.name (numbered_below second.name))
unfolding dry_run list list_loop strip_sql text_eq file_of parse_number before_underscore is_utf8
    plan check_recorded sort_by pending highest number_of
number_below = refl

list-IsListed_example : IsListed (first ∷ second ∷ third ∷ [])
unfolding list list_loop strip_sql text_eq file_of parse_number before_underscore is_utf8 sort_by
list-IsListed_example = list-IsListed length entries (first ∷ second ∷ third ∷ []) refl

-- A run in which the second of the two `exec` fails.
abbrev store : Manifest × ℕ
store = (record empty { migrations = recorded_at 5 first ∷ [] }, 7)

abbrev publish : Manifest → ℕ → Bool × ℕ
publish m now = (true, now + 1)

abbrev exec : File → Manifest × ℕ → Bool × (Manifest × ℕ)
exec f s = (ltb f.number 10, s)

abbrev cut_off : Run (Manifest × ℕ)
cut_off = record {
  applied = second ∷ [];
  store = (
    record empty {
      version = empty.version + 1;
      migrations = recorded_at 5 first ∷ recorded_at 7 second ∷ [];
    },
    8,
  );
  finished = false;
}

apply_migrations_lem_example :
    (rest : List File) × (dry_run length entries store.0.migrations ≡ ok (cut_off.applied ++ rest))
    × (dry_run length entries cut_off.store.0.migrations ≡ ok rest)
    × (cut_off.finished ≡ true → rest ≡ [])
unfolding dry_run list list_loop strip_sql text_eq file_of parse_number before_underscore is_utf8
    plan check_recorded sort_by pending highest number_of apply_migrations apply_files record_file
    apply apply_edits apply_edit apply_record_migration empty
apply_migrations_lem_example =
    apply_migrations_lem (λ now. now) publish exec length entries store cut_off (λ f s. refl) refl
