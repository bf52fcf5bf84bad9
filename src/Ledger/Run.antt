-- ===== src/Ledger/Run.antt =====
-- `apply_migrations` of src/storage/ledger.rs: the loop that executes and records what is pending.
-- `exec` is the caller's, and may commit to the store; a commit reads the clock and publishes the
-- manifest, which the file system may refuse. Each gives whether it went well.
pub mod Kept
use adelie.Base.{ℕ, List, [], ◌∷◌, Bool, true, false}
use adelie.Manifest.{Manifest, Result, ok, err, panicked}
use adelie.Manifest.Commit.{Edit, apply}
use adelie.Base.Text.{Text}
use adelie.Wire.{Outcome, ok as listed, ◌>>=◌}
use adelie.Ledger.{File, DirEntry, Error, dry_run}

pub data MigrateMode : Type 0 where
  apply_all dry : MigrateMode

-- What a run leaves: the files that it applied, the store, and whether it applied all.
pub record Run (S : Type 0) : Type 0 where
  pub applied : List File
  pub store : S
  pub finished : Bool

module _ {World : Type 0} (now_ms : World → ℕ) (publish : Manifest → World → Bool × World)
    (exec : File → Manifest × World → Bool × (Manifest × World)) where
  -- The new manifest stands once it is published.
  abbrev pub published : Manifest → Manifest → Bool × World → Bool × (Manifest × World)
  published m next (true, w) = (true, (next, w))
  published m next (false, w) = (false, (m, w))

  abbrev pub committed : Manifest → World → Result Manifest → Bool × (Manifest × World)
  committed m w (ok next) = published m next (publish next w)
  committed m w (err why) = (false, (m, w))
  committed m w panicked = (false, (m, w))

  -- `Shared::commit` of one `RecordMigration`.
  unfoldable pub record_file : File → Manifest × World → Bool × (Manifest × World)
  record_file f (m, w) = committed m w (
      apply (record { base = m.version; edits = Edit.record_migration f.name f.checksum ∷ [] }) m
        (now_ms w))

  abbrev pub stopped : Manifest × World → Run (Manifest × World)
  stopped s = record { applied = []; store = s; finished = false }

  abbrev pub after_record :
      File
      → (Manifest × World → Run (Manifest × World))
      → Bool × (Manifest × World)
      → Run (Manifest × World)
  after_record f next (true, s) = record {
    applied = f ∷ (next s).applied;
    store = (next s).store;
    finished = (next s).finished;
  }
  after_record f next (false, s) = stopped s

  abbrev pub after_exec :
      File
      → (Manifest × World → Run (Manifest × World))
      → Bool × (Manifest × World)
      → Run (Manifest × World)
  after_exec f next (true, s) = after_record f next (record_file f s)
  after_exec f next (false, s) = stopped s

  -- The loop, over what is pending.
  unfoldable pub apply_files : List File → Manifest × World → Run (Manifest × World)
  apply_files [] s = record { applied = []; store = s; finished = true }
  apply_files (f ∷ files) s = after_exec f (λ s'. apply_files files s') (exec f s)

  -- `apply_migrations`, with the entries of the directory. The source returns what was applied where
  -- the run finished, and what stopped it otherwise.
  unfoldable pub apply_migrations :
      (Text → ℕ)
      → MigrateMode
      → List DirEntry
      → Manifest × World
      → Outcome Error (Run (Manifest × World))
  apply_migrations xxh64 dry entries (m, w) = do
    files ← dry_run xxh64 entries m.migrations
    listed (record { applied = files; store = (m, w); finished = true })
  apply_migrations xxh64 apply_all entries (m, w) = do
    files ← dry_run xxh64 entries m.migrations
    listed (apply_files files (m, w))
