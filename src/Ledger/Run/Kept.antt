-- ===== src/Ledger/Run/Kept.antt =====
-- What a run of src/storage/ledger.rs leaves to the next one.
use adelie.Base.{
  ℕ, ◌≡◌, refl, sym, ap, ◌∙◌, subst, List, [], ◌∷◌, ◌++◌, Bool, true, false, Bool-cases, inl, inr,
  ◌⊎◌,
}
use adelie.Base.Text.{Text, text_eq}
use adelie.Base.Search.{any}
use adelie.Wire.{Outcome, ok as listed, ok_split}
use adelie.Manifest.{Manifest, MigrationRecord, Result, ok, err, panicked, migration_recorded}
use adelie.Manifest.Commit.{Commit, Edit, apply, apply_edits, apply_edit, apply_record_migration}
use adelie.Ledger.{File, Error, DirEntry, list, plan, dry_run}
use adelie.Ledger.Listed.{IsListed, list-IsListed}
use adelie.Ledger.Recorded.{record_of}
use adelie.Ledger.Resume.{plan-record}
use adelie.Ledger.Run.{
  Run, stopped, published, committed, record_file, after_exec, after_record, apply_files,
  apply_migrations, apply_all,
}

-- A commit that records a file adds one record to the ledger.
apply-recorded :
    (m next : Manifest) (f : File) (base now_ms : ℕ)
    → apply (record { base = base; edits = Edit.record_migration f.name f.checksum ∷ [] }) m now_ms
      ≡ ok next
    → next.migrations ≡ m.migrations ++ (record_of now_ms f ∷ [])
unfolding apply apply_edits apply_edit apply_record_migration
apply-recorded m next f base now_ms e =
    elim (Bool-cases (any (λ r. text_eq r.name f.name) m.migrations)) [
      | inl old ↦ absurd (refused (rw old at e))
      | inr fresh ↦ sym (ap migrations (ok-injective (rw fresh at e)))
    ]
  where
    migrations : Manifest → List MigrationRecord
    migrations k = k.migrations

    ok-injective : {a b : Manifest} → ◌≡◌ {A = Result Manifest} (ok a) (ok b) → a ≡ b
    ok-injective k = cc

    refused : ◌≡◌ {A = Result Manifest} (err (migration_recorded f.name)) (ok next) → ⊥
    refused k = cc

-- The ledger is as it was, or has one record more.
abbrev Records : File → List MigrationRecord → Bool → List MigrationRecord → Type 0
Records f before went_well after =
    (went_well ≡ false) × (after ≡ before)
    ⊎ (went_well ≡ true) × ((time : ℕ) × (after ≡ before ++ (record_of time f ∷ [])))

module _ {World : Type 0} (now_ms : World → ℕ) (publish : Manifest → World → Bool × World)
    (exec : File → Manifest × World → Bool × (Manifest × World)) where
  record_file-cases :
      (f : File) (s s' : Manifest × World) (went_well : Bool)
      → record_file now_ms publish exec f s ≡ (went_well, s')
      → Records f s.0.migrations went_well s'.0.migrations
  unfolding record_file
  record_file-cases f (m, w) s' went_well e = go (apply edit m (now_ms w)) refl e
    where
      edit : Commit
      edit = record { base = m.version; edits = Edit.record_migration f.name f.checksum ∷ [] }

      go :
          (r : Result Manifest)
          → apply edit m (now_ms w) ≡ r
          → committed now_ms publish exec m w r ≡ (went_well, s')
          → Records f m.migrations went_well s'.0.migrations
      go panicked a k = inl (sym (ap (λ p. p.0) k), sym (ap (λ p. p.1.0.migrations) k))
      go (err why) a k = inl (sym (ap (λ p. p.0) k), sym (ap (λ p. p.1.0.migrations) k))
      go (ok next) a k = done (publish next w) k
        where
          done :
              (p : Bool × World)
              → published now_ms publish exec m next p ≡ (went_well, s')
              → Records f m.migrations went_well s'.0.migrations
          done (false, w') j = inl (sym (ap (λ p. p.0) j), sym (ap (λ p. p.1.0.migrations) j))
          done (true, w') j = inr (
            sym (ap (λ p. p.0) j),
            (
              now_ms w,
              sym (ap (λ p. p.1.0.migrations) j) ∙ apply-recorded m next f m.version (now_ms w) a,
            ),
          )

  -- The files that a run did not come to are what is left to apply, none if it finished.
  abbrev pub Resumes : List File → List File → Run (Manifest × World) → Type 0
  Resumes dir todo r =
      (rest : List File) × (todo ≡ r.applied ++ rest)
      × (plan dir r.store.0.migrations ≡ listed rest)
      × (r.finished ≡ true → rest ≡ [])

  stopped-Resumes :
      (dir todo : List File) (s : Manifest × World)
      → plan dir s.0.migrations ≡ listed todo
      → Resumes dir todo (stopped now_ms publish exec s)
  stopped-Resumes dir todo s e = (todo, refl, e, λ k. absurd (unfinished k))
    where
      unfinished : false ≡ true → ⊥
      unfinished k = cc

  after_record-Resumes :
      (dir files : List File) (f : File) (next : Manifest × World → Run (Manifest × World))
      (s : Manifest × World) (p : Bool × (Manifest × World))
      → IsListed dir
      → ((s' : Manifest × World)
          → plan dir s'.0.migrations ≡ listed files
          → Resumes dir files (next s'))
      → plan dir s.0.migrations ≡ listed (f ∷ files)
      → Records f s.0.migrations p.0 p.1.0.migrations
      → Resumes dir (f ∷ files) (after_record now_ms publish exec f next p)
  after_record-Resumes dir files f next s (went_well, s') ok_dir ih e (inl (failed, same)) =
      rw failed (
        stopped-Resumes dir (f ∷ files) s'
          (subst (λ ms. plan dir ms ≡ listed (f ∷ files)) (sym same) e))
  after_record-Resumes dir files f next s (went_well, s') ok_dir ih e (inr (done, (time, more))) =
      let (rest, split, left, finished) = ih s' (
        subst (λ ms. plan dir ms ≡ listed files) (sym more)
          (plan-record dir files s.0.migrations time f ok_dir e)) in
      rw done (rest, ap (λ fs. f ∷ fs) split, left, finished)

  after_exec-Resumes :
      (dir files : List File) (f : File) (next : Manifest × World → Run (Manifest × World))
      (s : Manifest × World) (p : Bool × (Manifest × World))
      → IsListed dir
      → ((s' : Manifest × World)
          → plan dir s'.0.migrations ≡ listed files
          → Resumes dir files (next s'))
      → plan dir s.0.migrations ≡ listed (f ∷ files)
      → p.1.0.migrations ≡ s.0.migrations
      → Resumes dir (f ∷ files) (after_exec now_ms publish exec f next p)
  after_exec-Resumes dir files f next s (false, s') ok_dir ih e same =
      stopped-Resumes dir (f ∷ files) s'
        (subst (λ ms. plan dir ms ≡ listed (f ∷ files)) (sym same) e)
  after_exec-Resumes dir files f next s (true, s') ok_dir ih e same =
      after_record-Resumes dir files f next s' (record_file now_ms publish exec f s') ok_dir ih
        (subst (λ ms. plan dir ms ≡ listed (f ∷ files)) (sym same) e)
        (record_file-cases f s' _ _ refl)

  apply_files-Resumes :
      (dir files : List File) (s : Manifest × World)
      → ((f : File) (s' : Manifest × World) → (exec f s').1.0.migrations ≡ s'.0.migrations)
      → IsListed dir
      → plan dir s.0.migrations ≡ listed files
      → Resumes dir files (apply_files now_ms publish exec files s)
  unfolding apply_files
  apply_files-Resumes dir [] s keeps ok_dir e = ([], refl, e, λ k. refl)
  apply_files-Resumes dir (f ∷ files) s keeps ok_dir e =
      after_exec-Resumes dir files f _ s (exec f s) ok_dir
        (λ s' e'. apply_files-Resumes dir files s' keeps ok_dir e') e (keeps f s)

-- A run that goes through its checks applies the first of the files that are to apply, in order, and
-- whether it finishes or an `exec` or a commit stops it, the files it did not come to are those that
-- the next run over the same directory has to apply, and none are left if it finished. The condition
-- is that no `exec` touches the ledger.
pub apply_migrations_lem :
    {World : Type 0} (now_ms : World → ℕ) (publish : Manifest → World → Bool × World)
    (exec : File → Manifest × World → Bool × (Manifest × World)) (xxh64 : Text → ℕ)
    (entries : List DirEntry) (s : Manifest × World) (r : Run (Manifest × World))
    → ((f : File) (s' : Manifest × World) → (exec f s').1.0.migrations ≡ s'.0.migrations)
    → apply_migrations now_ms publish exec xxh64 apply_all entries s ≡ listed r
    → (rest : List File) × (dry_run xxh64 entries s.0.migrations ≡ listed (r.applied ++ rest))
      × (dry_run xxh64 entries r.store.0.migrations ≡ listed rest)
      × (r.finished ≡ true → rest ≡ [])
unfolding apply_migrations dry_run
apply_migrations_lem {World = World} now_ms publish exec xxh64 entries (m, w) r keeps e =
    let (files, planned, e1) = ok_split (dry_run xxh64 entries m.migrations) _ e in
    let (dir, found, e2) = ok_split (list xxh64 entries) _ planned in
    let (rest, split, left, finished) =
      subst (Resumes now_ms publish exec dir files) (ok-injective e1) (
        apply_files-Resumes now_ms publish exec dir files (m, w) keeps
          (list-IsListed xxh64 entries dir found) e2) in
    (rest, planned ∙ ap listed split, rw found left, finished)
  where
    ok-injective :
        {a b : Run (Manifest × World)}
        → ◌≡◌ {A = Outcome Error (Run (Manifest × World))} (listed a) (listed b)
        → a ≡ b
    ok-injective k = cc
