-- ===== src/Ledger/Resume.antt =====
-- What is left to apply of src/storage/ledger.rs once a file is recorded.
use adelie.Base.{ℕ, ◌≡◌, refl, map, append-nil, append_assoc, subst, List, [], ◌∷◌, ◌++◌}
use adelie.Base.{none, arith}
use adelie.Base.Search.{find}
use adelie.Base.Text.{Text, text_eq}
use adelie.Wire.{ok, ok_split}
use adelie.Manifest.{MigrationRecord}
use adelie.Ledger.{File, check_found, check_recorded, highest, plan, dry_run, DirEntry, list}
use adelie.Ledger.Listed.{Numbered, IsListed, list-IsListed}
use adelie.Ledger.Recorded.{record_of, highest-push}
use adelie.Ledger.Pending.{ok_tt, pending-Found, pending-Each, pending-record}

check_recorded-push :
    (files : List File) (rs : List MigrationRecord) (r : MigrationRecord)
    → check_recorded files rs ≡ ok tt
    → check_found r (find (λ f. text_eq f.name r.name) files) ≡ ok tt
    → check_recorded files (rs ++ (r ∷ [])) ≡ ok tt
unfolding check_recorded
check_recorded-push files [] r e found = rw found refl
check_recorded-push files (x ∷ rs) r e found =
    let (u, there, e') = ok_split (check_found x _) _ e in
    rw (ok_tt _ u there) (check_recorded-push files rs r e' found)

-- Once the first of the files to apply is recorded, the rest is what is to apply.
pub plan-record :
    (files rest : List File) (recorded : List MigrationRecord) (now_ms : ℕ) (f : File)
    → IsListed files
    → plan files recorded ≡ ok (f ∷ rest)
    → plan files (recorded ++ (record_of now_ms f ∷ [])) ≡ ok rest
unfolding plan
plan-record files rest recorded now_ms f (each, rising) e =
    let (u, checked, e1) = ok_split (check_recorded files recorded) _ e in
    let h = highest none recorded in
    let (found, _) = pending-Found h recorded files (f ∷ rest) (each, rising) e1 in
    let (nf, _) = pending-Each Numbered h recorded files (f ∷ rest) each e1 in
    rw
      (
        check_recorded-push files recorded (record_of now_ms f) (ok_tt _ u checked)
            (rw found (ground arith)),
        highest-push none recorded (record_of now_ms f),
        nf,
      )
      (pending-record h recorded now_ms f files rest (each, rising) e1)

plan-resume :
    (files done rest : List File) (recorded : List MigrationRecord) (time : File → ℕ)
    → IsListed files
    → plan files recorded ≡ ok (done ++ rest)
    → plan files (recorded ++ map (λ f. record_of (time f) f) done) ≡ ok rest
plan-resume files [] rest recorded time listed e = rw (append-nil recorded) e
plan-resume files (f ∷ done) rest recorded time listed e =
    let r = record_of (time f) f in
    subst (λ rs. plan files rs ≡ ok rest)
      (append_assoc recorded (r ∷ []) (map (λ f. record_of (time f) f) done))
      (plan-resume files done rest (recorded ++ (r ∷ [])) time listed
        (plan-record files (done ++ rest) recorded (time f) f listed e))

-- A run that was cut off goes on where it stopped: once some of the first files that it had to apply
-- are recorded, whatever the times, a run over the same directory has to apply those that are left,
-- and passes all checks.
resume_lem :
    (xxh64 : Text → ℕ) (entries : List DirEntry) (done rest : List File)
    (recorded : List MigrationRecord) (time : File → ℕ)
    → dry_run xxh64 entries recorded ≡ ok (done ++ rest)
    → dry_run xxh64 entries (recorded ++ map (λ f. record_of (time f) f) done) ≡ ok rest
unfolding dry_run
resume_lem xxh64 entries done rest recorded time e =
    let (files, listed, e') = ok_split (list xxh64 entries) _ e in
    rw listed
      (plan-resume files done rest recorded time (list-IsListed xxh64 entries files listed) e')
