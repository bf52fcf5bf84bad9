-- ===== src/Manifest/Outcome.antt =====
-- What an edit of a manifest comes to: the errors of src/storage/manifest/error.rs that edits give, and `?`
-- on them.
use adelie.Base.{ℕ, List, [], ◌∷◌, Bool, true, false}
use adelie.Base.{Option, none, some}
use adelie.Base.Text.{Text}
use Prim.Native.String.{String}
use adelie.Manifest.Records.{TableName}

-- The details of a `Conflict`, a `Usage` or a `RevertStale`.
pub data Detail : Type 0 where
  no_table table_exists no_source : Detail
  not_live handled_or_not_live catch_up_incomplete compacted_since_swap : ℕ → Detail
  stats_count field_ids_differ bad_dir : ℕ → Detail
  null_predicate unknown_column unfit_predicate : Text → Detail
  tombstone_unknown_column tombstone_lost_column : ℕ → Text → Detail
  not_path_component no_clause : Detail
  declared_twice column_exists in_order_by in_partition_by in_ttl order_by_unknown : Text → Detail
  names_unknown names_twice not_timestamp : String → Text → Detail
  version_not_allowed zero_bucket zero_ttl : Detail

pub data Error : Type 0 where
  unknown_engine key_required : TableName → Text → Error
  key_not_allowed : TableName → Text → List Text → Error
  key_not_sort_prefix : TableName → List Text → List Text → Error
  conflict usage revert_stale : TableName → Detail → Error
  no_such_job : ℕ → Error
  job_running : TableName → ℕ → Error
  nothing_to_revert not_dropped : TableName → Error
  fixed_column : TableName → Text → String → Error
  column_in_tombstone : TableName → Text → ℕ → Error
  column_used_by_rollup : TableName → Text → Text → Error
  migration_not_built : TableName → String → Error
  migration_recorded : Text → Error

pub data Result {ℓ} (A : Type ℓ) : Type ℓ where
  ok : A → Result A
  err : Error → Result A
  panicked : Result A

infixl 5 ◌>>=◌ ◌>>◌
abbrev pub ◌>>=◌ {ℓ κ} : {A : Type ℓ} {B : Type κ} → Result A → (A → Result B) → Result B
panicked >>= rest = panicked
err why >>= rest = err why
ok done >>= rest = rest done

abbrev pub ◌>>◌ {κ} : {B : Type κ} → Result (Unit {0}) → Result B → Result B
check >> rest = check >>= (λ _. rest)

-- An early `return Err(e)` where a condition holds, `ok_or_else`, and `expect`.
abbrev pub fail_if : Bool → Error → Result (Unit {0})
fail_if true why = err why
fail_if false why = ok tt

abbrev pub ok_or {ℓ} : {A : Type ℓ} → Option A → Error → Result A
ok_or none why = err why
ok_or (some a) why = ok a

abbrev pub expect {ℓ} : {A : Type ℓ} → Option A → Result A
expect none = panicked
expect (some a) = ok a

abbrev pub is_some {ℓ} : {A : Type ℓ} → Option A → Bool
is_some none = false
is_some (some a) = true

-- A loop that makes a vector of what the body gives for each element, or stops at its failure.
abbrev pub collect {ℓ κ} : {A : Type ℓ} {B : Type κ} → (A → Result B) → List A → Result (List B)
collect f [] = ok []
collect f (x ∷ xs) = f x >>= (λ y. collect f xs >>= (λ ys. ok (y ∷ ys)))

-- A loop of checks.
abbrev pub check_all {ℓ} : {A : Type ℓ} → (A → Result (Unit {0})) → List A → Result (Unit {0})
check_all f [] = ok tt
check_all f (x ∷ xs) = f x >>= (λ _. check_all f xs)
