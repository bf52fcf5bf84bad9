-- ===== src/Manifest.antt =====
-- src/storage/manifest/mod.rs, lifecycle.rs and ledger.rs: the one mutable object of a store, its
-- tables, segments, running jobs, retired tables, garbage and migration ledger. An error message
-- is a constructor with the values that it shows. A panic of an `expect` or of an index is
-- `panicked`. The counters are numbers that do not wrap.
pub mod Records
pub mod Outcome
pub mod Spec
pub mod Alter
pub mod Tables
pub mod Segments
pub mod Jobs
pub mod Tombstones
pub mod Commit
pub mod Results
pub mod Step
pub mod Refs
pub mod Ascending
pub mod Valid
pub mod Ids
pub mod Codec
use adelie.Base.{ℕ, zero, suc, ◌+◌, List, [], ◌∷◌, ◌++◌, map, Bool, true, false, not, ◌&&◌, ◌||◌}
use adelie.Base.{Option, none, some, ltb, ◌==◌, if◌then◌else◌}
use adelie.Base.Search.{any, all, find, position, filter}
use adelie.Base.Text.{Text, text_eq, text_lt, bytes}
use adelie.Types.{DataType, Value}
use Prim.Native.String.{String}
unfoldable pub use Records.*
pub use Outcome.*

abbrev pub contains : List ℕ → ℕ → Bool
contains ids id = any (λ i. i == id) ids

abbrev pub ids_eq : List ℕ → List ℕ → Bool
ids_eq [] [] = true
ids_eq [] (y ∷ ys) = false
ids_eq (x ∷ xs) [] = false
ids_eq (x ∷ xs) (y ∷ ys) = if x == y then ids_eq xs ys else false

unfoldable pub file_ids : SegmentEntry → List ℕ
file_ids s = if ids_eq s.file_field_ids [] then s.field_ids else s.file_field_ids

abbrev pub get_stats : List ColumnStats → ℕ → Option ColumnStats
get_stats [] j = none
get_stats (c ∷ cs) zero = some c
get_stats (c ∷ cs) (suc j) = get_stats cs j

-- The statistics of a field for a table: the entry's own, or those of a column of NULLs. The
-- index panics where the entry has fewer statistics than field ids.
unfoldable pub project_stats : SegmentEntry → SchemaField → Result ColumnStats
project_stats s f = elim (position (λ id. id == f.id) s.field_ids) [
  | none ↦ ok (record { rows = s.rows; null_count = s.rows; min = none; max = none })
  | some (j, id) ↦ expect (get_stats s.columns j)
]

unfoldable pub project_file_id : SegmentEntry → ℕ → ℕ
project_file_id s id = if not (id == 0) && contains s.field_ids id then id else 0

unfoldable pub project_onto : SegmentEntry → List SchemaField → Result SegmentEntry
project_onto s schema = do
  let field_ids = map (λ f. f.id) schema
  columns ← collect (project_stats s) schema
  let file_field_ids = map (project_file_id s) (file_ids s)
  ok (record s {
    columns = columns;
    field_ids = field_ids;
    file_field_ids = if ids_eq file_field_ids field_ids then [] else file_field_ids;
  })

unfoldable pub tombstones_for : TableEntry → SegmentEntry → List Tombstone
tombstones_for t seg = filter (λ d. ltb seg.seq d.seq) t.tombstones

unfoldable pub fields : TableEntry → List Field
fields t = map (λ f. f.field) t.schema

unfoldable pub field : List SchemaField → ℕ → Option SchemaField
field schema id = find (λ f. f.id == id) schema

unfoldable pub empty : Manifest
empty = record {
  version = 0;
  next_segment_id = 0;
  next_table_id = 1;
  tables = [];
  garbage = [];
  next_job_id = 1;
  jobs = [];
  retired = [];
  migrations = [];
}

unfoldable pub table : Manifest → TableName → Option TableEntry
table m name = find (λ t. name_eq t.name name) m.tables

-- `has` of `references_segment`
abbrev pub has : ℕ → List SegmentEntry → Bool
has id segs = any (λ s. s.id == id) segs

unfoldable pub references_segment : Manifest → ℕ → Bool
references_segment m id =
    any (λ t. has id t.segments) m.tables
    || (any (λ r. has id r.entry.segments) m.retired || any (λ j. has id j.target.segments) m.jobs)

unfoldable pub job : Manifest → ℕ → Option Job
job m id = find (λ j. j.id == id) m.jobs

unfoldable pub job_for : Manifest → TableName → Option Job
job_for m name = elim (table m name) [ none ↦ none | some t ↦ find (λ j. j.source == t.id) m.jobs ]
