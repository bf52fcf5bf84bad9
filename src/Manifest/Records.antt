-- ===== src/Manifest/Records.antt =====
-- The records of src/storage/manifest/mod.rs, lifecycle.rs and ledger.rs, and `Field` and `ColumnStats` of
-- src/exec/, which they hold.
use adelie.Base.{ℕ, List, [], Bool, true, false, not, ◌&&◌, ◌||◌}
use adelie.Base.{Option, ◌==◌, if◌then◌else◌}
use adelie.Base.Search.{any}
use adelie.Base.Text.{Text, text_eq, text_lt, bytes}
use adelie.Types.{DataType, Value}

pub record TableName : Type 0 where
  pub db : Text
  pub name : Text

-- The derived `PartialEq` and `Ord` of TableName.
unfoldable pub name_eq : TableName → TableName → Bool
name_eq a b = if text_eq a.db b.db then text_eq a.name b.name else false

unfoldable pub name_lt : TableName → TableName → Bool
name_lt a b =
    if text_lt a.db b.db then true else if text_eq a.db b.db then text_lt a.name b.name else false

-- `!s.contains(['/', '\\', '\0'])`
abbrev pub is_ordinary : Text → Bool
is_ordinary s = not (any (λ c. c == 47 || (c == 92 || c == 0)) s)

unfoldable pub is_path_component : Text → Bool
is_path_component s =
    not (text_eq s [])
    && (not (text_eq s (bytes ".")) && (not (text_eq s (bytes "..")) && is_ordinary s))

-- `exec::Field` and `exec::ColumnStats`
pub record Field : Type 0 where
  pub name : Text
  pub ty : DataType

pub record ColumnStats : Type 0 where
  pub rows : ℕ
  pub null_count : ℕ
  pub min : Option Value
  pub max : Option Value

-- A `TableId`, a `FieldId`, a duration in nanoseconds and a time in milliseconds are numbers.
pub record SchemaField : Type 0 where
  pub id : ℕ
  pub field : Field

pub record PartitionBy : Type 0 where
  pub column : ℕ
  pub bucket : ℕ

pub record Ttl : Type 0 where
  pub column : ℕ
  pub after : ℕ

pub record SideFile : Type 0 where
  pub kind : ℕ
  pub path : Text
  pub crc : ℕ

pub record SegmentEntry : Type 0 where
  pub id : ℕ
  pub partition : Text
  pub seq : ℕ
  pub rows : ℕ
  pub bytes : ℕ
  pub footer_crc : ℕ
  pub columns : List ColumnStats
  pub side_files : List SideFile
  pub dir : Text
  pub field_ids : List ℕ
  pub file_field_ids : List ℕ

pub data CmpOp : Type 0 where
  eq ne lt le gt ge : CmpOp

pub record Predicate : Type 0 where
  pub column : Text
  pub op : CmpOp
  pub value : Value

pub record Tombstone : Type 0 where
  pub seq : ℕ
  pub predicates : List Predicate

pub record Garbage : Type 0 where
  pub table : TableName
  pub segment : SegmentEntry
  pub removed_at_ms : ℕ
  pub removed_at_version : ℕ

-- `options` is the map's entries, ascending by key.
pub record TableEntry : Type 0 where
  pub id : ℕ
  pub name : TableName
  pub engine : Text
  pub schema : List SchemaField
  pub next_field_id : ℕ
  pub key : List ℕ
  pub version : Option ℕ
  pub order_by : List ℕ
  pub partition_by : Option PartitionBy
  pub ttl : Option Ttl
  pub options : List (Text × Text)
  pub segments : List SegmentEntry
  pub tombstones : List Tombstone

pub record Job : Type 0 where
  pub id : ℕ
  pub source : ℕ
  pub snapshot : ℕ
  pub target : TableEntry
  pub handled : List ℕ
  pub reused : ℕ
  pub rewritten : ℕ

pub data RetireReason : Type 0 where
  swapped reverted dropped : RetireReason

pub record Retired : Type 0 where
  pub entry : TableEntry
  pub reason : RetireReason
  pub retired_at_ms : ℕ
  pub version : ℕ
  pub successor_segments : List ℕ

pub record MigrationRecord : Type 0 where
  pub name : Text
  pub checksum : ℕ
  pub applied_at_ms : ℕ

pub record Manifest : Type 0 where
  pub version : ℕ
  pub next_segment_id : ℕ
  pub next_table_id : ℕ
  pub tables : List TableEntry
  pub garbage : List Garbage
  pub next_job_id : ℕ
  pub jobs : List Job
  pub retired : List Retired
  pub migrations : List MigrationRecord
