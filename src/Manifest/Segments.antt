-- ===== src/Manifest/Segments.antt =====
-- The segments of a manifest in src/storage/manifest/commit.rs: the edits that add and remove them,
-- and their way to the garbage.
use adelie.Base.{
  succ_u64, Option, none, some, ℕ, List, [], ◌∷◌, ◌++◌, map, set, max, Bool, not, ◌&&◌, ◌||◌,
  length, ltb, ◌==◌, if◌then◌else◌,
}
use adelie.Base.Search.{any, filter, sort_by}
use adelie.Base.Text.{Text, text_eq}
use adelie.Manifest.{
  TableEntry, TableName, is_path_component, SchemaField, SegmentEntry, Retired, Manifest, Detail,
  Result, ok, ◌>>=◌, ◌>>◌, fail_if, check_all, contains, ids_eq, has, references_segment, conflict,
  usage,
}
use adelie.Manifest.Tables.{table_index, fail_if_job}

-- Whether `s.split('/')` has parts that are all path components; `part` holds the bytes of the
-- part that is being read.
unfoldable pub is_dir_from : Text → Text → Bool
is_dir_from part [] = is_path_component part
is_dir_from part (c ∷ s) =
    let next = is_dir_from [] s in
    let more = is_dir_from (part ++ (c ∷ [])) s in
    if c == 47 then is_path_component part && next else more

unfoldable pub is_dir : Text → Bool
is_dir dir = not (text_eq dir []) && is_dir_from [] dir

unfoldable pub validate_new_segments : TableName → List ℕ → List SegmentEntry → Result (Unit {0})
validate_new_segments name schema_ids segments =
    check_all
      (λ s.
        fail_if (not (length s.columns == length schema_ids)) (usage name (Detail.stats_count s.id))
        >>= (λ _.
            fail_if (not (ids_eq s.field_ids schema_ids))
              (usage name (Detail.field_ids_differ s.id))
            >>= (λ _. fail_if (not (is_dir s.dir)) (usage name (Detail.bad_dir s.id)))))
      segments

-- `sort_by_key(|s| (s.seq, s.id))`
unfoldable pub sort_segments : List SegmentEntry → List SegmentEntry
sort_segments = sort_by (λ a b. ltb a.seq b.seq || (a.seq == b.seq && ltb a.id b.id))

abbrev pub max_with : ℕ → Option ℕ → ℕ
max_with id none = id
max_with id (some other) = max id other

-- `segments.iter().map(|s| s.id).max()`
abbrev pub max_id : List SegmentEntry → Option ℕ
max_id [] = none
max_id (s ∷ segments) = some (max_with s.id (max_id segments))

-- `next.max(max_id + 1)`, where there is a segment.
abbrev pub raise_past : ℕ → Option ℕ → ℕ
raise_past next none = next
raise_past next (some id) = max next (succ_u64 id)

unfoldable pub raise_next : ℕ → List SegmentEntry → ℕ
raise_next next segments = raise_past next (max_id segments)

unfoldable pub schema_ids : List SchemaField → List ℕ
schema_ids schema = map (λ f. f.id) schema

unfoldable pub add_at : Manifest → ℕ → TableEntry → List SegmentEntry → Manifest
add_at m idx t segments =
    let live = sort_segments (t.segments ++ segments) in
    record m {
      tables = set m.tables idx (record t { segments = live });
      next_segment_id = raise_next m.next_segment_id live;
    }

unfoldable pub apply_add_segments : Manifest → TableName → List SegmentEntry → Result Manifest
apply_add_segments m name segments = do
  (idx, t) ← table_index m name
  validate_new_segments name (schema_ids t.schema) segments
  ok (add_at m idx t segments)

unfoldable pub in_garbage : Manifest → ℕ → Bool
in_garbage m id = any (λ g. g.segment.id == id) m.garbage

-- One round of `release`.
unfoldable pub release_one : Manifest → TableName → SegmentEntry → ℕ → ℕ → Manifest
release_one m name s version now_ms =
    if references_segment m s.id || in_garbage m s.id then m else record m {
      garbage =
          m.garbage
          ++ (record {
            table = name;
            segment = record s { columns = []; field_ids = []; file_field_ids = [] };
            removed_at_ms = now_ms;
            removed_at_version = version;
          }
              ∷ []);
    }

unfoldable pub release : Manifest → TableName → List SegmentEntry → ℕ → ℕ → Manifest
release m name [] version now_ms = m
release m name (s ∷ segments) version now_ms =
    release (release_one m name s version now_ms) name segments version now_ms

unfoldable pub remove_at : Manifest → TableName → ℕ → TableEntry → List ℕ → ℕ → ℕ → Manifest
remove_at m name idx t ids version now_ms =
    let removed = filter (λ s. contains ids s.id) t.segments in
    let kept = filter (λ s. not (contains ids s.id)) t.segments in
    release (record m { tables = set m.tables idx (record t { segments = kept }) }) name removed
      version now_ms

unfoldable pub apply_remove_segments : Manifest → TableName → List ℕ → ℕ → ℕ → Result Manifest
apply_remove_segments m name ids version now_ms = do
  (idx, t) ← table_index m name
  fail_if_job m name
  check_all (λ id. fail_if (not (has id t.segments)) (conflict name (Detail.not_live id))) ids
  ok (remove_at m name idx t ids version now_ms)

unfoldable pub truncate_at : Manifest → TableName → ℕ → TableEntry → ℕ → ℕ → Manifest
truncate_at m name idx t version now_ms =
    release (record m { tables = set m.tables idx (record t { segments = []; tombstones = [] }) })
      name t.segments version now_ms

unfoldable pub apply_truncate_table : Manifest → TableName → ℕ → ℕ → Result Manifest
apply_truncate_table m name version now_ms = do
  (idx, t) ← table_index m name
  fail_if_job m name
  ok (truncate_at m name idx t version now_ms)

unfoldable pub release_all : Manifest → List Retired → ℕ → ℕ → Manifest
release_all m [] version now_ms = m
release_all m (r ∷ expired) version now_ms =
    release_all (release m r.entry.name r.entry.segments version now_ms) expired version now_ms

unfoldable pub apply_expire_retired : Manifest → ℕ → ℕ → ℕ → Manifest
apply_expire_retired m before_ms version now_ms =
    release_all (record m { retired = filter (λ r. not (ltb r.retired_at_ms before_ms)) m.retired })
      (filter (λ r. ltb r.retired_at_ms before_ms) m.retired) version now_ms

unfoldable pub apply_forget_garbage : Manifest → List ℕ → Manifest
apply_forget_garbage m ids = record m {
  garbage = filter (λ g. not (contains ids g.segment.id)) m.garbage;
}

unfoldable pub apply_reserve_segment_ids : Manifest → ℕ → Manifest
apply_reserve_segment_ids m next = record m { next_segment_id = max m.next_segment_id next }
