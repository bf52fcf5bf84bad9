-- ===== src/Manifest/Codec/Confined.antt =====
-- A name read off disk by src/storage/manifest/codec.rs becomes a path under the store's root.
use adelie.Base.{
  ℕ, ◌≡◌, refl, List, [], ◌∷◌, true, not, ◌⊎◌, inl, inr, ltb, leb, ◌==◌, ◌&&◌, ◌||◌, length, take,
  subst,
}
use adelie.Base.Each.{Each}
use adelie.Base.Search.{all}
use adelie.Base.Text.{Text, text_eq}
use adelie.Wire.{Outcome, ok, ok_split, fail_if}
use adelie.Wire.Cursor.{Cursor, from_le_bytes}
use adelie.Wire.Cursor
use adelie.Wire.Trips.{or_absent, map_err}
use adelie.Wire.Yields.{
  Yields, gives, field_yields, skip_field, check_yields, passed_yields, in_record_yields,
  or_absent_yields, list_yields, fail_if_passes,
}
use adelie.Manifest.{
  SchemaField, SegmentEntry, TableName, TableEntry, Garbage, Job, Retired, Manifest,
  is_path_component,
}
use adelie.Manifest.Spec.{is_nil}
use adelie.Manifest.Codec.{
  Error, corrupt, field_ids_arity, bad_job_id, unknown_reason, wire_error, check_component, get_str,
  get_uvarint, get_u8, get_ids, get_record, get_list,
}
use adelie.Manifest.Codec.Columns.{decode_columns}
use adelie.Manifest.Codec.Schema.{decode_schema}
use adelie.Manifest.Codec.Definition.{absent, decode_definition, check_definition_ids}
use adelie.Manifest.Codec.Segments.{
  split_slash, check_parts, decode_dir, decode_segment, get_u32, decode_side_files,
  decode_file_field_ids,
}
use adelie.Manifest.Codec.Tables.{decode_segments, decode_tombstones, decode_table_entry}
use adelie.Manifest.Codec.Lifecycle.{
  retire_reason_from_id, decode_garbage, decode_garbage_entry, decode_job, decode_retired,
  decode_lifecycle, decode_migrations,
}
use adelie.Manifest.Codec.Whole.{
  decode_header_fields, decode_tables, decode_body, decode, trailer_err, manifest_magic,
  manifest_version, header_len,
}
use adelie.Segment.Trailer.{read_trailer, slice}

-- Every part of a directory is a component, or there is no directory at all.
abbrev pub IsDir : Text → Type 0
IsDir d = (d ≡ []) ⊎ (all is_path_component (split_slash d) ≡ true)

pub record InStore (s : SegmentEntry) : Type 0 where
  pub partition : is_path_component s.partition ≡ true
  pub dir : IsDir s.dir

pub record IsName (n : TableName) : Type 0 where
  pub db : is_path_component n.db ≡ true
  pub name : is_path_component n.name ≡ true

pub record IsConfinedTable (t : TableEntry) : Type 0 where
  pub name : IsName t.name
  pub segments : Each InStore t.segments

-- All names of the manifest that become parts of paths.
pub record IsConfined (m : Manifest) : Type 0 where
  pub tables : Each IsConfinedTable m.tables
  pub garbage : Each (λ g. IsName g.table × InStore g.segment) m.garbage
  pub jobs : Each (λ j. IsConfinedTable j.target) m.jobs
  pub retired : Each (λ r. IsConfinedTable r.entry) m.retired

ok-injective : (a b : Manifest) → ◌≡◌ {A = Outcome Error Manifest} (ok a) (ok b) → a ≡ b
ok-injective a b h = cc

check_parts_passes :
    (parts : List Text) → check_parts parts ≡ ok tt → all is_path_component parts ≡ true
check_parts_passes [] h = refl
check_parts_passes (part ∷ parts) h =
    let (u, first, rest) = ok_split (check_component part) _ h in
    rw (fail_if_passes (is_path_component part) _ first) (check_parts_passes parts rest)

decode_dir-IsDir : Yields decode_dir IsDir
unfolding decode_dir
decode_dir-IsDir = skip_field get_str _ (λ d.
    check_yields (check_parts (split_slash d)) _
      (λ h. gives IsDir d (inr (check_parts_passes (split_slash d) h))))

segment_yields : (schema : List SchemaField) → Yields (decode_segment schema) InStore
unfolding decode_segment
segment_yields schema = skip_field get_uvarint _ (λ id. skip_field get_str _ (λ partition.
    check_yields (check_component partition) _ (λ part. skip_field get_uvarint _ (λ seq.
      skip_field get_uvarint _ (λ rows. skip_field get_uvarint _ (λ bytes.
        skip_field get_u32 _ (λ crc. skip_field (get_record (decode_columns schema)) _ (λ columns.
          skip_field (get_record decode_side_files) _ (λ side.
            field_yields IsDir (or_absent [] decode_dir) _
              (or_absent_yields [] decode_dir (inl refl) decode_dir-IsDir)
              (λ dir d. skip_field (or_absent [] (get_record get_ids)) _ (λ ids.
                skip_field (or_absent [] (get_record decode_file_field_ids)) _ (λ file_ids.
                  check_yields
                    (fail_if (not (is_nil ids) && not (length ids == length columns))
                      (corrupt (field_ids_arity (length ids) (length columns))))
                    _
                    (λ arity. gives InStore _ (record {
                      partition = fail_if_passes (is_path_component partition) _ part;
                      dir = d;
                    }))))))))))))))

table_yields : Yields decode_table_entry IsConfinedTable
unfolding decode_table_entry decode_segments
table_yields = skip_field get_str _ (λ db. skip_field get_str _ (λ name.
    skip_field get_str _ (λ engine. check_yields (check_component db) _ (λ db_part.
      check_yields (check_component name) _ (λ name_part.
        skip_field (get_record decode_schema) _ (λ schema.
          field_yields (Each InStore) (get_record (decode_segments schema)) _
            (in_record_yields wire_error _
              (list_yields wire_error 1 _ (in_record_yields wire_error _ (segment_yields schema))))
            (λ segments inside. skip_field (get_record (decode_tombstones schema)) _ (λ tombstones.
              skip_field (or_absent absent (get_record decode_definition)) _ (λ def.
                check_yields (check_definition_ids def schema) _ (λ ids.
                  gives IsConfinedTable _ (record {
                    name = record {
                      db = fail_if_passes (is_path_component db) _ db_part;
                      name = fail_if_passes (is_path_component name) _ name_part;
                    };
                    segments = inside;
                  })))))))))))

abbrev IsConfinedGarbage : Garbage → Type 0
IsConfinedGarbage g = IsName g.table × InStore g.segment

garbage_yields : Yields decode_garbage_entry IsConfinedGarbage
unfolding decode_garbage_entry
garbage_yields = skip_field get_str _ (λ db. skip_field get_str _ (λ name.
    check_yields (check_component db) _ (λ db_part.
      check_yields (check_component name) _ (λ name_part. skip_field get_uvarint _ (λ ms.
        field_yields InStore (get_record (decode_segment [])) _
          (in_record_yields wire_error _ (segment_yields []))
          (λ s inside. skip_field (or_absent 0 get_uvarint) _ (λ version.
            gives IsConfinedGarbage _ (
              record {
                db = fail_if_passes (is_path_component db) _ db_part;
                name = fail_if_passes (is_path_component name) _ name_part;
              },
              inside,
            ))))))))

job_yields : (next : ℕ) → Yields (decode_job next) (λ j. IsConfinedTable j.target)
unfolding decode_job
job_yields next = skip_field get_uvarint _ (λ id.
    check_yields (fail_if (id == 0 || leb next id) (corrupt (bad_job_id id))) _ (λ known.
      skip_field get_uvarint _ (λ source. skip_field get_uvarint _ (λ snapshot.
        skip_field (get_record get_ids) _ (λ handled. skip_field get_uvarint _ (λ reused.
          skip_field get_uvarint _ (λ rewritten.
            field_yields IsConfinedTable (get_record decode_table_entry) _
              (in_record_yields wire_error _ table_yields)
              (λ t inside. gives (λ j. IsConfinedTable j.target) _ inside))))))))

retired_yields : Yields decode_retired (λ r. IsConfinedTable r.entry)
unfolding decode_retired
retired_yields = skip_field get_u8 _ (λ tag.
    passed_yields (retire_reason_from_id tag) (corrupt (unknown_reason tag)) _ (λ reason.
      skip_field get_uvarint _ (λ ms. skip_field get_uvarint _ (λ version.
        skip_field (get_record get_ids) _ (λ successors.
          field_yields IsConfinedTable (get_record decode_table_entry) _
            (in_record_yields wire_error _ table_yields)
            (λ t inside. gives (λ r. IsConfinedTable r.entry) _ inside))))))

abbrev IsLifecycle : ℕ × List Job × List Retired → Type 0
IsLifecycle (next, jobs, retired) =
    Each (λ j. IsConfinedTable j.target) jobs × Each (λ r. IsConfinedTable r.entry) retired

decode_lifecycle-IsLifecycle : Yields decode_lifecycle IsLifecycle
unfolding decode_lifecycle
decode_lifecycle-IsLifecycle = skip_field get_uvarint _ (λ next.
    field_yields (Each (λ j. IsConfinedTable j.target)) (get_list 1 (get_record (decode_job next)))
      _ (list_yields wire_error 1 _ (in_record_yields wire_error _ (job_yields next)))
      (λ jobs j.
        field_yields (Each (λ r. IsConfinedTable r.entry)) (get_list 1 (get_record decode_retired))
          _ (list_yields wire_error 1 _ (in_record_yields wire_error _ retired_yields))
          (λ retired r. gives IsLifecycle _ (j, r))))

body_yields : Yields decode_body IsConfined
unfolding decode_body decode_tables decode_garbage decode_lifecycle
body_yields = skip_field (get_record decode_header_fields) _ (λ numbers.
    field_yields (Each IsConfinedTable) (get_record decode_tables) _
      (in_record_yields wire_error _
        (list_yields wire_error 1 _ (in_record_yields wire_error _ table_yields)))
      (λ tables t.
        field_yields (Each IsConfinedGarbage) (get_record decode_garbage) _
          (in_record_yields wire_error _
            (list_yields wire_error 1 _ (in_record_yields wire_error _ garbage_yields)))
          (λ garbage g.
            field_yields IsLifecycle (or_absent (1, [], []) (get_record decode_lifecycle)) _
              (or_absent_yields (1, [], []) _ (tt, tt)
                (in_record_yields wire_error _ decode_lifecycle-IsLifecycle))
              (λ life l. skip_field (or_absent [] (get_record decode_migrations)) _ (λ migrations.
                gives IsConfined _
                  (record { tables = t; garbage = g; jobs = l.0; retired = l.1 }))))))

-- All names in a manifest that `decode` gives, on any bytes, are single components of paths, the
-- names of tables, partitions and directories alike: none leads out of the store.
pub decode-IsConfined : (bytes : List ℕ) (m : Manifest) → decode bytes ≡ ok m → IsConfined m
unfolding decode
decode-IsConfined bytes m e =
    let (_, _, e1) = ok_split (fail_if (ltb (length bytes) header_len) _) _ e in
    let (_, _, e2) = ok_split (fail_if (not (text_eq (take 6 bytes) manifest_magic)) _) _ e1 in
    let (_, _, e3) =
      ok_split (fail_if (ltb manifest_version (from_le_bytes (slice 6 8 bytes))) _) _ e2 in
    let ((start, end), _, e4) =
      ok_split (map_err trailer_err (read_trailer bytes manifest_magic header_len)) _ e3 in
    let ((m', c), read, e5) = ok_split (decode_body (Cursor.new (slice start end bytes))) _ e4 in
    subst IsConfined (ok-injective m' m e5) (body_yields.result _ m' c read)
