-- ===== src/Manifest/Codec/Segments.antt =====
-- A segment's entry in src/storage/manifest/codec.rs.
use adelie.Base.{
  ℕ, ◌≡◌, ◌^◌, ◌<◌, refl, arith, List, [], ◌∷◌, length, true, false, not, ◌&&◌, ◌==◌, if◌then◌else◌,
  Bool-cases, inl, inr,
}
use adelie.Base.Each.{Each}
use adelie.Base.Search.{all}
use adelie.Base.Text.{Text}
use adelie.Wire.{Outcome, ok, err, ◌>>=◌, ◌>>◌, fail_if, IsU64}
use adelie.Wire.Sink
use adelie.Wire.Cursor.{Cursor}
use adelie.Wire.Cursor
use adelie.Wire.Trips.{
  Trips, Writer, Reader, writes, field_then, last_field, checked, or_absent, or_absent-Trips,
  map_err, map_err-Trips, record_of, ◌⊳◌,
}
use adelie.Wire.Trips.Fields.{in_record-Trips, word-Trips}
use adelie.Wire.Trips.Lists.{write_list, write_each}
use adelie.Manifest.{SchemaField, SegmentEntry, SideFile, is_path_component, contains}
use adelie.Manifest.Spec.{is_nil}
use adelie.Manifest.Codec.{
  Error, corrupt, unknown_side_file, duplicate_file_id, field_ids_arity, wire_error,
  check_component, put_str, get_str, str_field, put_uvarint, get_uvarint, uvarint_field, put_ids,
  get_ids, ids_field, get_record, IsFew, IsText,
}
use adelie.Manifest.Codec.Columns.{
  encode_columns, decode_columns, IsColumns, columns-Trips, guard_len-one,
}

abbrev put_u32 : ℕ → Writer
put_u32 v = writes (λ buf. Sink.u32 buf v)

abbrev pub get_u32 : Reader Error ℕ
get_u32 c = map_err wire_error (Cursor.u32 c)

unfoldable pub encode_side_files : List SideFile → Writer
encode_side_files side_files =
    write_list (λ s. record_of (put_uvarint s.kind ⊳ put_str s.path ⊳ put_u32 s.crc)) side_files

-- What is in the record of the side files: any is refused by its kind.
unfoldable pub decode_side_files : Reader Error (List SideFile)
decode_side_files c = do
  (n, c1) ← get_uvarint c
  n' ← map_err wire_error (Cursor.guard_len n 1 c1)
  if n' == 0
      then ok ([], c1)
      else (get_record get_uvarint c1 >>= (λ x. err (unknown_side_file x.0)))

unfoldable pub encode_segment : List SchemaField → SegmentEntry → Writer
encode_segment schema s =
    put_uvarint s.id
    ⊳ put_str s.partition
    ⊳ put_uvarint s.seq
    ⊳ put_uvarint s.rows
    ⊳ put_uvarint s.bytes
    ⊳ put_u32 s.footer_crc
    ⊳ record_of (encode_columns s.columns schema)
    ⊳ record_of (encode_side_files s.side_files)
    ⊳ put_str s.dir
    ⊳ record_of (put_ids s.field_ids)
    ⊳ record_of (put_ids s.file_field_ids)

abbrev push_byte : ℕ → List Text → List Text
push_byte b [] = (b ∷ []) ∷ []
push_byte b (part ∷ parts) = (b ∷ part) ∷ parts

-- `d.split('/')`
unfoldable pub split_slash : Text → List Text
split_slash [] = [] ∷ []
split_slash (b ∷ bs) = let rest = split_slash bs in if b == 47 then [] ∷ rest else push_byte b rest

abbrev pub check_parts : List Text → Outcome Error (Unit {0})
check_parts [] = ok tt
check_parts (part ∷ parts) = do check_component part; check_parts parts

unfoldable pub decode_dir : Reader Error Text
decode_dir c = do (d, c') ← get_str c; check_parts (split_slash d); ok (d, c')

-- `check_distinct_file_field_ids`, with the ids that are seen.
unfoldable pub check_distinct : List ℕ → List ℕ → Outcome Error (Unit {0})
check_distinct seen [] = ok tt
check_distinct seen (id ∷ ids) =
    if id == 0
    then check_distinct seen ids
    else (fail_if (contains seen id) (corrupt (duplicate_file_id id))
        >> check_distinct (id ∷ seen) ids)

unfoldable pub decode_file_field_ids : Reader Error (List ℕ)
decode_file_field_ids c = do (ids, c') ← get_ids c; check_distinct [] ids; ok (ids, c')

-- What is in the record of a segment.
unfoldable pub decode_segment : List SchemaField → Reader Error SegmentEntry
decode_segment schema c = do
  (id, c1) ← get_uvarint c
  (partition, c2) ← get_str c1
  check_component partition
  (seq, c3) ← get_uvarint c2
  (rows, c4) ← get_uvarint c3
  (bytes, c5) ← get_uvarint c4
  (footer_crc, c6) ← get_u32 c5
  (columns, c7) ← get_record (decode_columns schema) c6
  (side_files, c8) ← get_record decode_side_files c7
  (dir, c9) ← or_absent [] decode_dir c8
  (field_ids, c10) ← or_absent [] (get_record get_ids) c9
  (file_field_ids, c11) ← or_absent [] (get_record decode_file_field_ids) c10
  fail_if (not (is_nil field_ids) && not (length field_ids == length columns))
      (corrupt (field_ids_arity (length field_ids) (length columns)))
  ok (
    record {
      id = id;
      partition = partition;
      seq = seq;
      rows = rows;
      bytes = bytes;
      footer_crc = footer_crc;
      columns = columns;
      side_files = side_files;
      dir = dir;
      field_ids = field_ids;
      file_field_ids = file_field_ids;
    },
    c11,
  )

-- An entry that a decoder accepts, for a table of the schema.
pub record IsSegment (schema : List SchemaField) (s : SegmentEntry) : Type 0 where
  pub id : IsU64 s.id
  pub partition : IsText s.partition
  pub component : is_path_component s.partition ≡ true
  pub seq : IsU64 s.seq
  pub rows : IsU64 s.rows
  pub bytes : IsU64 s.bytes
  pub footer_crc : s.footer_crc < 2 ^ 32
  pub columns : IsColumns s.columns schema
  pub side_files : s.side_files ≡ []
  pub dir : IsText s.dir
  pub parts : all is_path_component (split_slash s.dir) ≡ true
  pub field_ids : Each IsU64 s.field_ids × IsFew s.field_ids
  pub arity : (not (is_nil s.field_ids) && not (length s.field_ids == length s.columns)) ≡ false
  pub file_field_ids : Each IsU64 s.file_field_ids × IsFew s.file_field_ids
  pub distinct : check_distinct [] s.file_field_ids ≡ ok tt

pub u32_field : (v : ℕ) → v < 2 ^ 32 → Trips (put_u32 v) get_u32 v
unfolding Sink.u32 Cursor.u32
u32_field v h = map_err-Trips wire_error (word-Trips 3 v h)

check_parts_lem :
    (parts : List Text) → all is_path_component parts ≡ true → check_parts parts ≡ ok tt
check_parts_lem [] h = refl
check_parts_lem (part ∷ parts) h = elim (Bool-cases (is_path_component part)) [
  | inl e ↦ rw e (check_parts_lem parts (rw e at h))
  | inr e ↦ cc (rw e at h)
]

no_side_files-Trips : Trips (encode_side_files []) decode_side_files []
unfolding encode_side_files decode_side_files write_list write_each
no_side_files-Trips =
    last_field _ (λ c. rw (guard_len-one 0 c (omega arith) (omega arith)))
      (uvarint_field 0 (omega arith))

dir-Trips :
    (d : Text)
    → IsText d
    → all is_path_component (split_slash d) ≡ true
    → Trips (put_str d) decode_dir d
unfolding decode_dir
dir-Trips d h parts = last_field _ (λ c. rw (check_parts_lem (split_slash d) parts)) (str_field d h)

file_field_ids-Trips :
    (ids : List ℕ)
    → Each IsU64 ids × IsFew ids
    → check_distinct [] ids ≡ ok tt
    → Trips (put_ids ids) decode_file_field_ids ids
unfolding decode_file_field_ids
file_field_ids-Trips ids h distinct = last_field _ (λ c. rw distinct) (ids_field ids h.0 h.1)

pub segment-Trips :
    (schema : List SchemaField) (s : SegmentEntry)
    → IsSegment schema s
    → Trips (encode_segment schema s) (decode_segment schema) s
unfolding encode_segment decode_segment
segment-Trips schema s h = field_then _ (uvarint_field s.id h.id) (
    field_then _ (str_field s.partition h.partition) (
      checked _ (rw h.component) (
        field_then _ (uvarint_field s.seq h.seq) (
          field_then _ (uvarint_field s.rows h.rows) (
            field_then _ (uvarint_field s.bytes h.bytes) (
              field_then _ (u32_field s.footer_crc h.footer_crc) (
                field_then _ (in_record-Trips wire_error (columns-Trips s.columns schema h.columns))
                  (field_then _ (in_record-Trips wire_error side) (
                    field_then _ (or_absent-Trips [] (dir-Trips s.dir h.dir h.parts)) (
                      field_then _
                        (or_absent-Trips [] (
                          in_record-Trips wire_error
                            (ids_field s.field_ids h.field_ids.0 h.field_ids.1)))
                        (last_field _ (λ c. rw h.arity)
                          (or_absent-Trips [] (in_record-Trips wire_error file_ids)))))))))))))
  where
    side : Trips (encode_side_files s.side_files) decode_side_files s.side_files
    side = rw h.side_files no_side_files-Trips

    file_ids : Trips (put_ids s.file_field_ids) decode_file_field_ids s.file_field_ids
    file_ids = file_field_ids-Trips s.file_field_ids h.file_field_ids h.distinct
