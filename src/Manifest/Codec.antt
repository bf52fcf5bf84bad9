-- ===== src/Manifest/Codec.antt =====
-- src/storage/manifest/codec.rs: the bytes of a manifest. The path that an error names is that of the call,
-- and is left out. A failed `debug_assert`, `expect` or `panic!` of an encoder is `none`.
pub mod Options
pub mod Definition
pub mod Schema
pub mod Columns
pub mod Segments
pub mod Tombstones
pub mod Tables
pub mod Lifecycle
pub mod Whole
pub mod Confined
use Prim.Native.String.{String}
use adelie.Base.{ℕ, ◌≡◌, ◌^◌, ◌<◌, ◌≤◌, arith, List, Bool, true, false, not, length}
use adelie.Base.Each.{Each, Each-map}
use adelie.Base.Utf8.{is_utf8}
use adelie.Base.Text.{Text}
use adelie.Wire.{Outcome, DecodeError, ok, err, ◌>>=◌, fail_if, IsU64, max_decode_rows}
use adelie.Wire.Sink
use adelie.Wire.Cursor.{Cursor}
use adelie.Wire.Cursor
use adelie.Wire.Trips.{Trips, Writer, Reader, writes, map_err, map_err-Trips}
use adelie.Wire.Trips.Fields.{uvarint-Trips, str-Trips, u8-Trips, in_record, in_record-Trips}
use adelie.Wire.Trips.Fields.{read_opt, opt-Trips, write_opt}
use adelie.Wire.Trips.Lists.{write_list, read_list, list-Trips}
use adelie.Manifest.{is_path_component}

-- The details of `Error::Corrupt`.
pub data Corruption : Type 0 where
  of_wire : DecodeError → Corruption
  truncated_header bad_magic truncated corrupt_footer not_component : Corruption
  zero_table_id zero_field_id : Corruption
  bad_tag : String → ℕ → Corruption
  unknown_field_id duplicate_file_id bad_job_id unknown_op unknown_reason : ℕ → Corruption
  stats_arity field_ids_arity : ℕ → ℕ → Corruption
  unknown_column : Text → Corruption

pub data Error : Type 0 where
  corrupt : Corruption → Error
  unsupported_version unknown_side_file : ℕ → Error

-- `corrupt(path, e)`
abbrev pub wire_error : DecodeError → Error
wire_error e = corrupt (of_wire e)

abbrev pub check_component : Text → Outcome Error (Unit {0})
check_component s = fail_if (not (is_path_component s)) (corrupt not_component)

-- The fields that the codec writes and reads.
abbrev pub put_uvarint : ℕ → Writer
put_uvarint v = writes (λ buf. Sink.uvarint buf v)

abbrev pub get_uvarint : Reader Error ℕ
get_uvarint c = map_err wire_error (Cursor.uvarint c)

abbrev pub put_str : Text → Writer
put_str s = writes (λ buf. Sink.str buf s)

abbrev pub get_str : Reader Error Text
get_str c = map_err wire_error (Cursor.str c)

abbrev pub put_u8 : ℕ → Writer
put_u8 v = writes (λ buf. Sink.u8 buf v)

abbrev pub get_u8 : Reader Error ℕ
get_u8 c = map_err wire_error (Cursor.u8 c)

abbrev pub get_record : {A : Type 0} → Reader Error A → Reader Error A
get_record = in_record wire_error

abbrev pub get_list : {A : Type 0} → ℕ → Reader Error A → Reader Error (List A)
get_list = read_list wire_error

-- `encode_field_id_list` and `encode_u64_list`, and their decoders.
abbrev pub put_ids : List ℕ → Writer
put_ids ids = write_list put_uvarint ids

abbrev pub get_ids : Reader Error (List ℕ)
get_ids = get_list 1 get_uvarint

-- A decoder takes so many elements.
abbrev pub IsFew : {A : Type 0} → List A → Type 0
IsFew xs = length xs ≤ max_decode_rows

abbrev pub IsText : Text → Type 0
IsText s = is_utf8 s ≡ true

pub uvarint_field : (v : ℕ) → IsU64 v → Trips (put_uvarint v) get_uvarint v
uvarint_field v h = map_err-Trips wire_error (uvarint-Trips v h)

pub str_field : (s : Text) → IsText s → Trips (put_str s) get_str s
str_field s h = map_err-Trips wire_error (str-Trips s h)

pub u8_field : (v : ℕ) → Trips (put_u8 v) get_u8 v
u8_field v = map_err-Trips wire_error (u8-Trips v)

pub list_field :
    {A : Type 0} {w : A → Writer} {r : Reader Error A} (P : A → Type 0)
    → ((x : A) → P x → Trips (w x) r x)
    → (xs : List A) → Each P xs
    → IsFew xs
    → Trips (write_list w xs) (get_list 1 r) xs
list_field P trip xs h few = list-Trips P trip 1 (λ x p. (trip x p).some_byte) wire_error xs h few

pub ids_field : (ids : List ℕ) → Each IsU64 ids → IsFew ids → Trips (put_ids ids) get_ids ids
ids_field ids h few = list_field IsU64 uvarint_field ids h few
