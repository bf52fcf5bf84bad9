-- ===== src/Segment/TypeId.antt =====
-- src/storage/segment/type_id.rs: the codec of a DataType.
use adelie.Base.{
  ℕ, ◌≡◌, refl, arith, List, [], ◌∷◌, Bool, true, false, not, ◌&&◌, ◌==◌, if◌then◌else◌, length,
}
use adelie.Types.{DataType, Checked, new_decimal_type, new_list_type}
use adelie.Wire.{
  Result, DecodeError, ok, err, malformed, unknown_type_id, ◌>>=◌, ◌>>◌, fail_if, IsU64,
}
use adelie.Wire.Sink.{Sink}
use adelie.Wire.Sink
use adelie.Wire.Cursor.{Cursor}
use adelie.Wire.Cursor
use adelie.Wire.Trips.{
  Trips, Writer, Reader, writes, field_then, last_field, last_of_few, alone, checked,
}
use adelie.Wire.Trips.Fields.{uvarint-Trips, bytes-Trips, bytes_written}

unfoldable pub encode_raw_type : ℕ → List ℕ → Sink → Sink
encode_raw_type id params out = Sink.bytes (Sink.uvarint out id) params

unfoldable pub encode_type : DataType → Sink → Sink
encode_type DataType.bool = encode_raw_type 1 []
encode_type DataType.int64 = encode_raw_type 2 []
encode_type DataType.uint64 = encode_raw_type 3 []
encode_type DataType.float64 = encode_raw_type 4 []
encode_type (DataType.decimal dt) = encode_raw_type 5 (dt.precision ∷ dt.scale ∷ [])
encode_type DataType.string = encode_raw_type 6 []
encode_type DataType.bytes = encode_raw_type 7 []
encode_type DataType.timestamp = encode_raw_type 8 []
encode_type DataType.date = encode_raw_type 9 []
encode_type DataType.uuid = encode_raw_type 10 []
encode_type DataType.ip = encode_raw_type 11 []
encode_type (DataType.list elem) = encode_raw_type 12 (encode_type elem Sink.new)

abbrev pub or_malformed {ℓ} : {A : Type ℓ} → Checked A → DecodeError → Result A
or_malformed (Checked.ok a) why = ok a
or_malformed (Checked.err e) why = err why

unfoldable pub decode_decimal : Cursor → Result DataType
decode_decimal p = do
  (precision, p1) ← Cursor.u8 p
  (scale, _) ← Cursor.u8 p1
  dt ← or_malformed (new_decimal_type precision scale) (malformed "bad decimal params")
  ok (DataType.decimal dt)

-- The `match` on the id, with the case of a LIST.
unfoldable pub type_of : (Cursor → Result DataType) → ℕ → Cursor → Result DataType
type_of list id p =
    if id == 1
    then ok DataType.bool
    else if id == 2
    then ok DataType.int64
    else if id == 3
    then ok DataType.uint64
    else if id == 4
    then ok DataType.float64
    else if id == 5
    then decode_decimal p
    else if id == 6
    then ok DataType.string
    else if id == 7
    then ok DataType.bytes
    else if id == 8
    then ok DataType.timestamp
    else if id == 9
    then ok DataType.date
    else if id == 10
    then ok DataType.uuid
    else if id == 11
    then ok DataType.ip
    else if id == 12
    then list p
    else err (unknown_type_id id)

-- `decode_type_at`, with what it does with the parameters of a LIST.
unfoldable pub decode_type_at : (Cursor → Result DataType) → Bool → Reader DecodeError DataType
decode_type_at list list_ok cur = do
  (id, cur1) ← Cursor.uvarint cur
  fail_if (id == 12 && not list_ok) (malformed "nested list")
  (params, cur2) ← Cursor.bytes cur1
  ty ← type_of list id (Cursor.new params)
  ok (ty, cur2)

-- The call for an element, where a LIST is refused on its id.
unfoldable pub decode_element : Reader DecodeError DataType
decode_element = decode_type_at (λ p. err (malformed "nested list")) false

unfoldable pub decode_list : Cursor → Result DataType
decode_list p = do
  (elem, _) ← decode_element p
  or_malformed (new_list_type elem) (malformed "nested list")

unfoldable pub decode_type : Reader DecodeError DataType
decode_type = decode_type_at decode_list true

-- A type that the constructors of DecimalType and ListType give.
abbrev pub IsElement : DataType → Type 0
IsElement (DataType.decimal dt) = new_decimal_type dt.precision dt.scale ≡ Checked.ok dt
IsElement (DataType.list elem) = ⊥
IsElement ty = Unit

abbrev pub IsDataType : DataType → Type 0
IsDataType (DataType.list elem) = IsElement elem
IsDataType ty = IsElement ty

abbrev type_writer : DataType → Writer
type_writer ty = writes (encode_type ty)

module _ (list : Cursor → Result DataType) (list_ok : Bool) where
  raw-Trips :
      (id : ℕ) (params : List ℕ) (ty : DataType)
      → IsU64 id
      → (id == 12 && not list_ok) ≡ false
      → type_of list id (Cursor.new params) ≡ ok ty
      → Trips (writes (encode_raw_type id params)) (decode_type_at list list_ok) ty
  unfolding encode_raw_type decode_type_at
  raw-Trips id params ty small fine e =
      field_then _ (uvarint-Trips id small)
        (checked _ (rw fine) (last_field _ (λ c. rw e) (bytes-Trips params)))

  simple-Trips :
      (ty : DataType) → IsElement ty → Trips (type_writer ty) (decode_type_at list list_ok) ty
  unfolding encode_type type_of decode_decimal Cursor.u8 Cursor.take Cursor.new
  simple-Trips DataType.bool h = raw-Trips 1 [] _ (omega arith) refl refl
  simple-Trips DataType.int64 h = raw-Trips 2 [] _ (omega arith) refl refl
  simple-Trips DataType.uint64 h = raw-Trips 3 [] _ (omega arith) refl refl
  simple-Trips DataType.float64 h = raw-Trips 4 [] _ (omega arith) refl refl
  simple-Trips (DataType.decimal dt) h =
      raw-Trips 5 (dt.precision ∷ dt.scale ∷ []) _ (omega arith) refl (rw h)
  simple-Trips DataType.string h = raw-Trips 6 [] _ (omega arith) refl refl
  simple-Trips DataType.bytes h = raw-Trips 7 [] _ (omega arith) refl refl
  simple-Trips DataType.timestamp h = raw-Trips 8 [] _ (omega arith) refl refl
  simple-Trips DataType.date h = raw-Trips 9 [] _ (omega arith) refl refl
  simple-Trips DataType.uuid h = raw-Trips 10 [] _ (omega arith) refl refl
  simple-Trips DataType.ip h = raw-Trips 11 [] _ (omega arith) refl refl
  simple-Trips (DataType.list elem) h = elim h [ ]

new_list_type_lem :
    (elem : DataType) → IsElement elem → new_list_type elem ≡ Checked.ok (DataType.list elem)
unfolding new_list_type
new_list_type_lem DataType.bool h = refl
new_list_type_lem DataType.int64 h = refl
new_list_type_lem DataType.uint64 h = refl
new_list_type_lem DataType.float64 h = refl
new_list_type_lem (DataType.decimal dt) h = refl
new_list_type_lem DataType.string h = refl
new_list_type_lem DataType.bytes h = refl
new_list_type_lem DataType.timestamp h = refl
new_list_type_lem DataType.date h = refl
new_list_type_lem DataType.uuid h = refl
new_list_type_lem DataType.ip h = refl
new_list_type_lem (DataType.list elem) h = elim h [ ]

list_params :
    (elem : DataType)
    → IsElement elem
    → IsU64 (length (encode_type elem []))
    → type_of decode_list 12 (Cursor.new (encode_type elem [])) ≡ ok (DataType.list elem)
unfolding type_of decode_list decode_element Cursor.new
list_params elem h small =
    let (c, e) =
      alone (simple-Trips (λ p. err (malformed "nested list")) false elem h) (encode_type elem [])
        refl small in
    rw (e, new_list_type_lem elem h)

list-Trips :
    (elem : DataType)
    → IsElement elem
    → Trips (type_writer (DataType.list elem)) decode_type (DataType.list elem)
unfolding encode_type encode_raw_type decode_type decode_type_at
list-Trips elem h = field_then _ (uvarint-Trips 12 (omega arith)) (
    last_of_few _ (bytes-Trips (encode_type elem []))
      (λ small c. rw (list_params elem h (omega (arith, bytes_written (encode_type elem []))))))

-- A type that the constructors of DecimalType and ListType give is read back from its description,
-- at any place and with any bytes behind.
pub type-Trips : (ty : DataType) → IsDataType ty → Trips (writes (encode_type ty)) decode_type ty
unfolding decode_type
type-Trips (DataType.list elem) h = list-Trips elem h
type-Trips DataType.bool h = simple-Trips decode_list true DataType.bool h
type-Trips DataType.int64 h = simple-Trips decode_list true DataType.int64 h
type-Trips DataType.uint64 h = simple-Trips decode_list true DataType.uint64 h
type-Trips DataType.float64 h = simple-Trips decode_list true DataType.float64 h
type-Trips (DataType.decimal dt) h = simple-Trips decode_list true (DataType.decimal dt) h
type-Trips DataType.string h = simple-Trips decode_list true DataType.string h
type-Trips DataType.bytes h = simple-Trips decode_list true DataType.bytes h
type-Trips DataType.timestamp h = simple-Trips decode_list true DataType.timestamp h
type-Trips DataType.date h = simple-Trips decode_list true DataType.date h
type-Trips DataType.uuid h = simple-Trips decode_list true DataType.uuid h
type-Trips DataType.ip h = simple-Trips decode_list true DataType.ip h
