-- ===== src/Examples/Encode.antt =====
-- The encodings on small columns.
use adelie.Bitmap.{new_valid}
use adelie.Bitmap.Rows.{new_valid-IsRows}
use adelie.Encode.Rle.Bools.{encode_bool, decode_bool}
use adelie.Encode.Rle.Bools.RoundTrip.{bool_round_trip}
use adelie.Wire.RoundTrip.{cursor_at}
use adelie.Wire.Sink.{Sink}
use adelie.Base.{◌++◌, true, some}
use adelie.Base.{
  ℕ, ◌+◌, ◌-◌, ◌*◌, ◌^◌, ◌%◌, ◌≡◌, refl, arith, List, [], ◌∷◌, length, ltb, if◌then◌else◌,
}
use adelie.Wire.{ok, err, truncated}
use adelie.Wire.Cursor.{from_le_bytes}
use adelie.Wire.RoundTrip.{RoundTrips}
use adelie.Bitpack.{BitReader, new, write, read, write_for, read_for}
use adelie.Bitpack.Writer.{Holds, write-Holds}
use adelie.Bitpack.Reader.{field, read_lem}
use adelie.Bitpack.Block.{new-IsPacked, write_for-RoundTrips}
use adelie.Encode.Delta
use adelie.Encode.Delta.RoundTrip.{delta_i64-RoundTrips, dod_i64-RoundTrips}
use adelie.Encode.Rle
use adelie.Encode.Rle.RoundTrip.{rle_i64-RoundTrips}

-- Values 10, 20, 15 and -1 as bit patterns.
abbrev column : List ℕ
column = 10 ∷ 20 ∷ 15 ∷ (2 ^ 64 - 1) ∷ []

-- 5 in three bits and 3 in four bits share a byte.
write_two : (write 3 4 (write 5 3 new)).buf ≡ 0x1d ∷ []
unfolding write
write_two = refl

runs : Rle.run_lengths (7 ∷ 7 ∷ 4 ∷ 7 ∷ []) ≡ (7, 2) ∷ (4, 1) ∷ (7, 1) ∷ []
unfolding Rle.run_lengths
runs = refl

write-Holds_example : Holds new (0xff % 2 ^ 3) 3 (write 0xff 3 new)
write-Holds_example = write-Holds 0xff 3 new (omega arith) new-IsPacked

abbrev reader : BitReader
reader = record { buf = 0x1d ∷ []; bits = 3 }

read_lem_example : read 4 reader ≡ (
    if ltb (length reader.buf * 8) (reader.bits + 4)
    then err truncated
    else ok (
      field (from_le_bytes reader.buf) reader.bits 4,
      record { buf = reader.buf; bits = reader.bits + 4 },
    ))
read_lem_example = read_lem 4 reader (omega arith, tt) (omega arith)

write_for-RoundTrips_example : RoundTrips (λ out values. write_for values out) (read_for 4) column
write_for-RoundTrips_example = write_for-RoundTrips column (omega arith) (omega arith)

delta_i64-RoundTrips_example :
    RoundTrips (λ out x. Delta.encode_delta_i64 x out) (Delta.decode_delta_i64 4) column
delta_i64-RoundTrips_example = delta_i64-RoundTrips column (omega arith) (omega arith)

dod_i64-RoundTrips_example :
    RoundTrips (λ out x. Delta.encode_dod_i64 x out) (Delta.decode_dod_i64 4) column
dod_i64-RoundTrips_example = dod_i64-RoundTrips column (omega arith) (omega arith)

rle_i64-RoundTrips_example : RoundTrips (λ out x. Rle.encode_i64 x out) (Rle.decode_i64 4) column
rle_i64-RoundTrips_example = rle_i64-RoundTrips column (omega arith) (omega arith)

bool_round_trip_example :
    (written : List ℕ) × ((out : Sink) → encode_bool (new_valid 3) out ≡ some (out ++ written))
    × ((pre post : List ℕ)
        → decode_bool (new_valid 3).len (cursor_at pre (written ++ post))
          ≡ some (ok (new_valid 3, cursor_at (pre ++ written) post)))
bool_round_trip_example =
    bool_round_trip (new_valid 3) (true ∷ true ∷ true ∷ []) (new_valid-IsRows 3) (omega arith)
