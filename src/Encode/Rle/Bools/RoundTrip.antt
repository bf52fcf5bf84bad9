-- ===== src/Encode/Rle/Bools/RoundTrip.antt =====
-- RLE gives a bitmap back: `decode_bool` of src/storage/segment/encode/rle.rs on what `encode_bool`
-- wrote.
use adelie.Base.{ℕ, ◌≤◌, ◌≡◌, ap, ◌∙◌, sym, subst, arith}
use adelie.Base.{
  List, [], ◌∷◌, ◌++◌, length, length-map, map, append_assoc, All, Bool, true, false, not, some,
  ◌==◌,
}
use adelie.Wire.{ok, IsU64, max_decode_rows}
use adelie.Wire.Sink.{Sink}
use adelie.Wire.Sink
use adelie.Wire.Cursor.{Cursor}
use adelie.Wire.Cursor
use adelie.Wire.RoundTrip.{RoundTrips, cursor_at}
use adelie.Base.{ap₂}
use adelie.Bitmap.{Bitmap, get, new_null}
use adelie.Bitmap.Rows.{IsRows, new_null-IsRows, IsRows-unique}
use adelie.Encode.Rle.{run_lengths}
use adelie.Encode.Rle.Runs.{expand, expand-run_lengths, run_lengths-IsRun}
use adelie.Encode.Rle.RoundTrip.{count, body, runs, short, read_nruns-cursor_at, write_runs_lem}
use adelie.Encode.Rle.Bools.{as_u8, bool_runs, encode_bool, read_bool_runs, decode_bool}
use adelie.Encode.Rle.Bools.Loops.{
  u8_codec, is_one, is_one-as_u8, as_u8-Small, bool_runs_lem, read_bool_runs_lem,
}

as_u8-IsU64 : (rows : List Bool) → All IsU64 (map as_u8 rows)
as_u8-IsU64 [] = tt
as_u8-IsU64 (true ∷ rows) = (omega arith, as_u8-IsU64 rows)
as_u8-IsU64 (false ∷ rows) = (omega arith, as_u8-IsU64 rows)

module _ (bits : Bitmap) (rows : List Bool) (h : IsRows bits rows)
    (few : length rows ≤ max_decode_rows) where
  abbrev v : List ℕ
  v = map as_u8 rows

  few_v : length v ≤ max_decode_rows
  few_v = omega (arith, length-map rows as_u8)

  same_len : bits.len ≡ length v
  same_len = h.count ∙ sym (length-map rows as_u8)

  abbrev head : RoundTrips Sink.uvarint Cursor.uvarint (length (run_lengths v))
  unfolding runs
  head = count Sink.u8 Cursor.u8 u8_codec v (as_u8-IsU64 rows) few_v

  abbrev behind : List ℕ
  behind = body Sink.u8 Cursor.u8 u8_codec v (as_u8-IsU64 rows) few_v

  found : bool_runs bits bits.len 0 [] ≡ some (run_lengths v)
  unfolding run_lengths
  found =
      ap (λ n. bool_runs bits n 0 []) h.count
      ∙ bool_runs_lem bits rows 0 [] (λ k lt. ap (get bits) (omega arith) ∙ h.reads k)

  bits_read :
      (pre post : List ℕ)
      → read_bool_runs
          (length v)
          (length (run_lengths v))
          0
          (new_null 0)
          (cursor_at pre (behind ++ post))
        ≡ some (ok (bits, length v, cursor_at (pre ++ behind) post))
  unfolding runs body
  bits_read pre post =
      let (bm, all, made) =
        read_bool_runs_lem (run_lengths v)
          (short Sink.u8 Cursor.u8 u8_codec v (as_u8-IsU64 rows) few_v) (length v) 0 [] (new_null 0)
          pre post (run_lengths-IsRun (λ v. v ≤ 1) v (as_u8-Small rows)) (new_null-IsRows 0) few_v
          (omega (arith, ap length (expand-run_lengths v))) in
      let same : map is_one (expand (run_lengths v)) ≡ rows =
        ap (map is_one) (expand-run_lengths v) ∙ is_one-as_u8 rows in
      all
      ∙ ap₂ (λ b p. some (ok (b, p, cursor_at (pre ++ behind) post)))
          (IsRows-unique bm bits rows (subst (IsRows bm) same made) h)
          (omega (arith, ap length (expand-run_lengths v)))

  whole : not (length v == length v) ≡ false
  whole = ground arith

  encode_bool_lem : (out : Sink) → encode_bool bits out ≡ some (out ++ (head.written ++ behind))
  unfolding encode_bool runs body
  encode_bool_lem out =
      rw
        (
          found,
          head.writes out,
          write_runs_lem Sink.u8 Cursor.u8 u8_codec (run_lengths v)
              (short Sink.u8 Cursor.u8 u8_codec v (as_u8-IsU64 rows) few_v) (out ++ head.written),
        )
        (ap some (append_assoc out head.written behind))

  decode_bool_lem :
      (pre post : List ℕ)
      → decode_bool bits.len (cursor_at pre ((head.written ++ behind) ++ post))
        ≡ some (ok (bits, cursor_at (pre ++ (head.written ++ behind)) post))
  unfolding decode_bool runs body
  decode_bool_lem pre post =
      ap₂ (λ n bs. decode_bool n (cursor_at pre bs)) same_len
        (append_assoc head.written behind post)
      ∙ rw
          (
            read_nruns-cursor_at Sink.u8 Cursor.u8 u8_codec v (as_u8-IsU64 rows) few_v pre post,
            bits_read (pre ++ head.written) post,
            whole,
          )
          (ap (λ q. some (ok (bits, cursor_at q post))) (append_assoc pre head.written behind))

  -- For a bitmap of at most MAX_DECODE_ROWS rows, neither `encode_bool` nor `decode_bool` panics:
  -- the first appends bytes from which the second, told the number of rows, reads the same bitmap,
  -- words and all, and stops where the writer ended.
  pub bool_round_trip :
      (written : List ℕ) × ((out : Sink) → encode_bool bits out ≡ some (out ++ written))
      × ((pre post : List ℕ)
          → decode_bool bits.len (cursor_at pre (written ++ post))
            ≡ some (ok (bits, cursor_at (pre ++ written) post)))
  bool_round_trip = (head.written ++ behind, encode_bool_lem, decode_bool_lem)
