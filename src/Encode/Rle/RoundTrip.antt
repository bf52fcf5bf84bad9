-- ===== src/Encode/Rle/RoundTrip.antt =====
-- RLE gives the values back: `decode_with` of what `encode_with` wrote, for any value codec that
-- round-trips and takes a byte at least, and its two instances.
use adelie.Base.{ℕ, ◌+◌, ◌*◌, ◌^◌, ◌≤◌, ◌≡◌, refl, ap, arith, List, [], ◌∷◌, ◌++◌}
use adelie.Base.{
  append_assoc, append-nil, length, length-append, length-replicate, replicate, All, ltb, leb, ◌==◌,
  not, false,
}
use adelie.Wire.{Result, ok, IsU64, max_decode_rows}
use adelie.Wire.Sink.{Sink}
use adelie.Wire.Sink
use adelie.Wire.Cursor.{Cursor}
use adelie.Wire.Cursor
use adelie.Wire.Bounds.{guard_len_ok}
use adelie.Wire.RoundTrip.{RoundTrips, cursor_at}
use adelie.Wire.Varint.{uvarint_trips, svarint_trips, uvarint_written, svarint_written}
use adelie.Encode.Rle.{
  read_nruns, read_run_len, run_lengths, write_runs, read_runs, encode_with, decode_with,
}
use adelie.Encode.Rle.{encode_i64, decode_i64, encode_u64, decode_u64}
use adelie.Encode.Rle.Runs.{
  expand, expand-run_lengths, IsRun, run_lengths-IsRun, length-run_lengths,
}

-- A way to write values and to read them back, each in a byte at least.
pub record ValueCodec (write : Sink → ℕ → Sink) (read : Cursor → Result (ℕ × Cursor)) : Type 0 where
  pub trips : (v : ℕ) (h : IsU64 v) → RoundTrips write read v
  pub takes : (v : ℕ) (h : IsU64 v) → 1 ≤ length (trips v h).written

pub uvarint_codec : ValueCodec Sink.uvarint Cursor.uvarint
uvarint_codec = record { trips = uvarint_trips; takes = uvarint_written }

pub svarint_codec : ValueCodec Sink.svarint Cursor.svarint
svarint_codec = record { trips = svarint_trips; takes = svarint_written }

pub read_run_len-cursor_at :
    (rows pos len : ℕ) (h : IsU64 len) (pre post : List ℕ)
    → 1 ≤ len
    → pos + len ≤ rows
    → rows ≤ max_decode_rows
    → read_run_len rows pos (cursor_at pre ((uvarint_trips len h).written ++ post))
      ≡ ok (len, cursor_at (pre ++ (uvarint_trips len h).written) post)
unfolding read_run_len
read_run_len-cursor_at rows pos len h pre post h1 h2 h3 =
    rw ((uvarint_trips len h).reads pre post) (rw (t1, t2, t3) refl)
  where
    t1 : (len == 0) ≡ false
    t1 = ground arith

    t2 : leb (2 ^ 64) (pos + len) ≡ false
    t2 = ground arith

    t3 : ltb rows (pos + len) ≡ false
    t3 = ground arith

-- A run that the format can hold.
abbrev pub IsShort : ℕ × ℕ → Type 0
IsShort r = IsU64 r.0 × (1 ≤ r.1) × IsU64 r.1

module _ (write : Sink → ℕ → Sink) (read : Cursor → Result (ℕ × Cursor))
    (codec : ValueCodec write read) where
  unfoldable pub runs_written : (runs : List (ℕ × ℕ)) → All IsShort runs → List ℕ
  runs_written [] h = []
  runs_written ((x, len) ∷ runs) h =
      (codec.trips x h.0.0).written ++ ((uvarint_trips len h.0.2).written ++ runs_written runs h.1)

  pub write_runs_lem :
      (runs : List (ℕ × ℕ)) (h : All IsShort runs) (out : Sink)
      → write_runs write out runs ≡ out ++ runs_written runs h
  unfolding write_runs runs_written
  write_runs_lem [] h out = rw append-nil
  write_runs_lem ((x, len) ∷ runs) h out =
      rw ((codec.trips x h.0.0).writes, (uvarint_trips len h.0.2).writes, write_runs_lem runs h.1)
        (simp append_assoc)

  length-runs_written :
      (runs : List (ℕ × ℕ)) (h : All IsShort runs) → length runs * 2 ≤ length (runs_written runs h)
  unfolding runs_written
  length-runs_written [] h = omega arith
  length-runs_written ((x, len) ∷ runs) h =
      let a = (codec.trips x h.0.0).written in
      let b = (uvarint_trips len h.0.2).written in
      omega (
        arith,
        length-append a (b ++ runs_written runs h.1),
        length-append b (runs_written runs h.1),
        codec.takes x h.0.0,
        uvarint_written len h.0.2,
        length-runs_written runs h.1,
      )

  read_runs_lem :
      (runs : List (ℕ × ℕ)) (h : All IsShort runs) (rows : ℕ) (out pre post : List ℕ)
      → rows ≤ max_decode_rows
      → length out + length (expand runs) ≤ rows
      → read_runs read rows (length runs) out (cursor_at pre (runs_written runs h ++ post))
        ≡ ok (out ++ expand runs, cursor_at (pre ++ runs_written runs h) post)
  unfolding read_runs runs_written expand
  read_runs_lem [] h rows out pre post k fits = simp append-nil
  read_runs_lem ((x, len) ∷ runs) h rows out pre post k fits =
      let room = length-append (replicate len x) (expand runs) in
      let total = length-append out (replicate len x) in
      let size = length-replicate len x in
      simp append_assoc (
        rw
          (
            (codec.trips x h.0.0).reads,
            read_run_len-cursor_at rows (length out) len h.0.2 _ _ h.0.1 (omega arith) k,
            read_runs_lem runs h.1 rows (out ++ replicate len x) _ post k (omega arith),
          )
          (simp append_assoc))

pub runs-IsShort :
    (runs : List (ℕ × ℕ))
    → All (IsRun IsU64) runs
    → length (expand runs) ≤ max_decode_rows
    → All IsShort runs
unfolding expand
runs-IsShort [] h k = tt
runs-IsShort ((x, len) ∷ runs) h k =
    let total = length-append (replicate len x) (expand runs) in
    let size = length-replicate len x in
    ((h.0.0, h.0.1, omega arith), runs-IsShort runs h.1 (omega arith))

module _ (write : Sink → ℕ → Sink) (read : Cursor → Result (ℕ × Cursor))
    (codec : ValueCodec write read) (v : List ℕ) (h : All IsU64 v)
    (few : length v ≤ max_decode_rows) where
  unfoldable pub runs : List (ℕ × ℕ)
  runs = run_lengths v

  pub short : All IsShort runs
  unfolding runs
  short =
      runs-IsShort (run_lengths v) (run_lengths-IsRun IsU64 v h)
        (omega (arith, ap length (expand-run_lengths v)))

  count-lt : IsU64 (length runs)
  unfolding runs
  count-lt = omega (arith, length-run_lengths v)

  unfoldable pub body : List ℕ
  body = runs_written write read codec runs short

  pub count : RoundTrips Sink.uvarint Cursor.uvarint (length runs)
  count = uvarint_trips (length runs) count-lt

  pub read_nruns-cursor_at :
      (pre post : List ℕ)
      → read_nruns (length v) (cursor_at pre (count.written ++ (body ++ post)))
        ≡ ok (length runs, cursor_at (pre ++ count.written) (body ++ post))
  unfolding read_nruns
  read_nruns-cursor_at pre post = rw (count.reads pre (body ++ post)) (rw (fits, guarded) refl)
    where
      fits : ltb (length v) (length runs) ≡ false
      fits = unfold runs in ground (arith, length-run_lengths v)

      guarded :
          Cursor.guard_len (length runs) 2 (cursor_at (pre ++ count.written) (body ++ post))
          ≡ ok (length runs)
      guarded =
          guard_len_ok (length runs) 2 (cursor_at (pre ++ count.written) (body ++ post))
            (unfold runs in omega (arith, length-run_lengths v))
            (unfold runs in omega (arith, length-run_lengths v))
            (unfold body in
              omega (
                arith,
                length-append (pre ++ count.written) (body ++ post),
                length-append body post,
                length-runs_written write read codec runs short,
              ))

  fits : 0 + length (expand runs) ≤ length v
  unfolding runs
  fits = omega (arith, ap length (expand-run_lengths v))

  whole : not (length v == length v) ≡ false
  whole = ground arith

  pub encode_with-RoundTrips :
      RoundTrips (λ out x. encode_with write x out) (decode_with read (length v)) v
  unfolding encode_with decode_with runs body
  encode_with-RoundTrips = record {
    written = count.written ++ body;
    writes = λ out. rw (count.writes, write_runs_lem write read codec runs short) (rw append_assoc);
    reads = λ pre post. simp append_assoc (
        rw
          (
            read_nruns-cursor_at pre post,
            read_runs_lem write read codec runs short (length v) [] _ post few fits,
            expand-run_lengths,
            whole,
          )
          (simp append_assoc));
  }

-- `encode_i64` and `decode_i64` of RLE are inverse on every column of `i64` bit patterns.
pub rle_i64-RoundTrips :
    (v : List ℕ)
    → All IsU64 v
    → length v ≤ max_decode_rows
    → RoundTrips (λ out x. encode_i64 x out) (decode_i64 (length v)) v
unfolding encode_i64 decode_i64
rle_i64-RoundTrips v h few =
    encode_with-RoundTrips Sink.svarint Cursor.svarint svarint_codec v h few

-- `encode_u64` and `decode_u64` of RLE are inverse on every column of `u64`.
pub rle_u64-RoundTrips :
    (v : List ℕ)
    → All IsU64 v
    → length v ≤ max_decode_rows
    → RoundTrips (λ out x. encode_u64 x out) (decode_u64 (length v)) v
unfolding encode_u64 decode_u64
rle_u64-RoundTrips v h few =
    encode_with-RoundTrips Sink.uvarint Cursor.uvarint uvarint_codec v h few
