-- ===== src/Encode/Rle.antt =====
-- src/storage/segment/encode/rle.rs: runs of equal values. A run is a value and a length.
pub mod Runs
pub mod RoundTrip
pub mod Bools
use adelie.Base.{
  ℕ, zero, suc, ◌+◌, ◌^◌, List, [], ◌∷◌, ◌++◌, length, replicate, Bool, ltb, leb, ◌==◌, not,
}
use adelie.Base.{if◌then◌else◌}
use mathlib.Core.List.{foldl}
use adelie.Wire.{Result, ok, err, malformed, fail_if, ◌>>=◌, ◌>>◌}
use adelie.Wire.Sink.{Sink}
use adelie.Wire.Sink
use adelie.Wire.Cursor.{Cursor}
use adelie.Wire.Cursor

unfoldable pub read_nruns : ℕ → Cursor → Result (ℕ × Cursor)
read_nruns rows c = do
  (nruns, c') ← Cursor.uvarint c
  fail_if (ltb rows nruns) (malformed "rle: run count exceeds rows")
  n ← Cursor.guard_len nruns 2 c'
  ok (n, c')

-- `checked_add` fails where the sum does not fit 64 bits.
unfoldable pub read_run_len : ℕ → ℕ → Cursor → Result (ℕ × Cursor)
read_run_len rows pos c = do
  (len, c') ← Cursor.uvarint c
  fail_if (len == 0) (malformed "rle: zero-length run")
  fail_if (leb (2 ^ 64) (pos + len)) (malformed "rle: run too long")
  fail_if (ltb rows (pos + len)) (malformed "rle: run sum exceeds rows")
  ok (len, c')

-- One round of `run_lengths`: the last run grows, or a new one begins.
unfoldable pub push_run : List (ℕ × ℕ) → ℕ → List (ℕ × ℕ)
push_run [] x = (x, 1) ∷ []
push_run ((last, len) ∷ []) x =
    if last == x then (last, len + 1) ∷ [] else (last, len) ∷ (x, 1) ∷ []
push_run (r ∷ s ∷ runs) x = r ∷ push_run (s ∷ runs) x

unfoldable pub run_lengths : List ℕ → List (ℕ × ℕ)
unfolding push_run
run_lengths v = foldl push_run [] v

-- The loops of the encoders over the runs, for any way to write a value.
unfoldable pub write_runs : (Sink → ℕ → Sink) → Sink → List (ℕ × ℕ) → Sink
write_runs value out [] = out
write_runs value out ((x, len) ∷ runs) = write_runs value (Sink.uvarint (value out x) len) runs

-- The loops of the decoders; `out` holds what the runs before gave.
unfoldable pub read_runs :
    (Cursor → Result (ℕ × Cursor)) → ℕ → ℕ → List ℕ → Cursor → Result (List ℕ × Cursor)
read_runs value rows zero out c = ok (out, c)
read_runs value rows (suc n) out c = do
  (x, c1) ← value c
  (len, c2) ← read_run_len rows (length out) c1
  read_runs value rows n (out ++ replicate len x) c2

unfoldable pub encode_with : (Sink → ℕ → Sink) → List ℕ → Sink → Sink
encode_with value v out =
    let runs = run_lengths v in write_runs value (Sink.uvarint out (length runs)) runs

unfoldable pub decode_with : (Cursor → Result (ℕ × Cursor)) → ℕ → Cursor → Result (List ℕ × Cursor)
decode_with value rows c = do
  (nruns, c1) ← read_nruns rows c
  (out, c2) ← read_runs value rows nruns [] c1
  fail_if (not (length out == rows)) (malformed "rle: run sum does not match rows")
  ok (out, c2)

unfoldable pub encode_i64 : List ℕ → Sink → Sink
unfolding encode_with
encode_i64 v out = encode_with Sink.svarint v out

unfoldable pub decode_i64 : ℕ → Cursor → Result (List ℕ × Cursor)
unfolding decode_with
decode_i64 rows c = decode_with Cursor.svarint rows c

unfoldable pub encode_u64 : List ℕ → Sink → Sink
unfolding encode_with
encode_u64 v out = encode_with Sink.uvarint v out

unfoldable pub decode_u64 : ℕ → Cursor → Result (List ℕ × Cursor)
unfolding decode_with
decode_u64 rows c = decode_with Cursor.uvarint rows c
