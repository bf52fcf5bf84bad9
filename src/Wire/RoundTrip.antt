-- ===== src/Wire/RoundTrip.antt =====
-- What the two sides of the format owe one another: a writer only appends, and the reader, at the
-- place where the writer began and with any bytes behind, returns the value and stops at the
-- place where the writer ended.
use adelie.Base.{ℕ, ◌+◌, ◌-◌, ◌≡◌, refl, List, ◌++◌, append_assoc, arith}
use adelie.Base.{length, length-append, drop-append_length, take-append_length, ltb}
use adelie.Base.{false}
use adelie.Wire.{Result, ok}
use adelie.Wire.Sink.{Sink}
use adelie.Wire.Sink
use adelie.Wire.Cursor.{Cursor, take, raw}

-- The cursor over `pre ++ post` that has read `pre`.
abbrev pub cursor_at : List ℕ → List ℕ → Cursor
cursor_at pre post = record { buf = pre ++ post; pos = length pre }

pub record RoundTrips {A : Type 0} (write : Sink → A → Sink) (read : Cursor → Result (A × Cursor))
    (a : A) : Type 0 where
  pub written : List ℕ
  pub writes : (buf : Sink) → write buf a ≡ buf ++ written
  pub reads :
      (pre post : List ℕ)
      → read (cursor_at pre (written ++ post)) ≡ ok (a, cursor_at (pre ++ written) post)

-- Moving past `xs` re-associates the buffer.
pub cursor_past :
    (pre xs post : List ℕ)
    → record { buf = pre ++ (xs ++ post); pos = length pre + length xs }
      ≡ cursor_at (pre ++ xs) post
cursor_past pre xs post = rw (length-append pre xs) (rw append_assoc)

room : (pre xs post : List ℕ) → ltb (length (pre ++ (xs ++ post)) - length pre) (length xs) ≡ false
room pre xs post = ground (arith, length-append pre (xs ++ post), length-append xs post)

-- `take` of as many bytes as `xs` has reads `xs`.
pub take-cursor_at :
    (pre xs post : List ℕ)
    → take (length xs) (cursor_at pre (xs ++ post)) ≡ ok (xs, cursor_at (pre ++ xs) post)
unfolding take
take-cursor_at pre xs post =
    rw (room pre xs post, drop-append_length, take-append_length, cursor_past)

-- Bytes written as they are.
pub raw-RoundTrips : (b : List ℕ) → RoundTrips Sink.raw (raw (length b)) b
unfolding Sink.raw raw
raw-RoundTrips b = record {
  written = b;
  writes = λ buf. refl;
  reads = λ pre post. take-cursor_at pre b post;
}
