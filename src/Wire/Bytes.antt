-- ===== src/Wire/Bytes.antt =====
-- Length-prefixed bytes and records of src/storage/segment/wire.rs, and what holds of two fields
-- written one after the other.
use adelie.Base.{ℕ, ◌≡◌, ap, List, ◌++◌, append_assoc, length}
use adelie.Wire.{ok, IsU64}
use adelie.Wire.Sink.{Sink}
use adelie.Wire.Cursor.{Cursor}
use adelie.Wire.Sink
use adelie.Wire.Cursor
use adelie.Wire.RoundTrip.{RoundTrips, cursor_at, take-cursor_at}
use adelie.Wire.Varint.{uvarint-RoundTrips}

-- What a reader over `xs ++ ys` meets, and where it stands behind both.
pub two_fields :
    (pre xs ys post : List ℕ)
    → cursor_at pre ((xs ++ ys) ++ post) ≡ cursor_at pre (xs ++ (ys ++ post))
two_fields pre xs ys post = rw append_assoc

pub past_both :
    (pre xs ys post : List ℕ)
    → cursor_at (pre ++ xs ++ ys) post ≡ cursor_at (pre ++ (xs ++ ys)) post
past_both pre xs ys post = ap (λ p. cursor_at p post) (append_assoc pre xs ys)

module _ (b : List ℕ) (h : IsU64 (length b)) where
  prefix : RoundTrips Sink.uvarint Cursor.uvarint (length b)
  prefix = uvarint-RoundTrips (length b) h

  -- Length-prefixed bytes are read back as they were.
  pub bytes-RoundTrips : RoundTrips Sink.bytes Cursor.bytes b
  unfolding Sink.bytes Sink.raw Cursor.bytes
  bytes-RoundTrips = record {
    written = prefix.written ++ b;
    writes = λ buf. rw (prefix.writes buf) (append_assoc buf prefix.written b);
    reads = λ pre post.
        rw (two_fields pre prefix.written b post, prefix.reads, take-cursor_at)
          (ap (λ c. ok (b, c)) (past_both pre prefix.written b post));
  }
