-- ===== src/Wire/Trips/Fields.antt =====
-- The methods of `Sink` and `Cursor` in src/storage/segment/wire.rs as fields of a record.
use adelie.Base.{ℕ, suc, ◌+◌, ◌^◌, ◌≤◌, ◌<◌, ◌≡◌, refl, ap, ◌∙◌, sym, arith}
use adelie.Base.{
  List, [], ◌++◌, length, length-append, append_assoc, append-nil, true, Option, none, some, ◌==◌,
  if◌then◌else◌,
}
use adelie.Base.Utf8.{is_utf8}
use adelie.Wire.{Outcome, DecodeError, ok, err, ◌>>=◌, IsU64}
use adelie.Wire.Sink.{Sink}
use adelie.Wire.Sink
use adelie.Wire.Cursor.{Cursor}
use adelie.Wire.Cursor
use adelie.Wire.RoundTrip.{RoundTrips, cursor_at, take-cursor_at}
use adelie.Wire.Fixed.{u8-RoundTrips, u8_written, word-cursor_at, length-to_le_bytes}
use adelie.Wire.Bytes.{bytes-RoundTrips}
use adelie.Wire.Varint.{uvarint_trips, uvarint_written, uvarint-append, length-uvarint}
use adelie.Wire.Trips.{
  Trips, Writer, Reader, writes, record_of, map_err, map_err-Trips, last_field, field_then, ◌⊳◌,
}

pub leaf :
    {A : Type 0} {write : Sink → A → Sink} {read : Reader DecodeError A} {a : A}
    (t : RoundTrips write read a)
    → 1 ≤ length t.written
    → Trips (writes (λ buf. write buf a)) read a
leaf t h = record {
  written = t.written;
  some_byte = h;
  appends = λ buf. ap some (t.writes buf);
  reads = λ small pre post. t.reads pre post;
}

pub uvarint-Trips : (v : ℕ) → IsU64 v → Trips (writes (λ buf. Sink.uvarint buf v)) Cursor.uvarint v
uvarint-Trips v h = leaf (uvarint_trips v h) (uvarint_written v h)

bytes-append : (buf : Sink) (b : List ℕ) → Sink.bytes buf b ≡ buf ++ Sink.bytes [] b
unfolding Sink.bytes Sink.raw
bytes-append buf b =
    ap (λ t. t ++ b) (uvarint-append buf (length b))
    ∙ append_assoc buf (Sink.uvarint [] (length b)) b

pub length-bytes : (b : List ℕ) → length b + 1 ≤ length (Sink.bytes [] b)
unfolding Sink.bytes Sink.raw
length-bytes b =
    omega (arith, length-append (Sink.uvarint [] (length b)) b, length-uvarint (length b))

bytes-reads :
    (b : List ℕ)
    → IsU64 (length (Sink.bytes [] b))
    → (pre post : List ℕ)
    → Cursor.bytes (cursor_at pre (Sink.bytes [] b ++ post))
      ≡ ok (b, cursor_at (pre ++ Sink.bytes [] b) post)
bytes-reads b small pre post =
    let trip = bytes-RoundTrips b (omega (arith, length-bytes b)) in
    rw (trip.writes []) (trip.reads pre post)

pub bytes-Trips : (b : List ℕ) → Trips (writes (λ buf. Sink.bytes buf b)) Cursor.bytes b
bytes-Trips b = record {
  written = Sink.bytes [] b;
  some_byte = omega (arith, length-bytes b);
  appends = λ buf. ap some (bytes-append buf b);
  reads = bytes-reads b;
}

pub bytes_written : (b : List ℕ) → length b ≤ length (bytes-Trips b).written
unfolding bytes-Trips
bytes_written b = omega (arith, length-bytes b)

pub str-Trips :
    (s : List ℕ) → is_utf8 s ≡ true → Trips (writes (λ buf. Sink.str buf s)) Cursor.str s
unfolding Sink.str Cursor.str
str-Trips s valid = last_field _ (λ c. rw valid) (bytes-Trips s)

-- `let mut body = cur.record().map_err(f)?` and what is read in it.
unfoldable pub in_record : {E A : Type 0} → (DecodeError → E) → Reader E A → Reader E A
in_record f inner c = do
  (body, c') ← map_err f (Cursor.record_body c)
  (a, _) ← inner body
  ok (a, c')

pub in_record-Trips :
    {E A : Type 0} (f : DecodeError → E) {w : Writer} {inner : Reader E A} {a : A}
    → Trips w inner a
    → Trips (record_of w) (in_record f inner) a
unfolding record_of in_record Cursor.record_body Cursor.new
in_record-Trips f {inner = inner} {a = a} t = record {
  written = Sink.bytes [] t.written;
  some_byte = omega (arith, length-bytes t.written);
  appends = λ buf. rw (t.appends []) (ap some (bytes-append buf t.written));
  reads = λ small pre post. rw (bytes-reads t.written small pre post) (
      ap (λ o. o >>= (λ x. ok (x.0, cursor_at (pre ++ Sink.bytes [] t.written) post)))
        (ap (λ b. inner (record { buf = b; pos = 0 })) (sym (append-nil t.written))
          ∙ t.reads (omega (arith, length-bytes t.written)) [] []));
}

pub u8-Trips : (v : ℕ) → Trips (writes (λ buf. Sink.u8 buf v)) Cursor.u8 v
u8-Trips v = leaf (u8-RoundTrips v) (u8_written v)

-- A word of `n + 1` bytes.
pub word-Trips :
    (n v : ℕ)
    → v < 256 ^ suc n
    → Trips (writes (λ buf. Sink.raw buf (Sink.to_le_bytes (suc n) v))) (Cursor.word (suc n)) v
unfolding Sink.raw
word-Trips n v h = record {
  written = Sink.to_le_bytes (suc n) v;
  some_byte = omega (arith, length-to_le_bytes (suc n) v);
  appends = λ buf. refl;
  reads = λ small pre post. word-cursor_at (suc n) v pre post h;
}

pub raw-Trips :
    (n : ℕ) (b : List ℕ)
    → length b ≡ suc n
    → Trips (writes (λ buf. Sink.raw buf b)) (Cursor.raw (suc n)) b
unfolding Sink.raw Cursor.raw
raw-Trips n b h = record {
  written = b;
  some_byte = omega arith;
  appends = λ buf. refl;
  reads = λ small pre post. rw (← h) (take-cursor_at pre b post);
}

-- A tag of one byte, and what is behind it where it is 1; `bad` is the error of another tag.
abbrev pub write_opt : {A : Type 0} → (A → Writer) → Option A → Writer
write_opt w none = writes (λ buf. Sink.u8 buf 0)
write_opt w (some a) = writes (λ buf. Sink.u8 buf 1) ⊳ w a

abbrev pub read_tagged :
    {E A : Type 0} → (ℕ → E) → Reader E A → ℕ × Cursor → Outcome E (Option A × Cursor)
read_tagged bad inner (tag, c) =
    if tag == 0
    then ok (none, c)
    else if tag == 1
    then (inner c >>= (λ x. ok (some x.0, x.1)))
    else err (bad tag)

abbrev pub read_opt :
    {E A : Type 0} → (DecodeError → E) → (ℕ → E) → Reader E A → Reader E (Option A)
read_opt f bad inner c = map_err f (Cursor.u8 c) >>= read_tagged bad inner

pub opt-Trips :
    {E A : Type 0} (f : DecodeError → E) (bad : ℕ → E) (w : A → Writer) (inner : Reader E A)
    (o : Option A)
    → ((a : A) → o ≡ some a → Trips (w a) inner a)
    → Trips (write_opt w o) (read_opt f bad inner) o
opt-Trips f bad w inner none t =
    last_field (read_tagged bad inner) (λ c. refl) (map_err-Trips f (u8-Trips 0))
opt-Trips f bad w inner (some a) t =
    field_then (read_tagged bad inner) (map_err-Trips f (u8-Trips 1))
      (last_field _ (λ c. refl) (t a refl))
