-- ===== src/Wire/Trips.antt =====
-- Writers that may panic and readers of several fields: how the round trips of their parts, src/storage/segment/wire.rs,
-- make one of the whole. A reader fails with an error of any type.
pub mod Fields
pub mod Lists
pub mod Zip
use adelie.Base.{ℕ, zero, suc, ◌+◌, ◌-◌, ◌*◌, ◌≤◌, ◌<◌, ◌≡◌, refl, ap, ◌∙◌, sym, subst, arith}
use adelie.Base.{
  List, [], ◌∷◌, ◌++◌, length, length-append, append_assoc, append-nil, Bool, true, false, ltb,
  ◌==◌,
}
use adelie.Base.{if◌then◌else◌, Option, none, some}
use adelie.Base.Each.{some-injective}
use adelie.Wire.{Outcome, Result, DecodeError, ok, err, ◌>>=◌, ◌>>◌, fail_if, ok_or, IsU64}
use adelie.Wire.Sink.{Sink}
use adelie.Wire.Sink
use adelie.Wire.Cursor.{Cursor, remaining, is_empty}
use adelie.Wire.Cursor
use adelie.Wire.RoundTrip.{RoundTrips, cursor_at}
use adelie.Wire.Bytes.{two_fields, past_both}

-- A writer appends, or panics: `none`.
abbrev pub Writer : Type 0
Writer = Sink → Option Sink

abbrev pub then_sink : Option Sink → Writer → Option Sink
then_sink none w = none
then_sink (some buf) w = w buf

-- One writer after another.
infixr 20 ◌⊳◌
abbrev pub ◌⊳◌ : Writer → Writer → Writer
(v ⊳ w) buf = then_sink (v buf) w

abbrev pub writes : (Sink → Sink) → Writer
writes f buf = some (f buf)

-- `Sink::record` of a body that may panic.
unfoldable pub record_of : Writer → Writer
record_of body buf = then_sink (body Sink.new) (λ b. some (Sink.bytes buf b))

abbrev pub Reader : Type 0 → Type 0 → Type 0
Reader E A = Cursor → Outcome E (A × Cursor)

-- The writer appends `written`; the reader, at the place where the writer began and with any bytes
-- behind, returns the value and stops where the writer ended. A buffer is shorter than 2^64.
pub record Trips {E A : Type 0} (write : Writer) (read : Reader E A) (a : A) : Type 0 where
  pub written : List ℕ
  pub some_byte : 1 ≤ length written
  pub appends : (buf : Sink) → write buf ≡ some (buf ++ written)
  pub reads :
      IsU64 (length written)
      → (pre post : List ℕ)
      → read (cursor_at pre (written ++ post)) ≡ ok (a, cursor_at (pre ++ written) post)

module _ {E A B : Type 0} {v : Writer} {first : Reader E A} {a : A} where
  -- A field and what is read behind it.
  pub field_then :
      {w : Writer} {b : B} (next : A × Cursor → Outcome E (B × Cursor))
      → Trips v first a
      → Trips w (λ c. next (a, c)) b
      → Trips (v ⊳ w) (λ c. first c >>= next) b
  field_then {w} {b} next s t = record {
    written = s.written ++ t.written;
    some_byte = omega (arith, s.some_byte, length-append s.written t.written);
    appends = λ buf. rw (s.appends buf, t.appends) (ap some (append_assoc buf s.written t.written));
    reads = λ small pre post.
        ap (λ c. first c >>= next) (two_fields pre s.written t.written post)
        ∙ ap (λ o. o >>= next)
            (s.reads (omega (arith, length-append s.written t.written)) pre (t.written ++ post))
        ∙ t.reads (omega (arith, length-append s.written t.written)) (pre ++ s.written) post
        ∙ ap (λ c. ok (b, c)) (past_both pre s.written t.written post);
  }

  pub length-field_then :
      {w : Writer} {b : B} (next : A × Cursor → Outcome E (B × Cursor)) (s : Trips v first a)
      (t : Trips w (λ c. next (a, c)) b)
      → 2 ≤ length (field_then next s t).written
  unfolding field_then
  length-field_then next s t =
      omega (arith, s.some_byte, t.some_byte, length-append s.written t.written)

  -- The last field, and what is made of it.
  pub last_field :
      {b : B} (next : A × Cursor → Outcome E (B × Cursor))
      → ((c : Cursor) → next (a, c) ≡ ok (b, c))
      → Trips v first a
      → Trips v (λ c. first c >>= next) b
  last_field {b} next e s = record {
    written = s.written;
    some_byte = s.some_byte;
    appends = s.appends;
    reads = λ small pre post. ap (λ o. o >>= next) (s.reads small pre post) ∙ e _;
  }

  -- What is made of it may depend on its bytes being few.
  pub last_of_few :
      {b : B} (next : A × Cursor → Outcome E (B × Cursor)) (s : Trips v first a)
      → (IsU64 (length s.written) → (c : Cursor) → next (a, c) ≡ ok (b, c))
      → Trips v (λ c. first c >>= next) b
  last_of_few {b} next s e = record {
    written = s.written;
    some_byte = s.some_byte;
    appends = s.appends;
    reads = λ small pre post. ap (λ o. o >>= next) (s.reads small pre post) ∙ e small _;
  }

-- A reader that gives a default at the end of the record.
abbrev pub or_absent : {E A : Type 0} → A → Reader E A → Reader E A
or_absent d r c = if is_empty c then ok (d, c) else r c

-- `.map_err(f)`
abbrev pub map_err {ℓ} : {E F : Type 0} {A : Type ℓ} → (E → F) → Outcome E A → Outcome F A
map_err f (ok a) = ok a
map_err f (err e) = err (f e)

-- A value that is there: `ok_or` on what is looked up.
pub passed :
    {E A K : Type 0} {w : Writer} {a : A} {o : Option K} {k : K} (why : E) (use_it : K → Reader E A)
    → o ≡ some k
    → Trips w (use_it k) a
    → Trips w (λ c. ok_or o why >>= (λ k. use_it k c)) a
passed why use_it e s = record {
  written = s.written;
  some_byte = s.some_byte;
  appends = s.appends;
  reads = λ small pre post. rw e (s.reads small pre post);
}

module _ {E A : Type 0} {w : Writer} {read : Reader E A} {a : A} where
  -- A check that passes.
  pub checked :
      (check : Outcome E (Unit {0}))
      → check ≡ ok tt
      → Trips w read a
      → Trips w (λ c. check >> read c) a
  checked check e s = record {
    written = s.written;
    some_byte = s.some_byte;
    appends = s.appends;
    reads = λ small pre post. rw e (s.reads small pre post);
  }

  -- Another writer of the same bytes.
  pub same_writer :
      {w' : Writer} → ((buf : Sink) → w' buf ≡ w buf) → Trips w read a → Trips w' read a
  same_writer e s = record {
    written = s.written;
    some_byte = s.some_byte;
    appends = λ buf. e buf ∙ s.appends buf;
    reads = s.reads;
  }

  -- Another reader with the same results.
  pub same_reader :
      {read' : Reader E A} → ((c : Cursor) → read' c ≡ read c) → Trips w read a → Trips w read' a
  same_reader e s = record {
    written = s.written;
    some_byte = s.some_byte;
    appends = s.appends;
    reads = λ small pre post. e _ ∙ s.reads small pre post;
  }

  pub or_absent-Trips : (d : A) → Trips w read a → Trips w (or_absent d read) a
  or_absent-Trips d s = record {
    written = s.written;
    some_byte = s.some_byte;
    appends = s.appends;
    reads = λ small pre post. rw (more pre post) (s.reads small pre post);
  }
    where
      more : (pre post : List ℕ) → is_empty (cursor_at pre (s.written ++ post)) ≡ false
      more pre post =
          ground (
            arith,
            s.some_byte,
            length-append pre (s.written ++ post),
            length-append s.written post,
          )

  -- What the reader gives on the writer's bytes alone.
  pub alone :
      (s : Trips w read a) (b : List ℕ)
      → w [] ≡ some b
      → IsU64 (length b)
      → (c : Cursor) × (read (record { buf = b; pos = 0 }) ≡ ok (a, c))
  alone s b e small =
      let same : b ≡ s.written = some-injective (sym e ∙ s.appends []) in
      (
        cursor_at s.written [],
        ap (λ b. read (record { buf = b; pos = 0 })) (same ∙ sym (append-nil s.written))
            ∙ s.reads (subst (λ b. IsU64 (length b)) same small) [] [],
      )

  pub map_err-Trips :
      {F : Type 0} (f : E → F) → Trips w read a → Trips w (λ c. map_err f (read c)) a
  map_err-Trips f s = record {
    written = s.written;
    some_byte = s.some_byte;
    appends = s.appends;
    reads = λ small pre post. rw (s.reads small pre post);
  }
