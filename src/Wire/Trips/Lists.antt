-- ===== src/Wire/Trips/Lists.antt =====
-- A count and as many elements, as the codecs on `Sink` and `Cursor` of src/storage/segment/wire.rs write and read them.
use adelie.Base.{ℕ, zero, suc, ◌*◌, ◌≤◌, ◌≡◌, ap, ◌∙◌, sym, arith}
use adelie.Base.{List, [], ◌∷◌, ◌++◌, length, length-append, append_assoc, append-nil, some}
use adelie.Base.Each.{Each}
use adelie.Wire.{DecodeError, ok, ◌>>=◌, IsU64, max_decode_rows}
use adelie.Wire.Sink.{Sink}
use adelie.Wire.Sink
use adelie.Wire.Cursor.{Cursor}
use adelie.Wire.Cursor
use adelie.Wire.RoundTrip.{cursor_at}
use adelie.Wire.Bytes.{two_fields, past_both}
use adelie.Wire.Trips.{Trips, Writer, Reader, writes, map_err, then_sink, ◌⊳◌}
use adelie.Wire.Trips.Fields.{uvarint-Trips}

unfoldable pub write_each : {A : Type 0} → (A → Writer) → List A → Writer
write_each w [] buf = some buf
write_each w (x ∷ xs) buf = (w x ⊳ write_each w xs) buf

-- The count is a `usize`.
unfoldable pub write_list : {A : Type 0} → (A → Writer) → List A → Writer
unfolding write_each
write_list w xs = writes (λ buf. Sink.uvarint buf (length xs)) ⊳ write_each w xs

-- `for _ in 0..n { out.push(read()?) }`
unfoldable pub read_each : {E A : Type 0} → Reader E A → ℕ → Reader E (List A)
read_each r zero c = ok ([], c)
read_each r (suc n) c = do (x, c1) ← r c; (xs, c2) ← read_each r n c1; ok (x ∷ xs, c2)

-- `let n = cur.uvarint()?; let n = cur.guard_len(n, min_each)?;` and the loop.
unfoldable pub read_list : {E A : Type 0} → (DecodeError → E) → ℕ → Reader E A → Reader E (List A)
unfolding read_each
read_list f min_each r c = do
  (n, c1) ← map_err f (Cursor.uvarint c)
  n' ← map_err f (Cursor.guard_len n min_each c1)
  read_each r n' c1

module _ {E A : Type 0} {w : A → Writer} {r : Reader E A} (P : A → Type 0)
    (trip : (x : A) → P x → Trips (w x) r x) where
  all_written : (xs : List A) → Each P xs → List ℕ
  all_written [] h = []
  all_written (x ∷ xs) (p, h) = (trip x p).written ++ all_written xs h

  write_each-append :
      (xs : List A) (h : Each P xs) (buf : Sink)
      → write_each w xs buf ≡ some (buf ++ all_written xs h)
  unfolding write_each all_written
  write_each-append [] h buf = ap some (sym (append-nil buf))
  write_each-append (x ∷ xs) (p, h) buf =
      rw ((trip x p).appends buf, write_each-append xs h)
        (ap some (append_assoc buf (trip x p).written (all_written xs h)))

  read_each-all_written :
      (xs : List A) (h : Each P xs)
      → IsU64 (length (all_written xs h))
      → (pre post : List ℕ)
      → read_each r (length xs) (cursor_at pre (all_written xs h ++ post))
        ≡ ok (xs, cursor_at (pre ++ all_written xs h) post)
  unfolding read_each all_written
  read_each-all_written [] h small pre post =
      ap (λ p. ok ([], cursor_at p post)) (sym (append-nil pre))
  read_each-all_written (x ∷ xs) (p, h) small pre post =
      let a = (trip x p).written in
      let b = all_written xs h in
      rw
        (
          two_fields pre a b post,
          (trip x p).reads (omega (arith, length-append a b)) pre (b ++ post),
          read_each-all_written xs h (omega (arith, length-append a b)) (pre ++ a) post,
        )
        (ap (λ c. ok (x ∷ xs, c)) (past_both pre a b post))

  module _ (min_each : ℕ) (big : (x : A) (p : P x) → min_each ≤ length (trip x p).written) where
    length-all_written :
        (xs : List A) (h : Each P xs) → length xs * min_each ≤ length (all_written xs h)
    unfolding all_written
    length-all_written [] h = omega arith
    length-all_written (x ∷ xs) (p, h) = omega (
      arith,
      big x p,
      length-all_written xs h,
      length-append (trip x p).written (all_written xs h),
    )

    guard_len-passes :
        (n : ℕ) (pre s post : List ℕ)
        → n ≤ max_decode_rows
        → n * min_each ≤ length s
        → IsU64 (length s)
        → Cursor.guard_len n min_each (cursor_at pre (s ++ post)) ≡ ok n
    unfolding Cursor.guard_len
    guard_len-passes n pre s post few fits small =
        ground (arith, length-append pre (s ++ post), length-append s post)

    -- A list of as many elements as a decoder takes, each with the least size that the guard reckons with.
    pub list-Trips :
        (f : DecodeError → E) (xs : List A)
        → Each P xs
        → length xs ≤ max_decode_rows
        → Trips (write_list w xs) (read_list f min_each r) xs
    unfolding write_list read_list
    list-Trips f xs h few = record {
      written = count.written ++ s;
      some_byte = omega (arith, count.some_byte, length-append count.written s);
      appends = λ buf.
          ap (λ o. then_sink o (write_each w xs)) (count.appends buf)
          ∙ write_each-append xs h (buf ++ count.written)
          ∙ ap some (append_assoc buf count.written s);
      reads = λ small pre post.
          rw
            (
              two_fields pre count.written s post,
              count.reads (omega (arith, length-append count.written s)) pre (s ++ post),
              guard_len-passes (length xs) (pre ++ count.written) s post few
                  (length-all_written xs h) (omega (arith, length-append count.written s)),
              read_each-all_written xs h (omega (arith, length-append count.written s))
                  (pre ++ count.written) post,
            )
            (ap (λ c. ok (xs, c)) (past_both pre count.written s post));
    }
      where
        s : List ℕ
        s = all_written xs h

        count : Trips (writes (λ buf. Sink.uvarint buf (length xs))) Cursor.uvarint (length xs)
        count = uvarint-Trips (length xs) (omega arith)
