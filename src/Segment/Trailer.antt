-- ===== src/Segment/Trailer.antt =====
-- The trailer framing of src/storage/segment/footer.rs, which segments, index files and the manifest share.
use adelie.Base.{
  ℕ, ◌+◌, ◌-◌, ◌%◌, ◌^◌, ◌<◌, ◌≡◌, refl, ap, ◌∙◌, sym, arith, List, [], ◌++◌, length, take, drop,
}
use adelie.Base.{
  length-append, take-append_length, drop-append_length, append_assoc, not, true, false, ltb, ◌==◌,
  append-nil,
}
use adelie.Base.Text.{text_eq, text_eq_refl}
use adelie.Wire.{Outcome, ok, ◌>>◌, fail_if}
use adelie.Wire.Sink.{to_le_bytes}
use adelie.Wire.Cursor.{from_le_bytes}
use adelie.Wire.Fixed.{length-to_le_bytes, from_le_bytes-to_le_bytes}
use adelie.Segment.Crc.{crc32c, crc32c-lt}

abbrev pub format_version : ℕ
format_version = 1

abbrev pub trailer_len : ℕ
trailer_len = 16

-- `as u32`
unfoldable pub write_trailer : List ℕ → List ℕ → List ℕ → List ℕ
write_trailer out magic footer =
    out
    ++ footer
    ++ to_le_bytes 4 (length footer % 2 ^ 32)
    ++ to_le_bytes 4 (crc32c footer)
    ++ magic
    ++ to_le_bytes 2 format_version

pub data TrailerError : Type 0 where
  bad_magic : TrailerError
  unsupported_version : ℕ → TrailerError
  truncated corrupt_footer : TrailerError

-- `&bytes[a..b]`
abbrev pub slice : ℕ → ℕ → List ℕ → List ℕ
slice a b bytes = take (b - a) (drop a bytes)

-- The checks on what the trailer holds. `trailer_start - footer_len` is checked.
unfoldable pub check_trailer :
    List ℕ → List ℕ → ℕ → ℕ → ℕ → ℕ → List ℕ → ℕ → Outcome TrailerError (ℕ × ℕ)
check_trailer bytes magic header_len trailer_start footer_len footer_crc found_magic version = do
  fail_if (not (text_eq found_magic magic)) bad_magic
  fail_if (ltb format_version version) (unsupported_version version)
  fail_if (ltb trailer_start footer_len) truncated
  let footer_start = trailer_start - footer_len
  fail_if (ltb footer_start header_len) truncated
  fail_if (not (crc32c (slice footer_start trailer_start bytes) == footer_crc)) corrupt_footer
  ok (footer_start, trailer_start)

-- The fields of the trailer, as numbers and bytes.
abbrev pub check_fields : List ℕ → List ℕ → ℕ → ℕ → List ℕ → Outcome TrailerError (ℕ × ℕ)
check_fields bytes magic header_len trailer_start trailer =
    check_trailer bytes magic header_len trailer_start (from_le_bytes (slice 0 4 trailer))
      (from_le_bytes (slice 4 8 trailer)) (slice 8 14 trailer) (from_le_bytes (slice 14 16 trailer))

-- The footer's range, as its two bounds.
unfoldable pub read_trailer : List ℕ → List ℕ → ℕ → Outcome TrailerError (ℕ × ℕ)
read_trailer bytes magic header_len = do
  fail_if (ltb (length bytes) (header_len + trailer_len)) truncated
  let trailer_start = length bytes - trailer_len
  check_fields bytes magic header_len trailer_start (drop trailer_start bytes)

take_whole : (n : ℕ) (xs ys : List ℕ) → length xs ≡ n → take n (xs ++ ys) ≡ xs
take_whole n xs ys h = rw (← h) (take-append_length xs ys)

drop_whole : (n : ℕ) (xs ys : List ℕ) → length xs ≡ n → drop n (xs ++ ys) ≡ ys
drop_whole n xs ys h = rw (← h) (drop-append_length xs ys)

module _ (a b c d : List ℕ) (ha : length a ≡ 4) (hb : length b ≡ 4) (hc : length c ≡ 6)
    (hd : length d ≡ 2) where
  trailer_fields :
      let t = a ++ (b ++ (c ++ d)) in
      (slice 0 4 t ≡ a) × (slice 4 8 t ≡ b) × (slice 8 14 t ≡ c) × (slice 14 16 t ≡ d)
  trailer_fields = (
    take_whole 4 a (b ++ (c ++ d)) ha,
    ap (take 4) (drop_whole 4 a (b ++ (c ++ d)) ha) ∙ take_whole 4 b (c ++ d) hb,
    ap (λ t. take 6 (drop 8 t)) (sym (append_assoc a b (c ++ d)))
        ∙ ap (take 6) (drop_whole 8 (a ++ b) (c ++ d) (omega (arith, length-append a b)))
        ∙ take_whole 6 c d hc,
    ap (λ t. take 2 (drop 14 t)) (sym (append_assoc a b (c ++ d)) ∙ sym (append_assoc (a ++ b) c d))
        ∙ ap (take 2) (
            drop_whole 14 (a ++ b ++ c) d
              (omega (arith, length-append (a ++ b) c, length-append a b)))
        ∙ ap (take 2) (sym (append-nil d))
        ∙ take_whole 2 d [] hd,
  )

module _ (out magic footer : List ℕ) (six : length magic ≡ 6) where
  tail : List ℕ
  tail =
      to_le_bytes 4 (length footer % 2 ^ 32)
      ++ (to_le_bytes 4 (crc32c footer) ++ (magic ++ to_le_bytes 2 format_version))

  bytes : List ℕ
  bytes = write_trailer out magic footer

  framed : bytes ≡ out ++ footer ++ tail
  unfolding bytes write_trailer tail
  framed =
      append_assoc (out ++ footer ++ lens ++ crc) magic ver
      ∙ append_assoc (out ++ footer ++ lens) crc (magic ++ ver)
      ∙ append_assoc (out ++ footer) lens (crc ++ (magic ++ ver))
    where
      lens : List ℕ
      lens = to_le_bytes 4 (length footer % 2 ^ 32)

      crc : List ℕ
      crc = to_le_bytes 4 (crc32c footer)

      ver : List ℕ
      ver = to_le_bytes 2 format_version

  length-tail : length tail ≡ 16
  unfolding tail
  length-tail = omega (
    arith,
    six,
    length-append (to_le_bytes 4 (length footer % 2 ^ 32))
        (to_le_bytes 4 (crc32c footer) ++ (magic ++ to_le_bytes 2 format_version)),
    length-append (to_le_bytes 4 (crc32c footer)) (magic ++ to_le_bytes 2 format_version),
    length-append magic (to_le_bytes 2 format_version),
    length-to_le_bytes 4 (length footer % 2 ^ 32),
    length-to_le_bytes 4 (crc32c footer),
    length-to_le_bytes 2 format_version,
  )

  length-framed : length bytes ≡ length out + length footer + 16
  length-framed = omega (
    arith,
    ap length framed,
    length-append (out ++ footer) tail,
    length-append out footer,
    length-tail,
  )

  drop-framed : drop (length out + length footer) bytes ≡ tail
  drop-framed =
      ap (drop (length out + length footer)) framed
      ∙ drop_whole _ (out ++ footer) tail (length-append out footer)

  slice-framed : slice (length out) (length out + length footer) bytes ≡ footer
  slice-framed =
      ap (λ t. take (length out + length footer - length out) (drop (length out) t))
        (framed ∙ append_assoc out footer tail)
      ∙ ap (take (length out + length footer - length out))
          (drop-append_length out (footer ++ tail))
      ∙ take_whole _ footer tail (omega arith)

  check-passes :
      check_trailer bytes magic
        (length out)
        (length out + length footer)
        (length footer)
        (crc32c footer)
        magic
        format_version
      ≡ ok (length out, length out + length footer)
  unfolding check_trailer
  check-passes = rw (text_eq_refl magic, enough, start, slice-framed, same_crc, behind) refl
    where
      start : length out + length footer - length footer ≡ length out
      start = omega arith

      enough : ltb (length out + length footer) (length footer) ≡ false
      enough = ground arith

      behind : ltb (length out) (length out) ≡ false
      behind = ground arith

      same_crc : (crc32c footer == crc32c footer) ≡ true
      same_crc = ground arith

  fields-pass :
      length footer < 2 ^ 32
      → check_fields bytes magic (length out) (length out + length footer) tail
        ≡ ok (length out, length out + length footer)
  unfolding tail
  fields-pass small =
      let (a, b, c, d) =
        trailer_fields (to_le_bytes 4 (length footer % 2 ^ 32)) (to_le_bytes 4 (crc32c footer))
          magic (to_le_bytes 2 format_version) (length-to_le_bytes 4 _) (length-to_le_bytes 4 _) six
          (length-to_le_bytes 2 _) in
      rw
        (
          a,
          b,
          c,
          d,
          from_le_bytes-to_le_bytes 4 (length footer % 2 ^ 32) (omega arith),
          from_le_bytes-to_le_bytes 4 (crc32c footer) (crc32c-lt footer),
          from_le_bytes-to_le_bytes 2 format_version (omega arith),
        )
        (ap
            (λ n.
              check_trailer bytes magic (length out) (length out + length footer) n (crc32c footer)
                magic format_version)
            (omega arith)
          ∙ check-passes)

  read_trailer-bytes :
      length footer < 2 ^ 32
      → read_trailer bytes magic (length out) ≡ ok (length out, length out + length footer)
  unfolding read_trailer
  read_trailer-bytes small = rw (long, start, drop-framed) (fields-pass small)
    where
      long : ltb (length bytes) (length out + trailer_len) ≡ false
      long = ground (arith, length-framed)

      start : length bytes - trailer_len ≡ length out + length footer
      start = omega (arith, length-framed)

  -- The reader of a frame that the writer made behind a header accepts it, and the range that it
  -- gives holds the footer.
  pub read_trailer-write_trailer :
      length footer < 2 ^ 32
      → (read_trailer (write_trailer out magic footer) magic (length out)
          ≡ ok (length out, length out + length footer))
        × (slice (length out) (length out + length footer) (write_trailer out magic footer)
            ≡ footer)
  unfolding bytes
  read_trailer-write_trailer small = (read_trailer-bytes small, slice-framed)

  pub length-write_trailer :
      length (write_trailer out magic footer) ≡ length out + length footer + 16
  unfolding bytes
  length-write_trailer = length-framed
