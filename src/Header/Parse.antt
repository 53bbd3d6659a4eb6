-- ===== src/Header/Parse.antt =====
-- What the decoder of code/include/rdb/msg/header.h makes of arbitrary bytes.
use mw_study.Prelude.{
  ℕ, ◌+◌, ◌*◌, ◌^◌, ◌≤◌, ◌<◌, ◌≡◌, refl, ap, sym, ◌∙◌, ◌↔◌, true, false, List, [], ◌∷◌, ◌++◌,
  append_assoc, arith, take, drop, length, length-drop, drop-drop, take-append_at, take-append-drop,
}
use mw_study.Bytes.Layout.{
  little_endian, AreBytes, value_of, little_endian-take, value_of-take-lt, AreBytes-drop,
}
use mw_study.Header.{
  MessageHeader, encode_header, decode_header, message_magic, message_version, header_size,
}
use mw_study.Header.Fields.{
  Width, w16, w32, w64, bytes_of, layout, fields, length-layout, encode_header-layout,
}
use mw_study.Header.RoundTrip.{InRange, decoded, decode_header-layout}

-- The fields that any 48 bytes stand for.
read_fields : List Width → List ℕ → List (Width × ℕ)
read_fields [] bytes = []
read_fields (w ∷ ws) bytes =
    (w, value_of (take (bytes_of w) bytes)) ∷ read_fields ws (drop (bytes_of w) bytes)

header_widths : List Width
header_widths = w32 ∷ w16 ∷ w16 ∷ w32 ∷ w32 ∷ w64 ∷ w64 ∷ w64 ∷ w32 ∷ w32 ∷ []

abbrev width_sum : List Width → ℕ
width_sum [] = 0
width_sum (w ∷ ws) = bytes_of w + width_sum ws

layout-read_fields :
    (ws : List Width) (bs : List ℕ)
    → AreBytes bs
    → width_sum ws ≤ length bs
    → layout (read_fields ws bs) ++ drop (width_sum ws) bs ≡ bs
unfolding layout read_fields
layout-read_fields [] bs h e = refl
layout-read_fields (w ∷ ws) bs h e =
    append_assoc ds (layout fs) (drop (bytes_of w + width_sum ws) bs)
    ∙ ap (λ xs. ds ++ (layout fs ++ xs)) (sym (drop-drop (bytes_of w) (width_sum ws) bs))
    ∙ ap (◌++◌ ds) (
        layout-read_fields ws (drop (bytes_of w) bs) (AreBytes-drop (bytes_of w) bs h)
          (omega (arith, length-drop (bytes_of w) bs)))
    ∙ ap (λ xs. xs ++ drop (bytes_of w) bs) (little_endian-take (bytes_of w) bs h (omega arith))
    ∙ take-append-drop (bytes_of w) bs
  where
    ds : List ℕ
    ds = little_endian (bytes_of w) (value_of (take (bytes_of w) bs))

    fs : List (Width × ℕ)
    fs = read_fields ws (drop (bytes_of w) bs)

drop_fields : List Width → List ℕ → List ℕ
drop_fields [] bs = bs
drop_fields (w ∷ ws) bs = drop_fields ws (drop (bytes_of w) bs)

AreBytes-drop_fields : (ws : List Width) (bs : List ℕ) → AreBytes bs → AreBytes (drop_fields ws bs)
unfolding drop_fields
AreBytes-drop_fields [] bs h = h
AreBytes-drop_fields (w ∷ ws) bs h =
    AreBytes-drop_fields ws (drop (bytes_of w) bs) (AreBytes-drop (bytes_of w) bs h)

-- The number in the field of width `w` behind the first `n` fields.
number : ℕ → Width → List ℕ → ℕ
unfolding drop_fields header_widths
number n w bs = value_of (take (bytes_of w) (drop_fields (take n header_widths) bs))

number-lt : (n : ℕ) (w : Width) (bs : List ℕ) → AreBytes bs → number n w bs < 2 ^ (8 * bytes_of w)
unfolding number
number-lt n w bs h =
    value_of-take-lt (bytes_of w) (drop_fields (take n header_widths) bs)
      (AreBytes-drop_fields (take n header_widths) bs h)

-- The header that any 48 bytes stand for.
header_of : List ℕ → MessageHeader
unfolding number
header_of bs = record {
  magic = number 0 w32 bs;
  version = number 1 w16 bs;
  flags = number 2 w16 bs;
  schema_id = number 3 w32 bs;
  schema_hash = number 4 w32 bs;
  seq = number 5 w64 bs;
  stamp_ns = number 6 w64 bs;
  publish_ns = number 7 w64 bs;
  payload_size = number 8 w32 bs;
  reserved = number 9 w32 bs;
}

header_of-InRange : (bs : List ℕ) → AreBytes bs → InRange (header_of bs)
header_of-InRange bs h = record {
  magic = unfold header_of in number-lt 0 w32 bs h;
  version = unfold header_of in number-lt 1 w16 bs h;
  flags = unfold header_of in number-lt 2 w16 bs h;
  schema_id = unfold header_of in number-lt 3 w32 bs h;
  schema_hash = unfold header_of in number-lt 4 w32 bs h;
  seq = unfold header_of in number-lt 5 w64 bs h;
  stamp_ns = unfold header_of in number-lt 6 w64 bs h;
  publish_ns = unfold header_of in number-lt 7 w64 bs h;
  payload_size = unfold header_of in number-lt 8 w32 bs h;
  reserved = unfold header_of in number-lt 9 w32 bs h;
}

header_of-fields : (bs : List ℕ) → fields (header_of bs) ≡ read_fields header_widths bs
unfolding header_of read_fields
header_of-fields bs = refl

starts_iff :
    (bs : List ℕ)
    → AreBytes bs
    → 6 ≤ length bs
    → (((header_of bs).magic ≡ message_magic) × ((header_of bs).version ≡ message_version))
      ↔ (take 6 bs ≡ b'R' ∷ b'D' ∷ b'B' ∷ b'1' ∷ 1 ∷ 0 ∷ [])
unfolding header_of value_of
starts_iff (a ∷ b ∷ c ∷ d ∷ e ∷ f ∷ rest) h l = ground arith
starts_iff [] h l = absurd (omega arith)
starts_iff (_ ∷ []) h l = absurd (omega arith)
starts_iff (_ ∷ _ ∷ []) h l = absurd (omega arith)
starts_iff (_ ∷ _ ∷ _ ∷ []) h l = absurd (omega arith)
starts_iff (_ ∷ _ ∷ _ ∷ _ ∷ []) h l = absurd (omega arith)
starts_iff (_ ∷ _ ∷ _ ∷ _ ∷ _ ∷ []) h l = absurd (omega arith)

decode_header-short :
    (bs : List ℕ) (size : ℕ) (out : MessageHeader)
    → size < header_size
    → decode_header bs size out ≡ (false, out)
unfolding decode_header
decode_header-short bs size out h = ground arith

module _ (bs : List ℕ) (b : AreBytes bs) (long : header_size ≤ length bs) where
  layout-header_of : layout (fields (header_of bs)) ++ drop 48 bs ≡ bs
  unfolding header_widths
  layout-header_of =
      ap (λ fs. layout fs ++ drop 48 bs) (header_of-fields bs)
      ∙ layout-read_fields header_widths bs b long

  decode_header-bytes :
      (size : ℕ) (out : MessageHeader)
      → header_size ≤ size
      → decode_header bs size out ≡ decoded (header_of bs) (drop 48 bs) (header_of-InRange bs b) out
  decode_header-bytes size out e =
      ap (λ xs. decode_header xs size out) (sym layout-header_of)
      ∙ decode_header-layout (header_of bs) (drop 48 bs) (header_of-InRange bs b) size out e

  -- The other way round: a header that `decode_header` accepts encodes to the very bytes it came
  -- from, and the rest of the buffer stays.
  pub encode_header-decode_header :
      (buffer : List ℕ) (size : ℕ) (out : MessageHeader)
      → header_size ≤ size
      → header_size ≤ length buffer
      → (decode_header bs size out).0 ≡ true
      → encode_header (decode_header bs size out).1 buffer ≡ take 48 bs ++ drop 48 buffer
  encode_header-decode_header buffer size out e fits accepted =
      ap (λ h. encode_header h buffer) same
      ∙ encode_header-layout (header_of bs) buffer fits
      ∙ ap (λ xs. xs ++ drop 48 buffer) front
    where
      same : (decode_header bs size out).1 ≡ header_of bs
      same = ground (arith, decode_header-bytes size out e)

      front : layout (fields (header_of bs)) ≡ take 48 bs
      front =
          sym (
            take-append_at (layout (fields (header_of bs))) (drop 48 bs)
              (sym (length-layout (fields (header_of bs)))))
          ∙ ap (take 48) layout-header_of

  -- A header is accepted exactly when all 48 bytes are there and they begin with "RDB1" and
  -- version 1.
  pub decode_header-accepts_iff :
      (size : ℕ) (out : MessageHeader)
      → ((decode_header bs size out).0 ≡ true)
        ↔ ((header_size ≤ size) × (take 6 bs ≡ b'R' ∷ b'D' ∷ b'B' ∷ b'1' ∷ 1 ∷ 0 ∷ []))
  decode_header-accepts_iff size out = ground (
    arith,
    decode_header-short bs size out,
    decode_header-bytes size out,
    starts_iff bs b (omega arith),
  )
