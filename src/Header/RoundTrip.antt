-- ===== src/Header/RoundTrip.antt =====
-- Encoding and decoding of the header of code/include/rdb/msg/header.h are inverse.
use mw_study.Prelude.{
  ℕ, ◌*◌, ◌^◌, ◌≤◌, ◌<◌, ◌≡◌, refl, ap, sym, ◌∙◌, Bool, true, false, not, ◌||◌, List, [], ◌∷◌, ◌++◌,
  arith, take, drop, length, if◌then◌else◌, ltb, ◌==◌,
}
use mw_study.Header.{
  MessageHeader, encode_header, decode_header, decode_rest, message_magic, message_version,
  header_size,
}
use mw_study.Header.Fields.{
  Width, w16, w32, w64, bytes_of, get, layout, total, fields, get-layout, encode_header-layout,
}

-- Each member holds a value of its C++ type.
pub record InRange (h : MessageHeader) : Type 0 where
  pub magic : h.magic < 2 ^ 32
  pub version : h.version < 2 ^ 16
  pub flags : h.flags < 2 ^ 16
  pub schema_id : h.schema_id < 2 ^ 32
  pub schema_hash : h.schema_hash < 2 ^ 32
  pub seq : h.seq < 2 ^ 64
  pub stamp_ns : h.stamp_ns < 2 ^ 64
  pub publish_ns : h.publish_ns < 2 ^ 64
  pub payload_size : h.payload_size < 2 ^ 32
  pub reserved : h.reserved < 2 ^ 32

module _ (h : MessageHeader) (rest : List ℕ) (r : InRange h) where
  abbrev pub bytes : List ℕ
  bytes = layout (fields h) ++ rest

  field_at :
      (n : ℕ) (w : Width) (v : ℕ) (after : List (Width × ℕ))
      → take n (fields h) ++ ((w, v) ∷ after) ≡ fields h
      → v < 2 ^ (8 * bytes_of w)
      → get w (total (take n (fields h))) bytes ≡ v
  field_at n w v after e b =
      ap (λ fs. get w (total (take n (fields h))) (layout fs ++ rest)) (sym e)
      ∙ get-layout (take n (fields h)) after w v rest b

  decode_rest-layout :
      (out : MessageHeader)
      → out.magic ≡ h.magic
      → out.version ≡ h.version
      → decode_rest bytes out ≡ h
  unfolding decode_rest get
  decode_rest-layout out e f = λ i. record {
    magic = e i;
    version = f i;
    flags = field_at 2 w16 h.flags (drop 3 (fields h)) refl r.flags i;
    schema_id = field_at 3 w32 h.schema_id (drop 4 (fields h)) refl r.schema_id i;
    schema_hash = field_at 4 w32 h.schema_hash (drop 5 (fields h)) refl r.schema_hash i;
    seq = field_at 5 w64 h.seq (drop 6 (fields h)) refl r.seq i;
    stamp_ns = field_at 6 w64 h.stamp_ns (drop 7 (fields h)) refl r.stamp_ns i;
    publish_ns = field_at 7 w64 h.publish_ns (drop 8 (fields h)) refl r.publish_ns i;
    payload_size = field_at 8 w32 h.payload_size (drop 9 (fields h)) refl r.payload_size i;
    reserved = field_at 9 w32 h.reserved [] refl r.reserved i;
  }

  -- What the decoder makes of the bytes of `h`, on each of its branches.
  abbrev pub decoded : MessageHeader → Bool × MessageHeader
  decoded out =
      if not (h.magic == message_magic)
      then (false, record out { magic = h.magic })
      else if h.version == 0 || ltb message_version h.version
      then (false, record out { magic = h.magic; version = h.version })
      else (true, h)

  pub decode_header-layout :
      (size : ℕ) (out : MessageHeader)
      → header_size ≤ size
      → decode_header bytes size out ≡ decoded out
  unfolding decode_header get
  decode_header-layout size out e = ground (
    arith,
    field_at 0 w32 h.magic (drop 1 (fields h)) refl r.magic,
    field_at 1 w16 h.version (drop 2 (fields h)) refl r.version,
    decode_rest-layout (record out { magic = h.magic; version = h.version }) refl refl,
  )

-- `decode_header` gives back the header that `encode_header` wrote, whatever the buffer held and
-- whatever `out` held, if every member fits its type and the magic and version are this program's.
pub decode_header-encode_header :
    (h : MessageHeader) (buffer : List ℕ) (size : ℕ) (out : MessageHeader)
    → InRange h
    → h.magic ≡ message_magic
    → h.version ≡ message_version
    → header_size ≤ length buffer
    → header_size ≤ size
    → decode_header (encode_header h buffer) size out ≡ (true, h)
decode_header-encode_header h buffer size out r e f fits e' =
    ap (λ bs. decode_header bs size out) (encode_header-layout h buffer fits)
    ∙ decode_header-layout h (drop 48 buffer) r size out e'
    ∙ ground arith
