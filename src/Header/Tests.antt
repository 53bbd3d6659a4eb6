-- ===== src/Header/Tests.antt =====
-- Runs of the header codec (code/tests/test_header.cpp has such cases) and instances of the theorems.
use mw_study.Prelude.{ℕ, ◌≤◌, ◌≡◌, refl, ◌↔◌, true, false, List, [], ◌∷◌, ◌++◌, arith, replicate}
use mw_study.Bytes.{byte_at, put_u16, put_u32, put_u64, get_u16, get_u32, get_u64}
use mw_study.Header.{
  MessageHeader, default_header, encode_header, decode_header, schema_fingerprint,
}
use mw_study.Header.RoundTrip.{decode_header-encode_header}
use mw_study.Header.Parse.{encode_header-decode_header, decode_header-accepts_iff}

abbrev sample : MessageHeader
sample = record default_header {
  flags = 2;
  schema_id = 7;
  schema_hash = 0xdead_beef;
  seq = 0x0102_0304_0506_0708;
  stamp_ns = 111;
  publish_ns = 222;
  payload_size = 4096;
}

abbrev blank : List ℕ
blank = replicate 50 0xff

abbrev wire : List ℕ
wire =
    b'R' ∷ b'D' ∷ b'B' ∷ b'1' ∷ 1 ∷ 0 ∷ 2 ∷ 0 ∷ 7 ∷ 0 ∷ 0 ∷ 0 ∷ 0xef ∷ 0xbe ∷ 0xad ∷ 0xde ∷ 8 ∷ 7
    ∷ 6 ∷ 5 ∷ 4 ∷ 3 ∷ 2 ∷ 1 ∷ 111 ∷ 0 ∷ 0 ∷ 0 ∷ 0 ∷ 0 ∷ 0 ∷ 0 ∷ 222 ∷ 0 ∷ 0 ∷ 0 ∷ 0 ∷ 0 ∷ 0 ∷ 0 ∷ 0
    ∷ 16 ∷ 0 ∷ 0 ∷ 0 ∷ 0 ∷ 0 ∷ 0 ∷ []

encode_sample : encode_header sample blank ≡ wire ++ (0xff ∷ 0xff ∷ [])
unfolding encode_header put_u16 put_u32 put_u64 byte_at
encode_sample = refl

decode_wire : decode_header wire 48 default_header ≡ (true, sample)
unfolding decode_header get_u16 get_u32 get_u64
decode_wire = refl

short_is_refused : decode_header wire 47 default_header ≡ (false, default_header)
unfolding decode_header
short_is_refused = refl

-- The FNV-1a values of "" and "a".
fingerprints :
    (schema_fingerprint [] ≡ 0x811c_9dc5) × (schema_fingerprint (b'a' ∷ []) ≡ 0xe40c_292c)
unfolding schema_fingerprint
fingerprints = (refl, refl)

decode_header-encode_header_example :
    decode_header (encode_header sample blank) 48 default_header ≡ (true, sample)
decode_header-encode_header_example =
    decode_header-encode_header sample blank 48 default_header (omega arith) refl refl (omega arith)
      (omega arith)

encode_header-decode_header_example :
    encode_header (decode_header wire 48 default_header).1 blank ≡ wire ++ (0xff ∷ 0xff ∷ [])
unfolding decode_header get_u16 get_u32
encode_header-decode_header_example =
    encode_header-decode_header wire (omega arith) (omega arith) blank 48 default_header
      (omega arith) (omega arith) refl

decode_header-accepts_iff_example : ((decode_header wire 48 default_header).0 ≡ true) ↔ (
    (48 ≤ 48)
    × (◌≡◌ {A = List ℕ}
        (b'R' ∷ b'D' ∷ b'B' ∷ b'1' ∷ 1 ∷ 0 ∷ [])
        (b'R' ∷ b'D' ∷ b'B' ∷ b'1' ∷ 1 ∷ 0 ∷ [])))
decode_header-accepts_iff_example =
    decode_header-accepts_iff wire (omega arith) (omega arith) 48 default_header
