-- ===== src/Header.antt =====
-- code/include/rdb/msg/header.h: the fixed message header, its encoder and decoder, and the
-- schema fingerprint.
pub mod Fields
pub mod RoundTrip
pub mod Parse
mod Tests
use mw_study.Prelude.{
  ℕ, ◌+◌, ◌*◌, Bool, true, false, not, ◌||◌, List, [], ◌∷◌, ltb, ◌==◌, if◌then◌else◌, bit_xor, u32,
}
use mw_study.Bytes.{put_u16, put_u32, put_u64, get_u16, get_u32, get_u64}

abbrev pub message_magic : ℕ
message_magic = 0x31424452

abbrev pub message_version : ℕ
message_version = 1

abbrev pub header_size : ℕ
header_size = 48

pub record MessageHeader : Type 0 where
  pub magic : ℕ
  pub version : ℕ
  pub flags : ℕ
  pub schema_id : ℕ
  pub schema_hash : ℕ
  pub seq : ℕ
  pub stamp_ns : ℕ
  pub publish_ns : ℕ
  pub payload_size : ℕ
  pub reserved : ℕ

-- The member initialisers.
abbrev pub default_header : MessageHeader
default_header = record {
  magic = message_magic;
  version = message_version;
  flags = 0;
  schema_id = 0;
  schema_hash = 0;
  seq = 0;
  stamp_ns = 0;
  publish_ns = 0;
  payload_size = 0;
  reserved = 0;
}

pub encode_header : MessageHeader → List ℕ → List ℕ
encode_header h out =
    let out = put_u32 0 h.magic out in
    let out = put_u16 4 h.version out in
    let out = put_u16 6 h.flags out in
    let out = put_u32 8 h.schema_id out in
    let out = put_u32 12 h.schema_hash out in
    let out = put_u64 16 h.seq out in
    let out = put_u64 24 h.stamp_ns out in
    let out = put_u64 32 h.publish_ns out in
    let out = put_u32 40 h.payload_size out in put_u32 44 h.reserved out

-- The assignments after the version check.
pub decode_rest : List ℕ → MessageHeader → MessageHeader
decode_rest bytes out = record out {
  flags = get_u16 6 bytes;
  schema_id = get_u32 8 bytes;
  schema_hash = get_u32 12 bytes;
  seq = get_u64 16 bytes;
  stamp_ns = get_u64 24 bytes;
  publish_ns = get_u64 32 bytes;
  payload_size = get_u32 40 bytes;
  reserved = get_u32 44 bytes;
}

-- The result, and `out` as the call leaves it (also where it returns false).
pub decode_header : List ℕ → (size : ℕ) → MessageHeader → Bool × MessageHeader
unfolding decode_rest
decode_header bytes size out =
    if ltb size header_size
    then (false, out)
    else let out₁ = record out { magic = get_u32 0 bytes } in
      if not (out₁.magic == message_magic)
      then (false, out₁)
      else let out₂ = record out₁ { version = get_u16 4 bytes } in
        if out₂.version == 0 || ltb message_version out₂.version
        then (false, out₂)
        else (true, decode_rest bytes out₂)

-- FNV-1a; a character is its byte.
pub fingerprint_from : ℕ → List ℕ → ℕ
fingerprint_from hash [] = hash
fingerprint_from hash (c ∷ cs) = fingerprint_from (u32 (bit_xor hash c * 16777619)) cs

pub schema_fingerprint : List ℕ → ℕ
unfolding fingerprint_from
schema_fingerprint signature = fingerprint_from 2166136261 signature
