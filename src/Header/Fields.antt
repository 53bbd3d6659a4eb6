-- ===== src/Header/Fields.antt =====
-- The header of code/include/rdb/msg/header.h as ten fields in a row.
use mw_study.Prelude.{
  ℕ, ◌+◌, ◌*◌, ◌^◌, ◌≤◌, ◌<◌, ◌≡◌, refl, ap, sym, ◌∙◌, List, [], ◌∷◌, ◌++◌, append_assoc, arith,
  drop, length, length-append, length-drop, drop-drop,
}
use mw_study.Bytes.{put_u16, put_u32, put_u64, get_u16, get_u32, get_u64}
use mw_study.Bytes.Layout.{
  little_endian, length-digits_from, put_u16-append, put_u32-append, put_u64-append, get_u16-append,
  get_u32-append, get_u64-append,
}
use mw_study.Header.{MessageHeader, encode_header}

-- The width of a field.
pub data Width : Type 0 where
  w16 w32 w64 : Width

abbrev pub bytes_of : Width → ℕ
bytes_of w16 = 2
bytes_of w32 = 4
bytes_of w64 = 8

put : Width → ℕ → ℕ → List ℕ → List ℕ
put w16 = put_u16
put w32 = put_u32
put w64 = put_u64

unfoldable pub get : Width → ℕ → List ℕ → ℕ
get w16 = get_u16
get w32 = get_u32
get w64 = get_u64

put_fields : ℕ → List (Width × ℕ) → List ℕ → List ℕ
put_fields offset [] out = out
put_fields offset ((w, v) ∷ fs) out = put_fields (offset + bytes_of w) fs (put w offset v out)

-- The bytes of the fields, one after the other.
unfoldable pub layout : List (Width × ℕ) → List ℕ
layout [] = []
layout ((w, v) ∷ fs) = little_endian (bytes_of w) v ++ layout fs

abbrev pub total : List (Width × ℕ) → ℕ
total [] = 0
total ((w, v) ∷ fs) = bytes_of w + total fs

abbrev pub fields : MessageHeader → List (Width × ℕ)
fields h =
    (w32, h.magic)
    ∷ (w16, h.version)
    ∷ (w16, h.flags)
    ∷ (w32, h.schema_id)
    ∷ (w32, h.schema_hash)
    ∷ (w64, h.seq)
    ∷ (w64, h.stamp_ns)
    ∷ (w64, h.publish_ns)
    ∷ (w32, h.payload_size)
    ∷ (w32, h.reserved)
    ∷ []

pub length-layout : (fs : List (Width × ℕ)) → length (layout fs) ≡ total fs
unfolding layout
length-layout [] = refl
length-layout ((w, v) ∷ fs) = omega (
  arith,
  length-append (little_endian (bytes_of w) v) (layout fs),
  length-digits_from (bytes_of w) 0 v,
  length-layout fs,
)

put-append :
    (w : Width) (offset v : ℕ) (pre xs : List ℕ)
    → offset ≡ length pre
    → bytes_of w ≤ length xs
    → put w offset v (pre ++ xs) ≡ pre ++ (little_endian (bytes_of w) v ++ drop (bytes_of w) xs)
unfolding put
put-append w16 offset v pre xs e h = put_u16-append offset v pre xs e h
put-append w32 offset v pre xs e h = put_u32-append offset v pre xs e h
put-append w64 offset v pre xs e h = put_u64-append offset v pre xs e h

pub get-append :
    (w : Width) (offset v : ℕ) (pre xs : List ℕ)
    → offset ≡ length pre
    → v < 2 ^ (8 * bytes_of w)
    → get w offset (pre ++ (little_endian (bytes_of w) v ++ xs)) ≡ v
unfolding get
get-append w16 offset v pre xs e h = get_u16-append offset v pre xs e h
get-append w32 offset v pre xs e h = get_u32-append offset v pre xs e h
get-append w64 offset v pre xs e h = get_u64-append offset v pre xs e h

put_fields-append :
    (fs : List (Width × ℕ)) (offset : ℕ) (pre xs : List ℕ)
    → offset ≡ length pre
    → total fs ≤ length xs
    → put_fields offset fs (pre ++ xs) ≡ pre ++ (layout fs ++ drop (total fs) xs)
unfolding put_fields layout
put_fields-append [] offset pre xs e h = refl
put_fields-append ((w, v) ∷ fs) offset pre xs e h =
    ap (put_fields (offset + bytes_of w) fs) (
      put-append w offset v pre xs e (omega arith)
      ∙ sym (append_assoc pre ds (drop (bytes_of w) xs)))
    ∙ put_fields-append fs (offset + bytes_of w) (pre ++ ds) (drop (bytes_of w) xs)
        (omega (arith, length-append pre ds, length-digits_from (bytes_of w) 0 v))
        (omega (arith, length-drop (bytes_of w) xs))
    ∙ append_assoc pre ds (layout fs ++ drop (total fs) (drop (bytes_of w) xs))
    ∙ ap (◌++◌ pre) (
        sym (append_assoc ds (layout fs) (drop (total fs) (drop (bytes_of w) xs)))
        ∙ ap (◌++◌ (ds ++ layout fs)) (drop-drop (bytes_of w) (total fs) xs))
  where
    ds : List ℕ
    ds = little_endian (bytes_of w) v

layout-append : (fs gs : List (Width × ℕ)) → layout (fs ++ gs) ≡ layout fs ++ layout gs
unfolding layout
layout-append [] gs = refl
layout-append ((w, v) ∷ fs) gs =
    ap (◌++◌ (little_endian (bytes_of w) v)) (layout-append fs gs)
    ∙ sym (append_assoc (little_endian (bytes_of w) v) (layout fs) (layout gs))

-- A field is read back at the place where the fields before it end.
pub get-layout :
    (before after : List (Width × ℕ)) (w : Width) (v : ℕ) (rest : List ℕ)
    → v < 2 ^ (8 * bytes_of w)
    → get w (total before) (layout (before ++ ((w, v) ∷ after)) ++ rest) ≡ v
unfolding layout
get-layout before after w v rest h =
    ap (get w (total before)) (
      ap (λ bytes. bytes ++ rest) (layout-append before ((w, v) ∷ after))
      ∙ append_assoc (layout before) (little_endian (bytes_of w) v ++ layout after) rest
      ∙ ap (◌++◌ (layout before)) (append_assoc (little_endian (bytes_of w) v) (layout after) rest))
    ∙ get-append w (total before) v (layout before) (layout after ++ rest)
        (sym (length-layout before)) h

-- `encode_header` writes the fields in order over the first 48 bytes and leaves the rest alone.
pub encode_header-layout :
    (h : MessageHeader) (out : List ℕ)
    → 48 ≤ length out
    → encode_header h out ≡ layout (fields h) ++ drop 48 out
unfolding encode_header put_fields put
encode_header-layout h out e = put_fields-append (fields h) 0 [] out refl e
