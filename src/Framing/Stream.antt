-- ===== src/Framing/Stream.antt =====
-- What code/include/rdb/transport/framing.h encodes, and the bytes its decoder has still to decode.
use mw_study.Prelude.{
  ℕ, zero, ◌+◌, ◌≤◌, ◌<◌, ◌^◌, ◌≡◌, refl, ap, sym, ◌∙◌, ◌⊎◌, List, [], ◌∷◌, ◌++◌, length, drop,
  arith, append_assoc, replicate, length-append, length-replicate, set-append_at, drop_all,
  length-drop,
}
use native.Mathlib.Nat.{mod-eq_of_lt}
use mw_study.Bytes.{put_u32}
use mw_study.Bytes.Layout.{little_endian, length-digits_from, put_u32-append}
use mw_study.Framing.{frame_magic, copy_bytes, encode_frame_into, FrameDecoder, compact}

-- A frame, byte by byte.
unfoldable pub frame : List ℕ → List ℕ
frame payload = little_endian 4 frame_magic ++ (little_endian 4 (length payload) ++ payload)

pub length-frame : (p : List ℕ) → length (frame p) ≡ 8 + length p
unfolding frame
length-frame p = omega (
  arith,
  length-append (little_endian 4 frame_magic) (little_endian 4 (length p) ++ p),
  length-append (little_endian 4 (length p)) p,
  length-digits_from 4 0 frame_magic,
  length-digits_from 4 0 (length p),
)

copy_bytes-append :
    (offset : ℕ) (bs pre xs : List ℕ)
    → offset ≡ length pre
    → length bs ≡ length xs
    → copy_bytes offset bs (pre ++ xs) ≡ pre ++ bs
unfolding copy_bytes
copy_bytes-append offset [] pre [] e h = refl
copy_bytes-append offset [] pre (x ∷ xs) e h = absurd (omega arith)
copy_bytes-append offset (b ∷ bs) pre [] e h = absurd (omega arith)
copy_bytes-append offset (b ∷ bs) pre (x ∷ xs) e h =
    ap (copy_bytes (offset + 1) bs)
      (set-append_at pre xs x b e ∙ sym (append_assoc pre (b ∷ []) xs))
    ∙ copy_bytes-append (offset + 1) bs (pre ++ (b ∷ [])) xs
        (omega (arith, length-append pre (b ∷ []))) (omega arith)
    ∙ append_assoc pre (b ∷ []) bs

-- The three writes over the space that `resize` made.
write_frame :
    (p out space : List ℕ)
    → length space ≡ 8 + length p
    → copy_bytes
        (length out + 8)
        p
        (put_u32 (length out + 4) (length p) (put_u32 (length out) frame_magic (out ++ space)))
      ≡ out ++ frame p
unfolding frame
write_frame p out space h =
    ap (λ b. copy_bytes (n + 8) p (put_u32 (n + 4) (length p) b))
      (put_u32-append n frame_magic out space refl (omega arith) ∙ sym (append_assoc out lm space₁))
    ∙ ap (copy_bytes (n + 8) p) (
        put_u32-append (n + 4) (length p) (out ++ lm) space₁ at₁
          (omega (arith, length-drop 4 space))
        ∙ sym (append_assoc (out ++ lm) ll space₂))
    ∙ copy_bytes-append (n + 8) p ((out ++ lm) ++ ll) space₂ at₂
        (omega (arith, length-drop 4 space, length-drop 4 space₁))
    ∙ append_assoc (out ++ lm) ll p
    ∙ append_assoc out lm (ll ++ p)
  where
    n : ℕ
    n = length out

    lm : List ℕ
    lm = little_endian 4 frame_magic

    ll : List ℕ
    ll = little_endian 4 (length p)

    space₁ : List ℕ
    space₁ = drop 4 space

    space₂ : List ℕ
    space₂ = drop 4 space₁

    at₁ : n + 4 ≡ length (out ++ lm)
    at₁ = omega (arith, length-append out lm, length-digits_from 4 0 frame_magic)

    at₂ : n + 8 ≡ length ((out ++ lm) ++ ll)
    at₂ = omega (arith, at₁, length-append (out ++ lm) ll, length-digits_from 4 0 (length p))

-- `encode_frame` appends one frame and keeps what was there.
pub encode_frame_into-frame :
    (p out : List ℕ) → length p < 2 ^ 32 → encode_frame_into p out ≡ out ++ frame p
unfolding encode_frame_into
encode_frame_into-frame p out h =
    ap
      (λ len.
        copy_bytes (length out + 8) p
          (put_u32 (length out + 4) len (put_u32 (length out) frame_magic (out ++ space))))
      (mod-eq_of_lt h)
    ∙ write_frame p out space (length-replicate (8 + length p) zero)
  where
    space : List ℕ
    space = replicate (8 + length p) 0

-- What is fed and not yet decoded.
abbrev pub pending : FrameDecoder → List ℕ
pending d = drop d.head d.buffer

abbrev pub InBuffer : FrameDecoder → Type 0
InBuffer d = d.head ≤ length d.buffer

-- `compact` moves bytes and forgets none that is pending.
pub record Compacted (d d' : FrameDecoder) : Type 0 where
  pub same_pending : pending d' ≡ pending d
  pub in_buffer : InBuffer d'
  pub same_max : d'.max_frame_bytes ≡ d.max_frame_bytes
  pub same_frames : d'.frames ≡ d.frames
  pub same_error : d'.error ≡ d.error
  pub half_used : (d'.head ≡ 0) ⊎ (d'.head + d'.head < length d'.buffer)

pub compact-Compacted : (d : FrameDecoder) → InBuffer d → Compacted d (compact d)
unfolding compact
compact-Compacted d h = ground (arith, drop_all d.head d.buffer, length-drop d.head d.buffer)
