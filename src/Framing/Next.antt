-- ===== src/Framing/Next.antt =====
-- One call of FrameDecoder::next against the stream (code/include/rdb/transport/framing.h).
use mw_study.Prelude.{
  ℕ, ◌+◌, ◌-◌, ◌≤◌, ◌<◌, ◌^◌, ◌≡◌, refl, ap, sym, ◌∙◌, true, false, List, ◌++◌, length, take, drop,
  arith, append_assoc, u64, length-append, take-append-drop, append-cut_at, length-take,
  length-drop, drop-drop, take-append_at,
}
use mw_study.Bytes.{get_u32}
use mw_study.Bytes.Layout.{little_endian, length-digits_from, get_u32-append}
use mw_study.Framing.{frame_magic, FrameDecoder, compact, next}
use mw_study.Framing.Stream.{frame, pending, InBuffer}

-- The decoder once the frame `p` at its head is taken.
abbrev pub taken : List ℕ → FrameDecoder → FrameDecoder
taken p d = record d { head = d.head + (8 + length p); frames = u64 (d.frames + 1) }

-- A decoder at the start of the frame `p`, with `rest` still to come over the wire.
module _ (d : FrameDecoder) (p more rest : List ℕ) where
  pub record Aligned : Type 0 where
    pub in_buffer : InBuffer d
    pub frame_next : pending d ++ rest ≡ frame p ++ more
    pub short : length p < 2 ^ 32
    pub allowed : length p ≤ d.max_frame_bytes
    pub sound : d.error ≡ false

module _ {d : FrameDecoder} {p more rest : List ℕ} (a : Aligned d p more rest) where
  lm : List ℕ
  lm = little_endian 4 frame_magic

  ll : List ℕ
  ll = little_endian 4 (length p)

  buffered-pending : length d.buffer - d.head ≡ length (pending d)
  buffered-pending = omega (arith, length-drop d.head d.buffer)

  at_head : d.head ≡ length (take d.head d.buffer)
  at_head = let h = a.in_buffer in omega (arith, length-take d.head d.buffer)

  magic_part :
      4 ≤ length (pending d)
      → (pending d ≡ lm ++ drop 4 (pending d)) × (drop 4 (pending d) ++ rest ≡ ll ++ (p ++ more))
  unfolding lm ll
  magic_part h =
      append-cut_at (pending d) rest lm (ll ++ (p ++ more)) 4 whole
        (length-digits_from 4 0 frame_magic) h
    where
      whole : pending d ++ rest ≡ lm ++ (ll ++ (p ++ more))
      whole =
          a.frame_next
          ∙ unfold frame in append_assoc lm (ll ++ p) more ∙ ap (◌++◌ lm) (append_assoc ll p more)

  length_part :
      8 ≤ length (pending d)
      → (drop 4 (pending d) ≡ ll ++ drop 8 (pending d)) × (drop 8 (pending d) ++ rest ≡ p ++ more)
  unfolding ll
  length_part h = rw (drop-drop 4 4 (pending d)) at (
      append-cut_at (drop 4 (pending d)) rest ll (p ++ more) 4 (magic_part (omega arith)).1
        (length-digits_from 4 0 (length p)) (omega (arith, length-drop 4 (pending d))))

  payload_part :
      8 + length p ≤ length (pending d)
      → (take (length p) (drop 8 (pending d)) ≡ p)
        × (drop (8 + length p) (pending d) ++ rest ≡ more)
  payload_part h =
      let (e, f) =
        append-cut_at (drop 8 (pending d)) rest p more (length p) (length_part (omega arith)).1 refl
          (omega (arith, length-drop 8 (pending d))) in
      (
        ap (take (length p)) e ∙ take-append_at p (drop (length p) (drop 8 (pending d))) refl,
        ap (λ xs. xs ++ rest) (sym (drop-drop 8 (length p) (pending d))) ∙ f,
      )

  buffer-split : d.buffer ≡ take d.head d.buffer ++ pending d
  buffer-split = sym (take-append-drop d.head d.buffer)

  read_magic : 4 ≤ length (pending d) → get_u32 d.head d.buffer ≡ frame_magic
  unfolding lm
  read_magic h =
      ap (get_u32 d.head) (buffer-split ∙ ap (◌++◌ (take d.head d.buffer)) (magic_part h).0)
      ∙ get_u32-append d.head frame_magic (take d.head d.buffer) (drop 4 (pending d)) at_head
          (omega arith)

  read_length : 8 ≤ length (pending d) → get_u32 (d.head + 4) d.buffer ≡ length p
  unfolding ll lm
  read_length h =
      ap (get_u32 (d.head + 4)) (
        buffer-split
        ∙ ap (◌++◌ front) ((magic_part (omega arith)).0 ∙ ap (◌++◌ lm) (length_part h).0)
        ∙ sym (append_assoc front lm (ll ++ drop 8 (pending d))))
      ∙ get_u32-append (d.head + 4) (length p) (front ++ lm) (drop 8 (pending d))
          (omega (arith, at_head, length-append front lm, length-digits_from 4 0 frame_magic))
          a.short
    where
      front : List ℕ
      front = take d.head d.buffer

  -- While the frame is not complete, `next` returns false and only moves bytes.
  pub next-waits :
      (out : List ℕ) → length (pending d) < 8 + length p → next out d ≡ (false, out, compact d)
  unfolding next
  next-waits out h =
      let s = a.sound in
      let m = a.allowed in ground (arith, buffered-pending, read_magic, read_length)

  -- Once it is complete, `next` delivers it and moves on behind it.
  pub next-delivers :
      (out : List ℕ)
      → 8 + length p ≤ length (pending d)
      → next out d ≡ (true, p, compact (taken p d))
  unfolding next
  next-delivers out h =
      let s = a.sound in
      let m = a.allowed in
      let (e, f) = payload_part h in
      ground (
        arith,
        buffered-pending,
        read_magic (omega arith),
        read_length (omega arith),
        drop-drop d.head 8 d.buffer,
      )

  pub pending-taken :
      8 + length p ≤ length (pending d)
      → (pending (taken p d) ++ rest ≡ more) × InBuffer (taken p d)
  pending-taken h = (
    ap (λ xs. xs ++ rest) (sym (drop-drop d.head (8 + length p) d.buffer)) ∙ (payload_part h).1,
    (let i = a.in_buffer in omega (arith, length-drop d.head d.buffer)),
  )
