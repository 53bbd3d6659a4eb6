-- ===== src/Framing/Buffer.antt =====
-- The memory of FrameDecoder, and its error state (code/include/rdb/transport/framing.h).
use mw_study.Prelude.{
  ℕ, ◌+◌, ◌*◌, ◌≤◌, ◌<◌, ◌≡◌, ◌≢◌, ◌↔◌, refl, ◌⊎◌, true, false, List, [], ◌∷◌, length, arith,
  length-append, u64,
}
use mw_study.Bytes.{get_u32}
use mw_study.Framing.{FrameDecoder, next, feed, compact, buffered, frame_magic}
use mw_study.Framing.Stream.{InBuffer, compact-Compacted}
use mw_study.Framing.Decode.{Event, feeds, reads, run}

-- The head stays inside the buffer.
feed-InBuffer : (bytes : List ℕ) (d : FrameDecoder) → InBuffer d → InBuffer (feed bytes d)
unfolding feed
feed-InBuffer bytes d h = ground (arith, length-append d.buffer bytes)

-- What a call of `next` does to the buffer. (The decoder is at its start or has `head_` inside.)
pub record Tidy (d' : FrameDecoder) : Type 0 where
  pub inside : InBuffer d'
  pub small : d'.error ≡ false → length d'.buffer ≤ 2 * buffered d'

-- A call of `next` keeps `head_` inside the buffer, and unless the decoder is in its error state it
-- leaves a buffer of at most twice the bytes that are still to be decoded.
pub next-Tidy : (out : List ℕ) (d : FrameDecoder) → InBuffer d → Tidy (next out d).2
unfolding next buffered
next-Tidy out d h = ground (
  arith,
  compact-Compacted d h,
  compact-Compacted (record d {
    head = d.head + (8 + get_u32 (d.head + 4) d.buffer);
    frames = u64 (d.frames + 1);
  }),
)

-- `next` enters the error state exactly where eight bytes are there and the first four are not the
-- magic number, or the length that follows is over the limit.
pub next-error_iff :
    (out : List ℕ) (d : FrameDecoder)
    → InBuffer d
    → d.error ≡ false
    → ((next out d).2.error ≡ true) ↔ (
        (8 ≤ buffered d)
        × ((get_u32 d.head d.buffer ≢ frame_magic)
            ⊎ (d.max_frame_bytes < get_u32 (d.head + 4) d.buffer)))
unfolding next buffered compact
next-error_iff out d h e = ground arith

-- A decoder in its error state stays as it is.
pub run-error : (es : List Event) (d : FrameDecoder) → d.error ≡ true → run es d ≡ ([], d)
unfolding run feed next
run-error [] d h = refl
run-error (feeds bytes ∷ es) d h = ground (arith, run-error es d h)
run-error (reads ∷ es) d h = ground (arith, run-error es d h)
