-- ===== src/Framing.antt =====
-- code/include/rdb/transport/framing.h: frames on a byte stream, [magic u32][length u32][payload].
-- A `std::vector<std::byte>` is a list of numbers below 256.
pub mod Stream
pub mod Next
pub mod Decode
pub mod RoundTrip
pub mod Buffer
pub mod Damage
pub mod Corrupt
mod Tests
use mw_study.Prelude.{
  ℕ, ◌+◌, ◌-◌, ◌*◌, Bool, true, false, not, List, [], ◌∷◌, ◌++◌, ltb, leb, ◌==◌, if◌then◌else◌,
  length, take, drop, replicate, set, u32, u64,
}
use mw_study.Bytes.{put_u32, get_u32}

abbrev pub frame_magic : ℕ
frame_magic = 0x314d_5246

abbrev pub frame_prefix_size : ℕ
frame_prefix_size = 8

-- `std::memcpy(out + offset, payload, size)`
pub copy_bytes : (offset : ℕ) → List ℕ → List ℕ → List ℕ
copy_bytes offset [] out = out
copy_bytes offset (b ∷ bs) out = copy_bytes (offset + 1) bs (set out offset b)

-- `encode_frame(payload, size, out)`; the loops over `p[i]` and `p[4 + i]` are those of `put_u32`.
-- `resize` fills with zeros.
pub encode_frame_into : List ℕ → List ℕ → List ℕ
unfolding copy_bytes
encode_frame_into payload out =
    let offset = length out in
    let p = out ++ replicate (frame_prefix_size + length payload) 0 in
    let p = put_u32 offset frame_magic p in
    let len = u32 (length payload) in
    let p = put_u32 (offset + 4) len p in copy_bytes (offset + frame_prefix_size) payload p

pub encode_frame : List ℕ → List ℕ
unfolding encode_frame_into
encode_frame payload = encode_frame_into payload []

pub record FrameDecoder : Type 0 where
  pub buffer : List ℕ
  pub head : ℕ
  pub max_frame_bytes : ℕ
  pub frames : ℕ
  pub error : Bool

pub new : ℕ → FrameDecoder
new max_frame_bytes = record {
  buffer = [];
  head = 0;
  max_frame_bytes = max_frame_bytes;
  frames = 0;
  error = false;
}

pub feed : List ℕ → FrameDecoder → FrameDecoder
feed bytes d = if d.error then d else record d { buffer = d.buffer ++ bytes }

pub compact : FrameDecoder → FrameDecoder
compact d =
    if d.head == 0
    then d
    else if d.head == length d.buffer
    then record d { buffer = []; head = 0 }
    else if leb (length d.buffer) (d.head * 2)
    then record d { buffer = drop d.head d.buffer; head = 0 }
    else d

-- `next(out)`: the result, `out` as the call leaves it, and the decoder. `head_ <= buffer_.size()`
-- (`InBuffer` of Framing.Stream), so `buffer_.size() - head_` does not wrap.
pub next : List ℕ → FrameDecoder → Bool × List ℕ × FrameDecoder
unfolding compact
next out d =
    if d.error
    then (false, out, d)
    else if ltb (length d.buffer - d.head) frame_prefix_size
    then (false, out, compact d)
    else let magic = get_u32 d.head d.buffer in
      if not (magic == frame_magic)
      then (false, out, record d { error = true })
      else let len = get_u32 (d.head + 4) d.buffer in
        if ltb d.max_frame_bytes len
        then (false, out, record d { error = true })
        else let total = frame_prefix_size + len in
          if ltb (length d.buffer - d.head) total then (false, out, compact d) else (
            true,
            take (total - frame_prefix_size) (drop (d.head + frame_prefix_size) d.buffer),
            compact (record d { head = d.head + total; frames = u64 (d.frames + 1) }),
          )

pub buffered : FrameDecoder → ℕ
buffered d = length d.buffer - d.head

pub reset : FrameDecoder → FrameDecoder
reset d = record d { buffer = []; head = 0; error = false }
