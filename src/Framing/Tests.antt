-- ===== src/Framing/Tests.antt =====
-- Runs of the framing (code/tests/test_framing.cpp has such cases) and instances of the theorems.
use mw_study.Prelude.{
  ℕ, ◌≤◌, ◌<◌, ◌≡◌, ◌≢◌, ◌↔◌, ◌⊎◌, refl, true, false, List, [], ◌∷◌, ◌++◌, arith, drop, inl,
}
use mw_study.Bytes.{byte_at, put_u32, get_u32}
use mw_study.Framing.{
  FrameDecoder, new, next, reset, feed, buffered, encode_frame, encode_frame_into, frame_magic,
}
use mw_study.Framing.Decode.{Event, feeds, reads, fed, run, encode_all}
use mw_study.Framing.RoundTrip.{run-prefix, run-encode_all}
use mw_study.Framing.Buffer.{Tidy, next-Tidy, next-error_iff}
use mw_study.Framing.Damage.{Corrupt}
use mw_study.Framing.Corrupt.{run-corrupted}

abbrev hello : List ℕ
hello = b'F' ∷ b'R' ∷ b'M' ∷ b'1' ∷ 2 ∷ 0 ∷ 0 ∷ 0 ∷ b'h' ∷ b'i' ∷ []

encode_hello : encode_frame (b'h' ∷ b'i' ∷ []) ≡ hello
unfolding encode_frame put_u32 byte_at
encode_hello = refl

abbrev sent : List (List ℕ)
sent = (b'h' ∷ b'i' ∷ []) ∷ [] ∷ []

-- The bytes of the two frames in three pieces.
abbrev pieces : List Event
pieces =
    feeds (b'F' ∷ b'R' ∷ b'M' ∷ b'1' ∷ 2 ∷ [])
    ∷ reads
    ∷ feeds (0 ∷ 0 ∷ 0 ∷ b'h' ∷ b'i' ∷ b'F' ∷ b'R' ∷ [])
    ∷ reads
    ∷ feeds (b'M' ∷ b'1' ∷ 0 ∷ 0 ∷ 0 ∷ 0 ∷ [])
    ∷ []

fed-pieces : fed pieces ≡ encode_all sent []
unfolding encode_all encode_frame_into put_u32 byte_at
fed-pieces = refl

first_pieces : (run pieces (new 16)).0 ≡ (b'h' ∷ b'i' ∷ []) ∷ []
unfolding run new feed next get_u32
first_pieces = refl

run-prefix_example :
    ((left : List (List ℕ)) × ((run pieces (new 16)).0 ++ left ≡ sent))
    × ((run pieces (new 16)).1.error ≡ false)
unfolding encode_all encode_frame_into put_u32 byte_at
run-prefix_example = run-prefix 16 sent pieces [] (omega arith) refl

run-encode_all_example : (run (pieces ++ (reads ∷ reads ∷ [])) (new 16)).0 ≡ sent
run-encode_all_example = run-encode_all 16 sent pieces 2 (omega arith) fed-pieces (omega arith)

abbrev partly_read : FrameDecoder
partly_read = record {
  buffer = hello ++ (b'F' ∷ []);
  head = 0;
  max_frame_bytes = 16;
  frames = 0;
  error = false;
}

next-Tidy_example : Tidy (next [] partly_read).2
next-Tidy_example = next-Tidy [] partly_read (omega arith)

next-error_iff_example : ((next [] partly_read).2.error ≡ true) ↔ (
    (8 ≤ buffered partly_read)
    × ((get_u32 0 partly_read.buffer ≢ frame_magic) ⊎ (16 < get_u32 4 partly_read.buffer)))
next-error_iff_example = next-error_iff [] partly_read (omega arith) refl

-- A frame, and then eight bytes that start with another magic number, in two pieces.
abbrev damage : List ℕ
damage = b'F' ∷ b'R' ∷ b'M' ∷ b'2' ∷ 0 ∷ 0 ∷ 0 ∷ 0 ∷ []

abbrev damaged : List Event
damaged = feeds (hello ++ (b'F' ∷ b'R' ∷ [])) ∷ reads ∷ feeds (drop 2 damage ++ hello) ∷ []

abbrev after_damage : FrameDecoder
after_damage = (run (damaged ++ (reads ∷ reads ∷ [])) (new 16)).1

damage-Corrupt : Corrupt 16 damage
unfolding get_u32
damage-Corrupt = (refl, inl (omega arith))

fed-damaged : fed damaged ≡ encode_all ((b'h' ∷ b'i' ∷ []) ∷ []) [] ++ (damage ++ hello)
unfolding encode_all encode_frame_into put_u32 byte_at
fed-damaged = refl

run-corrupted_example :
    ((run (damaged ++ (reads ∷ reads ∷ [])) (new 16)).0 ≡ (b'h' ∷ b'i' ∷ []) ∷ [])
    × (after_damage.error ≡ true)
    × (run pieces after_damage ≡ ([], after_damage))
    × ((run (pieces ++ (reads ∷ reads ∷ [])) (reset after_damage)).0 ≡ sent)
run-corrupted_example =
    run-corrupted 16 ((b'h' ∷ b'i' ∷ []) ∷ []) damage hello damaged 2 pieces sent pieces 2
      (omega arith) damage-Corrupt fed-damaged (omega arith) (omega arith) fed-pieces (omega arith)
