-- ===== src/Framing/Decode.antt =====
-- A FrameDecoder that is fed a stream in arbitrary pieces (code/include/rdb/transport/framing.h).
use mw_study.Prelude.{
  ℕ, ◌+◌, ◌≤◌, ◌<◌, ◌^◌, ◌≡◌, refl, ap, ◌∙◌, true, false, List, [], ◌∷◌, ◌++◌, if◌then◌else◌,
  if-elim, length, arith, append_assoc, length-append, length-drop, drop-append,
}
use native.Mathlib.Decide.{dec_lt}
use mw_study.Framing.{encode_frame_into, FrameDecoder, new, feed, next, compact, reset}
use mw_study.Framing.Stream.{
  frame, length-frame, encode_frame_into-frame, pending, InBuffer, compact-Compacted,
}
use mw_study.Framing.Next.{Aligned, taken, next-waits, next-delivers, pending-taken}

-- What happens to a decoder: bytes arrive, or the client asks for a frame.
pub data Event : Type 0 where
  feeds : List ℕ → Event
  reads : Event

abbrev pub fed : List Event → List ℕ
fed [] = []
fed (feeds bytes ∷ es) = bytes ++ fed es
fed (reads ∷ es) = fed es

-- The frames that the calls of `next` deliver, and the decoder at the end.
unfoldable pub run : List Event → FrameDecoder → List (List ℕ) × FrameDecoder
run [] d = ([], d)
run (feeds bytes ∷ es) d = run es (feed bytes d)
run (reads ∷ es) d =
    let (ok, p, d') = next [] d in let (ps, d'') = run es d' in (if ok then p ∷ ps else ps, d'')

-- `encode_frame(p, out)` for each payload in turn.
unfoldable pub encode_all : List (List ℕ) → List ℕ → List ℕ
encode_all [] out = out
encode_all (p ∷ ps) out = encode_all ps (encode_frame_into p out)

-- A stream of frames, and what comes after them.
abbrev pub frames : (after : List ℕ) → List (List ℕ) → List ℕ
frames after [] = after
frames after (p ∷ ps) = frame p ++ frames after ps

-- Each payload fits a 32-bit length and the decoder's limit.
abbrev pub Fit : ℕ → List (List ℕ) → Type 0
Fit limit [] = Unit
Fit limit (p ∷ ps) = (length p < 2 ^ 32) × (length p ≤ limit) × Fit limit ps

pub encode_all-frames :
    (limit : ℕ) (after : List ℕ) (ps : List (List ℕ)) (out : List ℕ)
    → Fit limit ps
    → encode_all ps out ++ after ≡ out ++ frames after ps
unfolding encode_all
encode_all-frames limit after [] out f = refl
encode_all-frames limit after (p ∷ ps) out f =
    ap (λ l. encode_all ps l ++ after) (encode_frame_into-frame p out f.0)
    ∙ encode_all-frames limit after ps (out ++ frame p) f.2
    ∙ append_assoc out (frame p) (frames after ps)

-- The decoder stands in a stream that goes on with `ps` and `after`, of which `tail` has not
-- arrived.
pub record InStream (d : FrameDecoder) (limit : ℕ) (after : List ℕ) (ps : List (List ℕ))
    (tail : List ℕ) : Type 0 where
  pub in_buffer : InBuffer d
  pub sound : d.error ≡ false
  pub same_limit : d.max_frame_bytes ≡ limit
  pub ahead : pending d ++ tail ≡ frames after ps

pub InStream-feed :
    (bytes : List ℕ) {d : FrameDecoder} {limit : ℕ} {after : List ℕ} {ps : List (List ℕ)}
    (tail : List ℕ)
    → InStream d limit after ps (bytes ++ tail)
    → InStream (feed bytes d) limit after ps tail
unfolding feed
InStream-feed bytes {d} {limit} {after} {ps} tail s =
    if-elim (λ d'. InStream d' limit after ps tail) d.error (λ e. absurd (failed e))
      (λ _. record {
        in_buffer = let i = s.in_buffer in omega (arith, length-append d.buffer bytes);
        sound = s.sound;
        same_limit = s.same_limit;
        ahead =
            ap (λ xs. xs ++ tail) (drop-append d.head d.buffer bytes s.in_buffer)
            ∙ append_assoc (pending d) bytes tail
            ∙ s.ahead;
      })
  where
    failed : d.error ≡ true → ⊥
    failed e = let h = s.sound in cc

pub InStream-compact :
    {d : FrameDecoder} {limit : ℕ} {after : List ℕ} {ps : List (List ℕ)} {tail : List ℕ}
    → InStream d limit after ps tail
    → InStream (compact d) limit after ps tail
InStream-compact {d} {tail} s =
    let c = compact-Compacted d s.in_buffer in
    record {
      in_buffer = c.in_buffer;
      sound = c.same_error ∙ s.sound;
      same_limit = c.same_max ∙ s.same_limit;
      ahead = ap (λ xs. xs ++ tail) c.same_pending ∙ s.ahead;
    }

pub next-empty :
    (out : List ℕ) (d : FrameDecoder)
    → InBuffer d
    → d.error ≡ false
    → length (pending d) < 8
    → next out d ≡ (false, out, compact d)
unfolding next
next-empty out d i e h = ground (arith, length-drop d.head d.buffer)

-- What a run from a stream position has done: what it delivered comes first in the stream, and the
-- decoder stands behind it.
pub record Decoded (limit : ℕ) (ps : List (List ℕ)) (tail : List ℕ)
    (r : List (List ℕ) × FrameDecoder) : Type 0 where
  pub left : List (List ℕ)
  pub split : r.0 ++ left ≡ ps
  pub behind : InStream r.1 limit [] left tail

-- One call of `next`: it waits, or it delivers the first payload.
pub data Read (d : FrameDecoder) (limit : ℕ) (after tail : List ℕ) : List (List ℕ) → Type 0 where
  waits :
      {ps : List (List ℕ)}
      → next [] d ≡ (false, [], compact d)
      → InStream (compact d) limit after ps tail
      → (0 < length ps → length tail ≡ 0 → ⊥)
      → Read d limit after tail ps
  delivers :
      {p : List ℕ} {ps : List (List ℕ)}
      → next [] d ≡ (true, p, compact (taken p d))
      → InStream (compact (taken p d)) limit after ps tail
      → Read d limit after tail (p ∷ ps)

pub frame-Read :
    (d : FrameDecoder) (limit : ℕ) (after p : List ℕ) (ps : List (List ℕ)) (tail : List ℕ)
    → Fit limit (p ∷ ps)
    → InStream d limit after (p ∷ ps) tail
    → Read d limit after tail (p ∷ ps)
frame-Read d limit after p ps tail f s = elim (dec_lt (length (pending d)) (8 + length p)) [
  | yes short ↦ waits (next-waits a [] short) (InStream-compact s) (λ _ none_left. omega (
    arith,
    ap length s.ahead,
    length-append (pending d) tail,
    length-append (frame p) (frames after ps),
    length-frame p,
  ))
  | no long ↦
      let (onward, i) = pending-taken a (omega arith) in
      delivers (next-delivers a [] (omega arith)) (
        InStream-compact
          (record { in_buffer = i; sound = s.sound; same_limit = s.same_limit; ahead = onward }))
]
  where
    a : Aligned d p (frames after ps) tail
    a = record {
      in_buffer = s.in_buffer;
      frame_next = s.ahead;
      short = f.0;
      allowed = rw s.same_limit f.1;
      sound = s.sound;
    }

pub InStream-Read :
    (d : FrameDecoder) (limit : ℕ) (ps : List (List ℕ)) (tail : List ℕ)
    → Fit limit ps
    → InStream d limit [] ps tail
    → Read d limit [] tail ps
InStream-Read d limit [] tail f s =
    waits
      (next-empty [] d s.in_buffer s.sound
        (omega (arith, ap length s.ahead, length-append (pending d) tail)))
      (InStream-compact s) (λ h. absurd (omega arith))
InStream-Read d limit (p ∷ ps) tail f s = frame-Read d limit [] p ps tail f s

reads-Decoded :
    (es : List Event) {d : FrameDecoder} {limit : ℕ} {tail : List ℕ} {ps : List (List ℕ)}
    → Fit limit ps
    → Read d limit [] (fed es ++ tail) ps
    → ((d' : FrameDecoder) (ps' : List (List ℕ))
        → Fit limit ps'
        → InStream d' limit [] ps' (fed es ++ tail)
        → Decoded limit ps' tail (run es d'))
    → Decoded limit ps tail (run (reads ∷ es) d)
unfolding run
reads-Decoded es {d} f (waits e s _) rec = rw e (rec (compact d) _ f s)
reads-Decoded es {d} f (delivers {p} e s) rec =
    let r = rec (compact (taken p d)) _ f.2 s in
    rw e (record { left = r.left; split = ap (◌∷◌ p) r.split; behind = r.behind })

pub run-Decoded :
    (es : List Event) (d : FrameDecoder) (limit : ℕ) (ps : List (List ℕ)) (tail : List ℕ)
    → Fit limit ps
    → InStream d limit [] ps (fed es ++ tail)
    → Decoded limit ps tail (run es d)
unfolding run
run-Decoded [] d limit ps tail f s = record { left = ps; split = refl; behind = s }
run-Decoded (feeds bytes ∷ es) d limit ps tail f s =
    run-Decoded es (feed bytes d) limit ps tail f
      (InStream-feed bytes (fed es ++ tail) (rw (append_assoc bytes (fed es) tail) at s))
run-Decoded (reads ∷ es) d limit ps tail f s =
    reads-Decoded es f (InStream-Read d limit ps (fed es ++ tail) f s)
      (λ d' ps' f' s'. run-Decoded es d' limit ps' tail f' s')

pub InStream-new :
    (limit : ℕ) (after : List ℕ) (ps : List (List ℕ))
    → InStream (new limit) limit after ps (frames after ps)
unfolding new
InStream-new limit after ps = record {
  in_buffer = omega arith;
  sound = refl;
  same_limit = refl;
  ahead = refl;
}

-- After `reset`, a decoder is at the start of a new stream.
pub InStream-reset :
    (d : FrameDecoder) (ps : List (List ℕ))
    → InStream (reset d) d.max_frame_bytes [] ps (frames [] ps)
unfolding reset
InStream-reset d ps = record {
  in_buffer = omega arith;
  sound = refl;
  same_limit = refl;
  ahead = refl;
}
