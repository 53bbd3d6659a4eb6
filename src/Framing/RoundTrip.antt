-- ===== src/Framing/RoundTrip.antt =====
-- A stream of frames is decoded to what was encoded, however it is cut into pieces.
-- (code/include/rdb/transport/framing.h)
use mw_study.Prelude.{
  ℕ, zero, suc, ◌≤◌, ◌≡◌, refl, ap, sym, ◌∙◌, false, List, [], ◌∷◌, ◌++◌, length, arith, append-nil,
  replicate, length-append,
}
use mw_study.Framing.{FrameDecoder, new, next, compact}
use mw_study.Framing.Next.{taken}
use mw_study.Framing.Decode.{
  Event, feeds, reads, fed, run, encode_all, frames, Fit, encode_all-frames, InStream, Decoded,
  Read, waits, delivers, InStream-Read, run-Decoded, InStream-new,
}

encoded : (limit : ℕ) (ps : List (List ℕ)) → Fit limit ps → encode_all ps [] ≡ frames [] ps
encoded limit ps f = sym (append-nil (encode_all ps [])) ∙ encode_all-frames limit [] ps [] f

-- Whatever part of a stream of frames has arrived, in whatever pieces, and whenever `next` is
-- called: what it delivered are the first payloads that were sent, in order and unchanged, and the
-- decoder is in no error state. (Each payload fits 32 bits of length and the decoder's limit.)
pub run-prefix :
    (limit : ℕ) (ps : List (List ℕ)) (es : List Event) (tail : List ℕ)
    → Fit limit ps
    → fed es ++ tail ≡ encode_all ps []
    → ((left : List (List ℕ)) × ((run es (new limit)).0 ++ left ≡ ps))
      × ((run es (new limit)).1.error ≡ false)
run-prefix limit ps es tail f e =
    let r =
      run-Decoded es (new limit) limit ps tail f
        (rw (← (e ∙ encoded limit ps f)) at (InStream-new limit [] ps)) in
    ((r.left, r.split), r.behind.sound)

pub run-append :
    (es es' : List Event) (d : FrameDecoder)
    → run (es ++ es') d ≡ ((run es d).0 ++ (run es' (run es d).1).0, (run es' (run es d).1).1)
unfolding run
run-append [] es' d = refl
run-append (feeds bytes ∷ es) es' d = run-append es es' _
run-append (reads ∷ es) es' d = ground (arith, run-append es es' (next [] d).2)

-- With nothing more to come, as many calls of `next` as there are frames deliver them all.
drained_by :
    (n : ℕ) {d : FrameDecoder} {limit : ℕ} {ps : List (List ℕ)}
    → Fit limit ps
    → length ps ≤ suc n
    → Read d limit [] [] ps
    → ((d' : FrameDecoder) (ps' : List (List ℕ))
        → Fit limit ps'
        → length ps' ≤ n
        → InStream d' limit [] ps' []
        → (run (replicate n reads) d').0 ≡ ps')
    → (run (replicate (suc n) reads) d).0 ≡ ps
unfolding run
drained_by n {d} {ps = []} f h (waits e s _) rec = rw e (rec (compact d) [] tt (omega arith) s)
drained_by n {ps = p ∷ ps} f h (waits e s stuck) rec = absurd (stuck (omega arith) (omega arith))
drained_by n {d} f h (delivers {p} {ps} e s) rec =
    rw e (ap (◌∷◌ p) (rec (compact (taken p d)) ps f.2 (omega arith) s))

drained :
    (n : ℕ) (d : FrameDecoder) (limit : ℕ) (ps : List (List ℕ))
    → Fit limit ps
    → length ps ≤ n
    → InStream d limit [] ps []
    → (run (replicate n reads) d).0 ≡ ps
drained zero d limit [] f h s = unfold run in refl
drained zero d limit (p ∷ ps) f h s = absurd (omega arith)
drained (suc n) d limit ps f h s =
    drained_by n f h (InStream-Read d limit ps [] f s)
      (λ d' ps' f' h' s'. drained n d' limit ps' f' h' s')

pub Fit-rest : (limit : ℕ) (ps qs : List (List ℕ)) → Fit limit (ps ++ qs) → Fit limit qs
Fit-rest limit [] qs f = f
Fit-rest limit (p ∷ ps) qs f = Fit-rest limit ps qs f.2

-- From the start of a stream on.
pub drained-InStream :
    (d : FrameDecoder) (limit : ℕ) (ps : List (List ℕ)) (es : List Event) (n : ℕ)
    → Fit limit ps
    → fed es ≡ encode_all ps []
    → length ps ≤ n
    → InStream d limit [] ps (frames [] ps)
    → (run (es ++ replicate n reads) d).0 ≡ ps
drained-InStream d limit ps es n f e h s =
    ap (λ r. r.0) (run-append es (replicate n reads) d)
    ∙ ap (◌++◌ (run es d).0) (
        drained n (run es d).1 limit r.left
          (Fit-rest limit (run es d).0 r.left (rw (← r.split) at f))
          (omega (arith, ap length r.split, length-append (run es d).0 r.left)) r.behind)
    ∙ r.split
  where
    r : Decoded limit ps [] (run es d)
    r = run-Decoded es d limit ps [] f (rw (← (append-nil (fed es) ∙ e ∙ encoded limit ps f)) at s)

-- Once the whole stream has arrived, in whatever pieces and with whatever calls of `next` between
-- them, as many further calls as there are payloads complete the delivery: all payloads, in order.
pub run-encode_all :
    (limit : ℕ) (ps : List (List ℕ)) (es : List Event) (n : ℕ)
    → Fit limit ps
    → fed es ≡ encode_all ps []
    → length ps ≤ n
    → (run (es ++ replicate n reads) (new limit)).0 ≡ ps
run-encode_all limit ps es n f e h =
    drained-InStream (new limit) limit ps es n f e h (InStream-new limit [] ps)
