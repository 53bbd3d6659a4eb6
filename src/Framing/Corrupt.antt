-- ===== src/Framing/Corrupt.antt =====
-- A FrameDecoder on a stream that is damaged behind some frame, and after `reset`.
-- (code/include/rdb/transport/framing.h)
use mw_study.Prelude.{
  ℕ, zero, suc, ◌≤◌, ◌<◌, ◌≡◌, refl, ap, sym, ◌∙◌, ◌⊎◌, inl, inr, true, false, List, [], ◌∷◌, ◌++◌,
  length, arith, append_assoc, append-nil, replicate, length-append,
}
use native.Mathlib.Decide.{dec_lt}
use mw_study.Framing.{FrameDecoder, new, next, feed, compact, reset}
use mw_study.Framing.Stream.{pending}
use mw_study.Framing.Next.{taken}
use mw_study.Framing.Decode.{
  Event, feeds, reads, fed, run, encode_all, Fit, encode_all-frames, InStream, Read, waits,
  delivers, frame-Read, next-empty, InStream-feed, InStream-compact, InStream-new, InStream-reset,
}
use mw_study.Framing.RoundTrip.{run-append, drained-InStream, Fit-rest}
use mw_study.Framing.Buffer.{run-error}
use mw_study.Framing.Damage.{Corrupt, next-fails}

-- What a run has done on a stream that is damaged behind `ps`: it stands in front of some of them,
-- or has delivered them all and failed.
record Contained (limit : ℕ) (after : List ℕ) (ps : List (List ℕ)) (tail : List ℕ)
    (r : List (List ℕ) × FrameDecoder) : Type 0 where
  left : List (List ℕ)
  split : r.0 ++ left ≡ ps
  same_limit : r.1.max_frame_bytes ≡ limit
  state : InStream r.1 limit after left tail ⊎ ((left ≡ []) × (r.1.error ≡ true))

module _ (limit : ℕ) (bad more : List ℕ) (c : Corrupt limit bad) where
  after : List ℕ
  after = bad ++ more

  failed_run :
      (es : List Event) (d : FrameDecoder)
      → d.max_frame_bytes ≡ limit
      → next [] d ≡ (false, [], record d { error = true })
      → run (reads ∷ es) d ≡ ([], record d { error = true })
  unfolding run
  failed_run es d m e = rw (e, run-error es (record d { error = true }) refl) refl

  -- A call of `next` in front of the damage.
  damage-Contained :
      (es : List Event) (d : FrameDecoder) (tail : List ℕ)
      → InStream d limit after [] (fed es ++ tail)
      → ((d' : FrameDecoder)
          → InStream d' limit after [] (fed es ++ tail)
          → Contained limit after [] tail (run es d'))
      → Contained limit after [] tail (run (reads ∷ es) d)
  unfolding after
  damage-Contained es d tail s rec = elim (dec_lt (length (pending d)) 8) [
    | yes short ↦
        unfold run in
        rw (next-empty [] d s.in_buffer s.sound short) (rec (compact d) (InStream-compact s))
    | no long ↦
        rw
          (failed_run es d s.same_limit
            (next-fails d limit bad more (fed es ++ tail) c s (omega arith)))
          (record { left = []; split = refl; same_limit = s.same_limit; state = inr (refl, refl) })
  ]

  reads-Contained :
      (es : List Event) {d : FrameDecoder} {tail : List ℕ} {ps : List (List ℕ)}
      → Fit limit ps
      → Read d limit after (fed es ++ tail) ps
      → ((d' : FrameDecoder) (ps' : List (List ℕ))
          → Fit limit ps'
          → InStream d' limit after ps' (fed es ++ tail)
          → Contained limit after ps' tail (run es d'))
      → Contained limit after ps tail (run (reads ∷ es) d)
  unfolding run
  reads-Contained es {d} f (waits e s _) rec = rw e (rec (compact d) _ f s)
  reads-Contained es {d} f (delivers {p} e s) rec =
      let r = rec (compact (taken p d)) _ f.2 s in
      rw e (record {
        left = r.left;
        split = ap (◌∷◌ p) r.split;
        same_limit = r.same_limit;
        state = r.state;
      })

  run-Contained :
      (es : List Event) (d : FrameDecoder) (ps : List (List ℕ)) (tail : List ℕ)
      → Fit limit ps
      → InStream d limit after ps (fed es ++ tail)
      → Contained limit after ps tail (run es d)
  unfolding run
  run-Contained [] d ps tail f s = record {
    left = ps;
    split = refl;
    same_limit = s.same_limit;
    state = inl s;
  }
  run-Contained (feeds bytes ∷ es) d ps tail f s =
      run-Contained es (feed bytes d) ps tail f
        (InStream-feed bytes (fed es ++ tail) (rw (append_assoc bytes (fed es) tail) at s))
  run-Contained (reads ∷ es) d [] tail f s =
      damage-Contained es d tail s (λ d' s'. run-Contained es d' [] tail f s')
  run-Contained (reads ∷ es) d (p ∷ ps) tail f s =
      reads-Contained es f (frame-Read d limit after p ps (fed es ++ tail) f s)
        (λ d' ps' f' s'. run-Contained es d' ps' tail f' s')

  -- With nothing more to come, one more call of `next` than there are frames meets the damage.
  abbrev Drained : List (List ℕ) → List (List ℕ) × FrameDecoder → Type 0
  Drained ps r = (r.0 ≡ ps) × (r.1.error ≡ true) × (r.1.max_frame_bytes ≡ limit)

  delivers_run :
      (es : List Event) (d : FrameDecoder) {p : List ℕ} {d' : FrameDecoder}
      → next [] d ≡ (true, p, d')
      → run (reads ∷ es) d ≡ (p ∷ (run es d').0, (run es d').1)
  unfolding run
  delivers_run es d e = rw e refl

  delivers-Drained :
      (n : ℕ) {d : FrameDecoder} {ps : List (List ℕ)}
      → Fit limit ps
      → length ps ≤ n
      → Read d limit after [] ps
      → 0 < length ps
      → ((d' : FrameDecoder) (ps' : List (List ℕ))
          → Fit limit ps'
          → length ps' < n
          → InStream d' limit after ps' []
          → Drained ps' (run (replicate n reads) d'))
      → Drained ps (run (replicate (suc n) reads) d)
  delivers-Drained n f h (waits e s stuck) k rec = absurd (stuck k (omega arith))
  delivers-Drained n {d} f h (delivers {p} {ps} e s) k rec =
      let r = rec (compact (taken p d)) ps f.2 (omega arith) s in
      rw (delivers_run (replicate n reads) d e) (ap (◌∷◌ p) r.0, r.1, r.2)

  replicate-Drained :
      (n : ℕ) (d : FrameDecoder) (ps : List (List ℕ))
      → Fit limit ps
      → length ps < n
      → InStream d limit after ps []
      → Drained ps (run (replicate n reads) d)
  replicate-Drained zero d ps f h s = absurd (omega arith)
  replicate-Drained (suc n) d [] f h s =
      unfold after in
      rw
        (failed_run (replicate n reads) d s.same_limit (
          next-fails d limit bad more [] c s (
            let eight = c.0 in
            omega
              (arith, ap length s.ahead, length-append (pending d) [], length-append bad more))))
        (refl, refl, s.same_limit)
  replicate-Drained (suc n) d (p ∷ ps) f h s =
      delivers-Drained n f (omega arith) (frame-Read d limit after p ps [] f s) (omega arith)
        (λ d' ps' f' h' s'. replicate-Drained n d' ps' f' h' s')

  -- What was delivered before, and the rest of the calls.
  arrived-Drained :
      (n : ℕ) {ps : List (List ℕ)} {r : List (List ℕ) × FrameDecoder}
      → Fit limit ps
      → length ps < n
      → Contained limit after ps [] r
      → Drained ps (r.0 ++ (run (replicate n reads) r.1).0, (run (replicate n reads) r.1).1)
  arrived-Drained n {ps} {r} f h k = elim k.state [
    | inl s ↦
        let (out, failed, same) =
          replicate-Drained n r.1 k.left (Fit-rest limit r.0 k.left (rw (← k.split) at f))
            (omega (arith, ap length k.split, length-append r.0 k.left)) s in
        (ap (◌++◌ r.0) out ∙ k.split, failed, same)
    | inr (over, failed) ↦
        rw (run-error (replicate n reads) r.1 failed)
          (ap (◌++◌ r.0) (sym over) ∙ k.split, failed, k.same_limit)
  ]

  corrupted-Drained :
      (ps : List (List ℕ)) (es : List Event) (n : ℕ)
      → Fit limit ps
      → fed es ≡ encode_all ps [] ++ after
      → length ps < n
      → Drained ps (run (es ++ replicate n reads) (new limit))
  corrupted-Drained ps es n f e h = rw (run-append es (replicate n reads) (new limit)) (
      arrived-Drained n f h (
        run-Contained es (new limit) ps [] f (
          rw (← (append-nil (fed es) ∙ e ∙ encode_all-frames limit after ps [] f)) at
            (InStream-new limit after ps))))

-- Fed frames and then eight bytes that begin no acceptable frame, with anything behind them, in any
-- pieces and with any calls of `next` between them: with one more call of `next` than there are
-- frames, the payloads in front of the damage are delivered, in order and unchanged, nothing behind
-- it is, and the decoder is in its error state. It then stays as it is, whatever is fed and however
-- often `next` is called; and after `reset` it decodes a new stream in full. (Each payload fits 32
-- bits of length and the decoder's limit.)
pub run-corrupted :
    (limit : ℕ) (ps : List (List ℕ)) (bad more : List ℕ) (es : List Event) (n : ℕ)
    (later : List Event) (qs : List (List ℕ)) (es' : List Event) (m : ℕ)
    → Fit limit ps
    → Corrupt limit bad
    → fed es ≡ encode_all ps [] ++ (bad ++ more)
    → length ps < n
    → Fit limit qs
    → fed es' ≡ encode_all qs []
    → length qs ≤ m
    → let d = (run (es ++ replicate n reads) (new limit)).1 in
      ((run (es ++ replicate n reads) (new limit)).0 ≡ ps)
      × (d.error ≡ true)
      × (run later d ≡ ([], d))
      × ((run (es' ++ replicate m reads) (reset d)).0 ≡ qs)
run-corrupted limit ps bad more es n later qs es' m f c e h g e' h' =
    let d = (run (es ++ replicate n reads) (new limit)).1 in
    let (out, failed, same) = corrupted-Drained limit bad more c ps es n f (unfold after in e) h in
    (
      out,
      failed,
      run-error later d failed,
      drained-InStream (reset d) limit qs es' m g e' h' (rw same at (InStream-reset d qs)),
    )
