-- ===== src/Framing/Damage.antt =====
-- One call of FrameDecoder::next where no acceptable frame begins.
-- (code/include/rdb/transport/framing.h)
use mw_study.Prelude.{
  ℕ, zero, suc, ◌+◌, ◌≤◌, ◌<◌, ◌≡◌, ◌≢◌, refl, ap, sym, ◌∙◌, ◌⊎◌, true, false, List, [], ◌∷◌, ◌++◌,
  length, take, drop, get_or, arith, length-drop, length-take, take-append-drop, append-cut_at,
}
use mw_study.Bytes.{get_u32, get_loop}
use mw_study.Framing.{FrameDecoder, next, frame_magic}
use mw_study.Framing.Stream.{pending}
use mw_study.Framing.Decode.{InStream}

-- Eight bytes that are not the start of a frame which a decoder with this limit accepts.
abbrev pub Corrupt : (limit : ℕ) → List ℕ → Type 0
Corrupt limit bad = (length bad ≡ 8) × ((get_u32 0 bad ≢ frame_magic) ⊎ (limit < get_u32 4 bad))

get_or-append : (xs ys : List ℕ) (i : ℕ) → i < length xs → get_or (xs ++ ys) i 0 ≡ get_or xs i 0
get_or-append [] ys i h = absurd (omega arith)
get_or-append (x ∷ xs) ys zero h = refl
get_or-append (x ∷ xs) ys (suc i) h = get_or-append xs ys i (omega arith)

get_or-inside :
    (pre bad rest : List ℕ) (at i : ℕ)
    → at ≡ length pre + i
    → i < length bad
    → get_or (pre ++ (bad ++ rest)) at 0 ≡ get_or bad i 0
get_or-inside [] bad rest at i e h =
    let same : at ≡ i = omega arith in rw same (get_or-append bad rest i h)
get_or-inside (x ∷ pre) bad rest zero i e h = absurd (omega arith)
get_or-inside (x ∷ pre) bad rest (suc at) i e h = get_or-inside pre bad rest at i (omega arith) h

-- `get_u32` reads four bytes and nothing around them.
get_u32-inside :
    (pre bad rest : List ℕ) (at i : ℕ)
    → at ≡ length pre + i
    → i + 4 ≤ length bad
    → get_u32 at (pre ++ (bad ++ rest)) ≡ get_u32 i bad
unfolding get_u32 get_loop
get_u32-inside pre bad rest at i e h =
    rw
      (
        get_or-inside pre bad rest (at + 0) (i + 0) (omega arith) (omega arith),
        get_or-inside pre bad rest (at + 1) (i + 1) (omega arith) (omega arith),
        get_or-inside pre bad rest (at + 2) (i + 2) (omega arith) (omega arith),
        get_or-inside pre bad rest (at + 3) (i + 3) (omega arith) (omega arith),
      )
      refl

-- A decoder in front of the damage, with `tail` still to come.
module _ (d : FrameDecoder) (limit : ℕ) (bad more tail : List ℕ) (c : Corrupt limit bad)
    (s : InStream d limit (bad ++ more) [] tail) (h : 8 ≤ length (pending d)) where
  buffer-split : d.buffer ≡ take d.head d.buffer ++ (bad ++ drop 8 (pending d))
  buffer-split =
      sym (take-append-drop d.head d.buffer)
      ∙ ap (◌++◌ (take d.head d.buffer)) (append-cut_at (pending d) tail bad more 8 s.ahead c.0 h).0

  read_inside : (i : ℕ) → i + 4 ≤ 8 → get_u32 (d.head + i) d.buffer ≡ get_u32 i bad
  read_inside i k =
      ap (get_u32 (d.head + i)) buffer-split
      ∙ get_u32-inside (take d.head d.buffer) bad (drop 8 (pending d)) (d.head + i) i
          (let inside = s.in_buffer in omega (arith, length-take d.head d.buffer))
          (let eight = c.0 in omega arith)

  pub next-fails : next [] d ≡ (false, [], record d { error = true })
  unfolding next
  next-fails =
      let clean = s.sound in
      let same = s.same_limit in
      let bad_start = c.1 in
      ground (
        arith,
        read_inside 0 (omega arith),
        read_inside 4 (omega arith),
        length-drop d.head d.buffer,
      )
