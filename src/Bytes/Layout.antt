-- ===== src/Bytes/Layout.antt =====
-- What the byte loops of code/include/rdb/msg/header.h write and read: the little-endian digits.
use mw_study.Prelude.{
  ℕ, zero, suc, ◌+◌, ◌*◌, ◌/◌, ◌%◌, ◌^◌, ◌≤◌, ◌<◌, ◌≡◌, refl, ap, bit_or, List, [], ◌∷◌, ◌++◌,
  append_assoc, arith, get_or, take, drop, length-take, length, length-append, get_or-append_at,
  set-append_at, u16, sym, ◌∙◌,
}
use mw_study.Prelude.Bits.{bit_or_shifted, bit_and_mask}
use native.Mathlib.Numerals.{towards_suc}
use native.Mathlib.Nat.{
  le_trans, mul_comm, add-zero, div-one, one-le-pow, pow-le-pow_right, mod-lt, mod-eq_of_lt,
  div-div-eq-div-mul, div-add-mod',
}
use mw_study.Bytes.{
  byte_at, put_loop, get_loop, put_u16, put_u32, put_u64, get_u16, get_u32, get_u64,
}

-- The bytes `i`, `i + 1`, ... of `v`.
unfoldable pub digits_from : (rounds i v : ℕ) → List ℕ
digits_from zero i v = []
digits_from (suc n) i v = byte_at v i ∷ digits_from n (i + 1) v

-- An unsigned number of `n` bytes, the lowest first.
abbrev pub little_endian : (n v : ℕ) → List ℕ
little_endian n v = digits_from n 0 v

pub length-digits_from : (n i v : ℕ) → length (digits_from n i v) ≡ n
unfolding digits_from
length-digits_from zero i v = refl
length-digits_from (suc n) i v = ap suc (length-digits_from n (i + 1) v)

byte_at_lem : (v i : ℕ) → byte_at v i ≡ v / 2 ^ (8 * i) % 256
unfolding byte_at
byte_at_lem v i = bit_and_mask 8 (v / 2 ^ (8 * i))

put_loop-append :
    (n i offset v : ℕ) (pre xs : List ℕ)
    → offset + i ≡ length pre
    → n ≤ length xs
    → put_loop n i offset v (pre ++ xs) ≡ pre ++ (digits_from n i v ++ drop n xs)
unfolding put_loop digits_from
put_loop-append zero i offset v pre xs e h = refl
put_loop-append (suc n) i offset v pre [] e h = absurd (omega arith)
put_loop-append (suc n) i offset v pre (x ∷ xs) e h =
    ap (put_loop n (i + 1) offset v)
      (set-append_at pre xs x (byte_at v i) e ∙ sym (append_assoc pre (byte_at v i ∷ []) xs))
    ∙ put_loop-append n (i + 1) offset v (pre ++ (byte_at v i ∷ [])) xs
        (omega (arith, length-append pre (byte_at v i ∷ []))) (omega arith)
    ∙ append_assoc pre (byte_at v i ∷ []) (digits_from n (i + 1) v ++ drop n xs)

mod_digit : (v m : ℕ) → v % m + v / m % 256 * m ≡ v % (m * 256)
mod_digit v m = omega (
  arith,
  div-add-mod' v m,
  div-add-mod' v (m * 256),
  ap (λ (t : ℕ). t * m) (div-add-mod' (v / m) 256),
  ap (λ (t : ℕ). t * (m * 256)) (div-div-eq-div-mul v m 256),
)

pow_eight : (s : ℕ) → 2 ^ (s + 8) ≡ 2 ^ s * 256
pow_eight s = simp towards_suc (omega arith)

pow_byte : (i : ℕ) → 2 ^ (8 * (i + 1)) ≡ 2 ^ (8 * i) * 256
pow_byte i = let e : 8 * (i + 1) ≡ 8 * i + 8 = omega arith in rw e (pow_eight (8 * i))

-- One more digit of `v` on top of the lower ones.
digit_step : (v i : ℕ) → v % 2 ^ (8 * i) + byte_at v i * 2 ^ (8 * i) ≡ v % 2 ^ (8 * (i + 1))
digit_step v i = rw (byte_at_lem, pow_byte) (mod_digit v (2 ^ (8 * i)))

-- The shifted byte fits the word, so the cast before the shift loses nothing.
or_step :
    (width v i : ℕ)
    → 8 * (i + 1) ≤ width
    → bit_or (v % 2 ^ (8 * i)) ((byte_at v i * 2 ^ (8 * i)) % 2 ^ width) ≡ v % 2 ^ (8 * (i + 1))
or_step width v i h =
    rw (mod-eq_of_lt fits, bit_or_shifted (8 * i) (v % m) (byte_at v i) below) (digit_step v i)
  where
    m : ℕ
    m = 2 ^ (8 * i)

    below : v % m < m
    below = mod-lt v (one-le-pow (8 * i) 2 (omega arith))

    wide : m * 256 ≤ 2 ^ width
    wide = rw pow_byte at (pow-le-pow_right {n = 2} (omega arith) h)

    fits : byte_at v i * m < 2 ^ width
    fits = rw byte_at_lem (
        let b : v / m % 256 ≤ 255 = omega arith in
        grind (arith, one-le-pow (8 * i) 2 (omega arith), wide, b))

get_loop-append :
    (width n i offset v : ℕ) (pre xs : List ℕ)
    → offset + i ≡ length pre
    → 8 * (i + n) ≤ width
    → get_loop width n i offset (pre ++ (digits_from n i v ++ xs)) (v % 2 ^ (8 * i))
      ≡ v % 2 ^ (8 * (i + n))
unfolding get_loop digits_from
get_loop-append width zero i offset v pre xs e h = ap (λ k. v % 2 ^ (8 * k)) (omega arith)
get_loop-append width (suc n) i offset v pre xs e h =
    ap (get_loop width n (i + 1) offset (pre ++ (b ∷ ys))) step
    ∙ ap (λ bytes. get_loop width n (i + 1) offset bytes (v % 2 ^ (8 * (i + 1))))
        (sym (append_assoc pre (b ∷ []) ys))
    ∙ get_loop-append width n (i + 1) offset v (pre ++ (b ∷ [])) xs
        (omega (arith, length-append pre (b ∷ []))) (omega arith)
    ∙ ap (λ k. v % 2 ^ (8 * k)) (omega arith)
  where
    b : ℕ
    b = byte_at v i

    ys : List ℕ
    ys = digits_from n (i + 1) v ++ xs

    step :
        bit_or
          (v % 2 ^ (8 * i))
          ((get_or (pre ++ (b ∷ ys)) (offset + i) 0 * 2 ^ (8 * i)) % 2 ^ width)
        ≡ v % 2 ^ (8 * (i + 1))
    step = rw (get_or-append_at pre ys b 0 e) (or_step width v i (omega arith))

put_u16-loop : (offset v : ℕ) (out : List ℕ) → put_u16 offset v out ≡ put_loop 2 0 offset v out
unfolding put_u16 put_loop byte_at
put_u16-loop offset v out = rw (add-zero, div-one) refl

-- A loop from 0 reads a number that fits.
get_loop_fits :
    (width n offset v : ℕ) (pre xs : List ℕ)
    → offset ≡ length pre
    → 8 * n ≤ width
    → v < 2 ^ (8 * n)
    → get_loop width n 0 offset (pre ++ (little_endian n v ++ xs)) 0 ≡ v
get_loop_fits width n offset v pre xs e h fits =
    ap (get_loop width n 0 offset (pre ++ (little_endian n v ++ xs))) nothing
    ∙ get_loop-append width n 0 offset v pre xs (omega arith) (omega arith)
    ∙ whole
  where
    nothing : 0 ≡ v % 2 ^ (8 * 0)
    nothing = omega arith

    whole : v % 2 ^ (8 * (0 + n)) ≡ v
    whole = let e : 0 + n ≡ n = omega arith in rw e (mod-eq_of_lt fits)

u16_of_bytes : (v : ℕ) → v < 2 ^ 16 → u16 (bit_or (byte_at v 0) (u16 (byte_at v 1 * 2 ^ 8))) ≡ v
u16_of_bytes v h =
    ground (arith, byte_at_lem v 0, byte_at_lem v 1, bit_or_shifted 8 (byte_at v 0) (byte_at v 1))

-- The getters and putters at the end of a prefix whose length is the offset.
module _ (offset v : ℕ) (pre xs : List ℕ) (e : offset ≡ length pre) where
  pub put_u16-append :
      2 ≤ length xs → put_u16 offset v (pre ++ xs) ≡ pre ++ (little_endian 2 v ++ drop 2 xs)
  unfolding put_u16
  put_u16-append h =
      put_u16-loop offset v (pre ++ xs) ∙ put_loop-append 2 0 offset v pre xs (omega arith) h

  pub put_u32-append :
      4 ≤ length xs → put_u32 offset v (pre ++ xs) ≡ pre ++ (little_endian 4 v ++ drop 4 xs)
  unfolding put_u32
  put_u32-append h = put_loop-append 4 0 offset v pre xs (omega arith) h

  pub put_u64-append :
      8 ≤ length xs → put_u64 offset v (pre ++ xs) ≡ pre ++ (little_endian 8 v ++ drop 8 xs)
  unfolding put_u64
  put_u64-append h = put_loop-append 8 0 offset v pre xs (omega arith) h

  pub get_u16-append : v < 2 ^ 16 → get_u16 offset (pre ++ (little_endian 2 v ++ xs)) ≡ v
  unfolding get_u16 digits_from
  get_u16-append h =
      rw
        (
          get_or-append_at pre (b ∷ xs) a 0 e,
          ← append_assoc pre (a ∷ []) (b ∷ xs),
          get_or-append_at (pre ++ (a ∷ [])) xs b 0 {i = offset + 1}
              (omega (arith, length-append pre (a ∷ []))),
        )
        (u16_of_bytes v h)
    where
      a : ℕ
      a = byte_at v 0

      b : ℕ
      b = byte_at v 1

  pub get_u32-append : v < 2 ^ 32 → get_u32 offset (pre ++ (little_endian 4 v ++ xs)) ≡ v
  unfolding get_u32
  get_u32-append h = get_loop_fits 32 4 offset v pre xs e (omega arith) h

  pub get_u64-append : v < 2 ^ 64 → get_u64 offset (pre ++ (little_endian 8 v ++ xs)) ≡ v
  unfolding get_u64
  get_u64-append h = get_loop_fits 64 8 offset v pre xs e (omega arith) h

-- Every list of bytes is the little-endian form of a number.
abbrev pub AreBytes : List ℕ → Type 0
AreBytes [] = Unit
AreBytes (b ∷ bs) = (b < 256) × AreBytes bs

unfoldable pub value_of : List ℕ → ℕ
value_of [] = 0
value_of (b ∷ bs) = b + 256 * value_of bs

byte_at-shift : (b v i : ℕ) → b < 256 → byte_at (b + 256 * v) (i + 1) ≡ byte_at v i
byte_at-shift b v i h =
    rw (byte_at_lem, byte_at_lem, pow_byte)
      (ap (λ t. t % 256)
        (ap (λ t. (b + 256 * v) / t) (mul_comm (2 ^ (8 * i)) 256)
          ∙ sym (div-div-eq-div-mul (b + 256 * v) 256 (2 ^ (8 * i)))
          ∙ ap (λ t. t / 2 ^ (8 * i)) low))
  where
    low : (b + 256 * v) / 256 ≡ v
    low = omega arith

digits_from-shift :
    (n i b v : ℕ) → b < 256 → digits_from n (i + 1) (b + 256 * v) ≡ digits_from n i v
unfolding digits_from
digits_from-shift zero i b v h = refl
digits_from-shift (suc n) i b v h =
    ap (λ t. t ∷ digits_from n (i + 1 + 1) (b + 256 * v)) (byte_at-shift b v i h)
    ∙ ap (◌∷◌ (byte_at v i)) (digits_from-shift n (i + 1) b v h)

little_endian-value_of : (bs : List ℕ) → AreBytes bs → little_endian (length bs) (value_of bs) ≡ bs
unfolding digits_from value_of
little_endian-value_of [] h = refl
little_endian-value_of (b ∷ bs) (hb, hs) =
    ap (λ t. t ∷ digits_from (length bs) 1 (b + 256 * value_of bs))
      (omega (arith, byte_at_lem (b + 256 * value_of bs) 0))
    ∙ ap (◌∷◌ b) (digits_from-shift (length bs) 0 b (value_of bs) hb ∙ little_endian-value_of bs hs)

value_of-lt : (bs : List ℕ) → AreBytes bs → value_of bs < 2 ^ (8 * length bs)
unfolding value_of
value_of-lt [] h = omega arith
value_of-lt (b ∷ bs) (hb, hs) =
    let e : 8 * suc (length bs) ≡ 8 * (length bs + 1) = omega arith in
    rw (e, pow_byte) (omega (arith, value_of-lt bs hs))

AreBytes-take : (n : ℕ) (bs : List ℕ) → AreBytes bs → AreBytes (take n bs)
AreBytes-take zero bs h = tt
AreBytes-take (suc n) [] h = tt
AreBytes-take (suc n) (b ∷ bs) (hb, hs) = (hb, AreBytes-take n bs hs)

pub AreBytes-drop : (n : ℕ) (bs : List ℕ) → AreBytes bs → AreBytes (drop n bs)
AreBytes-drop zero bs h = h
AreBytes-drop (suc n) [] h = tt
AreBytes-drop (suc n) (b ∷ bs) (hb, hs) = AreBytes-drop n bs hs

pub little_endian-take :
    (n : ℕ) (bs : List ℕ)
    → AreBytes bs
    → n ≤ length bs
    → little_endian n (value_of (take n bs)) ≡ take n bs
little_endian-take n bs h e =
    ap (λ k. little_endian k (value_of (take n bs))) (omega (arith, length-take n bs))
    ∙ little_endian-value_of (take n bs) (AreBytes-take n bs h)

pub value_of-take-lt : (n : ℕ) (bs : List ℕ) → AreBytes bs → value_of (take n bs) < 2 ^ (8 * n)
value_of-take-lt n bs h =
    le_trans (value_of-lt (take n bs) (AreBytes-take n bs h))
      (pow-le-pow_right {n = 2} (omega arith) (omega (arith, length-take n bs)))
