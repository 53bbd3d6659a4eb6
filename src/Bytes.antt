-- ===== src/Bytes.antt =====
-- The little-endian byte loops of code/include/rdb/msg/header.h (namespace detail), which
-- code/include/rdb/transport/framing.h repeats. A `std::byte*` is a list with an offset into it;
-- a write out of range changes nothing and a read out of range gives 0 (both undefined in C++).
pub mod Layout
use mw_study.Prelude.{
  ℕ, zero, suc, ◌+◌, ◌*◌, ◌/◌, ◌%◌, ◌^◌, bit_and, bit_or, List, [], ◌∷◌, get_or, set, ◌<<<◌, ◌>>>◌,
  u16,
}

-- `static_cast<std::byte>((v >> (8 * i)) & 0xFFu)`
unfoldable pub byte_at : ℕ → ℕ → ℕ
byte_at v i = bit_and (v >>> (8 * i)) 0xff

-- `for (; i < i + rounds; ++i) out[i] = ...`
unfoldable pub put_loop : (rounds i offset v : ℕ) → List ℕ → List ℕ
put_loop zero i offset v out = out
put_loop (suc n) i offset v out = put_loop n (i + 1) offset v (set out (offset + i) (byte_at v i))

-- `v |= static_cast<T>(in[i]) << (8 * i)`, at `width` bits
unfoldable pub get_loop : (width rounds i offset : ℕ) → List ℕ → ℕ → ℕ
get_loop width zero i offset bytes v = v
get_loop width (suc n) i offset bytes v =
    get_loop width n (i + 1) offset bytes
      (bit_or v ((get_or bytes (offset + i) 0 <<< (8 * i)) % 2 ^ width))

unfoldable pub put_u16 : (offset v : ℕ) → List ℕ → List ℕ
put_u16 offset v out = set (set out offset (bit_and v 0xff)) (offset + 1) (bit_and (v >>> 8) 0xff)

unfoldable pub put_u32 : (offset v : ℕ) → List ℕ → List ℕ
unfolding put_loop
put_u32 offset v out = put_loop 4 0 offset v out

unfoldable pub put_u64 : (offset v : ℕ) → List ℕ → List ℕ
unfolding put_loop
put_u64 offset v out = put_loop 8 0 offset v out

unfoldable pub get_u16 : (offset : ℕ) → List ℕ → ℕ
get_u16 offset bytes =
    u16 (bit_or (get_or bytes offset 0) (u16 (get_or bytes (offset + 1) 0 <<< 8)))

unfoldable pub get_u32 : (offset : ℕ) → List ℕ → ℕ
unfolding get_loop
get_u32 offset bytes = get_loop 32 4 0 offset bytes 0

unfoldable pub get_u64 : (offset : ℕ) → List ℕ → ℕ
unfolding get_loop
get_u64 offset bytes = get_loop 64 8 0 offset bytes 0
