-- ===== src/Binary/RoundTrip.antt =====
-- What is written is read back.
use dorsvr.Common.{ℕ, ◌^◌, ◌<◌, ◌≡◌, ap, some, ◌>>>◌, arith}
use dorsvr.Common.Bits.{bit_and_low}
use dorsvr.Binary.{
  pad, padl, big_endian_uint16, big_endian_uint32, little_endian_uint32, uint16, uint32, le_uint32,
  put_uint16, put_uint24, put_uint32, le_put_uint32,
}

pub put_uint32-big_endian : (n : ℕ) → n < 2 ^ 32 → big_endian_uint32 (put_uint32 n) ≡ some n
unfolding big_endian_uint32 put_uint32
put_uint32-big_endian n lt = ap some (omega arith)

put_uint24-uint32 : (n : ℕ) → n < 2 ^ 24 → uint32 (put_uint24 n) ≡ some n
unfolding uint32 put_uint24 pad big_endian_uint32
put_uint24-uint32 n lt =
    rw (bit_and_low 8 (n >>> 16), bit_and_low 8 (n >>> 8), bit_and_low 8 (n >>> 0))
      (ap some (omega arith))

-- A number that fits its width is read back from the bytes written for it: 16 and 32 bits big-endian,
-- 32 bits little-endian, and the 24 bits of `PutUint24` by `Uint32`, which pads them to four bytes.
pub put_roundtrip :
    (n : ℕ)
    → (n < 2 ^ 16 → uint16 (put_uint16 n) ≡ some n)
      × (n < 2 ^ 24 → uint32 (put_uint24 n) ≡ some n)
      × (n < 2 ^ 32 → uint32 (put_uint32 n) ≡ some n)
      × (n < 2 ^ 32 → le_uint32 (le_put_uint32 n) ≡ some n)
unfolding uint16 uint32 le_uint32 put_uint16 put_uint32 le_put_uint32 pad padl big_endian_uint16
    big_endian_uint32 little_endian_uint32
put_roundtrip n = (
  λ lt. ap some (omega arith),
  put_uint24-uint32 n,
  λ lt. ap some (omega arith),
  λ lt. ap some (omega arith),
)
