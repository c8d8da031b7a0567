-- ===== src/Binary.antt =====
-- livemedia/binary.go: big-endian and little-endian numbers in byte slices, and the padding.
-- A byte is a number below 256; `none` is the panic of an index out of range or of a negative length.
pub mod RoundTrip
mod Tests
use dorsvr.Common.{
  ℕ, ◌+◌, ◌-◌, ◌*◌, ◌%◌, ◌^◌, List, [], ◌∷◌, ◌++◌, Option, none, some, length, replicate, leb,
  guard, ◌>>=◌, bit_and, ◌>>>◌,
}

-- `binary.BigEndian.Uint16`, `Uint32` and `binary.LittleEndian.Uint32` of the standard library.
unfoldable pub big_endian_uint16 : List ℕ → Option ℕ
big_endian_uint16 (a ∷ b ∷ _) = some (a * 2 ^ 8 + b)
big_endian_uint16 _ = none

unfoldable pub big_endian_uint32 : List ℕ → Option ℕ
big_endian_uint32 (a ∷ b ∷ c ∷ d ∷ _) = some (a * 2 ^ 24 + b * 2 ^ 16 + c * 2 ^ 8 + d)
big_endian_uint32 _ = none

unfoldable pub little_endian_uint32 : List ℕ → Option ℕ
little_endian_uint32 (a ∷ b ∷ c ∷ d ∷ _) = some (d * 2 ^ 24 + c * 2 ^ 16 + b * 2 ^ 8 + a)
little_endian_uint32 _ = none

-- `pad` and `padl`: `make` panics when the slice is longer than `n`.
unfoldable pub pad : List ℕ → ℕ → Option (List ℕ)
pad b n = guard (leb (length b) n) (some (replicate (n - length b) 0 ++ b))

unfoldable pub padl : List ℕ → ℕ → Option (List ℕ)
padl b n = guard (leb (length b) n) (some (b ++ replicate (n - length b) 0))

unfoldable pub uint16 : List ℕ → Option ℕ
unfolding pad big_endian_uint16
uint16 b = pad b 2 >>= big_endian_uint16

unfoldable pub uint32 : List ℕ → Option ℕ
unfolding pad big_endian_uint32
uint32 b = pad b 4 >>= big_endian_uint32

-- `LittleEndianUint32`
unfoldable pub le_uint32 : List ℕ → Option ℕ
unfolding padl little_endian_uint32
le_uint32 b = padl b 4 >>= little_endian_uint32

-- The bytes that `PutUint8` to `LittleEndianPutUint32` hand to the writer.
unfoldable pub put_uint8 : ℕ → List ℕ
put_uint8 n = n ∷ []

unfoldable pub put_uint16 : ℕ → List ℕ
put_uint16 n = (n >>> 8 % 2 ^ 8) ∷ (n % 2 ^ 8) ∷ []

unfoldable pub put_uint24 : ℕ → List ℕ
put_uint24 n = bit_and (n >>> 16) 0xff ∷ bit_and (n >>> 8) 0xff ∷ bit_and (n >>> 0) 0xff ∷ []

unfoldable pub put_uint32 : ℕ → List ℕ
put_uint32 n = (n >>> 24 % 2 ^ 8) ∷ (n >>> 16 % 2 ^ 8) ∷ (n >>> 8 % 2 ^ 8) ∷ (n % 2 ^ 8) ∷ []

-- `LittleEndianPutUint32`
unfoldable pub le_put_uint32 : ℕ → List ℕ
le_put_uint32 n = (n % 2 ^ 8) ∷ (n >>> 8 % 2 ^ 8) ∷ (n >>> 16 % 2 ^ 8) ∷ (n >>> 24 % 2 ^ 8) ∷ []
