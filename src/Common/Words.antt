-- ===== src/Common/Words.antt =====
-- Machine words as numbers: Go's `uint` on amd64 has 64 bits, and its arithmetic wraps.
use Prim.Native.Nat.{ℕ, ◌+◌, ◌-◌, ◌*◌, ◌/◌, ◌%◌, ◌^◌}

abbrev pub word : ℕ
word = 2 ^ 64

abbrev pub u8 : ℕ → ℕ
u8 n = n % 2 ^ 8

abbrev pub u16 : ℕ → ℕ
u16 n = n % 2 ^ 16

abbrev pub u32 : ℕ → ℕ
u32 n = n % 2 ^ 32

-- `uint` addition, subtraction and multiplication.
infixl 65 ◌+u◌ ◌-u◌
infixl 70 ◌*u◌
abbrev pub ◌+u◌ : ℕ → ℕ → ℕ
a +u b = (a + b) % 2 ^ 64

abbrev pub ◌-u◌ : ℕ → ℕ → ℕ
a -u b = (a + 2 ^ 64 - b) % 2 ^ 64

abbrev pub ◌*u◌ : ℕ → ℕ → ℕ
a *u b = a * b % 2 ^ 64

-- `uint32` addition and subtraction.
infixl 65 ◌+w◌ ◌-w◌
abbrev pub ◌+w◌ : ℕ → ℕ → ℕ
a +w b = (a + b) % 2 ^ 32

abbrev pub ◌-w◌ : ℕ → ℕ → ℕ
a -w b = (a + 2 ^ 32 - b) % 2 ^ 32

-- `x <<< k` before the cut to the width, and `x >>> k`.
infixl 75 ◌<<<◌ ◌>>>◌
abbrev pub ◌<<<◌ : ℕ → ℕ → ℕ
x <<< k = x * 2 ^ k

abbrev pub ◌>>>◌ : ℕ → ℕ → ℕ
x >>> k = x / 2 ^ k
