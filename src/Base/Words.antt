-- ===== src/Base/Words.antt =====
-- Numbers of several bytes in big-endian order.
use Prim.Native.Nat.{ℕ, ◌+◌, ◌-◌, ◌*◌, ◌/◌, ◌%◌, ◌^◌, ◌<◌}
use mathlib.Core.Path.{◌≡◌}
use mathlib.Core.List.{List, [], ◌∷◌}
use native.Mathlib.Omega.{arith}

-- `unsigned long`, which wraps at 2^32.
abbrev pub u32 : ℕ → ℕ
u32 n = n % 2 ^ 32

abbrev pub sub32 : ℕ → ℕ → ℕ
sub32 a b = (a + 2 ^ 32 - b) % 2 ^ 32

-- `static_cast<unsigned char>(n >> k)`
abbrev pub byte_of : ℕ → ℕ → ℕ
byte_of n k = n / 2 ^ k % 2 ^ 8

abbrev pub be32 : ℕ → List ℕ
be32 n = byte_of n 24 ∷ byte_of n 16 ∷ byte_of n 8 ∷ byte_of n 0 ∷ []

pub be32_value :
    (n : ℕ)
    → n < 2 ^ 32
    → ((byte_of n 24 * 2 ^ 8 + byte_of n 16) * 2 ^ 8 + byte_of n 8) * 2 ^ 8 + byte_of n 0 ≡ n
be32_value n h = omega arith
