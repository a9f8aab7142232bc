-- ===== src/Common/Words.antt =====
-- Machine words as natural numbers.
use Prim.Native.Nat.{ℕ, ◌+◌, ◌-◌, ◌*◌, ◌/◌, ◌%◌, ◌^◌, ◌<◌}
use mathlib.Core.Bool.{Bool, ◌&&◌}
use mathlib.Core.List.{List, [], ◌∷◌}
use safe_transmission.Common.Tests.{ltb, if◌then◌else◌}

abbrev pub IsByte : ℕ → Type 0
IsByte b = b < 256

-- An `unsigned long` has 64 bits.
abbrev pub u64 : ℕ → ℕ
u64 n = n % 2 ^ 64

-- An `int` is kept as its 32-bit pattern: this is `(int)n`.
abbrev pub to_int : ℕ → ℕ
to_int n = n % 2 ^ 32

-- `0 < n`, for an `int`.
abbrev pub is_positive : ℕ → Bool
is_positive n = ltb 0 n && ltb n (2 ^ 31)

-- `(unsigned long)n` for an `int`: the sign is extended.
abbrev pub int_to_ulong : ℕ → ℕ
int_to_ulong n = if ltb n (2 ^ 31) then n else n + (2 ^ 64 - 2 ^ 32)

-- The `int` -1.
abbrev pub minus_one : ℕ
minus_one = 0xFFFF_FFFF

-- An `int` in memory, the lowest byte first.
abbrev pub int_of : List ℕ → ℕ
int_of (a ∷ b ∷ c ∷ d ∷ []) = a + b * 256 + c * 65536 + d * 16777216
int_of _ = 0

-- The bytes of an `int` in memory.
abbrev pub int_bytes : ℕ → List ℕ
int_bytes n = n % 256 ∷ n / 256 % 256 ∷ n / 65536 % 256 ∷ n / 16777216 % 256 ∷ []
