-- ===== src/Base/Words.antt =====
-- Unsigned machine words: saturating arithmetic, truncating casts and little-endian bytes.
use Prim.Native.Nat.{ℕ, zero, suc, ◌+◌, ◌-◌, ◌*◌, ◌/◌, ◌%◌, ◌^◌, ◌≤◌, min}
use mathlib.Core.Path.{◌≡◌}
use mathlib.Core.List.{List, [], ◌∷◌}
use native.Mathlib.Omega.{arith}

abbrev pub u128_max : ℕ
u128_max = 2 ^ 128 - 1

abbrev pub u64_max : ℕ
u64_max = 2 ^ 64 - 1

abbrev pub u32_max : ℕ
u32_max = 2 ^ 32 - 1

-- `saturating_add` at a type whose greatest value is `m`; `saturating_sub` is `-`.
unfoldable pub sat_add : ℕ → ℕ → ℕ → ℕ
sat_add m a b = min (a + b) m

unfoldable pub sat_mul : ℕ → ℕ → ℕ → ℕ
sat_mul m a b = min (a * b) m

-- `to_le_bytes` of a word of `w` bytes.
unfoldable pub to_le_bytes : ℕ → ℕ → List ℕ
to_le_bytes zero n = []
to_le_bytes (suc w) n = (n % 256) ∷ to_le_bytes w (n / 256)

pub sat_add_exact : (m a b : ℕ) → a + b ≤ m → sat_add m a b ≡ a + b
unfolding sat_add
sat_add_exact m a b h = omega arith

pub sat_add_bounds : (m a b : ℕ) → (sat_add m a b ≤ a + b) × (sat_add m a b ≤ m)
unfolding sat_add
sat_add_bounds m a b = omega arith
