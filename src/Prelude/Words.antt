-- ===== src/Prelude/Words.antt =====
-- Unsigned machine integers as native numbers, with their wrap-around.
use Prim.Native.Nat.{ℕ, ◌+◌, ◌-◌, ◌*◌, ◌/◌, ◌%◌, ◌^◌, ◌<◌, ◌≤◌}
use mathlib.Core.Path.{◌≡◌}
use native.Mathlib.Omega.{arith}

abbrev pub u64_mod : ℕ
u64_mod = 2 ^ 64

-- uint64_t and size_t `a + b`, `a - b`.
abbrev pub add64 : ℕ → ℕ → ℕ
add64 a b = (a + b) % 2 ^ 64

abbrev pub sub64 : ℕ → ℕ → ℕ
sub64 a b = (a + 2 ^ 64 - b % 2 ^ 64) % 2 ^ 64

pub add64_assoc : (a b c : ℕ) → add64 (add64 a b) c ≡ add64 a (add64 b c)
add64_assoc a b c = omega arith

pub sub64_of_le : (a b : ℕ) → b ≤ a → a < 2 ^ 64 → sub64 a b ≡ a - b
sub64_of_le a b h k = omega arith

-- High32, Low32 and Make64
abbrev pub high32 : ℕ → ℕ
high32 u = u / 2 ^ 32 % 2 ^ 32

abbrev pub low32 : ℕ → ℕ
low32 u = u % 2 ^ 32

abbrev pub make64 : ℕ → ℕ → ℕ
make64 h l = (h * 2 ^ 32 + l) % 2 ^ 64

pub high32-make64 : (h l : ℕ) → h < 2 ^ 32 → l < 2 ^ 32 → high32 (make64 h l) ≡ h
high32-make64 h l j k = omega (arith, j, k)

pub low32-make64 : (h l : ℕ) → h < 2 ^ 32 → l < 2 ^ 32 → low32 (make64 h l) ≡ l
low32-make64 h l j k = omega (arith, j, k)
