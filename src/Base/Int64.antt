-- ===== src/Base/Int64.antt =====
-- Go's 64-bit integers (`int64`, and `int` on the 64-bit targets): an integer in range, and
-- arithmetic that wraps around.
use Prim.Native.Nat.{ℕ, ◌+◌, ◌-◌, ◌%◌, ◌≤◌, ◌<◌}
use mathlib.Core.Path.{◌≡◌, sym, ap, ◌∙◌}
use native.Mathlib.Omega.{arith}
use adquirente.Base.Tests.{ltb, if◌then◌else◌}
use adquirente.Base.Int.{ℤ, pos, negsuc, pos_part, neg_part, ◌+ℤ◌, ◌-ℤ◌, ◌*ℤ◌, +ℤ_parts, -ℤ_parts}

-- 2 ^ 63 and 2 ^ 64.
abbrev pub half_range : ℕ
half_range = 9223372036854775808

abbrev pub full_range : ℕ
full_range = 18446744073709551616

-- The two's complement bit pattern of an integer, and the integer that a pattern stands for.
unfoldable pub bits : ℤ → ℕ
bits z = (pos_part z + (full_range - neg_part z % full_range)) % full_range

unfoldable pub signed : ℕ → ℤ
signed b = if ltb b half_range then pos b else negsuc (full_range - b - 1)

-- The conversion of an exact result to 64 bits.
unfoldable pub int64 : ℤ → ℤ
unfolding bits signed
int64 z = signed (bits z)

unfoldable pub add64 : ℤ → ℤ → ℤ
unfolding int64 ◌+ℤ◌
add64 a b = int64 (a +ℤ b)

unfoldable pub sub64 : ℤ → ℤ → ℤ
unfolding int64 ◌-ℤ◌
sub64 a b = int64 (a -ℤ b)

unfoldable pub mul64 : ℤ → ℤ → ℤ
unfolding int64 ◌*ℤ◌
mul64 a b = int64 (a *ℤ b)

-- The value is representable in 64 bits.
abbrev pub Fits : ℤ → Type 0
Fits z = (pos_part z < half_range) × (neg_part z ≤ half_range)

pub bits-lt : (z : ℤ) → bits z < full_range
unfolding bits
bits-lt z = omega arith

pub bits-signed : (b : ℕ) → b < full_range → bits (signed b) ≡ b
unfolding bits signed
bits-signed b h = ground arith

pub signed-bits : (z : ℤ) → Fits z → signed (bits z) ≡ z
unfolding bits signed
signed-bits (pos n) h = ground arith
signed-bits (negsuc n) h = ground arith

pub signed-Fits : (b : ℕ) → b < full_range → Fits (signed b)
unfolding signed
signed-Fits b h = ground arith

pub int64-Fits : (z : ℤ) → Fits (int64 z)
unfolding int64
int64-Fits z = signed-Fits (bits z) (bits-lt z)

-- A value that fits is not changed.
pub int64_of_Fits : (z : ℤ) → Fits z → int64 z ≡ z
unfolding int64
int64_of_Fits z h = signed-bits z h

pub bits-int64 : (z : ℤ) → bits (int64 z) ≡ bits z
unfolding int64
bits-int64 z = bits-signed (bits z) (bits-lt z)

pub bits-+ℤ : (a b : ℤ) → bits (a +ℤ b) ≡ (bits a + bits b) % full_range
unfolding bits
bits-+ℤ a b = omega (arith, +ℤ_parts a b)

pub bits--ℤ : (a b : ℤ) → bits (a -ℤ b) ≡ (bits a + (full_range - bits b)) % full_range
unfolding bits
bits--ℤ a b = omega (arith, -ℤ_parts a b)

pub bits-add64 : (a b : ℤ) → bits (add64 a b) ≡ (bits a + bits b) % full_range
unfolding add64
bits-add64 a b = bits-int64 (a +ℤ b) ∙ bits-+ℤ a b

pub bits-sub64 : (a b : ℤ) → bits (sub64 a b) ≡ (bits a + (full_range - bits b)) % full_range
unfolding sub64
bits-sub64 a b = bits-int64 (a -ℤ b) ∙ bits--ℤ a b

pub add64-Fits : (a b : ℤ) → Fits (add64 a b)
unfolding add64
add64-Fits a b = int64-Fits (a +ℤ b)

pub sub64-Fits : (a b : ℤ) → Fits (sub64 a b)
unfolding sub64
sub64-Fits a b = int64-Fits (a -ℤ b)

-- Values that fit are equal when their bit patterns are.
pub eq_of_bits : (a b : ℤ) → Fits a → Fits b → bits a ≡ bits b → a ≡ b
eq_of_bits a b ha hb h = sym (signed-bits a ha) ∙ ap signed h ∙ signed-bits b hb

pub ruleset int64_laws = (arith, bits-add64, bits-sub64, bits-lt)

-- A sum that fits is exact.
pub add64_exact : (a b : ℤ) → Fits (a +ℤ b) → add64 a b ≡ a +ℤ b
unfolding add64
add64_exact a b h = int64_of_Fits (a +ℤ b) h

pub sub64_exact : (a b : ℤ) → Fits (a -ℤ b) → sub64 a b ≡ a -ℤ b
unfolding sub64
sub64_exact a b h = int64_of_Fits (a -ℤ b) h

pub mul64_exact : (a b : ℤ) → Fits (a *ℤ b) → mul64 a b ≡ a *ℤ b
unfolding mul64
mul64_exact a b h = int64_of_Fits (a *ℤ b) h

-- Sums and differences of amounts that are not negative.
pub add64_pos : (a b : ℕ) → a + b < half_range → add64 (pos a) (pos b) ≡ pos (a + b)
unfolding ◌+ℤ◌
add64_pos a b h = ground (arith, add64_exact (pos a) (pos b))

pub sub64_pos : (a b : ℕ) → b ≤ a → a < half_range → sub64 (pos a) (pos b) ≡ pos (a - b)
unfolding ◌-ℤ◌
sub64_pos a b l h = ground (arith, sub64_exact (pos a) (pos b))
