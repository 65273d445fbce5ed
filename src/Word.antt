-- ===== src/Word.antt =====
-- Go's fixed-width unsigned integers as native numbers: every operation wraps. A value is a number
-- below the modulus; that it is, is a hypothesis or part of an invariant. A signed integer is the
-- bit pattern of its two's complement.
use go_crawling_bazaar.Base.{
  ℕ, ◌+◌, ◌-◌, ◌*◌, ◌%◌, ◌^◌, ◌<◌, ◌≡◌, Bool, ◌&&◌, arith, ltb, if◌then◌else◌,
}

abbrev pub u64_mod : ℕ
u64_mod = 2 ^ 64

abbrev pub u32_mod : ℕ
u32_mod = 2 ^ 32

abbrev pub add64 : ℕ → ℕ → ℕ
add64 a b = (a + b) % u64_mod

abbrev pub sub64 : ℕ → ℕ → ℕ
sub64 a b = (a + u64_mod - b) % u64_mod

abbrev pub mul64 : ℕ → ℕ → ℕ
mul64 a b = (a * b) % u64_mod

-- Subtraction of any number.
abbrev pub sub32 : ℕ → ℕ → ℕ
sub32 a b = (a + u32_mod - b % u32_mod) % u32_mod

abbrev pub add32 : ℕ → ℕ → ℕ
add32 a b = (a + b) % u32_mod

-- x > 0 of an int32.
abbrev pub positive32 : ℕ → Bool
positive32 x = ltb 0 x && ltb x (2 ^ 31)

-- 0 <= x && x < n of an int32.
abbrev pub in_range32 : ℕ → ℕ → Bool
in_range32 x n = ltb x (2 ^ 31) && ltb x n

-- An int32, with 0 for the negative ones.
abbrev pub not_negative32 : ℕ → ℕ
not_negative32 x = if ltb x (2 ^ 31) then x else 0

-- x < y of int32s.
abbrev pub less32 : ℕ → ℕ → Bool
less32 x y = ltb ((x + 2 ^ 31) % u32_mod) ((y + 2 ^ 31) % u32_mod)

-- Adding what was subtracted gives the value back.
pub add64-sub64 : (a b : ℕ) → a < u64_mod → b < u64_mod → add64 (sub64 a b) b ≡ a
add64-sub64 a b ha hb = omega arith
