-- ===== src/Word.antt =====
-- Go's int and int64, as the 64 bits of their two's complement: a number below 2 ^ 64, negative
-- from 2 ^ 63 on.
use task_discovery_service.Prelude.{
  ℕ, ◌+◌, ◌-◌, ◌%◌, ◌^◌, ◌<◌, ◌≡◌, Bool, false, ◌&&◌, ◌||◌, not, arith, nat_beq, ltb, leb,
  if◌then◌else◌,
}

abbrev pub int64_mod : ℕ
int64_mod = 2 ^ 64

abbrev pub int64_half : ℕ
int64_half = 2 ^ 63

unfoldable pub add64 : ℕ → ℕ → ℕ
add64 a b = (a + b) % int64_mod

unfoldable pub sub64 : ℕ → ℕ → ℕ
sub64 a b = (a + int64_mod - b) % int64_mod

-- a <= 0
unfoldable pub nonpos : ℕ → Bool
nonpos a = nat_beq a 0 || leb int64_half a

-- a < b
unfoldable pub lt64 : ℕ → ℕ → Bool
lt64 a b = ltb ((a + int64_half) % int64_mod) ((b + int64_half) % int64_mod)

abbrev magnitude : ℕ → ℕ
magnitude a = if leb int64_half a then int64_mod - a else a

-- a % b, with the sign of a; the program divides by no zero.
unfoldable pub rem64 : ℕ → ℕ → ℕ
rem64 a b =
    let r = magnitude a % magnitude b in
    if leb int64_half a && not (nat_beq r 0) then int64_mod - r else r

-- On numbers that are not negative these are the plain operations.
pub add64_small : (a b : ℕ) → a + b < int64_half → add64 a b ≡ a + b
unfolding add64
add64_small a b h = omega arith

pub sub64-add64_one : (a : ℕ) → a < int64_mod → sub64 (add64 a 1) 1 ≡ a
unfolding sub64 add64
sub64-add64_one a h = omega arith

pub lt64_small : (a b : ℕ) → a < int64_half → b < int64_half → lt64 a b ≡ ltb a b
unfolding lt64
lt64_small a b h k = ground arith

pub nonpos_small : (a : ℕ) → 0 < a → a < int64_half → nonpos a ≡ false
unfolding nonpos
nonpos_small a h k = ground arith

pub rem64_small : (a b : ℕ) → a < int64_half → b < int64_half → rem64 a b ≡ a % b
unfolding rem64
rem64_small a b h k = ground arith
