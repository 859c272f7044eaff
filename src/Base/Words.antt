-- ===== src/Base/Words.antt =====
-- Machine words as native numbers, with their wrap-around, and the order of `jiffies`.
use Prim.Native.Nat.{ℕ, ◌+◌, ◌-◌, ◌*◌, ◌%◌, ◌^◌, ◌≤◌, ◌<◌}
use mathlib.Core.Path.{◌≡◌}
use mathlib.Core.Bool.{Bool, true, false, ◌&&◌}
use native.Mathlib.Omega.{arith}
use redisc.Base.Tests.{ltb, leb}

-- The truncations `(u16)x` and `(u32)x`.
abbrev pub u16 : ℕ → ℕ
u16 x = x % 2 ^ 16

abbrev pub u32 : ℕ → ℕ
u32 x = x % 2 ^ 32

abbrev pub u64 : ℕ → ℕ
u64 x = x % 2 ^ 64

-- `unsigned int` arithmetic.
abbrev pub add32 : ℕ → ℕ → ℕ
add32 a b = (a + b) % 2 ^ 32

abbrev pub sub32 : ℕ → ℕ → ℕ
sub32 a b = (a % 2 ^ 32 + 2 ^ 32 - b % 2 ^ 32) % 2 ^ 32

abbrev pub mul32 : ℕ → ℕ → ℕ
mul32 a b = a * b % 2 ^ 32

-- `unsigned long` arithmetic.
abbrev pub add64 : ℕ → ℕ → ℕ
add64 a b = (a + b) % 2 ^ 64

abbrev pub sub64 : ℕ → ℕ → ℕ
sub64 a b = (a % 2 ^ 64 + 2 ^ 64 - b % 2 ^ 64) % 2 ^ 64

-- `atomic64_inc` and `atomic64_add`, on the counter's bit pattern.
abbrev pub inc64 : ℕ → ℕ
inc64 x = add64 x 1

-- A bit pattern of `w` bits that stands for a number above 0.
abbrev pub positive16 : ℕ → Bool
positive16 x = ltb 0 x && ltb x (2 ^ 15)

abbrev pub positive32 : ℕ → Bool
positive32 x = ltb 0 x && ltb x (2 ^ 31)

-- (s16)a - (s16)b, converted to s16: the bit pattern.
abbrev pub sub16 : ℕ → ℕ → ℕ
sub16 a b = (a % 2 ^ 16 + 2 ^ 16 - b % 2 ^ 16) % 2 ^ 16

-- `time_after(a, b)` is `(long)(b - a) < 0`, and `time_after_eq(a, b)` is `(long)(a - b) >= 0`.
abbrev pub time_after : ℕ → ℕ → Bool
time_after a b = leb (2 ^ 63) (sub64 b a)

abbrev pub time_before : ℕ → ℕ → Bool
time_before a b = time_after b a

abbrev pub time_after_eq : ℕ → ℕ → Bool
time_after_eq a b = ltb (sub64 a b) (2 ^ 63)

-- Within half the range of the clock, the tests are the order of the numbers.
pub time_after_eq-le :
    (now d : ℕ) → now < 2 ^ 63 → d < 2 ^ 63 → time_after_eq now d ≡ true → d ≤ now
time_after_eq-le now d hn hd h = ground arith

pub time_after_eq-lt :
    (now d : ℕ) → now < 2 ^ 63 → d < 2 ^ 63 → time_after_eq now d ≡ false → now < d
time_after_eq-lt now d hn hd h = ground arith
