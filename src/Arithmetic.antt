-- ===== src/Arithmetic.antt =====
-- lib/arithmetic.c: 64-bit division by the 32-bit instruction DIVL.
-- 64-bit words are numbers below 2 ^ 64, the signed ones in two's complement. `panic` is the divide
-- error of the processor.
pub mod Shift
pub mod Unsigned
pub mod Signed
use oscourse_all_files.Common.{
  ℕ, ◌+◌, ◌-◌, ◌*◌, ◌/◌, ◌%◌, ◌^◌, Bool, true, false, ◌||◌, Result, ok, panic, ◌>>=◌, ltb, leb,
  ◌==◌, iff, if◌then◌else◌, two_32,
}

abbrev pub two_64 : ℕ
two_64 = 2 ^ 64

abbrev pub sub_64 : ℕ → ℕ → ℕ
sub_64 a b = (a + two_64 - b) % two_64

abbrev pub mul_64 : ℕ → ℕ → ℕ
mul_64 a b = a * b % two_64

-- What the instruction is documented to do: it traps on a quotient that does not fit 32 bits.
unfoldable pub divl : ℕ → ℕ → Result ℕ
divl n d = if d == 0 || leb two_32 (n / d) then panic else ok (n / d)

-- A test of `nlz`, with the count and the word as they are before it.
unfoldable pub narrow : ℕ → ℕ → ℕ × ℕ → ℕ × ℕ
narrow k bound (n, x) = if leb x bound then (n + k, x * 2 ^ k % two_32) else (n, x)

pub nlz : ℕ → ℕ
nlz x =
    let (n, y) =
      narrow 2 0x3fffffff
        (narrow 4 0x0fffffff (narrow 8 0x00ffffff (narrow 16 0x0000ffff (0, x)))) in
    if leb y 0x7fffffff then n + 1 else n

pub udiv64 : ℕ → ℕ → Result ℕ
udiv64 n d =
    let b = two_32 in
    let n1 = n / two_32 % two_32 in
    let n0 = n % two_32 in
    let d0 = d % two_32 in
    let d1 = d / two_32 % two_32 in
    let s = nlz d1 in
    if d / two_32 == 0
    then (divl ((b * (n1 % d0) + n0) % two_64) d0 >>= λ q. ok ((q + b * (n1 / d0)) % two_64))
    else if ltb n d
    then ok 0
    else (divl (n / 2) (d * 2 ^ s % two_64 / two_32 % two_32) >>= λ t.
        let q = t / 2 ^ (31 - s) in
        let q' = sub_64 q 1 in ok (if ltb (sub_64 n (mul_64 q' d)) d then q' else q))

-- The result type `uint32_t` cuts the remainder.
pub umod64 : ℕ → ℕ → Result ℕ
umod64 n d = do q ← udiv64 n d; ok (sub_64 n (mul_64 d q) % two_32)

abbrev pub is_negative : ℕ → Bool
is_negative x = leb (2 ^ 63) x

-- Unary minus of a 64-bit word.
abbrev pub neg_64 : ℕ → ℕ
neg_64 x = sub_64 0 x

pub sdiv64 : ℕ → ℕ → Result ℕ
sdiv64 n d = do
  let n_abs = if is_negative n then neg_64 n else n
  let d_abs = if is_negative d then neg_64 d else d
  q_abs ← udiv64 n_abs d_abs
  ok (if iff (is_negative n) (is_negative d) then q_abs else neg_64 q_abs)

-- A 32-bit word of type `int32_t` as a 64-bit word.
abbrev pub sign_extend : ℕ → ℕ
sign_extend x = if leb (2 ^ 31) x then x + (two_64 - two_32) else x

-- The result type `int32_t` cuts the remainder.
pub smod64 : ℕ → ℕ → Result ℕ
smod64 n d = do q ← sdiv64 n d; ok (sub_64 n (mul_64 d q) % two_32)

-- `__divdi3`, `__moddi3`, `__udivdi3` and `__umoddi3`.
pub divdi3 : ℕ → ℕ → Result ℕ
divdi3 n d = sdiv64 n d

pub moddi3 : ℕ → ℕ → Result ℕ
moddi3 n d = do r ← smod64 n d; ok (sign_extend r)

pub udivdi3 : ℕ → ℕ → Result ℕ
udivdi3 n d = udiv64 n d

pub umoddi3 : ℕ → ℕ → Result ℕ
umoddi3 n d = umod64 n d
