-- ===== src/Arithmetic/Signed.antt =====
-- Signed division in lib/arithmetic.c, on words in two's complement.
use native.Mathlib.Nat
use native.Mathlib.Numerals.{unary_clauses}
use oscourse_all_files.Common.{
  ℕ, zero, suc, ◌+◌, ◌*◌, ◌/◌, ◌^◌, ◌%◌, ◌≤◌, ◌<◌, ◌≡◌, refl, ap, Bool, true, false, not,
  if◌then◌else◌, arith, two_32, Result, ok, iff,
}
use oscourse_all_files.Arithmetic.{
  two_64, sub_64, mul_64, neg_64, is_negative, sign_extend, sdiv64, smod64, moddi3,
}
use oscourse_all_files.Arithmetic.Unsigned.{udiv64_lem}

-- The word of the integer with this sign and magnitude; true is the minus sign.
abbrev pub signed : Bool → ℕ → ℕ
signed true m = neg_64 m
signed false m = m

-- A magnitude that a 64-bit integer of this sign can have. There is no -0.
abbrev pub InRange : Bool → ℕ → Type 0
InRange true m = (0 < m) × (m ≤ 2 ^ 63)
InRange false m = m < 2 ^ 63

is_negative-signed : (s : Bool) (m : ℕ) → InRange s m → is_negative (signed s m) ≡ s
is_negative-signed true m h = ground arith
is_negative-signed false m h = ground arith

magnitude : (s : Bool) (m : ℕ) → InRange s m → (if s then neg_64 (signed s m) else signed s m) ≡ m
magnitude true m h = omega arith
magnitude false m h = refl

InRange-small : (s : Bool) (m : ℕ) → InRange s m → m < two_64
InRange-small true m h = omega arith
InRange-small false m h = omega arith

InRange-le : (s : Bool) (m : ℕ) → InRange s m → m ≤ 2 ^ 63
InRange-le true m h = omega arith
InRange-le false m h = omega arith

-- The quotient of two integers is rounded toward zero: its magnitude is the quotient of the
-- magnitudes, rounded down, and its sign is minus when exactly one of them is negative. The
-- divisor is not 0. The quotient of -2 ^ 63 by -1 is the word 2 ^ 63.
pub sdiv64_lem :
    (s t : Bool) (m k : ℕ)
    → InRange s m
    → InRange t k
    → 0 < k
    → sdiv64 (signed s m) (signed t k) ≡ ok (signed (not (iff s t)) (m / k))
unfolding sdiv64
sdiv64_lem s t m k hm hk pos =
    rw
      (
        is_negative-signed s m hm,
        is_negative-signed t k hk,
        magnitude s m hm,
        magnitude t k hk,
        udiv64_lem m k (InRange-small s m hm) (InRange-small t k hk) pos,
      )
      (by_sign s t)
  where
    by_sign :
        (s t : Bool)
        → ◌≡◌ {A = Result ℕ}
            (ok (if iff s t then m / k else neg_64 (m / k)))
            (ok (signed (not (iff s t)) (m / k)))
    by_sign true true = refl
    by_sign true false = refl
    by_sign false true = refl
    by_sign false false = refl

-- Products of words in two's complement.
neg-mul : (k q : ℕ) → 0 < k → k ≤ 2 ^ 63 → k * q ≤ 2 ^ 63 → mul_64 (neg_64 k) q ≡ neg_64 (k * q)
neg-mul k q pos hk hp =
    let x : neg_64 k + k ≡ two_64 = omega arith in
    omega (arith, Nat.add-mul (neg_64 k) k q, ap (λ z. z * q) x)

neg-mul-neg : (k q : ℕ) → 0 < k → k ≤ 2 ^ 63 → k * q ≤ 2 ^ 63 → mul_64 (neg_64 k) (neg_64 q) ≡ k * q
neg-mul-neg k zero pos hk hp = simp unary_clauses refl
neg-mul-neg k (suc q) pos hk hp =
    let n : ℕ = suc q in
    let y : ℕ = neg_64 n in
    let one : 1 * n ≤ k * n = Nat.mul-le-mul_right n pos in
    let x_sum : neg_64 k + k ≡ two_64 = omega arith in
    let y_sum : y + n ≡ two_64 = omega arith in
    omega (
      arith,
      Nat.add-mul (neg_64 k) k y,
      ap (λ z. z * y) x_sum,
      Nat.mul-add k y n,
      ap (λ z. k * z) y_sum,
    )

signed-mul :
    (t u : Bool) (k q : ℕ)
    → 0 < k
    → k ≤ 2 ^ 63
    → k * q ≤ 2 ^ 63
    → mul_64 (signed t k) (signed u q) ≡ signed (not (iff t u)) (k * q)
signed-mul true true k q pos hk hp = neg-mul-neg k q pos hk hp
signed-mul true false k q pos hk hp = neg-mul k q pos hk hp
signed-mul false true k zero pos hk hp = simp unary_clauses refl
signed-mul false true k (suc q) pos hk hp =
    let n : ℕ = suc q in
    let one : 1 * n ≤ k * n = Nat.mul-le-mul_right n pos in
    let y_sum : neg_64 n + n ≡ two_64 = omega arith in
    omega (arith, Nat.mul-add k (neg_64 n) n, ap (λ z. k * z) y_sum)
signed-mul false false k q pos hk hp = omega arith

-- The remainder of two integers has the sign of the dividend, and its magnitude is the remainder
-- of the magnitudes. The divisor is not 0, and its magnitude is at most 2 ^ 31, so that the
-- remainder fits the result type.
pub moddi3_lem :
    (s t : Bool) (m k : ℕ)
    → InRange s m
    → InRange t k
    → 0 < k
    → k ≤ 2 ^ 31
    → moddi3 (signed s m) (signed t k) ≡ ok (signed s (m % k))
unfolding moddi3 smod64
moddi3_lem s t m k hm hk pos fits =
    let q : ℕ = m / k in
    let split : k * q + m % k ≡ m = Nat.div-add-mod m k in
    let rest : m % k < k = Nat.mod-lt m pos in
    let wide : m ≤ 2 ^ 63 = InRange-le s m hm in
    let product : mul_64 (signed t k) (signed (not (iff s t)) q)
        ≡ signed (not (iff t (not (iff s t)))) (k * q) =
      signed-mul t (not (iff s t)) k q pos (omega arith) (omega arith) in
    rw (sdiv64_lem s t m k hm hk pos, product)
      (ap ok (by_sign s t (k * q) (m % k) split wide (omega arith)))
  where
    by_sign :
        (s t : Bool) (p r : ℕ)
        → p + r ≡ m
        → m ≤ 2 ^ 63
        → r < 2 ^ 31
        → sign_extend (sub_64 (signed s m) (signed (not (iff t (not (iff s t)))) p) % two_32)
          ≡ signed s r
    by_sign true true p r h w f = ground arith
    by_sign true false p r h w f = ground arith
    by_sign false true p r h w f = ground arith
    by_sign false false p r h w f = ground arith
