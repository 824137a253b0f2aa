-- ===== src/Bits.antt =====
-- Single bits of machine words: the kernel's `|`, `&`, `^` and `~` with a one-bit mask.
pub mod Step
use Step.{bit_and_step, bit_or_step, bit_xor_step}
use Prim.Native.Nat.{bit_and, bit_or, bit_xor, bit_and-bitwise, differ, max, min}
use native.Mathlib.Nat.{pow-suc, one-le-pow, pow-le-pow_right}
use oscourse_all_files.Common.{
  ℕ, zero, suc, ◌+◌, ◌-◌, ◌*◌, ◌/◌, ◌%◌, ◌^◌, ◌≤◌, ◌<◌, ◌≡◌, ◌≢◌, Bool, true, false, inl, inr, refl,
  ap, arith, ◌==◌, if◌then◌else◌, ==_iff, Bool-cases,
}

-- Bit `j` of the word `w`, as 0 or 1.
abbrev pub bit : ℕ → ℕ → ℕ
bit zero w = w % 2
bit (suc j) w = bit j (w / 2)

pub bit-le : (j w : ℕ) → bit j w ≤ 1
bit-le zero w = omega arith
bit-le (suc j) w = bit-le j (w / 2)

pub bit-zero : (j : ℕ) → bit j 0 ≡ 0
bit-zero zero = refl
bit-zero (suc j) = bit-zero j

bit_and-le_right : (w m n : ℕ) → w ≤ n → bit_and w m ≤ m
bit_and-le_right w m zero h =
    let e : w ≡ 0 = omega arith in rw e (omega (arith, bit_and-bitwise 0 m))
bit_and-le_right w m (suc n) h =
    omega (arith, bit_and_step w m, bit_and-le_right (w / 2) (m / 2) n (omega arith))

bit_and-zero : (w : ℕ) → bit_and w 0 ≡ 0
bit_and-zero w = omega (arith, bit_and-le_right w 0 w)

pub bit-or : (j a b : ℕ) → bit j (bit_or a b) ≡ max (bit j a) (bit j b)
bit-or zero a b = omega (arith, bit_or_step a b)
bit-or (suc j) a b = rw half (bit-or j (a / 2) (b / 2))
  where
    half : bit_or a b / 2 ≡ bit_or (a / 2) (b / 2)
    half = omega (arith, bit_or_step a b)

pub bit-and : (j a b : ℕ) → bit j (bit_and a b) ≡ min (bit j a) (bit j b)
bit-and zero a b = omega (arith, bit_and_step a b)
bit-and (suc j) a b = rw half (bit-and j (a / 2) (b / 2))
  where
    half : bit_and a b / 2 ≡ bit_and (a / 2) (b / 2)
    half = omega (arith, bit_and_step a b)

differ_small : (x y : ℕ) → x ≤ 1 → y ≤ 1 → differ x y ≤ 1
differ_small zero y p q = q
differ_small (suc x) zero p q = p
differ_small (suc zero) (suc zero) p q = omega arith
differ_small (suc zero) (suc (suc y)) p q = absurd (omega arith)
differ_small (suc (suc x)) (suc y) p q = absurd (omega arith)

differ-le : (a b : ℕ) → differ (a % 2) (b % 2) ≤ 1
differ-le a b = differ_small (a % 2) (b % 2) (omega arith) (omega arith)

differ-zero : (x : ℕ) → differ x 0 ≡ x
differ-zero zero = refl
differ-zero (suc x) = refl

differ-one : (x : ℕ) → x ≤ 1 → differ x 1 ≡ 1 - x
differ-one zero p = refl
differ-one (suc zero) p = refl
differ-one (suc (suc x)) p = absurd (omega arith)

pub bit-xor : (j a b : ℕ) → bit j (bit_xor a b) ≡ differ (bit j a) (bit j b)
bit-xor zero a b = omega (arith, bit_xor_step a b, differ-le a b)
bit-xor (suc j) a b = rw half (bit-xor j (a / 2) (b / 2))
  where
    half : bit_xor a b / 2 ≡ bit_xor (a / 2) (b / 2)
    half = omega (arith, bit_xor_step a b, differ-le a b)

-- The operations stay within the width of the word.
pub bit_or-lt : (n a b : ℕ) → a < 2 ^ n → b < 2 ^ n → bit_or a b < 2 ^ n
bit_or-lt zero a b ha hb =
    let p : a ≡ 0 = omega arith in let q : b ≡ 0 = omega arith in rw (p, q) (omega arith)
bit_or-lt (suc n) a b ha hb = omega (
  arith,
  bit_or_step a b,
  pow-suc 2 n,
  bit_or-lt n (a / 2) (b / 2) (omega (arith, pow-suc 2 n)) (omega (arith, pow-suc 2 n)),
)

pub bit_xor-lt : (n a b : ℕ) → a < 2 ^ n → b < 2 ^ n → bit_xor a b < 2 ^ n
bit_xor-lt zero a b ha hb =
    let p : a ≡ 0 = omega arith in let q : b ≡ 0 = omega arith in rw (p, q) (omega arith)
bit_xor-lt (suc n) a b ha hb = omega (
  arith,
  bit_xor_step a b,
  differ-le a b,
  pow-suc 2 n,
  bit_xor-lt n (a / 2) (b / 2) (omega (arith, pow-suc 2 n)) (omega (arith, pow-suc 2 n)),
)

zero-bit_and : (b : ℕ) → bit_and 0 b ≡ 0
zero-bit_and b = bit_and-bitwise 0 b

pub bit_and-lt : (n a b : ℕ) → a < 2 ^ n → bit_and a b < 2 ^ n
bit_and-lt zero a b ha = let p : a ≡ 0 = omega arith in rw (p, zero-bit_and b) (omega arith)
bit_and-lt (suc n) a b ha = omega (
  arith,
  bit_and_step a b,
  pow-suc 2 n,
  bit_and-lt n (a / 2) (b / 2) (omega (arith, pow-suc 2 n)),
)

pub bit-and-pow : (j w : ℕ) → bit_and w (2 ^ j) ≡ bit j w * 2 ^ j
bit-and-pow zero w = omega (arith, bit_and_step w 1, bit_and-zero (w / 2))
bit-and-pow (suc j) w =
    omega (arith, step, bit-and-pow j (w / 2), ap (λ (t : ℕ). bit j (w / 2) * t) (pow-suc 2 j))
  where
    half : 2 ^ suc j / 2 ≡ 2 ^ j
    half = omega (arith, pow-suc 2 j)

    step : bit_and w (2 ^ suc j) ≡ bit_and (w / 2) (2 ^ j) * 2
    step = omega (arith, bit_and_step w (2 ^ suc j), ap (bit_and (w / 2)) half, pow-suc 2 j)

pub bit-pow_self : (j : ℕ) → bit j (2 ^ j) ≡ 1
bit-pow_self zero = refl
bit-pow_self (suc j) =
    let half : 2 ^ suc j / 2 ≡ 2 ^ j = omega (arith, pow-suc 2 j) in rw half (bit-pow_self j)

pub bit-pow_ne : (i j : ℕ) → i ≢ j → bit i (2 ^ j) ≡ 0
bit-pow_ne zero zero h = absurd (h refl)
bit-pow_ne zero (suc j) h = omega (arith, pow-suc 2 j)
bit-pow_ne (suc i) zero h = bit-zero i
bit-pow_ne (suc i) (suc j) h =
    let half : 2 ^ suc j / 2 ≡ 2 ^ j = omega (arith, pow-suc 2 j) in
    rw half (bit-pow_ne i j (λ e. h (ap suc e)))

-- `~m` in a word of `n` bits.
pub bit-complement : (n i m : ℕ) → i < n → m < 2 ^ n → bit i (2 ^ n - 1 - m) ≡ 1 - bit i m
bit-complement zero i m h hm = absurd (omega arith)
bit-complement (suc n) zero m h hm = omega (arith, pow-suc 2 n)
bit-complement (suc n) (suc i) m h hm =
    rw half (bit-complement n i (m / 2) (omega arith) (omega (arith, pow-suc 2 n)))
  where
    half : (2 ^ suc n - 1 - m) / 2 ≡ 2 ^ n - 1 - m / 2
    half = omega (arith, pow-suc 2 n)

pub mask-lt : (j : ℕ) → j < 32 → 2 ^ j < 2 ^ 32
mask-lt j h = omega (arith, pow-le-pow_right {n = 2} (omega arith) {i = j} {j = 31} (omega arith))

-- What a one-bit mask does to each bit.
module _ (i j w : ℕ) where
  pub bit-mark : bit i (bit_or w (2 ^ j)) ≡ (if i == j then 1 else bit i w)
  bit-mark = elim (Bool-cases (i == j)) [
    | inl e ↦
        rw (e, bit-or i w (2 ^ j), (==_iff i j).0 e, bit-pow_self j) (omega (arith, bit-le j w))
    | inr e ↦ rw (e, bit-or i w (2 ^ j), bit-pow_ne i j (ground arith)) (omega arith)
  ]

  pub bit-flip : bit i (bit_xor w (2 ^ j)) ≡ (if i == j then 1 - bit i w else bit i w)
  bit-flip = elim (Bool-cases (i == j)) [
    | inl e ↦
        rw (e, bit-xor i w (2 ^ j), (==_iff i j).0 e, bit-pow_self j)
          (differ-one (bit j w) (bit-le j w))
    | inr e ↦ rw (e, bit-xor i w (2 ^ j), bit-pow_ne i j (ground arith)) (differ-zero (bit i w))
  ]

  pub bit-reset :
      i < 32 → j < 32 → bit i (bit_and w (2 ^ 32 - 1 - 2 ^ j)) ≡ (if i == j then 0 else bit i w)
  bit-reset hi hj = elim (Bool-cases (i == j)) [
    | inl e ↦
        let ij : i ≡ j = (==_iff i j).0 e in
        rw e (omega (arith, cleared, ap (λ (k : ℕ). bit k (2 ^ j)) ij, bit-pow_self j))
    | inr e ↦ rw e (omega (arith, cleared, bit-pow_ne i j (ground arith), bit-le i w))
  ]
    where
      cleared : bit i (bit_and w (2 ^ 32 - 1 - 2 ^ j)) ≡ min (bit i w) (1 - bit i (2 ^ j))
      cleared =
          rw (← bit-complement 32 i (2 ^ j) hi (mask-lt j hj)) (bit-and i w (2 ^ 32 - 1 - 2 ^ j))

-- `w & (1 << j)` is nonzero exactly if bit `j` is set.
pub test-mask : (j w : ℕ) → (bit_and w (2 ^ j) == 0) ≡ (bit j w == 0)
test-mask j w = ground (arith, bit-and-pow j w, bit-le j w, one-le-pow j 2)
