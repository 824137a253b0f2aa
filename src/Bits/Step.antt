-- ===== src/Bits/Step.antt =====
-- One binary digit at a time: each word operation by its lowest bit and the words halved.
use Prim.Native.Nat.{
  ℕ, zero, suc, ◌+◌, ◌-◌, ◌*◌, ◌/◌, ◌%◌, ◌≤◌, min, max, differ, digits, bitwise, bit_and, bit_or,
  bit_xor, bit_and-bitwise, bit_or-bitwise, bit_xor-bitwise,
}
use mathlib.Core.Path.{◌≡◌, refl, ◌∙◌, ap}
use native.Mathlib.Omega.{arith}

module _ (rest : ℕ → ℕ) (digit : ℕ → ℕ → ℕ) where
  -- One more round changes nothing where the rounds were enough.
  digits-suc :
      (a b rounds : ℕ)
      → a ≤ rounds
      → digits rest digit (suc rounds) a b ≡ digits rest digit rounds a b
  digits-suc zero b zero h = refl
  digits-suc zero b (suc rounds) h = refl
  digits-suc (suc a) b zero h = absurd (omega arith)
  digits-suc (suc a) b (suc rounds) h =
      omega (arith, digits-suc (suc a / 2) (b / 2) rounds (omega arith))

  -- Nor do `extra` more rounds.
  digits-add :
      (extra a b rounds : ℕ)
      → a ≤ rounds
      → digits rest digit (extra + rounds) a b ≡ digits rest digit rounds a b
  digits-add zero a b rounds h =
      let none : 0 + rounds ≡ rounds = omega arith in ap (λ n. digits rest digit n a b) none
  digits-add (suc extra) a b rounds h =
      let one : suc extra + rounds ≡ suc (extra + rounds) = omega arith in
      ap (λ n. digits rest digit n a b) one
      ∙ digits-suc a b (extra + rounds) (omega arith)
      ∙ digits-add extra a b rounds h

  -- Where the rule for an exhausted first word agrees with the digits, the words can be halved.
  pub bitwise_halves :
      ((b : ℕ) → rest b ≡ rest (b / 2) * 2 + digit 0 (b % 2))
      → (a b : ℕ)
      → bitwise rest digit a b ≡ bitwise rest digit (a / 2) (b / 2) * 2 + digit (a % 2) (b % 2)
  bitwise_halves exhausted zero b = exhausted b
  bitwise_halves exhausted (suc a) b =
      let half = suc a / 2 in
      let split : a ≡ (a - half) + half = omega arith in
      ap (λ q. q * 2 + digit (suc a % 2) (b % 2))
        (ap (λ rounds. digits rest digit rounds half (b / 2)) split
          ∙ digits-add (a - half) half (b / 2) half (omega arith))

pub bit_xor_step : (a b : ℕ) → bit_xor a b ≡ bit_xor (a / 2) (b / 2) * 2 + differ (a % 2) (b % 2)
bit_xor_step a b = simp bit_xor-bitwise (bitwise_halves (λ y. y) differ (λ y. omega arith) a b)

pub bit_or_step : (a b : ℕ) → bit_or a b ≡ bit_or (a / 2) (b / 2) * 2 + max (a % 2) (b % 2)
bit_or_step a b = simp bit_or-bitwise (bitwise_halves (λ y. y) max (λ y. omega arith) a b)

pub bit_and_step : (a b : ℕ) → bit_and a b ≡ bit_and (a / 2) (b / 2) * 2 + min (a % 2) (b % 2)
bit_and_step a b = simp bit_and-bitwise (bitwise_halves (λ _. 0) min (λ y. omega arith) a b)
