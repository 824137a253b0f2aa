-- ===== src/Common/Kernel.antt =====
-- Results of kernel code: a loop that was still running when its fuel ran out, the panic that a
-- failed ASSERT or PANIC raises, or a value.
use mathlib.Core.Path.{◌≡◌, subst}
use mathlib.Core.Bool.{Bool, true, false}

pub data Result {ℓ} (A : Type ℓ) : Type ℓ where
  hang panic : Result A
  ok : A → Result A

-- ASSERT (test)
abbrev pub assert : Bool → Result (Unit {0})
assert false = panic
assert true = ok tt

infixl 5 ◌>>=◌
abbrev pub ◌>>=◌ {ℓ κ} : {B : Type κ} {A : Type ℓ} → Result A → (A → Result B) → Result B
hang >>= next = hang
panic >>= next = panic
ok value >>= next = next value

infixl 5 ◌>>◌
abbrev pub ◌>>◌ {ℓ} : {A : Type ℓ} → Result (Unit {0}) → Result A → Result A
checked >> rest = checked >>= λ _. rest

-- What is known of the value that a call returns holds of the value that it is said to return.
pub ok_value {ℓ κ} :
    {A : Type ℓ} (P : A → Type κ) {r : Result A} {a : A}
    → (b : A) × (r ≡ ok b) × P b
    → r ≡ ok a
    → P a
ok_value P {r} {a} (b, e, p) h = let same : b ≡ a = cc in subst P same p
