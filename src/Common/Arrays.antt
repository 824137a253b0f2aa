-- ===== src/Common/Arrays.antt =====
-- Arrays of a fixed size as functions of the index.
use Prim.Native.Nat.{ℕ}
use mathlib.Core.Path.{◌≡◌, fun_ext}
use mathlib.Core.Logic.{inl, inr}
use oscourse_all_files.Common.Tests.{◌==◌, if◌then◌else◌, ==_refl, Bool-cases}

abbrev pub update {ℓ} : {A : Type ℓ} → (ℕ → A) → ℕ → A → ℕ → A
update f i a j = if j == i then a else f j

module _ {ℓ} {A : Type ℓ} (f : ℕ → A) (i : ℕ) (a : A) where
  pub update_self : update f i a i ≡ a
  update_self = rw (==_refl i)

  -- Two writes at one index, the second computed from the first.
  pub update-update : (g : A → A) → update (update f i a) i (g (update f i a i)) ≡ update f i (g a)
  update-update g =
      fun_ext (λ j. elim (Bool-cases (j == i)) [ inl e ↦ rw (e, ==_refl i) | inr e ↦ rw e ])
