-- ===== src/Arithmetic/Shift.antt =====
-- What nlz in lib/arithmetic.c counts.
use native.Mathlib.Nat
use native.Mathlib.Numerals.{unary_clauses}
use oscourse_all_files.Common.{
  ℕ, zero, suc, ◌+◌, ◌*◌, ◌^◌, ◌%◌, ◌≤◌, ◌<◌, ◌≡◌, ◌∙◌, refl, sym, ap, Bool-cases, inl, inr, leb,
  leb→le, if◌then◌else◌, arith, two_32,
}
use oscourse_all_files.Arithmetic.{narrow, nlz}

pub pow_add : (m n : ℕ) → 2 ^ (m + n) ≡ 2 ^ m * 2 ^ n
pow_add m zero = simp unary_clauses (sym (Nat.mul-one (2 ^ m)))
pow_add m (suc n) =
    simp unary_clauses (ap (λ x. x * 2) (pow_add m n) ∙ Nat.mul_assoc (2 ^ m) (2 ^ n) 2)

-- The word is `x` shifted by the count, at least `low`, and no bit of it is lost.
record Shifted (x low high : ℕ) (s : ℕ × ℕ) : Type 0 where
  word : s.1 ≡ x * 2 ^ s.0
  least : low ≤ s.1
  fits : s.1 < two_32
  count : s.0 ≤ high

-- A test of `nlz` raises the least value to the one above its bound.
narrow_lem :
    {x low high : ℕ} (s : ℕ × ℕ) (k bound : ℕ)
    → Shifted x low high s
    → low * 2 ^ k ≡ suc bound
    → suc bound * 2 ^ k ≡ two_32
    → Shifted x (suc bound) (high + k) (narrow k bound s)
unfolding narrow
narrow_lem {x} {low} {high} (n, y) k bound h lo hi = elim (Bool-cases (leb y bound)) [
  | inl e ↦
      let pos : 1 ≤ 2 ^ k = Nat.one-le-pow k 2 (omega arith) in
      let small : y * 2 ^ k < two_32 =
        omega
          (arith, Nat.mul-le-mul_right (2 ^ k) (leb→le y bound e), Nat.add-mul bound 1 (2 ^ k)) in
      let same : y * 2 ^ k % two_32 ≡ y * 2 ^ k = omega arith in
      rw e (record {
        word =
            same
            ∙ ap (λ z. z * 2 ^ k) h.word
            ∙ Nat.mul_assoc x (2 ^ n) (2 ^ k)
            ∙ ap (λ z. x * z) (sym (pow_add n k));
        least = omega (arith, Nat.mul-le-mul_right (2 ^ k) h.least);
        fits = omega arith;
        count = omega (arith, h.count);
      })
  | inr e ↦ rw e (record {
    word = h.word;
    least = ground (arith);
    fits = h.fits;
    count = omega (arith, h.count);
  })
]

-- The count brings the highest bit of a word that is not 0 to the top.
pub nlz_lem :
    (x : ℕ)
    → 0 < x
    → x < two_32
    → (2 ^ 31 ≤ x * 2 ^ nlz x) × (x * 2 ^ nlz x < two_32) × (nlz x ≤ 31)
unfolding nlz
nlz_lem x pos h = from _ (
    narrow_lem _ 2 0x3fffffff
      (narrow_lem _ 4 0x0fffffff
        (narrow_lem _ 8 0x00ffffff (narrow_lem _ 16 0x0000ffff start refl refl) refl refl) refl
        refl)
      refl refl)
  where
    start : Shifted x 1 0 (0, x)
    start = record { word = omega arith; least = omega arith; fits = h; count = omega arith }

    from :
        (s : ℕ × ℕ)
        → Shifted x (suc 0x3fffffff) 30 s
        → let n = if leb s.1 0x7fffffff then s.0 + 1 else s.0 in
          (2 ^ 31 ≤ x * 2 ^ n) × (x * 2 ^ n < two_32) × (n ≤ 31)
    from (n, y) k = elim (Bool-cases (leb y 0x7fffffff)) [
      | inl e ↦ rw e (longer (leb→le y 0x7fffffff e))
      | inr e ↦
          rw e (ground (arith, k.word), ground (arith, k.word, k.fits), omega (arith, k.count))
    ]
      where
        longer :
            y ≤ 0x7fffffff → (2 ^ 31 ≤ x * 2 ^ (n + 1)) × (x * 2 ^ (n + 1) < two_32) × (n + 1 ≤ 31)
        longer small =
            let double : x * 2 ^ (n + 1) ≡ y * 2 =
              ap (λ z. x * z) (pow_add n 1)
              ∙ sym (Nat.mul_assoc x (2 ^ n) 2)
              ∙ ap (λ z. z * 2) (sym k.word) in
            (omega (arith, k.least), omega arith, omega (arith, k.count))
