-- ===== src/Arithmetic/Unsigned.antt =====
-- Unsigned division in lib/arithmetic.c.
use native.Mathlib.Nat
use mathlib.Core.Bool.{false≢true}
use oscourse_all_files.Common.{
  ℕ, ◌+◌, ◌-◌, ◌*◌, ◌/◌, ◌^◌, ◌%◌, ◌≤◌, ◌<◌, ◌≡◌, ◌∙◌, refl, sym, ap, Bool-cases, inl, inr, ◌⊎◌,
  ltb, if◌then◌else◌, arith, two_32, ◌==◌, ok, ◌>>=◌, dec_lt, ℕ_discrete, ◌≢◌, ltb→lt, ==_iff,
}
use oscourse_all_files.Arithmetic.{two_64, sub_64, mul_64, divl, nlz, udiv64, umod64, umoddi3}
use oscourse_all_files.Arithmetic.Shift.{pow_add, nlz_lem}

-- The instruction divides where the quotient fits.
divl_lem : (n d : ℕ) → 0 < d → n < d * two_32 → divl n d ≡ ok (n / d)
unfolding divl
divl_lem n d pos h =
    let q : n / d < two_32 = (Nat.div-lt_iff_lt-mul pos).1 (omega (arith, Nat.mul_comm d two_32)) in
    ground arith

module _ (n d : ℕ) (hn : n < two_64) (pos : 0 < d) where
  -- The high word is divided first, then its remainder with the low word.
  short_lem :
      d < two_32
      → (divl ((two_32 * (n / two_32 % two_32 % (d % two_32)) + n % two_32) % two_64) (d % two_32)
          >>= λ q. ok ((q + two_32 * (n / two_32 % two_32 / (d % two_32))) % two_64))
        ≡ ok (n / d)
  short_lem small =
      let d_word : d % two_32 ≡ d = omega arith in
      let n_high : n / two_32 % two_32 ≡ n / two_32 = omega arith in
      let a : ℕ = n / two_32 in
      let x : ℕ = two_32 * (a % d) + n % two_32 in
      let rest : a % d < d = Nat.mod-lt a pos in
      let fits : x < d * two_32 = omega arith in
      let x_word : x % two_64 ≡ x = omega arith in
      let split : n ≡ d * (two_32 * (a / d)) + x = omega (
        arith,
        Nat.div-add-mod a d,
        Nat.mul_comm d (two_32 * (a / d)),
        Nat.mul_assoc two_32 (a / d) d,
        Nat.mul_comm d (a / d),
      ) in
      let quotient : n / d ≡ two_32 * (a / d) + x / d =
        ap (λ z. z / d) split ∙ Nat.mul-add-div pos (two_32 * (a / d)) x in
      let sum : (x / d + two_32 * (a / d)) % two_64 ≡ n / d = omega (arith, Nat.div-le_self n d) in
      rw (d_word, n_high, x_word, divl_lem x d pos fits) (ap ok sum)

too_large :
    (q m w f : ℕ)
    → m < f
    → 2 ^ 31 * f ≤ w
    → w < (q + 1) * m
    → (q + 1) * m + (q + 1) ≤ (q + 1) * f
    → (q + 2) * f < 2 ^ 33
    → ⊥
too_large q m w f hm large below by_f bounded =
    let low : f < 4 = omega (arith, Nat.add-mul q 2 f, Nat.add-mul q 1 f) in
    elim (ℕ_discrete f 3) [
      | yes e ↦ absurd (omega (arith, ap (λ z. (q + 1) * z) e, ap (λ z. (q + 2) * z) e))
      | no ne3 ↦ elim (ℕ_discrete f 2) [
        | yes e ↦ absurd (omega (arith, ap (λ z. (q + 1) * z) e, ap (λ z. (q + 2) * z) e))
        | no ne2 ↦
            let none_left : m ≡ 0 = omega arith in
            absurd (omega (arith, ap (λ z. (q + 1) * z) none_left))
      ]
    ]

-- A quotient by a divisor with its low bits cleared is right or one too large.
estimate :
    (n v f m q : ℕ)
    → 2 ^ 31 ≤ v
    → m < f
    → n < two_64
    → q * (v * f + m) ≤ n
    → n < (q + 1) * (v * f + m)
    → n < (q + 2) * (v * f)
estimate n v f m q hv hm hn lo hi = elim (dec_lt n ((q + 2) * (v * f))) [
  | yes h ↦ h
  | no h ↦
      let w : ℕ = v * f in
      let large : 2 ^ 31 * f ≤ w = Nat.mul-le-mul_right f hv in
      let sums : (q + 2) * w ≡ (q + 1) * w + w =
        omega (arith, Nat.add-mul q 1 w, Nat.add-mul q 2 w) in
      let below : w < (q + 1) * m = omega (arith, Nat.mul-add (q + 1) w m) in
      let by_f : (q + 1) * m + (q + 1) ≤ (q + 1) * f =
        omega (arith, Nat.mul-le-mul_left (q + 1) hm, Nat.mul-add (q + 1) m 1) in
      let scaled : (q + 2) * (2 ^ 31 * f) ≤ (q + 2) * w = Nat.mul-le-mul_left (q + 2) large in
      let bounded : (q + 2) * f < 2 ^ 33 = omega (
        arith,
        Nat.mul_assoc (q + 2) (2 ^ 31) f,
        Nat.mul_comm (q + 2) (2 ^ 31),
        Nat.mul_assoc (2 ^ 31) (q + 2) f,
        Nat.add-mul q 2 f,
      ) in
      absurd (too_large q m w f hm large below by_f bounded)
]

module _ (n d : ℕ) (hn : n < two_64) (hd : d < two_64) (wide : two_32 ≤ d) (le : d ≤ n) where
  abbrev s : ℕ
  s = nlz (d / two_32 % two_32)

  abbrev g : ℕ
  g = 2 ^ (31 - s)

  abbrev f : ℕ
  f = g * 2

  -- The divisor given to DIVL: its highest bits.
  abbrev v : ℕ
  v = d * 2 ^ s % two_64 / two_32 % two_32

  normal : (v ≡ d / f) × (2 ^ 31 ≤ v) × (0 < f)
  normal =
      let d1 : ℕ = d / two_32 % two_32 in
      let e : ℕ = 2 ^ s in
      let (high, low, count) = nlz_lem d1 (omega arith) (omega arith) in
      let whole : s + (31 - s) ≡ 31 = omega arith in
      let scale : f * e ≡ two_32 =
        omega (
          arith,
          pow_add s (31 - s),
          ap (λ z. 2 ^ z) whole,
          Nat.mul_assoc e g 2,
          Nat.mul_comm f e,
        ) in
      let pos : 0 < f = omega (arith, Nat.one-le-pow (31 - s) 2 (omega arith)) in
      let d1_small : d1 < f = Nat.lt_of_mul-lt-mul_right e (omega arith) in
      let d_small : d < f * two_32 = omega arith in
      let product : d * e < two_64 = omega (
        arith,
        Nat.mul-lt-mul_of_pos_right d_small (Nat.one-le-pow s 2 (omega arith)),
        Nat.mul_assoc f two_32 e,
        Nat.mul_comm two_32 e,
        Nat.mul_assoc f e two_32,
      ) in
      let by_e : two_32 * d1 * e ≤ d * e = Nat.mul-le-mul_right e (omega arith) in
      let top : two_32 * (d1 * e) ≤ d * e = omega (arith, by_e, Nat.mul_assoc two_32 d1 e) in
      let short : v ≡ d * e / two_32 = omega arith in
      (
        short
            ∙ ap (λ z. d * e / z) (sym scale)
            ∙ Nat.mul-div-mul_right d f (Nat.one-le-pow s 2 (omega arith)),
        omega arith,
        pos,
      )

  abbrev q : ℕ
  q = n / d

  quotient_cases : (n / 2 / v / g ≡ q) ⊎ (n / 2 / v / g ≡ q + 1)
  quotient_cases =
      let (v_eq, high, pos) = normal in
      let w : ℕ = v * f in
      let merged : n / 2 / v / g ≡ n / w =
        Nat.div-div-eq-div-mul (n / 2) v g
        ∙ Nat.div-div-eq-div-mul n 2 (v * g)
        ∙ ap (λ z. n / z) (omega (arith, Nat.mul_assoc v g 2)) in
      let d_split : w + d % f ≡ d = ap (λ z. z * f + d % f) v_eq ∙ Nat.div-add-mod' d f in
      let pos_d : 0 < d = omega arith in
      let pos_w : 0 < w = omega (arith, Nat.mul-le-mul_right f high) in
      let by_q : q * w ≤ q * d = Nat.mul-le-mul_left q (omega arith) in
      let lower : q ≤ n / w =
        (Nat.le-div_iff_mul-le pos_w).1 (omega (arith, Nat.div-mul-le_self n d, by_q)) in
      let upper : n / w < q + 2 = (Nat.div-lt_iff_lt-mul pos_w).1 (
        estimate n v f (d % f) q high (Nat.mod-lt d pos) hn
          (omega (arith, Nat.div-mul-le_self n d, ap (λ z. q * z) d_split))
          (omega (
            arith,
            Nat.lt-mul-div-succ n pos_d,
            Nat.mul_comm d (q + 1),
            ap (λ z. (q + 1) * z) d_split,
          ))) in
      omega arith

  below : (0 < q) × ((q - 1) * d + d ≡ q * d) × (q * d ≤ n) × (n < q * d + d)
  below =
      let pos_d : 0 < d = omega arith in
      let pos_q : 1 ≤ q = (Nat.le-div_iff_mul-le pos_d).1 (omega arith) in
      let back : q - 1 + 1 ≡ q = omega arith in
      (
        pos_q,
        omega (arith, Nat.add-mul (q - 1) 1 d, ap (λ z. z * d) back),
        Nat.div-mul-le_self n d,
        omega (arith, Nat.lt-mul-div-succ n pos_d, Nat.mul_comm d (q + 1), Nat.add-mul q 1 d),
      )

  long_lem :
      (divl (n / 2) v >>= λ t.
      let q = t / g in let q' = sub_64 q 1 in ok (if ltb (sub_64 n (mul_64 q' d)) d then q' else q))
      ≡ ok (n / d)
  long_lem =
      let (_, high, _) = normal in
      rw (divl_lem (n / 2) v (omega arith) (omega arith)) (ap ok (from quotient_cases))
    where
      from :
          {x : ℕ}
          → (x ≡ q) ⊎ (x ≡ q + 1)
          → (if ltb (sub_64 n (mul_64 (sub_64 x 1) d)) d then sub_64 x 1 else x) ≡ q
      from (inl e) =
          let y : sub_64 q 1 ≡ q - 1 = omega (arith, below) in
          let p : mul_64 (q - 1) d ≡ (q - 1) * d = omega (arith, below) in
          rw (e, y, p) (ground (arith, below))
      from (inr e) =
          let y : sub_64 (q + 1) 1 ≡ q = omega (arith, below) in
          let p : mul_64 q d ≡ q * d = omega (arith, below) in rw (e, y, p) (ground (arith, below))

-- For 64-bit words `n` and `d`, `d` not 0, `udiv64` returns the quotient of `n` by `d`, rounded
-- down: no division traps, neither of the two that a short divisor takes nor the one by the
-- highest bits of a long divisor.
pub udiv64_lem : (n d : ℕ) → n < two_64 → d < two_64 → 0 < d → udiv64 n d ≡ ok (n / d)
unfolding udiv64
udiv64_lem n d hn hd pos = elim (Bool-cases (d / two_32 == 0)) [
  | inl e ↦
      let small : d / two_32 ≡ 0 = (==_iff (d / two_32) 0).0 e in
      rw e (short_lem n d hn pos (omega arith))
  | inr e ↦
      let wide : d / two_32 ≢ 0 = λ x. false≢true (sym e ∙ (==_iff (d / two_32) 0).1 x) in
      rw e (elim (Bool-cases (ltb n d)) [
        | inl lt ↦ rw lt (ap ok (sym (Nat.div-eq_of_lt (ltb→lt n d lt))))
        | inr ge ↦ rw ge (long_lem n d hn hd (omega arith) (ground arith))
      ])
]

-- For 64-bit words `n` and `d`, `d` not 0, `__umoddi3` returns the low 32 bits of the remainder
-- of `n` by `d`.
pub umoddi3_lem : (n d : ℕ) → n < two_64 → d < two_64 → 0 < d → umoddi3 n d ≡ ok (n % d % two_32)
unfolding umoddi3 umod64
umoddi3_lem n d hn hd pos =
    let q : ℕ = n / d in
    let product : mul_64 d q ≡ d * q = omega (arith, Nat.div-add-mod n d) in
    let rest : sub_64 n (d * q) ≡ n % d = omega (arith, Nat.div-add-mod n d) in
    rw (udiv64_lem n d hn hd pos, product, rest) refl
