-- ===== src/CString/Compare.antt =====
-- What the comparisons of lib/string.c answer.
use oscourse_all_files.Common.{
  ℕ, zero, suc, ◌<◌, ◌≡◌, ◌≢◌, ◌⊎◌, false, ltb, if◌then◌else◌, get_or, inl, inr, ◌↔◌, refl, ap₂,
  List, [], ◌∷◌, ◌==◌, All, arith, Bool-cases, ==_iff, ==_refl,
}
use oscourse_all_files.CString.{Sign, less, equal, greater, strcmp}

-- No character is 0.
abbrev pub IsString : List ℕ → Type 0
IsString s = All (λ c. 0 < c) s

strcmp_refl : (a : List ℕ) → strcmp a a ≡ equal
unfolding strcmp
strcmp_refl [] = refl
strcmp_refl (x ∷ a) = ground (arith, strcmp_refl a, ==_refl x)

only_equal : (a b : List ℕ) → IsString a → IsString b → strcmp a b ≡ equal → a ≡ b
unfolding strcmp
only_equal [] [] sa sb e = refl
only_equal [] (y ∷ b) sa (py, sb) e = absurd (ground (arith, e, py))
only_equal (x ∷ a) [] (px, sa) sb e = absurd (ground (arith, e, px))
only_equal (x ∷ a) (y ∷ b) (px, sa) (py, sb) e = elim (Bool-cases (x == y)) [
  | inl h ↦ ap₂ (λ x a. x ∷ a) ((==_iff x y).0 h) (only_equal a b sa sb (ground (arith, e, h, px)))
  | inr h ↦ absurd (ground (arith, e, h))
]

-- For strings, `strcmp` answers 0 exactly where they are equal.
pub strcmp_equal : (a b : List ℕ) → IsString a → IsString b → (strcmp a b ≡ equal) ↔ (a ≡ b)
strcmp_equal a b sa sb = (only_equal a b sa sb, λ e. rw (← e) (strcmp_refl a))

-- The answer on two strings that end with the character 0: they are equal, or it is by the first
-- characters that differ, as unsigned ones.
abbrev pub Compared : List ℕ → List ℕ → Sign → Type 0
Compared a b r =
    ((r ≡ equal) × (a ≡ b))
    ⊎ ((n : ℕ) × (r ≡ (if ltb (get_or a n 0) (get_or b n 0) then less else greater))
        × (get_or a n 0 ≢ get_or b n 0)
        × ((i : ℕ) → i < n → (0 < get_or a i 0) × (get_or a i 0 ≡ get_or b i 0)))

-- For strings, `strcmp` answers 0 where they are equal; else they differ first at some position,
-- before which both have the same characters and none is 0, and the answer is the sign of the
-- comparison of the two characters there, as unsigned ones, where a string that has ended has 0.
pub strcmp_lem : (a b : List ℕ) → IsString a → IsString b → Compared a b (strcmp a b)
unfolding strcmp
strcmp_lem [] [] sa sb = inl (refl, refl)
strcmp_lem [] (y ∷ b) sa (py, sb) =
    inr (0, ground (arith, py), (λ e. absurd (omega (arith, e, py))), λ i h. absurd (omega arith))
strcmp_lem (x ∷ a) [] (px, sa) sb =
    inr (0, ground (arith, px), (λ e. absurd (omega (arith, e, px))), λ i h. absurd (omega arith))
strcmp_lem (x ∷ a) (y ∷ b) (px, sa) (py, sb) = from (strcmp_lem a b sa sb)
  where
    nonzero : (x == 0) ≡ false
    nonzero = ground (arith, px)

    from : Compared a b (strcmp a b) → Compared (x ∷ a) (y ∷ b) (strcmp (x ∷ a) (y ∷ b))
    from c = elim (Bool-cases (x == y)) [
      | inl e ↦ let same : x ≡ y = (==_iff x y).0 e in rw (nonzero, e) (further_on same c)
      | inr e ↦
          let differ : x ≢ y = ground (arith, e) in
          inr (0, ground (arith, e, px), differ, λ i h. absurd (omega arith))
    ]
      where
        further_on : x ≡ y → Compared a b (strcmp a b) → Compared (x ∷ a) (y ∷ b) (strcmp a b)
        further_on same (inl (r, e)) = inl (r, ap₂ (λ x a. x ∷ a) same e)
        further_on same (inr (n, r, ne, before)) = inr (suc n, r, ne, upto)
          where
            upto :
                (i : ℕ)
                → i < suc n
                → (0 < get_or (x ∷ a) i 0) × (get_or (x ∷ a) i 0 ≡ get_or (y ∷ b) i 0)
            upto zero h = (px, same)
            upto (suc i) h = before i (omega arith)
