-- ===== src/CString/Search.antt =====
-- What the searches of lib/string.c find.
use oscourse_all_files.Common.{
  ℕ, zero, suc, ◌≤◌, ◌<◌, ◌≡◌, ◌≢◌, ◌⊎◌, inl, inr, refl, ap, false, Option, none, some, List, [],
  ◌∷◌, ◌==◌, length, get_or, take, All, arith, Bool-cases, ==_iff,
}
use oscourse_all_files.CString.{further, is_found, strchr, strspn, strlen}
use oscourse_all_files.CString.Token.{IsDelimiter, IsOther}

-- The first place of `c` in the string or at its null character, or that there is none.
abbrev pub Found : List ℕ → ℕ → Option ℕ → Type 0
Found s c r =
    ((i : ℕ) × (r ≡ some i)
      × (i ≤ length s)
      × (get_or s i 0 ≡ c)
      × ((j : ℕ) → j < i → get_or s j 0 ≢ c))
    ⊎ ((r ≡ none) × ((j : ℕ) → get_or s j 0 ≢ c))

-- `strchr` finds the first place of the character in the string, where the null character that ends
-- the string counts, or answers a null pointer when there is no such place.
pub strchr_lem : (s : List ℕ) (c : ℕ) → Found s c (strchr s c)
unfolding strchr
strchr_lem [] c = elim (Bool-cases (0 == c)) [
  | inl e ↦ rw e (inl (0, refl, omega arith, (==_iff 0 c).0 e, λ j h. absurd (omega arith)))
  | inr e ↦ rw e (inr (refl, λ j h. ground (arith, ==_iff 0 c, e, h)))
]
strchr_lem (x ∷ s) c = elim (Bool-cases (x == c)) [
  | inl e ↦ rw e (inl (0, refl, omega arith, (==_iff x c).0 e, λ j h. absurd (omega arith)))
  | inr e ↦ rw e (later e (strchr_lem s c))
]
  where
    none_before :
        {i : ℕ}
        → (x == c) ≡ false
        → ((j : ℕ) → j < i → get_or s j 0 ≢ c)
        → (j : ℕ) → j < suc i
        → get_or (x ∷ s) j 0 ≢ c
    none_before e f zero h q = ground (arith, ==_iff x c, e, q)
    none_before e f (suc j) h q = f j (omega arith) q

    later : {r : Option ℕ} → (x == c) ≡ false → Found s c r → Found (x ∷ s) c (further r)
    later e (inl (i, q, le, at, f)) = inl (suc i, ap further q, omega arith, at, none_before e f)
    later e (inr (q, f)) = inr (
      ap further q,
      λ j. elim j as (λ j. get_or (x ∷ s) j 0 ≢ c) [
        | zero ↦ λ h. ground (arith, ==_iff x c, e, h)
        | suc j ↦ f j
      ],
    )

-- `strspn` answers the length of the longest prefix all of whose characters are in `skip`.
pub strspn_lem :
    (s skip : List ℕ)
    → (strspn s skip ≤ strlen s)
      × All (IsDelimiter skip) (take (strspn s skip) s)
      × (strspn s skip < strlen s → IsOther skip (get_or s (strspn s skip) 0))
unfolding strspn strlen
strspn_lem [] skip = (omega arith, tt, λ h. absurd (omega arith))
strspn_lem (x ∷ s) skip = elim (Bool-cases (is_found (strchr skip x))) [
  | inl e ↦
      let (le, a, stop) = strspn_lem s skip in rw e (omega arith, (e, a), λ h. stop (omega arith))
  | inr e ↦ rw e (omega arith, tt, λ h. e)
]
