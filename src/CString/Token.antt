-- ===== src/CString/Token.antt =====
-- The tokens that strtok_r of lib/string.c finds.
use oscourse_all_files.Common.{
  ℕ, ◌≡◌, ◌⊎◌, inl, inr, refl, ◌∙◌, ap, true, false, Option, none, some, List, [], ◌∷◌, ◌++◌, All,
  Bool-cases, All-append,
}
use oscourse_all_files.CString.{
  is_found, strchr, skip_delimiters, split_token, after_token, next_token, strtok_r,
}

module _ (delimiters : List ℕ) where
  -- `strchr` finds the character among the delimiters.
  abbrev pub IsDelimiter : ℕ → Type 0
  IsDelimiter c = is_found (strchr delimiters c) ≡ true

  abbrev pub IsOther : ℕ → Type 0
  IsOther c = is_found (strchr delimiters c) ≡ false

  abbrev Skipped : List ℕ → List ℕ → Type 0
  Skipped s r =
      (skipped : List ℕ) × (s ≡ skipped ++ r)
      × All IsDelimiter skipped
      × ((r ≡ []) ⊎ ((c : ℕ) × (r' : List ℕ) × (r ≡ c ∷ r') × IsOther c))

  skip_delimiters_lem : (s : List ℕ) → Skipped s (skip_delimiters delimiters s)
  unfolding skip_delimiters
  skip_delimiters_lem [] = ([], refl, tt, inl refl)
  skip_delimiters_lem (x ∷ s) = elim (Bool-cases (is_found (strchr delimiters x))) [
    | inl h ↦
        rw h (let (p, e, a, r) = skip_delimiters_lem s in (x ∷ p, ap (λ t. x ∷ t) e, (h, a), r))
    | inr h ↦ rw h ([], refl, tt, inr (x, s, refl, h))
  ]

  abbrev Split : List ℕ → List ℕ × List ℕ → Type 0
  Split s r =
      (s ≡ r.0 ++ r.1)
      × All IsOther r.0
      × ((r.1 ≡ []) ⊎ ((c : ℕ) × (r' : List ℕ) × (r.1 ≡ c ∷ r') × IsDelimiter c))

  split_token_lem : (s : List ℕ) → Split s (split_token delimiters s)
  unfolding split_token
  split_token_lem [] = (refl, tt, inl refl)
  split_token_lem (x ∷ s) = elim (Bool-cases (is_found (strchr delimiters x))) [
    | inl h ↦ rw h (refl, tt, inr (x, s, refl, h))
    | inr h ↦ rw h (let (e, a, r) = split_token_lem s in (ap (λ t. x ∷ t) e, (h, a), r))
  ]

  starts :
      (x : ℕ) (r : List ℕ)
      → IsOther x
      → split_token delimiters (x ∷ r)
        ≡ (x ∷ (split_token delimiters r).0, (split_token delimiters r).1)
  unfolding split_token
  starts x r h = rw h refl

  -- What a call finds in `s`.
  abbrev pub Tokenized : List ℕ → Option (List ℕ) × List ℕ → Type 0
  Tokenized s r =
      ((r ≡ (none, [])) × All IsDelimiter s)
      ⊎ ((before : List ℕ) × (c : ℕ) × (token : List ℕ) × (gap : List ℕ) × (rest : List ℕ) × (r
            ≡ (some (c ∷ token), rest))
          × (s ≡ before ++ ((c ∷ token) ++ (gap ++ rest)))
          × All IsDelimiter before
          × All IsOther (c ∷ token)
          × (((gap ≡ []) × (rest ≡ [])) ⊎ ((d : ℕ) × (gap ≡ d ∷ []) × IsDelimiter d)))

  -- A call of `strtok_r` on `s` finds no token exactly where `s` has only delimiters. Otherwise
  -- the token is not empty and has no delimiter, `s` is delimiters, the token, one delimiter and
  -- the rest for the next call, or the token ends `s` and the rest is empty.
  pub strtok_r_lem : (s : List ℕ) → Tokenized s (strtok_r s delimiters)
  unfolding strtok_r next_token
  strtok_r_lem s = from (skip_delimiters delimiters s) refl (skip_delimiters_lem s)
    where
      token_at :
          (x : ℕ) (r p : List ℕ)
          → skip_delimiters delimiters s ≡ x ∷ r
          → IsOther x
          → s ≡ p ++ (x ∷ r)
          → All IsDelimiter p
          → Split r (split_token delimiters r)
          → Tokenized s (strtok_r s delimiters)
      token_at x r p e h q a (e1, a1, end) = cut end
        where
          token : List ℕ
          token = (split_token delimiters r).0

          left : List ℕ
          left = (split_token delimiters r).1

          runs : strtok_r s delimiters ≡ (some (x ∷ token), after_token left)
          runs =
              ap (next_token delimiters) e
              ∙ ap (λ (t : List ℕ × List ℕ). (some t.0, after_token t.1)) (starts x r h)

          parts : (t : List ℕ) → left ≡ t → s ≡ p ++ ((x ∷ token) ++ t)
          parts t o = q ∙ ap (λ u. p ++ (x ∷ u)) (e1 ∙ ap (λ u. token ++ u) o)

          cut :
              (left ≡ []) ⊎ ((c : ℕ) × (r' : List ℕ) × (left ≡ c ∷ r') × IsDelimiter c)
              → Tokenized s (strtok_r s delimiters)
          cut (inl o) = inr (
            p,
            x,
            token,
            [],
            [],
            runs ∙ ap (λ l. (some (x ∷ token), after_token l)) o,
            parts [] o,
            a,
            (h, a1),
            inl (refl, refl),
          )
          cut (inr (d, r', o, hd)) = inr (
            p,
            x,
            token,
            d ∷ [],
            r',
            runs ∙ ap (λ l. (some (x ∷ token), after_token l)) o,
            parts (d ∷ r') o,
            a,
            (h, a1),
            inr (d, refl, hd),
          )

      from :
          (r : List ℕ)
          → skip_delimiters delimiters s ≡ r
          → Skipped s r
          → Tokenized s (strtok_r s delimiters)
      from [] e (p, q, a, _) =
          inl (ap (next_token delimiters) e, rw q (All-append IsDelimiter p [] a tt))
      from (x ∷ r) e (p, q, a, inl none_left) = absurd (cc)
      from (x ∷ r) e (p, q, a, inr (c, r', same, h)) =
          let cx : c ≡ x = cc in token_at x r p e (rw (← cx) h) q a (split_token_lem r)
