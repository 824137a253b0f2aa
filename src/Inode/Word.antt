-- ===== src/Inode/Word.antt =====
-- Bytes and words of a sector in filesys/inode.c, before and after a copy into it.
use oscourse_all_files.Common.{
  ℕ, zero, suc, ◌+◌, ◌-◌, ◌*◌, ◌≤◌, ◌<◌, ◌≡◌, ◌⊎◌, inl, inr, refl, sym, ◌∙◌, ap, List, [], ◌∷◌,
  ◌++◌, length, get_or, replicate, take, drop, length-take, arith, two_32,
}
use oscourse_all_files.Cache.{copy_in, copy_out}
use oscourse_all_files.Inode.{word, bytes_of}

get_or-append_left :
    (xs ys : List ℕ) (j : ℕ) → j < length xs → get_or (xs ++ ys) j 0 ≡ get_or xs j 0
get_or-append_left [] ys j h = absurd (omega arith)
get_or-append_left (x ∷ xs) ys zero h = refl
get_or-append_left (x ∷ xs) ys (suc j) h = get_or-append_left xs ys j (omega arith)

get_or-append_right :
    (xs ys : List ℕ) (j : ℕ) → length xs ≤ j → get_or (xs ++ ys) j 0 ≡ get_or ys (j - length xs) 0
get_or-append_right [] ys j h = ap (λ i. get_or ys i 0) (omega arith)
get_or-append_right (x ∷ xs) ys zero h = absurd (omega arith)
get_or-append_right (x ∷ xs) ys (suc j) h =
    let same : j - length xs ≡ suc j - suc (length xs) = omega arith in
    get_or-append_right xs ys j (omega arith) ∙ ap (λ i. get_or ys i 0) same

pub get_or-take : (n : ℕ) (xs : List ℕ) (j : ℕ) → j < n → get_or (take n xs) j 0 ≡ get_or xs j 0
get_or-take zero xs j h = absurd (omega arith)
get_or-take (suc n) [] j h = refl
get_or-take (suc n) (x ∷ xs) zero h = refl
get_or-take (suc n) (x ∷ xs) (suc j) h = get_or-take n xs j (omega arith)

pub get_or-drop : (n : ℕ) (xs : List ℕ) (j : ℕ) → get_or (drop n xs) j 0 ≡ get_or xs (n + j) 0
get_or-drop zero xs j = ap (λ i. get_or xs i 0) (omega arith)
get_or-drop (suc n) [] j = refl
get_or-drop (suc n) (x ∷ xs) j =
    let next : suc (n + j) ≡ suc n + j = omega arith in
    get_or-drop n xs j ∙ ap (λ i. get_or (x ∷ xs) i 0) next

pub get_or-replicate : (n j : ℕ) → get_or {A = ℕ} (replicate n 0) j 0 ≡ 0
get_or-replicate zero j = refl
get_or-replicate (suc n) zero = refl
get_or-replicate (suc n) (suc j) = get_or-replicate n j

-- A byte after a copy of a buffer that fits.
module _ (xs : List ℕ) (o : ℕ) (b : List ℕ) (fits : o + length b ≤ length xs) where
  length-front : length (take o xs) ≡ o
  length-front = omega (arith, length-take o xs)

  abbrev tail : List ℕ
  tail = b ++ drop (o + length b) xs

  pub copy_in_before : (j : ℕ) → j < o → get_or (copy_in xs o b) j 0 ≡ get_or xs j 0
  copy_in_before j h =
      get_or-append_left (take o xs) tail j (omega (arith, length-front)) ∙ get_or-take o xs j h

  past_front : (j : ℕ) → o ≤ j → get_or (copy_in xs o b) j 0 ≡ get_or tail (j - o) 0
  past_front j h =
      get_or-append_right (take o xs) tail j (omega (arith, length-front))
      ∙ ap (λ i. get_or tail (j - i) 0) length-front

  pub copy_in_within :
      (j : ℕ) → o ≤ j → j < o + length b → get_or (copy_in xs o b) j 0 ≡ get_or b (j - o) 0
  copy_in_within j lo hi =
      past_front j lo ∙ get_or-append_left b (drop (o + length b) xs) (j - o) (omega arith)

  pub copy_in_after : (j : ℕ) → o + length b ≤ j → get_or (copy_in xs o b) j 0 ≡ get_or xs j 0
  copy_in_after j h =
      let index : o + length b + (j - o - length b) ≡ j = omega arith in
      past_front j (omega arith)
      ∙ get_or-append_right b (drop (o + length b) xs) (j - o) (omega arith)
      ∙ get_or-drop (o + length b) xs (j - o - length b)
      ∙ ap (λ i. get_or xs i 0) index

-- Four bytes from an offset on.
abbrev word_from : (ℕ → ℕ) → ℕ → ℕ
word_from g p = g (p + 0) + 256 * (g (p + 1) + 256 * (g (p + 2) + 256 * g (p + 3)))

word-copy_out : (xs : List ℕ) (p : ℕ) → word (copy_out xs p 4) ≡ word_from (λ i. get_or xs i 0) p
unfolding word
word-copy_out xs p =
    rw (byte 0 (omega arith), byte 1 (omega arith), byte 2 (omega arith), byte 3 (omega arith)) refl
  where
    byte : (i : ℕ) → i < 4 → get_or (copy_out xs p 4) i 0 ≡ get_or xs (p + i) 0
    byte i h = get_or-take 4 (drop p xs) i h ∙ get_or-drop p xs i

-- Words of the same four bytes are the same.
pub same_word :
    (xs ys : List ℕ) (p : ℕ)
    → ((i : ℕ) → p ≤ i → i < p + 4 → get_or xs i 0 ≡ get_or ys i 0)
    → word (copy_out xs p 4) ≡ word (copy_out ys p 4)
same_word xs ys p h =
    let at : (k : ℕ) → k < 4 → get_or xs (p + k) 0 ≡ get_or ys (p + k) 0 =
      λ k hk. h (p + k) (omega arith) (omega arith) in
    word-copy_out xs p
    ∙ rw (at 0 (omega arith), at 1 (omega arith), at 2 (omega arith), at 3 (omega arith)) refl
    ∙ sym (word-copy_out ys p)

pub length-bytes_of : (w : ℕ) → length (bytes_of w) ≡ 4
unfolding bytes_of
length-bytes_of w = refl

-- A word that is written is read back.
pub word-bytes_of :
    (xs : List ℕ) (o w : ℕ)
    → o + 4 ≤ length xs
    → w < two_32
    → word (copy_out (copy_in xs o (bytes_of w)) o 4) ≡ w
unfolding bytes_of
word-bytes_of xs o w fits small =
    word-copy_out (copy_in xs o (bytes_of w)) o
    ∙ rw (byte 0 (omega arith), byte 1 (omega arith), byte 2 (omega arith), byte 3 (omega arith))
        (omega arith)
  where
    byte : (i : ℕ) → i < 4 → get_or (copy_in xs o (bytes_of w)) (o + i) 0 ≡ get_or (bytes_of w) i 0
    byte i h =
        let index : o + i - o ≡ i = omega arith in
        copy_in_within xs o (bytes_of w) (omega (arith, length-bytes_of w)) (o + i) (omega arith)
          (omega (arith, length-bytes_of w))
        ∙ ap (λ k. get_or (bytes_of w) k 0) index

-- A word apart from the bytes that are copied in is as before.
pub word_apart :
    (xs : List ℕ) (o : ℕ) (b : List ℕ) (p : ℕ)
    → o + length b ≤ length xs
    → (p + 4 ≤ o) ⊎ (o + length b ≤ p)
    → word (copy_out (copy_in xs o b) p 4) ≡ word (copy_out xs p 4)
word_apart xs o b p fits (inl h) =
    same_word (copy_in xs o b) xs p (λ i lo hi. copy_in_before xs o b fits i (omega arith))
word_apart xs o b p fits (inr h) =
    same_word (copy_in xs o b) xs p (λ i lo hi. copy_in_after xs o b fits i (omega arith))
