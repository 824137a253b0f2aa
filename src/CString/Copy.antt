-- ===== src/CString/Copy.antt =====
-- What strlcpy and strnlen of lib/string.c leave and answer.
use Prim.Native.Nat.{min}
use oscourse_all_files.Common.{
  ℕ, zero, suc, ◌-◌, ◌≤◌, ◌<◌, ◌≡◌, refl, sym, ◌∙◌, ap, inl, inr, false, List, [], ◌∷◌, ◌++◌, ◌==◌,
  ltb, if◌then◌else◌, length, take, drop, set, arith, Bool-cases,
}
use oscourse_all_files.CString.{copied, strlen, strlcpy, strnlen}
use oscourse_all_files.CString.Compare.{IsString}

-- The string at the start of a piece of memory.
pub string_in : List ℕ → List ℕ
string_in [] = []
string_in (x ∷ s) = let rest = string_in s in if x == 0 then [] else x ∷ rest

terminated :
    (n : ℕ) (src dst : List ℕ)
    → IsString src
    → n ≤ length src
    → n < length dst
    → string_in (set (take n src ++ drop n dst) n 0) ≡ take n src
unfolding string_in
terminated zero src [] s le lt = absurd (omega arith)
terminated zero src (y ∷ dst) s le lt = refl
terminated (suc n) [] dst s le lt = absurd (omega arith)
terminated (suc n) (x ∷ src) [] s le lt = absurd (omega arith)
terminated (suc n) (x ∷ src) (y ∷ dst) (px, s) le lt =
    let ne : (x == 0) ≡ false = ground (arith, px) in
    rw ne (ap (λ t. x ∷ t) (terminated n src dst s (omega arith) (omega arith)))

take_all : (n : ℕ) (s : List ℕ) → length s ≤ n → take n s ≡ s
take_all zero [] h = refl
take_all zero (x ∷ s) h = absurd (omega arith)
take_all (suc n) [] h = refl
take_all (suc n) (x ∷ s) h = ap (λ t. x ∷ t) (take_all n s (omega arith))

-- What the copy leaves in memory.
memory_after :
    (n : ℕ) (src dst : List ℕ)
    → n ≤ length src
    → n < length dst
    → set (take n src ++ drop n dst) n 0 ≡ take n src ++ (0 ∷ drop (suc n) dst)
memory_after zero src [] le lt = absurd (omega arith)
memory_after zero src (y ∷ dst) le lt = refl
memory_after (suc n) [] dst le lt = absurd (omega arith)
memory_after (suc n) (x ∷ src) [] le lt = absurd (omega arith)
memory_after (suc n) (x ∷ src) (y ∷ dst) le lt =
    ap (λ t. x ∷ t) (memory_after n src dst (omega arith) (omega arith))

-- For a string `src` and a size above 0 that `dst` has room for, `strlcpy` answers the length of
-- `src`, and leaves at `dst` a string that is the first size - 1 characters of `src`, or all of it.
-- Only that string and the 0 after it are written: with `n` the less of the length of `src` and
-- size - 1, the memory is the first `n` characters of `src`, a 0, and from n + 1 on what it was.
pub strlcpy_lem :
    (dst src : List ℕ) (size : ℕ)
    → IsString src
    → 0 < size
    → size ≤ length dst
    → ((strlcpy dst src size).0 ≡ strlen src)
      × (string_in (strlcpy dst src size).1 ≡ take (size - 1) src)
      × ((strlcpy dst src size).1
          ≡ take (min (strlen src) (size - 1)) src
            ++ (0 ∷ drop (suc (min (strlen src) (size - 1))) dst))
unfolding strlcpy strlen
strlcpy_lem dst src size s pos room =
    let some_room : (size == 0) ≡ false = ground (arith, pos) in
    let n : ℕ = copied (length src) size in
    rw some_room (
      refl,
      terminated n src dst s below within ∙ same,
      memory_after n src dst below within ∙ ap (λ n. take n src ++ (0 ∷ drop (suc n) dst)) least,
    )
  where
    least : copied (length src) size ≡ min (length src) (size - 1)
    least = elim (Bool-cases (ltb (length src) (size - 1))) [
      | inl e ↦ let h : length src < size - 1 = ground (arith, e) in rw e (omega arith)
      | inr e ↦ let h : size - 1 ≤ length src = ground (arith, e) in rw e (omega arith)
    ]

    below : copied (length src) size ≤ length src
    below = ground arith

    within : copied (length src) size < length dst
    within = ground (arith, pos, room)

    same : take (copied (length src) size) src ≡ take (size - 1) src
    same = elim (Bool-cases (ltb (length src) (size - 1))) [
      | inl e ↦ rw e (
          take_all (length src) src (omega arith)
          ∙ sym (take_all (size - 1) src (ground (arith, e))))
      | inr e ↦ rw e refl
    ]

-- `strnlen` answers the length of the string or `maxlen`, whichever is less.
pub strnlen_lem : (s : List ℕ) (maxlen : ℕ) → strnlen s maxlen ≡ min (strlen s) maxlen
unfolding strnlen strlen
strnlen_lem [] maxlen = omega arith
strnlen_lem (x ∷ s) zero = omega arith
strnlen_lem (x ∷ s) (suc maxlen) = omega (arith, strnlen_lem s maxlen)
