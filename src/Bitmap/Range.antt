-- ===== src/Bitmap/Range.antt =====
-- Setting, counting and searching a range of bits of lib/kernel/bitmap.c.
use native.Mathlib.Nat.{add-zero}
use oscourse_all_files.Common.{
  ℕ, zero, suc, ◌+◌, ◌≤◌, ◌<◌, ◌≡◌, ◌⊎◌, inl, inr, refl, ap, ◌∙◌, Bool, true, false, not, ◌&&◌, ok,
  panic, Result, ltb, leb, ◌==◌, iff, if◌then◌else◌, arith, Bool-cases, add_size, dec_lt, le→leb,
  leb→le,
}
use oscourse_all_files.Bitmap.{
  Bitmap, bitmap_set, bitmap_test, set_loop, bitmap_set_multiple, count_loop, bitmap_count,
  contains_loop, bitmap_contains,
}
use oscourse_all_files.Bitmap.View.{nth, IsValid, AllBits}
use oscourse_all_files.Bitmap.Single.{Becomes, bitmap_set_lem, bitmap_test_lem, bitmap_set_panics}

-- `j` is one of the `n` indices from `s` on.
abbrev pub inside : ℕ → ℕ → ℕ → Bool
inside s n j = leb s j && ltb j (s + n)

inside-suc :
    (s n j : ℕ) (value old : Bool)
    → (if inside (s + 1) n j then value else (if j == s then value else old))
      ≡ (if inside s (suc n) j then value else old)
inside-suc s n j value old = ground arith

-- One round of the loops: the index `start + i` does not wrap within the bitmap.
module _ {b : Bitmap} (v : IsValid b) (start i : ℕ) (h : start + i < b.bit_cnt) where
  exact : add_size start i ≡ start + i
  exact = omega (arith, v.fits)

  set_round :
      (value : Bool)
      → (b' : Bitmap) × (bitmap_set b (add_size start i) value ≡ ok b')
        × Becomes b b' (λ j. if j == start + i then value else nth b j)
  set_round value =
      let (b', e, c) = bitmap_set_lem v (start + i) h value in
      (b', ap (λ k. bitmap_set b k value) exact ∙ e, c)

  test_round : bitmap_test b (add_size start i) ≡ ok (nth b (start + i))
  test_round = ap (bitmap_test b) exact ∙ bitmap_test_lem v (start + i) h

-- What the loop leaves behind: the `n` bits from `start + i` on hold `value`.
abbrev Filled : ℕ → Bitmap → ℕ → ℕ → Bool → Type 0
Filled n b start i value =
    (b' : Bitmap) × (set_loop n b start i value ≡ ok b')
    × Becomes b b' (λ j. if inside (start + i) n j then value else nth b j)

set_loop_suc :
    (n : ℕ) (b b' : Bitmap) (start i : ℕ) (value : Bool)
    → bitmap_set b (add_size start i) value ≡ ok b'
    → Becomes b b' (λ j. if j == start + i then value else nth b j)
    → Filled n b' start (i + 1) value
    → Filled (suc n) b start i value
unfolding set_loop
set_loop_suc n b b' start i value e c (b'', e', c') = (
  b'',
  rw e e',
  record {
    valid = c'.valid;
    same = c'.same ∙ c.same;
    reads = λ j. ground (arith, c'.reads j, c.reads j);
  },
)

set_loop_lem :
    (n : ℕ) (b : Bitmap) (start i : ℕ) (value : Bool)
    → IsValid b
    → start + i + n ≤ b.bit_cnt
    → Filled n b start i value
unfolding set_loop
set_loop_lem zero b start i value v h =
    (b, refl, record { valid = v; same = refl; reads = λ j. ground arith })
set_loop_lem (suc n) b start i value v h =
    next (set_round v start i (omega arith) value)
      (λ b' v' h'. set_loop_lem n b' start (i + 1) value v' h')
  where
    next :
        (b' : Bitmap) × (bitmap_set b (add_size start i) value ≡ ok b')
          × Becomes b b' (λ j. if j == start + i then value else nth b j)
        → ((b' : Bitmap)
            → IsValid b'
            → start + (i + 1) + n ≤ b'.bit_cnt
            → Filled n b' start (i + 1) value)
        → Filled (suc n) b start i value
    next (b', e, c) rest =
        set_loop_suc n b b' start i value e c (rest b' c.valid (omega (arith, c.same)))

set_loop_panics :
    (n : ℕ) (b : Bitmap) (start i : ℕ) (value : Bool)
    → IsValid b
    → start + i ≤ b.bit_cnt
    → b.bit_cnt < start + i + n
    → set_loop n b start i value ≡ panic
unfolding set_loop
set_loop_panics zero b start i value v le lt = absurd (omega arith)
set_loop_panics (suc n) b start i value v le lt = elim (dec_lt (start + i) b.bit_cnt) [
  | yes h ↦
      next h (set_round v start i h value)
        (λ b' v' p q. set_loop_panics n b' start (i + 1) value v' p q)
  | no h ↦ rw (stop (omega arith))
]
  where
    next :
        start + i < b.bit_cnt
        → (b' : Bitmap) × (bitmap_set b (add_size start i) value ≡ ok b')
          × Becomes b b' (λ j. if j == start + i then value else nth b j)
        → ((b' : Bitmap)
            → IsValid b'
            → start + (i + 1) ≤ b'.bit_cnt
            → b'.bit_cnt < start + (i + 1) + n
            → set_loop n b' start (i + 1) value ≡ panic)
        → set_loop (suc n) b start i value ≡ panic
    next h (b', e, c) rest = rw e (rest b' c.valid (omega (arith, c.same)) (omega (arith, c.same)))

    stop : b.bit_cnt ≤ start + i → bitmap_set b (add_size start i) value ≡ panic
    stop h = bitmap_set_panics b (add_size start i) value (omega (arith, v.fits))

-- How many of the `n` values of `f` from `s` on are `value`.
pub occurrences : (ℕ → Bool) → ℕ → ℕ → Bool → ℕ
occurrences f s zero value = 0
occurrences f s (suc n) value = (if iff (f s) value then 1 else 0) + occurrences f (s + 1) n value

count_loop_lem :
    (n : ℕ) {b : Bitmap} (start i : ℕ) (value : Bool) (acc : ℕ)
    → IsValid b
    → start + i + n ≤ b.bit_cnt
    → count_loop n b start i value acc ≡ ok (acc + occurrences (nth b) (start + i) n value)
unfolding count_loop occurrences
count_loop_lem zero start i value acc v h = ap ok (omega arith)
count_loop_lem (suc n) {b} start i value acc v h =
    rw (test_round v start i (omega arith))
      (count_loop_lem n start (i + 1) value _ v (omega arith) ∙ ap ok (ground arith))

-- Either a bit with the value is found, or none of the range has it.
abbrev pub Search : (ℕ → Bool) → ℕ → ℕ → Bool → Result Bool → Type 0
Search f s n value r =
    ((r ≡ ok true) × ((k : ℕ) × (s ≤ k) × (k < s + n) × (f k ≡ value)))
    ⊎ ((r ≡ ok false) × AllBits f s n (not value))

-- A search that does not stop at `s` goes on from there.
Search-suc :
    {f : ℕ → Bool} {s s' : ℕ} (n : ℕ) (value : Bool) {r : Result Bool}
    → iff (f s) value ≡ false
    → s' ≡ s + 1
    → Search f s' n value r
    → Search f s (suc n) value r
Search-suc n value miss next (inl (e, (k, lo, hi, hit))) =
    inl (e, (k, omega arith, omega arith, hit))
Search-suc {f} {s} n value miss next (inr (e, none)) = inr (e, λ k lo hi. none_from k lo hi)
  where
    none_from : (k : ℕ) → s ≤ k → k < s + suc n → f k ≡ not value
    none_from k lo hi = elim (Bool-cases (k == s)) [
      | inl q ↦ ground arith
      | inr q ↦ none k (ground arith) (omega arith)
    ]

contains_loop_lem :
    (n : ℕ) {b : Bitmap} (start i : ℕ) (value : Bool)
    → IsValid b
    → start + i + n ≤ b.bit_cnt
    → Search (nth b) (start + i) n value (contains_loop n b start i value)
unfolding contains_loop
contains_loop_lem zero start i value v h = inr (refl, λ k lo hi. absurd (omega arith))
contains_loop_lem (suc n) {b} start i value v h = elim (Bool-cases (iff here value)) [
  | inl e ↦
      let stop : contains_loop (suc n) b start i value ≡ ok true = ground (arith, tested) in
      inl (stop, (start + i, omega arith, omega arith, ground arith))
  | inr e ↦
      let go_on : contains_loop (suc n) b start i value ≡ contains_loop n b start (i + 1) value =
        ground (arith, tested) in
      rw go_on (
        Search-suc n value e (omega arith)
          (contains_loop_lem n start (i + 1) value v (omega arith)))
]
  where
    here : Bool
    here = nth b (start + i)

    tested : bitmap_test b (add_size start i) ≡ ok here
    tested = test_round v start i (omega arith)

module _ {b : Bitmap} (v : IsValid b) (start cnt : ℕ) where
  asserts :
      (start + cnt ≤ b.bit_cnt → leb start b.bit_cnt ≡ true)
      × (start + cnt ≤ b.bit_cnt → leb (add_size start cnt) b.bit_cnt ≡ true)
  asserts = (
    λ h. le→leb start b.bit_cnt (omega arith),
    λ h. le→leb (add_size start cnt) b.bit_cnt (omega (arith, v.fits)),
  )

  -- On a valid bitmap, a range within it is set: the call returns a valid bitmap of the same size
  -- in which the bits of the range have the value and all other bits are as before.
  pub bitmap_set_multiple_lem :
      (value : Bool)
      → start + cnt ≤ b.bit_cnt
      → (b' : Bitmap) × (bitmap_set_multiple b start cnt value ≡ ok b')
        × Becomes b b' (λ j. if inside start cnt j then value else nth b j)
  unfolding bitmap_set_multiple
  bitmap_set_multiple_lem value h =
      let (b', e, c) = set_loop_lem cnt b start 0 value v (omega arith) in
      (
        b',
        rw (asserts.0 h, asserts.1 h) e,
        record {
          valid = c.valid;
          same = c.same;
          reads =
              λ j. c.reads j ∙ ap (λ s. if inside s cnt j then value else nth b j) (add-zero start);
        },
      )

  -- On a valid bitmap, a range that ends past the bitmap panics, also where the sum of its start and
  -- its length wraps around at 2 ^ 32.
  pub bitmap_set_multiple_panics :
      (value : Bool) → b.bit_cnt < start + cnt → bitmap_set_multiple b start cnt value ≡ panic
  unfolding bitmap_set_multiple
  bitmap_set_multiple_panics value h = elim (Bool-cases (leb start b.bit_cnt)) [
    | inl e ↦ elim (Bool-cases (leb (add_size start cnt) b.bit_cnt)) [
      | inl e' ↦
          rw (e, e')
            (set_loop_panics cnt b start 0 value v (omega (arith, leb→le start b.bit_cnt e))
              (omega arith))
      | inr e' ↦ rw (e, e')
    ]
    | inr e ↦ rw e
  ]

  -- On a valid bitmap, for a range within it, `bitmap_count` returns the number of bits of the range
  -- that have the value.
  pub bitmap_count_lem :
      (value : Bool)
      → start + cnt ≤ b.bit_cnt
      → bitmap_count b start cnt value ≡ ok (occurrences (nth b) start cnt value)
  unfolding bitmap_count
  bitmap_count_lem value h =
      rw (asserts.0 h, asserts.1 h)
        (count_loop_lem cnt start 0 value 0 v (omega arith) ∙ ap ok from_start)
    where
      from_start :
          0 + occurrences (nth b) (start + 0) cnt value ≡ occurrences (nth b) start cnt value
      from_start = omega (arith, ap (λ s. occurrences (nth b) s cnt value) (add-zero start))

  pub bitmap_contains_lem :
      (value : Bool)
      → start + cnt ≤ b.bit_cnt
      → Search (nth b) start cnt value (bitmap_contains b start cnt value)
  unfolding bitmap_contains
  bitmap_contains_lem value h =
      rw (asserts.0 h, asserts.1 h)
        (from_start (contains_loop_lem cnt start 0 value v (omega arith)))
    where
      from_start :
          {r : Result Bool}
          → Search (nth b) (start + 0) cnt value r
          → Search (nth b) start cnt value r
      from_start s = rw (add-zero start) at s
