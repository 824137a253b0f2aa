-- ===== src/Bitmap/Single.antt =====
-- Setting, resetting, flipping and testing one bit of lib/kernel/bitmap.c.
use Prim.Native.Nat.{bit_xor}
use oscourse_all_files.Common.{
  ℕ, ◌-◌, ◌/◌, ◌%◌, ◌^◌, ◌≤◌, ◌<◌, ◌≡◌, refl, ap, ◌∙◌, Bool, true, false, not, inl, inr, ok, panic,
  ◌==◌, if◌then◌else◌, get_or, set, length, length-set, get_or-set_self, get_or-set_ne, All-set,
  All-get_or, two_32, arith, Bool-cases, ==_iff, ==_refl, lt→ltb,
}
use oscourse_all_files.Bits.{
  bit, bit-le, bit-mark, bit-reset, bit-flip, test-mask, mask-lt, bit_or-lt, bit_and-lt, bit_xor-lt,
}
use oscourse_all_files.Bitmap.{
  Bitmap, elem_idx, bitmap_mark, bitmap_reset, bitmap_flip, bitmap_set, bitmap_test,
}
use oscourse_all_files.Bitmap.View.{nth, IsValid}

-- `b'` is a bitmap of the same size as `b` whose bits are those of `f`.
pub record Becomes (b b' : Bitmap) (f : ℕ → Bool) : Type 0 where
  pub valid : IsValid b'
  pub same : b'.bit_cnt ≡ b.bit_cnt
  pub reads : (j : ℕ) → nth b' j ≡ f j

module _ {b : Bitmap} (v : IsValid b) (i : ℕ) (h : i < b.bit_cnt) where
  idx-lt : elem_idx i < length b.bits
  idx-lt = omega (arith, v.fits, v.enough)

  -- The word that holds bit `i`.
  abbrev word : ℕ
  word = get_or b.bits (elem_idx i) 0

  word-lt : word < 2 ^ 32
  word-lt = All-get_or (λ w. w < two_32) b.bits (elem_idx i) 0 v.words (omega arith)

  -- A new word where bit `i` is stored.
  nth-word :
      (w j : ℕ)
      → nth (record b { bits = set b.bits (elem_idx i) w }) j
        ≡ (if j / 32 == i / 32 then (bit (j % 32) w == 1) else nth b j)
  unfolding nth
  nth-word w j = elim (Bool-cases (j / 32 == i / 32)) [
    | inl e ↦ rw (e, (==_iff (j / 32) (i / 32)).0 e, get_or-set_self b.bits (i / 32) w 0 idx-lt)
    | inr e ↦ rw (e, get_or-set_ne b.bits (i / 32) (j / 32) w 0 (ground arith))
  ]

  -- A word operation that changes bit `i % 32` of the word to `new` changes bit `i` alone.
  becomes :
      (w : ℕ) (new : ℕ)
      → w < 2 ^ 32
      → ((k : ℕ) → k < 32 → bit k w ≡ (if k == i % 32 then new else bit k word))
      → Becomes b
          (record b { bits = set b.bits (elem_idx i) w })
          (λ j. if j == i then (new == 1) else nth b j)
  unfolding nth
  becomes w new hw bits = record {
    valid = record {
      fits = v.fits;
      enough = rw (length-set b.bits (elem_idx i) w) v.enough;
      words = All-set (λ w. w < two_32) b.bits (elem_idx i) w v.words hw;
    };
    same = refl;
    reads = λ j. rw (nth-word w j) (read j);
  }
    where
      read :
          (j : ℕ)
          → (if j / 32 == i / 32 then (bit (j % 32) w == 1) else nth b j)
            ≡ (if j == i then (new == 1) else nth b j)
      read j = elim (Bool-cases (j == i)) [
        | inl e ↦ rw (
          (==_iff j i).0 e,
          ==_refl (i / 32),
          ==_refl i,
          bits (i % 32) (omega arith),
          ==_refl (i % 32),
        )
        | inr e ↦ elim (Bool-cases (j / 32 == i / 32)) [
          | inl q ↦
              let ne : (j % 32 == i % 32) ≡ false = ground arith in
              let at : j / 32 ≡ i / 32 = (==_iff (j / 32) (i / 32)).0 q in
              rw (e, at, ==_refl (i / 32), bits (j % 32) (omega arith), ne)
          | inr q ↦ rw (e, q)
        ]
      ]

  pub bitmap_mark_lem : Becomes b (bitmap_mark b i) (λ j. if j == i then true else nth b j)
  unfolding bitmap_mark
  bitmap_mark_lem =
      becomes _ 1 (bit_or-lt 32 word (2 ^ (i % 32)) word-lt mask) (λ k hk. bit-mark k (i % 32) word)
    where
      mask : 2 ^ (i % 32) < 2 ^ 32
      mask = mask-lt (i % 32) (omega arith)

  pub bitmap_reset_lem : Becomes b (bitmap_reset b i) (λ j. if j == i then false else nth b j)
  unfolding bitmap_reset
  bitmap_reset_lem =
      becomes _ 0 (bit_and-lt 32 word _ word-lt)
        (λ k hk. bit-reset k (i % 32) word hk (omega arith))

  -- On a valid bitmap, for an index within it, `bitmap_set` returns a valid bitmap of the same size
  -- in which that bit has the value and all other bits are as before.
  pub bitmap_set_lem :
      (value : Bool)
      → (b' : Bitmap) × (bitmap_set b i value ≡ ok b')
        × Becomes b b' (λ j. if j == i then value else nth b j)
  unfolding bitmap_set
  bitmap_set_lem true = (bitmap_mark b i, rw (lt→ltb i b.bit_cnt h), bitmap_mark_lem)
  bitmap_set_lem false = (bitmap_reset b i, rw (lt→ltb i b.bit_cnt h), bitmap_reset_lem)

  -- On a valid bitmap, for an index within it, `bitmap_flip` gives a valid bitmap of the same
  -- size in which that bit is negated and all other bits are as before.
  pub bitmap_flip_lem : Becomes b (bitmap_flip b i) (λ j. if j == i then not (nth b i) else nth b j)
  unfolding bitmap_flip nth
  bitmap_flip_lem = record {
    valid = flipped.valid;
    same = flipped.same;
    reads = λ j. flipped.reads j ∙ ap (λ c. if j == i then c else nth b j) negate;
  }
    where
      new : ℕ
      new = 1 - bit (i % 32) word

      bits :
          (k : ℕ) → bit k (bit_xor word (2 ^ (i % 32))) ≡ (if k == i % 32 then new else bit k word)
      bits k = elim (Bool-cases (k == i % 32)) [
        | inl e ↦ rw (bit-flip k (i % 32) word, e, (==_iff k (i % 32)).0 e)
        | inr e ↦ rw (bit-flip k (i % 32) word, e)
      ]

      negate : (new == 1) ≡ not (bit (i % 32) word == 1)
      negate = ground (arith, bit-le (i % 32) word)

      flipped :
          Becomes b
            (record b { bits = set b.bits (elem_idx i) (bit_xor word (2 ^ (i % 32))) })
            (λ j. if j == i then (new == 1) else nth b j)
      flipped =
          becomes _ new (bit_xor-lt 32 word _ word-lt (mask-lt (i % 32) (omega arith)))
            (λ k _. bits k)

  -- Testing a bit within the bitmap gives that bit.
  pub bitmap_test_lem : bitmap_test b i ≡ ok (nth b i)
  unfolding bitmap_test nth
  bitmap_test_lem =
      rw (lt→ltb i b.bit_cnt h, test-mask (i % 32) word) (ground (arith, bit-le (i % 32) word))

-- Outside the bitmap both fail their ASSERT.
pub bitmap_set_panics :
    (b : Bitmap) (i : ℕ) (value : Bool) → b.bit_cnt ≤ i → bitmap_set b i value ≡ panic
unfolding bitmap_set
bitmap_set_panics b i value h = ground arith

pub bitmap_test_panics : (b : Bitmap) (i : ℕ) → b.bit_cnt ≤ i → bitmap_test b i ≡ panic
unfolding bitmap_test
bitmap_test_panics b i h = ground arith
