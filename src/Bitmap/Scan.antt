-- ===== src/Bitmap/Scan.antt =====
-- Finding, and finding and flipping, a group of equal bits of lib/kernel/bitmap.c.
use oscourse_all_files.Common.{
  ℕ, zero, suc, ◌+◌, ◌-◌, ◌≤◌, ◌<◌, ◌≡◌, ◌≢◌, ◌⊎◌, inl, inr, refl, sym, ◌∙◌, Bool, true, false, not,
  ok, Result, leb, ◌==◌, if◌then◌else◌, arith, Bool-cases, dec_lt, le→leb, leb→le,
}
use oscourse_all_files.Bitmap.{
  Bitmap, bitmap_error, bitmap_contains, scan_loop, bitmap_scan, bitmap_scan_and_flip,
}
use oscourse_all_files.Bitmap.View.{nth, IsValid, AllBits}
use oscourse_all_files.Bitmap.Single.{Becomes}
use oscourse_all_files.Bitmap.Range.{inside, Search, bitmap_contains_lem, bitmap_set_multiple_lem}

-- A group of `cnt` bits `value` starts at `i`, and none starts between `start` and `i`.
pub record IsFirst (f : ℕ → Bool) (start cnt i : ℕ) (value : Bool) : Type 0 where
  pub from_start : start ≤ i
  pub group : AllBits f i cnt value
  pub first : (j : ℕ) → start ≤ j → j < i → ¬ AllBits f j cnt value

-- What a scan of the groups within `size` bits answers.
abbrev pub Scanned : (ℕ → Bool) → ℕ → ℕ → ℕ → Bool → Result ℕ → Type 0
Scanned f start size cnt value r =
    ((i : ℕ) × (r ≡ ok i) × (i + cnt ≤ size) × IsFirst f start cnt i value)
    ⊎ ((r ≡ ok bitmap_error) × ((j : ℕ) → start ≤ j → j + cnt ≤ size → ¬ AllBits f j cnt value))

not-not : (v : Bool) → not (not v) ≡ v
not-not true = refl
not-not false = refl

not_self : (v : Bool) → v ≢ not v
not_self v h = ground arith

-- Where no group starts at `start`, the scan goes on from the next index.
Scanned-suc :
    (f : ℕ → Bool) (start size cnt : ℕ) (value : Bool) (r : Result ℕ)
    → ¬ AllBits f start cnt value
    → Scanned f (start + 1) size cnt value r
    → Scanned f start size cnt value r
Scanned-suc f start size cnt value r miss (inl (i, e, lt, g)) = inl (
  i,
  e,
  lt,
  record {
    from_start = omega (arith, g.from_start);
    group = g.group;
    first = λ j lo hi. elim (dec_lt start j) [
      | yes h ↦ g.first j (omega arith) hi
      | no h ↦ let q : start ≡ j = omega arith in rw q at miss
    ];
  },
)
Scanned-suc f start size cnt value r miss (inr (e, g)) = inr (
  e,
  λ j lo hi. elim (dec_lt start j) [
    | yes h ↦ g j (omega arith) hi
    | no h ↦ let q : start ≡ j = omega arith in rw q at miss
  ],
)

module _ {b : Bitmap} (v : IsValid b) (cnt : ℕ) (value : Bool) where
  -- One round of the loop.
  Round : ℕ → Result Bool → Type 0
  Round i r =
      ((r ≡ ok true) × ¬ AllBits (nth b) i cnt value)
      ⊎ ((r ≡ ok false) × AllBits (nth b) i cnt value)

  round : (i : ℕ) → i + cnt ≤ b.bit_cnt → Round i (bitmap_contains b i cnt (not value))
  unfolding Round
  round i h = from (bitmap_contains_lem v i cnt (not value) h)
    where
      from : {r : Result Bool} → Search (nth b) i cnt (not value) r → Round i r
      from (inl (e, (k, lo, hi, hit))) = inl (e, λ g. not_self value (sym (g k lo hi) ∙ hit))
      from (inr (e, g)) = inr (e, λ k lo hi. g k lo hi ∙ not-not value)

  -- `n` rounds are left at `i`.
  scan_loop_lem :
      (n i : ℕ)
      → b.bit_cnt + 1 - (i + cnt) ≡ n
      → Scanned (nth b) i b.bit_cnt cnt value (scan_loop n b i cnt value)
  unfolding scan_loop Round
  scan_loop_lem zero i h = inr (refl, λ j lo hi. absurd (omega arith))
  scan_loop_lem (suc n) i h = from (round i (omega arith)) (scan_loop_lem n (i + 1) (omega arith))
    where
      from :
          Round i (bitmap_contains b i cnt (not value))
          → Scanned (nth b) (i + 1) b.bit_cnt cnt value (scan_loop n b (i + 1) cnt value)
          → Scanned (nth b) i b.bit_cnt cnt value (scan_loop (suc n) b i cnt value)
      from (inl (e, miss)) rest =
          let go_on : scan_loop (suc n) b i cnt value ≡ scan_loop n b (i + 1) cnt value = rw e in
          rw go_on (Scanned-suc (nth b) i b.bit_cnt cnt value _ miss rest)
      from (inr (e, hit)) rest = inl (
        i,
        rw e,
        omega arith,
        record { from_start = omega arith; group = hit; first = λ j lo hi. absurd (omega arith) },
      )

  -- On a valid bitmap, from a `start` within it, `bitmap_scan` returns the least index at or after
  -- `start` where `cnt` bits equal to `value` begin, or BITMAP_ERROR when there is no such index.
  pub bitmap_scan_lem :
      (start : ℕ)
      → start ≤ b.bit_cnt
      → Scanned (nth b) start b.bit_cnt cnt value (bitmap_scan b start cnt value)
  unfolding bitmap_scan
  bitmap_scan_lem start h = elim (Bool-cases (leb cnt b.bit_cnt)) [
    | inl e ↦
        rw (le→leb start b.bit_cnt h, e)
          (scan_loop_lem (b.bit_cnt - cnt + 1 - start) start
            (omega (arith, leb→le cnt b.bit_cnt e)))
    | inr e ↦ rw (le→leb start b.bit_cnt h, e) (inr (refl, λ j lo hi. absurd (ground arith)))
  ]

  -- What `bitmap_scan_and_flip` answers, and the bitmap that it leaves.
  abbrev pub Flipped : ℕ → Result (ℕ × Bitmap) → Type 0
  Flipped start r =
      ((i : ℕ) × (b' : Bitmap) × (r ≡ ok (i, b'))
        × (i + cnt ≤ b.bit_cnt)
        × IsFirst (nth b) start cnt i value
        × Becomes b b' (λ j. if inside i cnt j then not value else nth b j))
      ⊎ ((r ≡ ok (bitmap_error, b))
          × ((j : ℕ) → start ≤ j → j + cnt ≤ b.bit_cnt → ¬ AllBits (nth b) j cnt value))

  -- On a valid bitmap, from a `start` within it, `bitmap_scan_and_flip` returns the least index at
  -- or after `start` where `cnt` bits equal to `value` begin, in a valid bitmap in which exactly
  -- these bits are flipped; or BITMAP_ERROR with the bitmap unchanged when there is none.
  pub bitmap_scan_and_flip_lem :
      (start : ℕ) → start ≤ b.bit_cnt → Flipped start (bitmap_scan_and_flip b start cnt value)
  unfolding bitmap_scan_and_flip
  bitmap_scan_and_flip_lem start h = from (bitmap_scan_lem start h)
    where
      from :
          Scanned (nth b) start b.bit_cnt cnt value (bitmap_scan b start cnt value)
          → Flipped start (bitmap_scan_and_flip b start cnt value)
      from (inl (i, e, lt, g)) =
          let (b', e', c) = bitmap_set_multiple_lem v i cnt (not value) lt in
          let ne : (i == bitmap_error) ≡ false = ground (arith, v.fits) in
          inl (i, b', rw e (rw ne (rw e')), lt, g, c)
      from (inr (e, g)) = inr (rw e, g)
