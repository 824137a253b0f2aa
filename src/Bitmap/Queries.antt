-- ===== src/Bitmap/Queries.antt =====
-- The questions about a range of bits that lib/kernel/bitmap.c derives from `bitmap_contains`.
use oscourse_all_files.Common.{ℕ, ◌+◌, ◌≤◌, ◌<◌, ◌≡◌, inl, inr, Bool, true, false, not, ok, arith}
use oscourse_all_files.Bitmap.{Bitmap, bitmap_contains, bitmap_any, bitmap_none, bitmap_all}
use oscourse_all_files.Bitmap.View.{nth, IsValid, AllBits}
use oscourse_all_files.Bitmap.Range.{Search, bitmap_contains_lem}

-- A bit of the range with the value.
abbrev pub Somewhere : (ℕ → Bool) → ℕ → ℕ → Bool → Type 0
Somewhere f s n value = (k : ℕ) × (s ≤ k) × (k < s + n) × (f k ≡ value)

module _ {b : Bitmap} (v : IsValid b) (start cnt : ℕ) (h : start + cnt ≤ b.bit_cnt) where
  contains_true :
      (value : Bool)
      → Somewhere (nth b) start cnt value
      → bitmap_contains b start cnt value ≡ ok true
  contains_true value (k, lo, hi, hit) = from (bitmap_contains_lem v start cnt value h)
    where
      from :
          Search (nth b) start cnt value (bitmap_contains b start cnt value)
          → bitmap_contains b start cnt value ≡ ok true
      from (inl (e, _)) = e
      from (inr (e, g)) = absurd (ground (arith, g k))

  contains_false :
      (value : Bool)
      → AllBits (nth b) start cnt (not value)
      → bitmap_contains b start cnt value ≡ ok false
  contains_false value all = from (bitmap_contains_lem v start cnt value h)
    where
      from :
          Search (nth b) start cnt value (bitmap_contains b start cnt value)
          → bitmap_contains b start cnt value ≡ ok false
      from (inl (e, (k, lo, hi, hit))) = absurd (ground (arith, all k))
      from (inr (e, g)) = e

  -- Each question, where the answer is yes and where it is no.
  pub bitmap_any_lem :
      (Somewhere (nth b) start cnt true → bitmap_any b start cnt ≡ ok true)
      × (AllBits (nth b) start cnt false → bitmap_any b start cnt ≡ ok false)
  unfolding bitmap_any
  bitmap_any_lem = (λ s. contains_true true s, λ a. contains_false true a)

  pub bitmap_none_lem :
      (AllBits (nth b) start cnt false → bitmap_none b start cnt ≡ ok true)
      × (Somewhere (nth b) start cnt true → bitmap_none b start cnt ≡ ok false)
  unfolding bitmap_none
  bitmap_none_lem = (λ a. rw (contains_false true a), λ s. rw (contains_true true s))

  -- On a valid bitmap, for a range within it, `bitmap_all` returns true where all bits of the range
  -- are true, and false where one of them is false.
  pub bitmap_all_lem :
      (AllBits (nth b) start cnt true → bitmap_all b start cnt ≡ ok true)
      × (Somewhere (nth b) start cnt false → bitmap_all b start cnt ≡ ok false)
  unfolding bitmap_all
  bitmap_all_lem = (λ a. rw (contains_false false a), λ s. rw (contains_true false s))
