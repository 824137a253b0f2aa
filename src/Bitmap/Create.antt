-- ===== src/Bitmap/Create.antt =====
-- The bitmap that `bitmap_create` of lib/kernel/bitmap.c returns.
use oscourse_all_files.Common.{
  ℕ, ◌+◌, ◌<◌, ◌≡◌, true, false, some, List, ok, All, length, two_32, arith,
}
use oscourse_all_files.Bitmap.{Bitmap, elem_cnt, bitmap_size, bitmap_set_all, bitmap_create}
use oscourse_all_files.Bitmap.View.{nth, IsValid}
use oscourse_all_files.Bitmap.Range.{bitmap_set_multiple_lem}

-- For a size that, plus 31, fits 32 bits, and with memory for the header and for as many 32-bit
-- words as the bits need, whatever these hold, `bitmap_create` returns a valid bitmap of that
-- size in which all bits are false.
pub bitmap_create_lem :
    (bit_cnt : ℕ) (block : List ℕ)
    → bit_cnt + 31 < two_32
    → length block ≡ elem_cnt bit_cnt
    → All (λ w. w < two_32) block
    → (b : Bitmap) × (bitmap_create bit_cnt true (some block) ≡ ok (some b))
      × IsValid b
      × (b.bit_cnt ≡ bit_cnt)
      × ((j : ℕ) → j < bit_cnt → nth b j ≡ false)
unfolding bitmap_create bitmap_set_all bitmap_size
bitmap_create_lem bit_cnt block fits enough words =
    let (b, e, c) = bitmap_set_multiple_lem valid 0 bit_cnt false (omega arith) in
    (b, rw e, c.valid, c.same, λ j h. ground (arith, c.reads j))
  where
    raw : Bitmap
    raw = record { bit_cnt = bit_cnt; bits = block }

    valid : IsValid raw
    valid = record { fits = fits; enough = enough; words = words }
