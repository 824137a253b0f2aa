-- ===== src/Bitmap/View.antt =====
-- What a bitmap of lib/kernel/bitmap.c stands for: a sequence of truth values.
use oscourse_all_files.Common.{
  ℕ, ◌+◌, ◌/◌, ◌%◌, ◌≤◌, ◌<◌, ◌≡◌, Bool, ◌==◌, All, length, get_or, two_32,
}
use oscourse_all_files.Bits.{bit}
use oscourse_all_files.Bitmap.{Bitmap, elem_cnt}

-- Bit `i`, counted from the lowest bit of the first word.
unfoldable pub nth : Bitmap → ℕ → Bool
nth b i = bit (i % 32) (get_or b.bits (i / 32) 0) == 1

-- The words are 32 bits wide, and as many as the bits need.
pub record IsValid (b : Bitmap) : Type 0 where
  pub fits : b.bit_cnt + 31 < two_32
  pub enough : length b.bits ≡ elem_cnt b.bit_cnt
  pub words : All (λ w. w < two_32) b.bits

-- All of the `cnt` bits from `start` on have the value `v`.
abbrev pub AllBits : (ℕ → Bool) → ℕ → ℕ → Bool → Type 0
AllBits f start cnt v = (k : ℕ) → start ≤ k → k < start + cnt → f k ≡ v
