-- ===== src/Bitmap.antt =====
-- lib/kernel/bitmap.c: an array of bits packed into 32-bit words.
-- `size_t` and `elem_type` have 32 bits. `panic` is a failed ASSERT; memory from malloc and its
-- contents are arguments.
pub mod View
pub mod Single
pub mod Range
pub mod Scan
pub mod Queries
pub mod Create
use Prim.Native.Nat.{bit_and, bit_or, bit_xor}
use oscourse_all_files.Common.{
  ℕ, zero, suc, ◌+◌, ◌-◌, ◌*◌, ◌/◌, ◌%◌, ◌^◌, Bool, true, false, not, Option, none, some, List, [],
  Result, ok, panic, ◌>>=◌, ◌>>◌, assert, ltb, leb, ◌==◌, iff, if◌then◌else◌, get_or, set, add_size,
  two_32,
}

abbrev pub elem_bits : ℕ
elem_bits = 32

-- SIZE_MAX
abbrev pub bitmap_error : ℕ
bitmap_error = two_32 - 1

pub record Bitmap : Type 0 where
  pub bit_cnt : ℕ
  pub bits : List ℕ

abbrev pub elem_idx : ℕ → ℕ
elem_idx bit_idx = bit_idx / elem_bits

abbrev pub bit_mask : ℕ → ℕ
bit_mask bit_idx = 2 ^ (bit_idx % elem_bits)

-- DIV_ROUND_UP (bit_cnt, ELEM_BITS), whose sum wraps.
abbrev pub elem_cnt : ℕ → ℕ
elem_cnt bit_cnt = add_size bit_cnt (elem_bits - 1) / elem_bits

pub bitmap_size : Bitmap → ℕ
bitmap_size b = b.bit_cnt

-- `orl`
unfoldable pub bitmap_mark : Bitmap → ℕ → Bitmap
bitmap_mark b bit_idx =
    let idx = elem_idx bit_idx in
    let mask = bit_mask bit_idx in
    record b { bits = set b.bits idx (bit_or (get_or b.bits idx 0) mask) }

-- `andl`, with the complement of the mask
unfoldable pub bitmap_reset : Bitmap → ℕ → Bitmap
bitmap_reset b bit_idx =
    let idx = elem_idx bit_idx in
    let mask = bit_mask bit_idx in
    record b { bits = set b.bits idx (bit_and (get_or b.bits idx 0) (two_32 - 1 - mask)) }

-- `xorl`
pub bitmap_flip : Bitmap → ℕ → Bitmap
bitmap_flip b bit_idx =
    let idx = elem_idx bit_idx in
    let mask = bit_mask bit_idx in
    record b { bits = set b.bits idx (bit_xor (get_or b.bits idx 0) mask) }

unfoldable pub bitmap_set : Bitmap → ℕ → Bool → Result Bitmap
bitmap_set b idx value = do
  assert (ltb idx b.bit_cnt)
  if value then ok (bitmap_mark b idx) else ok (bitmap_reset b idx)

unfoldable pub bitmap_test : Bitmap → ℕ → Result Bool
bitmap_test b idx = do
  assert (ltb idx b.bit_cnt)
  ok (not (bit_and (get_or b.bits (elem_idx idx) 0) (bit_mask idx) == 0))

-- The asserts shared by the operations on a range.
unfoldable pub assert_range : Bitmap → ℕ → ℕ → Result (Unit {0})
assert_range b start cnt = do
  assert (leb start b.bit_cnt)
  assert (leb (add_size start cnt) b.bit_cnt)

-- The loop of `bitmap_set_multiple`, from round `i` with `n` rounds left.
unfoldable pub set_loop : ℕ → Bitmap → ℕ → ℕ → Bool → Result Bitmap
set_loop zero b start i value = ok b
set_loop (suc n) b start i value = do
  b' ← bitmap_set b (add_size start i) value
  set_loop n b' start (i + 1) value

unfoldable pub bitmap_set_multiple : Bitmap → ℕ → ℕ → Bool → Result Bitmap
unfolding assert_range
bitmap_set_multiple b start cnt value = do assert_range b start cnt; set_loop cnt b start 0 value

pub bitmap_set_all : Bitmap → Bool → Result Bitmap
bitmap_set_all b value = bitmap_set_multiple b 0 (bitmap_size b) value

-- The loop of `bitmap_count`.
count_loop : ℕ → Bitmap → ℕ → ℕ → Bool → ℕ → Result ℕ
count_loop zero b start i value value_cnt = ok value_cnt
count_loop (suc n) b start i value value_cnt = do
  t ← bitmap_test b (add_size start i)
  count_loop n b start (i + 1) value (if iff t value then value_cnt + 1 else value_cnt)

pub bitmap_count : Bitmap → ℕ → ℕ → Bool → Result ℕ
unfolding assert_range
bitmap_count b start cnt value = do assert_range b start cnt; count_loop cnt b start 0 value 0

-- The loop of `bitmap_contains`.
unfoldable pub contains_loop : ℕ → Bitmap → ℕ → ℕ → Bool → Result Bool
contains_loop zero b start i value = ok false
contains_loop (suc n) b start i value = do
  t ← bitmap_test b (add_size start i)
  elim (iff t value) [ true ↦ ok true | false ↦ contains_loop n b start (i + 1) value ]

unfoldable pub bitmap_contains : Bitmap → ℕ → ℕ → Bool → Result Bool
unfolding assert_range
bitmap_contains b start cnt value = do assert_range b start cnt; contains_loop cnt b start 0 value

pub bitmap_any : Bitmap → ℕ → ℕ → Result Bool
bitmap_any b start cnt = bitmap_contains b start cnt true

pub bitmap_none : Bitmap → ℕ → ℕ → Result Bool
bitmap_none b start cnt = do c ← bitmap_contains b start cnt true; ok (not c)

pub bitmap_all : Bitmap → ℕ → ℕ → Result Bool
bitmap_all b start cnt = do c ← bitmap_contains b start cnt false; ok (not c)

-- The loop of `bitmap_scan`, at `i` with `n` rounds left.
unfoldable pub scan_loop : ℕ → Bitmap → ℕ → ℕ → Bool → Result ℕ
scan_loop zero b i cnt value = ok bitmap_error
scan_loop (suc n) b i cnt value = do
  c ← bitmap_contains b i cnt (not value)
  elim c [ true ↦ scan_loop n b (i + 1) cnt value | false ↦ ok i ]

-- `i` runs from `start` to `bit_cnt - cnt`.
unfoldable pub bitmap_scan : Bitmap → ℕ → ℕ → Bool → Result ℕ
bitmap_scan b start cnt value = do
  assert (leb start b.bit_cnt)
  if leb cnt b.bit_cnt
      then scan_loop (b.bit_cnt - cnt + 1 - start) b start cnt value
      else ok bitmap_error

unfoldable pub bitmap_scan_and_flip : Bitmap → ℕ → ℕ → Bool → Result (ℕ × Bitmap)
bitmap_scan_and_flip b start cnt value = do
  idx ← bitmap_scan b start cnt value
  if idx == bitmap_error
      then ok (idx, b)
      else (bitmap_set_multiple b idx cnt (not value) >>= λ b'. ok (idx, b'))

-- `header` tells whether the first malloc succeeds; `block` is what the second returns.
pub bitmap_create : ℕ → Bool → Option (List ℕ) → Result (Option Bitmap)
bitmap_create bit_cnt false block = ok none
bitmap_create bit_cnt true none =
    if bit_cnt == 0
    then (bitmap_set_all (record { bit_cnt = bit_cnt; bits = [] }) false >>= λ b. ok (some b))
    else ok none
bitmap_create bit_cnt true (some block) = do
  b ← bitmap_set_all (record { bit_cnt = bit_cnt; bits = block }) false
  ok (some b)
