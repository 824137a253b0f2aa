-- ===== src/FreeMap/Init.antt =====
-- The free map that free_map_init of filesys/free-map.c makes.
use oscourse_all_files.Common.{
  ℕ, ◌+◌, ◌≤◌, ◌<◌, ◌≡◌, true, false, some, List, ok, ltb, length, All, two_32, arith,
}
use oscourse_all_files.Bitmap.{Bitmap, elem_cnt, bitmap_mark, bitmap_create}
use oscourse_all_files.Bitmap.View.{nth, IsValid}
use oscourse_all_files.Bitmap.Single.{bitmap_mark_lem}
use oscourse_all_files.Bitmap.Create.{bitmap_create_lem}
use oscourse_all_files.FreeMap.{FreeMap, free_map_init}
use oscourse_all_files.FreeMap.Sectors.{used, IsWellFormed}

-- For a device of at least two sectors, whose number plus 31 fits 32 bits, and with memory for
-- the bitmap, whatever that memory holds, `free_map_init` gives a well-formed free map in which
-- exactly the free map's own sector and that of the root directory are in use.
pub free_map_init_lem :
    (device_size : ℕ) (block : List ℕ)
    → 2 ≤ device_size
    → device_size + 31 < two_32
    → length block ≡ elem_cnt device_size
    → All (λ w. w < two_32) block
    → (f : FreeMap) × (free_map_init device_size true (some block) ≡ ok f)
      × IsWellFormed f
      × ((j : ℕ) → j < device_size → used f j ≡ ltb j 2)
unfolding free_map_init
free_map_init_lem device_size block two fits enough words =
    let (b, e, v, same, free) = bitmap_create_lem device_size block fits enough words in
    marks b e v same free
  where
    marks :
        (b : Bitmap)
        → bitmap_create device_size true (some block) ≡ ok (some b)
        → IsValid b
        → b.bit_cnt ≡ device_size
        → ((j : ℕ) → j < device_size → nth b j ≡ false)
        → (f : FreeMap) × (free_map_init device_size true (some block) ≡ ok f)
          × IsWellFormed f
          × ((j : ℕ) → j < device_size → used f j ≡ ltb j 2)
    marks b e v same free =
        let m = bitmap_mark_lem v 0 (omega (arith, same)) in
        let m' = bitmap_mark_lem m.valid 1 (omega (arith, same, m.same)) in
        (
          record { map = bitmap_mark (bitmap_mark b 0) 1; has_file = false },
          rw e,
          record {
            valid = m'.valid;
            map_used = ground (arith, m.reads 0, m'.reads 0);
            root_used = ground (arith, m.reads 1, m'.reads 1);
          },
          λ j h. ground (arith, m.reads j, m'.reads j, free j),
        )
