-- ===== src/FreeMap.antt =====
-- filesys/free-map.c: the free map, one bit for each sector of the file system device.
-- `bitmap_write` stands for the call of that function with the open free map file: it writes the
-- map to the sectors of the file, which are part of a state of any type, and answers whether all
-- of it was written.
pub mod Sectors
pub mod Count
pub mod Release
pub mod Init
use oscourse_all_files.Common.{
  ℕ, Bool, true, false, not, ◌&&◌, Option, none, some, List, Result, ok, panic, ◌>>=◌, ◌>>◌, assert,
  ◌==◌, if◌then◌else◌,
}
use oscourse_all_files.Bitmap.{
  Bitmap, bitmap_error, bitmap_create, bitmap_mark, bitmap_all, bitmap_set_multiple,
  bitmap_scan_and_flip,
}

abbrev pub free_map_sector : ℕ
free_map_sector = 0

abbrev pub root_dir_sector : ℕ
root_dir_sector = 1

-- The module's variables: the map, and whether `free_map_file` is not NULL.
pub record FreeMap : Type 0 where
  pub map : Bitmap
  pub has_file : Bool

-- PANIC on a failed creation.
marked : Option Bitmap → Result FreeMap
marked none = panic
marked (some b) =
    ok (record {
      map = bitmap_mark (bitmap_mark b free_map_sector) root_dir_sector;
      has_file = false;
    })

-- `device_size` is `block_size (fs_device)`; the other arguments are those of `bitmap_create`.
pub free_map_init : ℕ → Bool → Option (List ℕ) → Result FreeMap
unfolding marked
free_map_init device_size header block = do b ← bitmap_create device_size header block; marked b

module _ {S : Type 0} (bitmap_write : Bitmap → S → Result (Bool × S)) where
  -- The sector that is stored in `*sectorp`, or that the call returns false.
  unfoldable pub free_map_allocate : FreeMap → S → ℕ → Result (Option ℕ × FreeMap × S)
  free_map_allocate f st cnt = do
    (sector, map) ← bitmap_scan_and_flip f.map 0 cnt false
    (written, st) ←
        if not (sector == bitmap_error) && f.has_file then bitmap_write map st else ok (true, st)
    if written
        then ok (if sector == bitmap_error then none else some sector, record f { map = map }, st)
        else (bitmap_set_multiple map sector cnt false >>= λ map'.
            ok (none, record f { map = map' }, st))

  -- The answer of the write is ignored. Where the file is NULL, `bitmap_write` faults on it: a panic
  -- of the kernel.
  unfoldable pub free_map_release : FreeMap → S → ℕ → ℕ → Result (FreeMap × S)
  free_map_release f st sector cnt = do
    all ← bitmap_all f.map sector cnt
    assert all
    map ← bitmap_set_multiple f.map sector cnt false
    if f.has_file
        then (bitmap_write map st >>= λ (_, st). ok (record f { map = map }, st))
        else panic
