-- ===== src/Tests/FreeMaps.antt =====
-- filesys/free-map.c on a device of 40 sectors.
use oscourse_all_files.Common.{
  ℕ, ◌<◌, ◌≡◌, refl, Bool, true, List, Result, some, [], ◌∷◌, ok, panic, ltb, arith,
}
use oscourse_all_files.Bitmap.{
  Bitmap, bitmap_mark, bitmap_reset, bitmap_set, bitmap_test, assert_range, set_loop,
  bitmap_set_multiple, contains_loop, bitmap_contains, scan_loop, bitmap_scan, bitmap_scan_and_flip,
}
use oscourse_all_files.Bitmap.View.{nth}
use oscourse_all_files.FreeMap.{FreeMap, free_map_init, free_map_allocate, free_map_release}
use oscourse_all_files.FreeMap.Release.{free_map_release_panics, free_map_release-allocate}
use oscourse_all_files.FreeMap.Init.{free_map_init_lem}
use oscourse_all_files.FreeMap.Sectors.{used, IsWellFormed, Keeps, Allocated, free_map_allocate_lem}

-- Sectors 0, 1 and 32 are in use.
abbrev small : FreeMap
small = record { map = record { bit_cnt = 40; bits = 3 ∷ 1 ∷ [] }; has_file = true }

small-IsWellFormed : IsWellFormed small
unfolding nth
small-IsWellFormed = record {
  valid = record { fits = omega arith; enough = refl; words = (omega arith, (omega arith, tt)) };
  map_used = refl;
  root_used = refl;
}

-- A file that takes every map; the state is what was written.
abbrev takes_all : Bitmap → List Bitmap → Result (Bool × List Bitmap)
takes_all b st = ok (true, b ∷ st)

abbrev Any : List Bitmap → Type 0
Any st = st ≡ st

takes_all-keeps : Keeps takes_all Any
takes_all-keeps b st p = (true, b ∷ st, refl, refl)

free_map_allocate_example :
    Allocated takes_all Any takes_all-keeps small [] 3 (free_map_allocate takes_all small [] 3)
free_map_allocate_example =
    free_map_allocate_lem takes_all Any takes_all-keeps small [] 3 small-IsWellFormed refl

free_map_release_panics_example : free_map_release takes_all small [] 1 2 ≡ panic
unfolding nth
free_map_release_panics_example =
    free_map_release_panics takes_all small [] small-IsWellFormed 1 2 (omega arith) 2 (omega arith)
      (omega arith) refl

-- Sectors 2 to 4 are handed out.
abbrev pub smaller : FreeMap
smaller = record { map = record { bit_cnt = 40; bits = 31 ∷ 1 ∷ [] }; has_file = true }

pub smaller-IsWellFormed : IsWellFormed smaller
unfolding nth
smaller-IsWellFormed = record {
  valid = record { fits = omega arith; enough = refl; words = (omega arith, (omega arith, tt)) };
  map_used = refl;
  root_used = refl;
}

small-run : free_map_allocate takes_all small [] 3 ≡ ok (some 2, smaller, smaller.map ∷ [])
unfolding free_map_allocate bitmap_mark bitmap_reset bitmap_set bitmap_test assert_range set_loop
    bitmap_set_multiple contains_loop bitmap_contains scan_loop bitmap_scan bitmap_scan_and_flip
small-run = refl

free_map_release-allocate_example :
    (f'' : FreeMap) × (st'' : List Bitmap) × (free_map_release takes_all smaller
        (smaller.map ∷ [])
        2
        3
      ≡ ok (f'', st''))
    × ((j : ℕ) → used f'' j ≡ used small j)
free_map_release-allocate_example =
    free_map_release-allocate takes_all Any takes_all-keeps {f = small} {f' = smaller} 3 2
      small-IsWellFormed refl refl small-run

free_map_init_example :
    (f : FreeMap) × (free_map_init 40 true (some (7 ∷ 9 ∷ [])) ≡ ok f)
    × IsWellFormed f
    × ((j : ℕ) → j < 40 → used f j ≡ ltb j 2)
free_map_init_example =
    free_map_init_lem 40 (7 ∷ 9 ∷ []) (omega arith) (omega arith) refl
      (omega arith, (omega arith, tt))
