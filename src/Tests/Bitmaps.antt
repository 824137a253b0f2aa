-- ===== src/Tests/Bitmaps.antt =====
-- lib/kernel/bitmap.c on a bitmap of 40 bits in two words.
use oscourse_all_files.Common.{◌≡◌, refl, true, false, [], ◌∷◌, ok, panic, if◌then◌else◌, arith}
use oscourse_all_files.Bitmap.{
  Bitmap, bitmap_set_multiple, bitmap_count, bitmap_scan, bitmap_scan_and_flip,
}
use oscourse_all_files.Bitmap.View.{nth, IsValid}
use oscourse_all_files.Bitmap.Single.{Becomes}
use oscourse_all_files.Bitmap.Range.{
  inside, occurrences, bitmap_set_multiple_lem, bitmap_set_multiple_panics, bitmap_count_lem,
}
use oscourse_all_files.Bitmap.Scan.{Scanned, Flipped, bitmap_scan_lem, bitmap_scan_and_flip_lem}

-- Bits 0, 2 and 32 are set.
abbrev forty : Bitmap
forty = record { bit_cnt = 40; bits = 5 ∷ 1 ∷ [] }

forty-IsValid : IsValid forty
forty-IsValid = record {
  fits = omega arith;
  enough = refl;
  words = (omega arith, (omega arith, tt));
}

bitmap_set_multiple_example :
    (b' : Bitmap) × (bitmap_set_multiple forty 30 5 true ≡ ok b')
    × Becomes forty b' (λ j. if inside 30 5 j then true else nth forty j)
bitmap_set_multiple_example = bitmap_set_multiple_lem forty-IsValid 30 5 true (omega arith)

-- The sum of the ends is 2 ^ 32 + 9, which wraps to 9.
bitmap_set_multiple_panics_example : bitmap_set_multiple forty 10 0xffff_ffff true ≡ panic
bitmap_set_multiple_panics_example =
    bitmap_set_multiple_panics forty-IsValid 10 0xffff_ffff true (omega arith)

bitmap_count_example : bitmap_count forty 0 40 true ≡ ok (occurrences (nth forty) 0 40 true)
bitmap_count_example = bitmap_count_lem forty-IsValid 0 40 true (omega arith)

bitmap_scan_example : Scanned (nth forty) 1 40 2 false (bitmap_scan forty 1 2 false)
bitmap_scan_example = bitmap_scan_lem forty-IsValid 2 false 1 (omega arith)

bitmap_scan_and_flip_example :
    Flipped forty-IsValid 2 false 1 (bitmap_scan_and_flip forty 1 2 false)
bitmap_scan_and_flip_example = bitmap_scan_and_flip_lem forty-IsValid 2 false 1 (omega arith)
