-- ===== src/Tests/Divisions.antt =====
-- lib/arithmetic.c on single words.
use oscourse_all_files.Common.{◌/◌, ◌%◌, ◌≡◌, true, false, not, iff, ok, arith, two_32}
use oscourse_all_files.Arithmetic.{udiv64, umoddi3, sdiv64, moddi3}
use oscourse_all_files.Arithmetic.Unsigned.{udiv64_lem, umoddi3_lem}
use oscourse_all_files.Arithmetic.Signed.{signed, sdiv64_lem, moddi3_lem}

-- The highest bits alone give a quotient that is one too large.
udiv64_example :
    udiv64 0xffff_fffe_0000_0000 0xffff_ffff_ffff ≡ ok (0xffff_fffe_0000_0000 / 0xffff_ffff_ffff)
udiv64_example =
    udiv64_lem 0xffff_fffe_0000_0000 0xffff_ffff_ffff (omega arith) (omega arith) (omega arith)

umoddi3_example : umoddi3 0x2_0000_0005 0x3_0000_0000 ≡ ok (0x2_0000_0005 % 0x3_0000_0000 % two_32)
umoddi3_example = umoddi3_lem 0x2_0000_0005 0x3_0000_0000 (omega arith) (omega arith) (omega arith)

-- -7 by 2 is -3, and leaves -1.
sdiv64_example :
    sdiv64 (signed true 7) (signed false 2) ≡ ok (signed (not (iff true false)) (7 / 2))
sdiv64_example = sdiv64_lem true false 7 2 (omega arith, omega arith) (omega arith) (omega arith)

moddi3_example : moddi3 (signed true 7) (signed false 2) ≡ ok (signed true (7 % 2))
moddi3_example =
    moddi3_lem true false 7 2 (omega arith, omega arith) (omega arith) (omega arith) (omega arith)
