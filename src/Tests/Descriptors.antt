-- ===== src/Tests/Descriptors.antt =====
-- The file descriptors of threads/thread.c after two files are added.
use oscourse_all_files.Common.{ℕ, ◌≤◌, ◌≡◌, some, none, [], ◌∷◌, ◌==◌, if◌then◌else◌, arith}
use oscourse_all_files.FileTable.{FileTable, add_file, find_file}
use oscourse_all_files.FileTable.Lookup.{IsOpen, add_file_lem}

abbrev two_files : FileTable
two_files = record {
  fd_table =
      record { file = 10; fd = 2; vaddr = none } ∷ record { file = 11; fd = 3; vaddr = none } ∷ [];
  fd = 4;
}

two_files-IsOpen : IsOpen two_files
two_files-IsOpen = record { above = omega arith; given = (omega arith, (omega arith, tt)) }

add_file_example :
    (2 ≤ (add_file two_files 12).0)
    × IsOpen (add_file two_files 12).1
    × ((fd : ℕ)
        → find_file (add_file two_files 12).1 fd ≡ (
            if fd == (add_file two_files 12).0
            then some (record { file = 12; fd = (add_file two_files 12).0; vaddr = none })
            else find_file two_files fd))
add_file_example = add_file_lem two_files 12 two_files-IsOpen (omega arith)
