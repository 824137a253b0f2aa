-- ===== src/FileTable.antt =====
-- The file descriptors of a thread in threads/thread.c: `add_file`, `add_filemmap` and
-- `find_file`. A file is its number; a descriptor is an `int`, as its word of 32 bits; the memory
-- for an entry is taken to be allocated.
pub mod Lookup
use oscourse_all_files.Common.{
  ℕ, ◌+◌, Bool, true, false, Option, none, some, List, [], ◌∷◌, ◌++◌, ltb, ◌==◌, two_32, ◌%◌, ◌^◌,
  if◌then◌else◌,
}

-- `struct filed`; `none` is a NULL `vaddr`.
pub record Filed : Type 0 where
  pub file : ℕ
  pub fd : ℕ
  pub vaddr : Option ℕ

-- The members of `struct thread` for its files. `fd` is the next descriptor.
pub record FileTable : Type 0 where
  pub fd_table : List Filed
  pub fd : ℕ

-- `fd++`
abbrev pub next_fd : ℕ → ℕ
next_fd fd = (fd + 1) % two_32

-- The descriptor of the file, and the table afterwards.
pub add_filemmap : FileTable → ℕ → Option ℕ → ℕ × FileTable
add_filemmap t file mem =
    let f : Filed = record { file = file; fd = t.fd; vaddr = mem } in
    (t.fd, record { fd_table = t.fd_table ++ (f ∷ []); fd = next_fd t.fd })

pub add_file : FileTable → ℕ → ℕ × FileTable
add_file t file =
    let f : Filed = record { file = file; fd = t.fd; vaddr = none } in
    (t.fd, record { fd_table = t.fd_table ++ (f ∷ []); fd = next_fd t.fd })

-- The loop of `find_file`.
pub find_entry : List Filed → ℕ → Option Filed
find_entry [] fd = none
find_entry (t ∷ l) fd = let rest = find_entry l fd in if t.fd == fd then some t else rest

pub find_file : FileTable → ℕ → Option Filed
find_file t fd =
    if ltb ((fd + 2 ^ 31) % two_32) (2 + 2 ^ 31) then none else find_entry t.fd_table fd
