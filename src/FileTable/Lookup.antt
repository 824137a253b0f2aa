-- ===== src/FileTable/Lookup.antt =====
-- What find_file of threads/thread.c answers after a file is added.
use mathlib.Core.Path.{subst}
use oscourse_all_files.Common.{
  ℕ, ◌+◌, ◌≤◌, ◌<◌, ◌≡◌, refl, false, none, some, List, [], ◌∷◌, ◌++◌, ltb, ◌==◌, if◌then◌else◌,
  All, All-append, arith, two_32, ◌%◌, ◌^◌, Bool-cases, inl, inr,
}
use oscourse_all_files.FileTable.{Filed, FileTable, next_fd, add_file, find_entry, find_file}

-- Descriptors start at 2, and those in the table were given before the next one.
pub record IsOpen (t : FileTable) : Type 0 where
  pub above : 2 ≤ t.fd
  pub given : All (λ (f : Filed). f.fd < t.fd) t.fd_table

grow :
    (n : ℕ) (l : List Filed) → All (λ (f : Filed). f.fd < n) l → All (λ (f : Filed). f.fd < n + 1) l
grow n [] h = tt
grow n (x ∷ l) (p, h) = (omega arith, grow n l h)

find-append :
    (n : ℕ) (l : List Filed) (f : Filed) (fd : ℕ)
    → All (λ (f : Filed). f.fd < n) l
    → f.fd ≡ n
    → find_entry (l ++ (f ∷ [])) fd ≡ (if fd == n then some f else find_entry l fd)
unfolding find_entry
find-append n [] f fd h e = let same : (f.fd == fd) ≡ (fd == n) = ground (arith, e) in rw same refl
find-append n (x ∷ l) f fd (p, h) e = elim (Bool-cases (x.fd == fd)) [
  | inl q ↦ let away : (fd == n) ≡ false = ground (arith, q, p) in rw (q, away) refl
  | inr q ↦ rw q (find-append n l f fd h e)
]

-- On a table whose descriptors were all given, where the next one is below 2 ^ 31 - 1, `add_file`
-- answers a descriptor above 1 that finds the file, every other descriptor finds what it found
-- before, and all descriptors were given again.
pub add_file_lem :
    (t : FileTable) (file : ℕ)
    → IsOpen t
    → t.fd + 1 < 2 ^ 31
    → (2 ≤ (add_file t file).0)
      × IsOpen (add_file t file).1
      × ((fd : ℕ)
          → find_file (add_file t file).1 fd ≡ (
              if fd == (add_file t file).0
              then some (record { file = file; fd = (add_file t file).0; vaddr = none })
              else find_file t fd))
unfolding add_file find_file
add_file_lem t file o below = (
  o.above,
  record {
    above = omega (arith, o.above, small);
    given =
        All-append (λ (f : Filed). f.fd < next_fd t.fd) t.fd_table (entry ∷ [])
          (subst (λ n. All (λ (f : Filed). f.fd < n) t.fd_table) small
            (grow t.fd t.fd_table o.given))
          (omega arith, tt);
  },
  λ fd. finds fd,
)
  where
    small : t.fd + 1 ≡ next_fd t.fd
    small = omega arith

    entry : Filed
    entry = record { file = file; fd = t.fd; vaddr = none }

    finds :
        (fd : ℕ)
        → (if ltb ((fd + 2 ^ 31) % two_32) (2 + 2 ^ 31)
            then none
            else find_entry (t.fd_table ++ (entry ∷ [])) fd)
          ≡ (if fd == t.fd
              then some entry
              else (if ltb ((fd + 2 ^ 31) % two_32) (2 + 2 ^ 31)
                  then none
                  else find_entry t.fd_table fd))
    finds fd = elim (Bool-cases (ltb ((fd + 2 ^ 31) % two_32) (2 + 2 ^ 31))) [
      | inl e ↦
          let away : (fd == t.fd) ≡ false = ground (arith, e, o.above, below) in rw (e, away) refl
      | inr e ↦ rw e (find-append t.fd t.fd_table entry fd o.given refl)
    ]
