-- ===== src/Tests/Disk.antt =====
-- A disk in memory, which does what devices/block.c relies on.
use oscourse_all_files.Common.{
  ℕ, zero, suc, ◌≡◌, ◌≢◌, refl, ap, List, [], ◌∷◌, length, get_or, update, ==_refl, false, ◌==◌,
  arith,
}
use oscourse_all_files.Block.{BlockOperations, block_sector_size}

-- The first `n` values of `f`.
unfoldable pub tabulate : ℕ → (ℕ → ℕ) → List ℕ
tabulate zero f = []
tabulate (suc n) f = f 0 ∷ tabulate n (λ i. f (suc i))

length-tabulate : (n : ℕ) (f : ℕ → ℕ) → length (tabulate n f) ≡ n
unfolding tabulate
length-tabulate zero f = refl
length-tabulate (suc n) f = ap suc (length-tabulate n (λ i. f (suc i)))

pub tabulate-get_or : (xs : List ℕ) (n : ℕ) → length xs ≡ n → tabulate n (λ i. get_or xs i 0) ≡ xs
unfolding tabulate
tabulate-get_or [] zero h = refl
tabulate-get_or [] (suc n) h = absurd (omega arith)
tabulate-get_or (x ∷ xs) zero h = absurd (omega arith)
tabulate-get_or (x ∷ xs) (suc n) h = ap (◌∷◌ x) (tabulate-get_or xs n (omega arith))

abbrev Bytes : Type 0
Bytes = ℕ → ℕ → ℕ

unfoldable pub read_bytes : Bytes → ℕ → List ℕ
read_bytes a sector = tabulate block_sector_size (a sector)

pub write_bytes : Bytes → ℕ → List ℕ → Bytes
write_bytes a sector buffer = update a sector (λ i. get_or buffer i 0)

pub length-read_bytes : (a : Bytes) (sector : ℕ) → length (read_bytes a sector) ≡ block_sector_size
unfolding read_bytes
length-read_bytes a sector = length-tabulate block_sector_size (a sector)

pub read_bytes-write_bytes :
    (a : Bytes) (sector : ℕ) (buffer : List ℕ)
    → length buffer ≡ block_sector_size
    → read_bytes (write_bytes a sector buffer) sector ≡ buffer
unfolding read_bytes write_bytes
read_bytes-write_bytes a sector buffer h =
    rw (==_refl sector) (tabulate-get_or buffer block_sector_size h)

pub read_bytes-write_bytes_ne :
    (a : Bytes) (sector other : ℕ) (buffer : List ℕ)
    → other ≢ sector
    → read_bytes (write_bytes a sector buffer) other ≡ read_bytes a other
unfolding read_bytes write_bytes
read_bytes-write_bytes_ne a sector other buffer ne =
    let e : (other == sector) ≡ false = ground (arith, ne) in rw e refl

abbrev pub memory_disk : BlockOperations
memory_disk = record {
  Aux = Bytes;
  read = read_bytes;
  write = write_bytes;
  length-read = length-read_bytes;
  read-write = read_bytes-write_bytes;
  read-write_ne = read_bytes-write_bytes_ne;
}
