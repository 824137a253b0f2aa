-- ===== src/Inode/Layout.antt =====
-- filesys/inode.c on a disk that is a function from sectors to bytes: what the block lists of an
-- inode mean, and what is asked of the cache.
use oscourse_all_files.Common.{
  ℕ, zero, suc, ◌+◌, ◌-◌, ◌*◌, ◌/◌, ◌%◌, ◌^◌, ◌≤◌, ◌<◌, ◌≡◌, List, [], ◌∷◌, ok, if◌then◌else◌, ltb,
  length, get_or, update,
}
use oscourse_all_files.Block.{block_sector_size}
use oscourse_all_files.Cache.{no_sector, copy_in, copy_out}
use oscourse_all_files.Inode.{SectorCache, word, direct_blocks, inode_list}

-- The bytes of each sector.
abbrev pub Disk : Type 0
Disk = ℕ → List ℕ

-- What this module relies on: a cache in a state that holds a disk of `size` sectors reads
-- and writes the bytes of that disk.
pub record CacheLaws (cache : SectorCache) : Type 1 where
  pub Holds : ℕ → Disk → cache.State → Type 0
  pub size_small : {size : ℕ} {f : Disk} {st : cache.State} → Holds size f st → size ≤ no_sector
  pub length-sector :
      {size : ℕ} {f : Disk} {st : cache.State}
      → Holds size f st
      → (s : ℕ) → s < size
      → length (f s) ≡ block_sector_size
  pub read_lem :
      {size : ℕ} {f : Disk} {st : cache.State}
      → Holds size f st
      → (s offset n : ℕ) → s < size
      → offset < block_sector_size
      → offset + n ≤ block_sector_size
      → (st' : cache.State) × (cache.read st s offset n ≡ ok (copy_out (f s) offset n, st'))
        × Holds size f st'
  pub write_lem :
      {size : ℕ} {f : Disk} {st : cache.State}
      → Holds size f st
      → (s offset : ℕ) (buffer : List ℕ) → s < size
      → offset < block_sector_size
      → offset + length buffer ≤ block_sector_size
      → (st' : cache.State) × (cache.write st s buffer offset ≡ ok st')
        × Holds size (update f s (copy_in (f s) offset buffer)) st'

-- The word at an offset of a sector.
abbrev pub word_at : Disk → ℕ → ℕ → ℕ
word_at f s offset = word (copy_out (f s) offset 4)

-- Blocks beyond the direct ones and the singly linked ones.
abbrev pub first_double : ℕ
first_double = direct_blocks + inode_list

abbrev pub max_blocks : ℕ
max_blocks = first_double + inode_list * inode_list

-- The three ways to the number of block `k` of the inode at `sector`.
abbrev pub direct_pointer : Disk → ℕ → ℕ → ℕ
direct_pointer f sector k = word_at f sector (12 + k * 4)

abbrev pub single_list : Disk → ℕ → ℕ
single_list f sector = word_at f sector (12 + direct_blocks * 4)

abbrev pub double_list : Disk → ℕ → ℕ
double_list f sector = word_at f sector (12 + (direct_blocks + 1) * 4)

abbrev pub inner_list : Disk → ℕ → ℕ → ℕ
inner_list f sector k = word_at f (double_list f sector) ((k - first_double) / inode_list * 4)

abbrev pub single_pointer : Disk → ℕ → ℕ → ℕ
single_pointer f sector k = word_at f (single_list f sector) ((k - direct_blocks) * 4)

abbrev pub double_pointer : Disk → ℕ → ℕ → ℕ
double_pointer f sector k = word_at f (inner_list f sector k) ((k - first_double) % inode_list * 4)

-- The sector of block `k`.
unfoldable pub block_of : Disk → ℕ → ℕ → ℕ
block_of f sector k =
    if ltb k direct_blocks
    then direct_pointer f sector k
    else (if ltb k first_double then single_pointer f sector k else double_pointer f sector k)

abbrev pub file_length : Disk → ℕ → ℕ
file_length f sector = word_at f sector 4

-- The byte at a position of the file, and the `n` bytes from a position on.
abbrev pub file_byte : Disk → ℕ → ℕ → ℕ
file_byte f sector i =
    get_or (f (block_of f sector (i / block_sector_size))) (i % block_sector_size) 0

unfoldable pub file_bytes : Disk → ℕ → ℕ → ℕ → List ℕ
file_bytes f sector offset zero = []
file_bytes f sector offset (suc n) = file_byte f sector offset ∷ file_bytes f sector (suc offset) n

-- Block `k` and the lists that lead to it are sectors of the disk.
pub record IsBlock (size : ℕ) (f : Disk) (sector k : ℕ) : Type 0 where
  pub reachable : k < max_blocks
  pub block : block_of f sector k < size
  pub single : direct_blocks ≤ k → k < first_double → single_list f sector < size
  pub double : first_double ≤ k → double_list f sector < size
  pub inner : first_double ≤ k → inner_list f sector k < size

-- The inode at `sector` has a block for each byte of its file.
pub record IsFile (size : ℕ) (f : Disk) (sector : ℕ) : Type 0 where
  pub in_range : sector < size
  pub short : file_length f sector < 2 ^ 31
  pub blocks : (k : ℕ) → k * block_sector_size < file_length f sector → IsBlock size f sector k
