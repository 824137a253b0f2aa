-- ===== src/Inode.antt =====
-- filesys/inode.c: files as inodes on sectors, above the buffer cache: positions to sectors, reads,
-- and writes to blocks that a file has. Locks are left out, as in the cache.
-- Words of 32 bits are numbers below 2 ^ 32; `less_signed` compares them as `int` and `off_t`.
-- Positions and sizes are not negative. `sector[k]` stands at byte 12 + 4 k of the inode's sector.
pub mod Word
pub mod Layout
pub mod Find
pub mod MapFile
pub mod Read
pub mod Cached
pub mod Grow
pub mod Update
pub mod Open
pub mod Frame
pub mod Overwrite
pub mod Write
pub mod End
pub mod Stored
pub mod Table
pub mod GiveBack
pub mod Release
pub mod Allocate
pub mod Pointers
pub mod Appended
pub mod Growing
pub mod Extended
pub mod Created
pub mod Filled
pub mod Creating
use oscourse_all_files.Common.{
  ℕ, zero, suc, ◌+◌, ◌-◌, ◌*◌, ◌/◌, ◌%◌, ◌^◌, Bool, true, false, not, ◌||◌, List, [], ◌++◌, ◌∷◌,
  Result, ok, hang, panic, ◌>>=◌, ◌>>◌, assert, ltb, ◌==◌, if◌then◌else◌, get_or, two_32, take,
  drop,
}
use oscourse_all_files.Block.{block_sector_size}
use oscourse_all_files.Cache.{no_sector}

-- The buffer cache as this module uses it: `read_cache` and `write_cache`.
pub record SectorCache : Type 1 where
  pub State : Type 0
  pub read : State → ℕ → ℕ → ℕ → Result (List ℕ × State)
  pub write : State → ℕ → List ℕ → ℕ → Result State

-- INODE_BLOCKS - 2, the direct blocks, and INODE_LIST.
abbrev pub direct_blocks : ℕ
direct_blocks = 122

abbrev pub inode_list : ℕ
inode_list = 128

-- `struct inode`, less its place in the list of open inodes and its lock.
pub record Inode : Type 0 where
  pub sector : ℕ
  pub open_cnt : ℕ
  pub removed : Bool
  pub deny_write_cnt : ℕ

-- Four bytes in memory as a word, and a word as four bytes: the lowest comes first.
unfoldable pub word : List ℕ → ℕ
word bytes =
    get_or bytes 0 0 + 256 * (get_or bytes 1 0 + 256 * (get_or bytes 2 0 + 256 * get_or bytes 3 0))

unfoldable pub bytes_of : ℕ → List ℕ
bytes_of w = w % 256 ∷ w / 256 % 256 ∷ w / 65536 % 256 ∷ w / 16777216 % 256 ∷ []

abbrev pub less_signed : ℕ → ℕ → Bool
less_signed a b = ltb ((a + 2 ^ 31) % two_32) ((b + 2 ^ 31) % two_32)

abbrev pub sub_word : ℕ → ℕ → ℕ
sub_word a b = (a + two_32 - b) % two_32

-- `chunk_size` in `inode_read_at`: what is left of the file, the sector and the request.
unfoldable pub chunk_of : ℕ → ℕ → ℕ → ℕ
chunk_of file_length size offset =
    let inode_left = sub_word file_length offset in
    let sector_left = block_sector_size - offset % block_sector_size in
    let min_left = if less_signed inode_left sector_left then inode_left else sector_left in
    if less_signed size min_left then size else min_left

module _ (cache : SectorCache) where
  open cache use {State, read, write}

  unfoldable pub read_word : State → ℕ → ℕ → Result (ℕ × State)
  read_word st sector offset = do (bytes, st) ← read st sector offset 4; ok (word bytes, st)

  unfoldable pub find_directblock : State → Inode → ℕ → Result (ℕ × State)
  find_directblock st inode pos = do
    let off = pos / block_sector_size
    assert (ltb off direct_blocks)
    read_word st inode.sector (12 + off * 4)

  -- The block number in the list of the singly linked blocks, and in those of the doubly linked.
  unfoldable pub single_block : State → Inode → ℕ → Result (ℕ × State)
  single_block st inode off = do
    (single, st) ← read_word st inode.sector (12 + direct_blocks * 4)
    read_word st single ((off - direct_blocks) * 4)

  unfoldable pub double_block : State → Inode → ℕ → Result (ℕ × State)
  double_block st inode off = do
    (doublelinked, st) ← read_word st inode.sector (12 + (direct_blocks + 1) * 4)
    let singleoff = (off - direct_blocks - inode_list) / inode_list
    (single, st) ← read_word st doublelinked (singleoff * 4)
    read_word st single ((off - direct_blocks - inode_list - singleoff * inode_list) * 4)

  -- The number of blocks is read, and not used.
  unfoldable pub find_indirectblock : State → Inode → ℕ → Result (ℕ × State)
  find_indirectblock st inode pos = do
    let off = pos / block_sector_size
    (_, st) ← read_word st inode.sector 0
    if ltb off (direct_blocks + inode_list)
        then single_block st inode off
        else double_block st inode off

  -- The choice between the two that `byte_to_sector` and `inode_write_at` make.
  unfoldable pub find_block : State → Inode → ℕ → Result (ℕ × State)
  find_block st inode pos =
      if ltb (pos / block_sector_size) direct_blocks
      then find_directblock st inode pos
      else find_indirectblock st inode pos

  unfoldable pub byte_to_sector : State → Inode → ℕ → Result (ℕ × State)
  byte_to_sector st inode pos = do
    (file_length, st) ← read_word st inode.sector 4
    if less_signed pos file_length then find_block st inode pos else ok (no_sector, st)

  unfoldable pub inode_length : State → Inode → Result (ℕ × State)
  inode_length st inode = read_word st inode.sector 4

  unfoldable pub inode_resetlength : State → Inode → ℕ → Result State
  inode_resetlength st inode newlength = write st inode.sector (bytes_of newlength) 4

  unfoldable pub inode_type : State → Inode → Result (ℕ × State)
  inode_type st inode = read_word st inode.sector (block_sector_size - 4)

  -- The loop of `inode_read_at`, for at most `fuel` rounds: the count, the bytes and the cache.
  unfoldable pub read_loop : ℕ → State → Inode → ℕ → ℕ → Result ((ℕ × List ℕ) × State)
  read_loop zero st inode size offset = if less_signed 0 size then hang else ok ((0, []), st)
  read_loop (suc fuel) st inode size offset =
      if less_signed 0 size
      then (byte_to_sector st inode offset >>= λ (sector_idx, st).
          inode_length st inode >>= λ (file_length, st).
          let sector_ofs = offset % block_sector_size in
          let chunk_size = chunk_of file_length size offset in
          if not (less_signed 0 chunk_size) || sector_idx == no_sector
          then ok ((0, []), st)
          else (read st sector_idx sector_ofs chunk_size >>= λ (bytes, st).
              read_loop fuel st inode (size - chunk_size) (offset + chunk_size)
              >>= λ ((bytes_read, buffer), st).
                  ok ((chunk_size + bytes_read, bytes ++ buffer), st)))
      else ok ((0, []), st)

  -- Each round but the last reads at least one byte.
  unfoldable pub inode_read_at : State → Inode → ℕ → ℕ → Result ((ℕ × List ℕ) × State)
  inode_read_at st inode size offset = read_loop (suc size) st inode size offset
