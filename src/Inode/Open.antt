-- ===== src/Inode/Open.antt =====
-- filesys/inode.c: the open inodes, and how inodes are made and removed.
-- A pointer to an open inode is its sector, since the list has at most one inode for a sector.
use oscourse_all_files.Common.{
  ℕ, zero, suc, ◌+◌, ◌-◌, ◌*◌, Bool, true, false, not, Option, none, some, List, [], ◌∷◌, Result,
  ok, panic, ◌>>=◌, ◌>>◌, assert, ltb, leb, ◌==◌, if◌then◌else◌,
}
use oscourse_all_files.Bitmap.{Bitmap}
use oscourse_all_files.Block.{block_sector_size}
use oscourse_all_files.Cache.{copy_in, copy_out}
use oscourse_all_files.FreeMap.{free_map_release}
use oscourse_all_files.Inode.{
  SectorCache, Inode, direct_blocks, word, bytes_of, less_signed, read_word,
}
use oscourse_all_files.Inode.Grow.{FileSystem, zeros, set_words, inode_allocblocks}
use oscourse_all_files.Inode.Update.{inode_write_at}

abbrev pub inode_magic : ℕ
inode_magic = 0x494e4f44

-- The loop of `inode_open`.
unfoldable pub find_open : List Inode → ℕ → Option Inode
find_open [] sector = none
find_open (inode ∷ rest) sector =
    if inode.sector == sector then some inode else find_open rest sector

-- A change of the inode of a sector, which its pointers share.
unfoldable pub change : List Inode → ℕ → (Inode → Inode) → List Inode
change [] sector by = []
change (inode ∷ rest) sector by =
    if inode.sector == sector then by inode ∷ rest else inode ∷ change rest sector by

-- `list_remove`
unfoldable pub remove_open : List Inode → ℕ → List Inode
remove_open [] sector = []
remove_open (inode ∷ rest) sector =
    if inode.sector == sector then rest else inode ∷ remove_open rest sector

unfoldable pub inode_reopen : List Inode → ℕ → List Inode
inode_reopen open_inodes sector =
    change open_inodes sector (λ inode. record inode { open_cnt = inode.open_cnt + 1 })

abbrev pub new_inode : ℕ → Inode
new_inode sector = record { sector = sector; open_cnt = 1; removed = false; deny_write_cnt = 0 }

-- `allocated` is whether malloc succeeds. False is a NULL pointer.
unfoldable pub inode_open : Bool → List Inode → ℕ → Bool × List Inode
inode_open allocated open_inodes sector = elim (find_open open_inodes sector) [
  | some _ ↦ (true, inode_reopen open_inodes sector)
  | none ↦ if allocated then (true, new_inode sector ∷ open_inodes) else (false, open_inodes)
]

pub inode_remove : List Inode → ℕ → List Inode
inode_remove open_inodes sector =
    change open_inodes sector (λ inode. record inode { removed = true })

pub inode_deny_write : Inode → Result Inode
inode_deny_write inode = do
  let denied = inode.deny_write_cnt + 1
  assert (leb denied inode.open_cnt)
  ok (record inode { deny_write_cnt = denied })

pub inode_allow_write : Inode → Result Inode
inode_allow_write inode = do
  assert (ltb 0 inode.deny_write_cnt)
  assert (leb inode.deny_write_cnt inode.open_cnt)
  ok (record inode { deny_write_cnt = inode.deny_write_cnt - 1 })

pub inode_get_inumber : Inode → ℕ
inode_get_inumber inode = inode.sector

pub inode_opencnt : Inode → ℕ
inode_opencnt inode = inode.open_cnt

-- What `inode_create` writes to the sector: the words before the block numbers, these, and the type.
abbrev pub disk_inode : List ℕ → ℕ → List ℕ
disk_inode blocks type =
    copy_in (set_words (set_words zeros 0 (1 ∷ 0 ∷ inode_magic ∷ [])) 12 blocks)
      (block_sector_size - 4) (bytes_of type)

module _ (cache : SectorCache) where
  open cache use {State, read, write}

  module _ (bitmap_write : Bitmap → State → Result (Bool × State)) where
    -- The first loop of `inode_close` that frees blocks, with `n` rounds left: it runs over all
    -- blocks, and a block number past the end of `sector` is outside its array.
    unfoldable pub release_loop : ℕ → FileSystem cache → List ℕ → ℕ → Result (FileSystem cache)
    release_loop zero fs temp i = ok fs
    release_loop (suc n) fs temp i = do
      assert (ltb i (direct_blocks + 2))
      (free, st) ←
          free_map_release bitmap_write fs.free fs.cached (word (copy_out temp (12 + i * 4) 4)) 1
      release_loop n (record { cached = st; free = free }) temp (i + 1)

    -- The blocks of a removed inode. Where there are more than the direct ones, the code that
    -- follows reads the list into a NULL pointer; that is a `panic`.
    unfoldable pub release_blocks : FileSystem cache → ℕ → Result (FileSystem cache)
    release_blocks fs sector = do
      (temp, st) ← read fs.cached sector 0 block_sector_size
      (blocks, st) ← read_word cache st sector 0
      fs ← release_loop blocks (record fs { cached = st }) temp 0
      assert (leb blocks direct_blocks)
      (free, st) ← free_map_release bitmap_write fs.free fs.cached sector 1
      ok (record { cached = st; free = free })

    -- A pointer to no open inode stands for NULL. The count is at least 1 before it goes down.
    unfoldable pub inode_close :
        FileSystem cache → List Inode → ℕ → Result (FileSystem cache × List Inode)
    inode_close fs open_inodes sector = elim (find_open open_inodes sector) [
      | none ↦ ok (fs, open_inodes)
      | some inode ↦
          if inode.open_cnt == 1
          then ((if inode.removed then release_blocks fs sector else ok fs) >>= λ fs.
              ok (fs, remove_open open_inodes sector))
          else ok (
            fs,
            change open_inodes sector (λ inode. record inode { open_cnt = inode.open_cnt - 1 }),
          )
    ]

    -- The byte that is written at the end of a file with a length, through an inode that is
    -- opened for it.
    unfoldable pub write_last :
        List ℕ → FileSystem cache → List Inode → ℕ → ℕ → Result (FileSystem cache × List Inode)
    write_last memory fs open_inodes sector length =
        let (_, open_inodes) = inode_open true open_inodes sector in
        elim (find_open open_inodes sector) [
          | none ↦ panic
          | some inode ↦
              inode_write_at cache bitmap_write memory fs inode (0 ∷ []) 1 (length - 1)
              >>= λ (_, fs). inode_close fs open_inodes sector
        ]

    -- The call succeeds in allocating memory.
    unfoldable pub inode_create :
        List ℕ
        → FileSystem cache
        → List Inode
        → ℕ
        → ℕ
        → ℕ
        → Result (Bool × FileSystem cache × List Inode)
    inode_create memory fs open_inodes sector length type = do
      assert (not (less_signed length 0))
      ((success, blocks), fs) ← inode_allocblocks cache bitmap_write 1 fs
      st ← write fs.cached sector (disk_inode blocks type) 0
      let fs = record fs { cached = st }
      (if less_signed 0 length
            then write_last memory fs open_inodes sector length
            else ok (fs, open_inodes))
          >>= λ (fs, open_inodes). ok (success, fs, open_inodes)
