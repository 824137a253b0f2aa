-- ===== src/Block.antt =====
-- devices/block.c: block devices, above the operations that a driver registers.
pub mod Transfer
use oscourse_all_files.Common.{
  ℕ, ◌+◌, ◌<◌, ◌≡◌, ◌≢◌, Bool, List, Result, ok, panic, ◌>>=◌, ◌>>◌, assert, ltb, not, length,
}

abbrev pub block_sector_size : ℕ
block_sector_size = 512

-- `enum block_type`
pub data BlockType : Type 0 where
  kernel filesys scratch swap raw foreign : BlockType

abbrev is_foreign : BlockType → Bool
is_foreign BlockType.foreign = Bool.true
is_foreign _ = Bool.false

-- `struct block_operations` with the driver's state: what a disk drive is relied on to do.
pub record BlockOperations : Type 1 where
  pub Aux : Type 0
  pub read : Aux → ℕ → List ℕ
  pub write : Aux → ℕ → List ℕ → Aux
  pub length-read : (a : Aux) (sector : ℕ) → length (read a sector) ≡ block_sector_size
  pub read-write :
      (a : Aux) (sector : ℕ) (buffer : List ℕ)
      → length buffer ≡ block_sector_size
      → read (write a sector buffer) sector ≡ buffer
  pub read-write_ne :
      (a : Aux) (sector other : ℕ) (buffer : List ℕ)
      → other ≢ sector
      → read (write a sector buffer) other ≡ read a other

module _ (ops : BlockOperations) where
  open ops use {Aux, read, write}

  -- `struct block`, less its name and its place in the list of devices.
  pub record Block : Type 0 where
    pub kind : BlockType
    pub size : ℕ
    pub aux : Aux
    pub read_cnt : ℕ
    pub write_cnt : ℕ

  unfoldable pub check_sector : Block → ℕ → Result (Unit {0})
  check_sector b sector = assert (ltb sector b.size)

  -- The sector's bytes go to the caller's buffer.
  unfoldable pub block_read : Block → ℕ → Result (List ℕ × Block)
  unfolding check_sector
  block_read b sector = do
    check_sector b sector
    ok (read b.aux sector, record b { read_cnt = b.read_cnt + 1 })

  unfoldable pub block_write : Block → ℕ → List ℕ → Result Block
  unfolding check_sector
  block_write b sector buffer = do
    check_sector b sector
    assert (not (is_foreign b.kind))
    ok (record b { aux = write b.aux sector buffer; write_cnt = b.write_cnt + 1 })
