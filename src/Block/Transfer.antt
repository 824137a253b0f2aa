-- ===== src/Block/Transfer.antt =====
-- Transfers of a sector by devices/block.c, within the device and past its end.
use oscourse_all_files.Common.{ℕ, ◌+◌, ◌≤◌, ◌<◌, ◌≡◌, ◌≢◌, List, ok, panic, lt→ltb, arith}
use oscourse_all_files.Block.{BlockOperations, Block, BlockType, block_read, block_write}

module _ (ops : BlockOperations) (b : Block ops) (sector : ℕ) where
  open ops use {read, write}

  pub block_read_lem :
      sector < b.size
      → block_read ops b sector ≡ ok (read b.aux sector, record b { read_cnt = b.read_cnt + 1 })
  unfolding block_read
  block_read_lem h = rw (lt→ltb sector b.size h)

  pub block_write_lem :
      (buffer : List ℕ)
      → sector < b.size
      → b.kind ≢ BlockType.foreign
      → block_write ops b sector buffer
        ≡ ok (record b { aux = write b.aux sector buffer; write_cnt = b.write_cnt + 1 })
  unfolding block_write
  block_write_lem buffer h ours = ground (arith)

  -- Both panic past the end of the device.
  pub block_read_panics : b.size ≤ sector → block_read ops b sector ≡ panic
  unfolding block_read
  block_read_panics h = ground arith

  pub block_write_panics :
      (buffer : List ℕ) → b.size ≤ sector → block_write ops b sector buffer ≡ panic
  unfolding block_write
  block_write_panics buffer h = ground arith
