-- ===== src/Inode/Update.antt =====
-- filesys/inode.c: writing to a file.
use oscourse_all_files.Common.{
  ℕ, zero, suc, ◌+◌, ◌-◌, ◌/◌, ◌%◌, Bool, List, Result, ok, hang, ◌>>=◌, leb, ◌==◌, if◌then◌else◌,
  take, drop,
}
use oscourse_all_files.Bitmap.{Bitmap}
use oscourse_all_files.Block.{block_sector_size}
use oscourse_all_files.Inode.{
  SectorCache, Inode, bytes_of, less_signed, read_word, find_block, inode_length, inode_resetlength,
  inode_type,
}
use oscourse_all_files.Inode.Grow.{FileSystem, file_grow, add_word}

-- `chunk_size` in `inode_write_at`.
abbrev pub piece_of : ℕ → ℕ → ℕ
piece_of size offset =
    let sector_left = block_sector_size - offset % block_sector_size in
    if less_signed size sector_left then size else sector_left

module _ (cache : SectorCache) where
  open cache use {State, write}

  -- The loop of `inode_write_at`, for at most `fuel` rounds, with what is left of the buffer: the
  -- bytes that it writes.
  unfoldable pub write_loop : ℕ → State → Inode → List ℕ → ℕ → ℕ → Result (ℕ × State)
  write_loop zero st inode buffer size offset = if less_signed 0 size then hang else ok (0, st)
  write_loop (suc fuel) st inode buffer size offset =
      let chunk_size = piece_of size offset in
      if less_signed 0 size
      then (find_block cache st inode offset >>= λ (sector_idx, st).
          if less_signed 0 chunk_size
          then (write st sector_idx (take chunk_size buffer) (offset % block_sector_size) >>= λ st.
              write_loop fuel st inode (drop chunk_size buffer) (size - chunk_size)
                (offset + chunk_size)
              >>= λ (bytes_written, st). ok (chunk_size + bytes_written, st))
          else ok (0, st))
      else ok (0, st)

  -- The new length and number of blocks, where `offset` is beyond the end of the file.
  unfoldable pub set_end : State → Inode → ℕ → Result State
  set_end st inode offset = do
    (inode_size, st) ← inode_length cache st inode
    if less_signed inode_size offset
        then (inode_resetlength cache st inode offset >>= λ st.
            write st inode.sector (bytes_of (offset / block_sector_size + 1)) 0)
        else ok st

  module _ (bitmap_write : Bitmap → State → Result (Bool × State)) where
    -- The file grows where the last block is missing. Whether it did is ignored. The type of the
    -- inode only tells whether to take the lock.
    unfoldable pub grow_for : List ℕ → FileSystem cache → Inode → ℕ → ℕ → Result (FileSystem cache)
    grow_for memory fs inode size offset = do
      (number_blocks, st) ← read_word cache fs.cached inode.sector 0
      if leb number_blocks (add_word offset size / block_sector_size)
          then (inode_type cache st inode >>= λ (_, st).
              file_grow cache bitmap_write memory (record fs { cached = st }) inode (offset + size)
              >>= λ (_, fs). ok fs)
          else ok (record fs { cached = st })

    -- `buffer` holds at least `size` bytes.
    unfoldable pub inode_write_at :
        List ℕ → FileSystem cache → Inode → List ℕ → ℕ → ℕ → Result (ℕ × FileSystem cache)
    inode_write_at memory fs inode buffer size offset =
        if inode.deny_write_cnt == 0
        then ((if less_signed 0 size then grow_for memory fs inode size offset else ok fs) >>= λ fs.
            write_loop (suc size) fs.cached inode buffer size offset >>= λ (bytes_written, st).
            set_end st inode (offset + bytes_written) >>= λ st.
            ok (bytes_written, record fs { cached = st }))
        else ok (0, fs)
