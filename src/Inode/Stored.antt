-- ===== src/Inode/Stored.antt =====
-- inode_write_at of filesys/inode.c where the file has the blocks, and reading back what it wrote.
use Prim.Native.Nat.{min, max}
use oscourse_all_files.Common.{
  ℕ, suc, ◌+◌, ◌-◌, ◌*◌, ◌/◌, ◌^◌, ◌<◌, ◌≡◌, ◌≢◌, inl, inr, refl, sym, ◌∙◌, ap, ap₂, Bool, true,
  false, Bool-cases, leb, ◌==◌, ==_iff, List, [], ◌∷◌, length, get_or, Result, ok, ◌>>=◌, arith,
}
use oscourse_all_files.Bitmap.{Bitmap}
use oscourse_all_files.Block.{block_sector_size}
use oscourse_all_files.Inode.{SectorCache, Inode, less_signed, inode_read_at}
use oscourse_all_files.Inode.Layout.{Disk, CacheLaws, block_of, file_length, file_byte, file_bytes}
use oscourse_all_files.Inode.Find.{bind_value, read_word_lem}
use oscourse_all_files.Inode.Frame.{block_count, block_of_same, HasBlocks, IsInode, IsInode-IsFile}
use oscourse_all_files.Inode.Grow.{FileSystem, add_word}
use oscourse_all_files.Inode.Update.{write_loop, set_end, grow_for, inode_write_at}
use oscourse_all_files.Inode.Write.{write_loop_lem}
use oscourse_all_files.Inode.Overwrite.{
  Writes, overwritten, frame-SameWay, inside_buffer, frame-SameWay, word_same, frame-HasBlocks,
}
use oscourse_all_files.Inode.End.{IsReady, Extends, EndsAt, set_end_lem}
use oscourse_all_files.Inode.Read.{inode_read_at_lem}

-- From disk `f` to `f'` the buffer is stored in the file at the offset: it extends the file to
-- its end, and the other bytes of the file's blocks and the sectors of other things are as
-- before.
pub record IsStored (size m : ℕ) (f f' : Disk) (sector offset : ℕ) (buffer : List ℕ) : Type 0 where
  pub inode : IsInode size f' sector
  pub counted : block_count f' sector ≡ m
  pub same : (k : ℕ) → k < m → block_of f' sector k ≡ block_of f sector k
  pub longer : file_length f' sector ≡ max (file_length f sector) (offset + length buffer)
  pub bytes :
      (i : ℕ)
      → i < m * block_sector_size
      → file_byte f' sector i ≡ overwritten offset buffer (file_byte f sector) i
  pub others : (t : ℕ) → t ≢ sector → ((k : ℕ) → k < m → block_of f sector k ≢ t) → f' t ≡ f t

-- Bytes of a file that are those of a buffer.
file_bytes_buffer :
    (f : Disk) (sector : ℕ) (buffer : List ℕ) (offset : ℕ)
    → ((i : ℕ) → i < length buffer → file_byte f sector (offset + i) ≡ get_or buffer i 0)
    → file_bytes f sector offset (length buffer) ≡ buffer
unfolding file_bytes
file_bytes_buffer f sector [] offset h = refl
file_bytes_buffer f sector (x ∷ xs) offset h =
    ap₂ (◌∷◌) (ap (file_byte f sector) start ∙ h 0 (omega arith)) (
      file_bytes_buffer f sector xs (suc offset)
        (λ i hi. ap (file_byte f sector) (next i) ∙ h (suc i) (omega arith)))
  where
    start : offset ≡ offset + 0
    start = omega arith

    next : (i : ℕ) → suc offset + i ≡ offset + suc i
    next i = omega arith

module _ {cache : SectorCache} (laws : CacheLaws cache) (size : ℕ) (inode : Inode) where
  open cache use {State}
  open laws use {Holds}

  -- The file system after the call: the disk that it holds has the buffer in the `m` blocks of
  -- the file.
  abbrev pub Stores :
      ℕ → Disk → FileSystem cache → ℕ → List ℕ → Result (ℕ × FileSystem cache) → Type 0
  Stores m f fs offset buffer r =
      (st' : State) × (f' : Disk) × (r ≡ ok (length buffer, record fs { cached = st' }))
      × Holds size f' st'
      × IsStored size m f f' inode.sector offset buffer

  IsStored-Extends :
      {f f1 f2 : Disk} {m : ℕ} (v : HasBlocks size f inode.sector m) (offset : ℕ) (buffer : List ℕ)
      → Writes m f f1 inode.sector offset buffer
      → Extends size m f1 f2 inode.sector (offset + length buffer)
      → IsStored size m f f2 inode.sector offset buffer
  IsStored-Extends v offset buffer w x = record {
    inode = x.inode;
    counted = x.counted;
    same = λ k h. x.same k h ∙ block_of_same (frame-SameWay v w.frame k h);
    longer = x.longer ∙ ap (λ l. max l (offset + length buffer)) (word_same v w.frame 4);
    bytes = λ i h. x.bytes i h ∙ w.bytes i h;
    others = λ t ne out. x.others t ne ∙ w.frame t out;
  }

  -- What `inode_write_at` does once there are enough blocks.
  abbrev pub go_on : ℕ → List ℕ → ℕ → FileSystem cache → Result (ℕ × FileSystem cache)
  go_on n buffer offset fs = write_loop cache (suc n) fs.cached inode buffer n offset >>= λ (w, st).
      set_end cache st inode (offset + w) >>= λ st. ok (w, record fs { cached = st })

  -- The loop and the new end of the file.
  pub write_then_end :
      {f : Disk} {m : ℕ} (fs : FileSystem cache) (buffer : List ℕ) (n offset : ℕ)
      → length buffer ≡ n
      → offset + n < 2 ^ 31
      → IsReady size m f inode.sector (offset + length buffer)
      → Holds size f fs.cached
      → Stores m f fs offset buffer (go_on n buffer offset fs)
  write_then_end {f} {m} fs buffer n offset long short ready h =
      let v : HasBlocks size f inode.sector m = ready.has in
      let (st1, f1, e1, h1, w1) =
        write_loop_lem laws inode m (suc n) v h buffer n offset long (omega arith) short
          (omega (arith, ready.enough, ap (λ z. (offset + z) / block_sector_size) long)) in
      let ready1 : IsReady size m f1 inode.sector (offset + length buffer) = record {
        short = rw (word_same v w1.frame 4) ready.short;
        count = rw (word_same v w1.frame 0, word_same v w1.frame 4) ready.count;
        enough = rw (word_same v w1.frame 0) ready.enough;
        has = frame-HasBlocks v w1.frame;
      } in
      rw e1 (
        finish v f1 w1
          (set_end_lem laws size m f1 inode h1 (offset + length buffer) (omega arith) ready1))
    where
      finish :
          HasBlocks size f inode.sector m
          → (f1 : Disk) {r : Result State} → Writes m f f1 inode.sector offset buffer
          → EndsAt laws size m f1 inode (offset + length buffer) r
          → Stores m f fs offset buffer (r >>= λ st. ok (length buffer, record fs { cached = st }))
      finish v f1 w1 (st2, f2, e2, h2, x) =
          (st2, f2, rw e2 refl, h2, IsStored-Extends v offset buffer w1 x)

  module _ (bitmap_write : Bitmap → State → Result (Bool × State)) (memory : List ℕ) {f : Disk}
      (v : IsInode size f inode.sector) (fs : FileSystem cache) (buffer : List ℕ) (n offset : ℕ)
      (long : length buffer ≡ n) (short : offset + n < 2 ^ 31)
      (room : (offset + n) / block_sector_size < block_count f inode.sector) where
    abbrev Done : Result (ℕ × FileSystem cache) → Type 0
    Done = Stores (block_count f inode.sector) f fs offset buffer

    ready : IsReady size (block_count f inode.sector) f inode.sector (offset + length buffer)
    ready = record {
      short = v.short;
      count = v.count;
      enough = omega (arith, ap (λ z. (offset + z) / block_sector_size) long);
      has = v.has;
    }

    -- An inode counts one block more than its length fills; the blocks are sectors of the disk,
    -- all different, and different from the inode's sector and its lists. If writes are allowed,
    -- the buffer has `n` bytes, its end is below 2 ^ 31, and the block of its end is among those
    -- of the inode, then `inode_write_at` returns `n`. The disk is then that of the same inode,
    -- as well-formed as before: its length is the greater of the old one and the end of the
    -- buffer, the bytes of its blocks are those of the buffer from the offset on and the old ones
    -- elsewhere, and the other sectors are as before.
    pub inode_write_at_lem :
        inode.deny_write_cnt ≡ 0
        → Holds size f fs.cached
        → Done (inode_write_at cache bitmap_write memory fs inode buffer n offset)
    unfolding inode_write_at grow_for
    inode_write_at_lem allowed h =
        let e : (inode.deny_write_cnt == 0) ≡ true = (==_iff _ _).1 allowed in
        rw e (elim (Bool-cases (less_signed 0 n)) [
          | inl some_bytes ↦
              let enough : leb (block_count f inode.sector) (add_word offset n / block_sector_size)
                  ≡ false =
                ground arith in
              rw some_bytes (
                bind_value laws (λ r. Done (r >>= go_on n buffer offset)) _
                  (read_word_lem laws h inode.sector 0 v.has.in_range (omega arith))
                  (λ st1 h1. rw enough (
                    write_then_end (record fs { cached = st1 }) buffer n offset long short ready
                      h1)))
          | inr no_bytes ↦ rw no_bytes (write_then_end fs buffer n offset long short ready h)
        ])

    -- Under the conditions of `inode_write_at_lem`, reading as many bytes at the same offset
    -- after the write gives the buffer.
    pub inode_read_at-inode_write_at :
        inode.deny_write_cnt ≡ 0
        → Holds size f fs.cached
        → (st' : State) × (st'' : State) × (inode_write_at cache bitmap_write memory fs inode buffer
              n offset
            ≡ ok (n, record fs { cached = st' }))
          × (inode_read_at cache st' inode n offset ≡ ok ((n, buffer), st''))
    inode_read_at-inode_write_at allowed h =
        let (st1, f1, e1, h1, w) = inode_write_at_lem allowed h in
        let (st2, e2, h2) =
          inode_read_at_lem laws inode (IsInode-IsFile w.inode) h1 n offset (omega arith)
            (omega arith) in
        let whole : min n (file_length f1 inode.sector - offset) ≡ n = omega (arith, w.longer) in
        (
          st1,
          st2,
          e1 ∙ ap (λ z. ok (z, record fs { cached = st1 })) long,
          e2
              ∙ ap₂ (λ z bs. ok ((z, bs), st2)) whole
                  (ap (file_bytes f1 inode.sector offset) (whole ∙ sym long)
                    ∙ file_bytes_buffer f1 inode.sector buffer offset (λ i hi.
                      let index : offset + i - offset ≡ i = omega arith in
                      w.bytes (offset + i) (omega arith)
                      ∙ inside_buffer offset buffer (file_byte f inode.sector) (offset + i)
                          (omega arith) (omega arith)
                      ∙ ap (λ k. get_or buffer k 0) index)),
        )
