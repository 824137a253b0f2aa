-- ===== src/Inode/Write.antt =====
-- The loop of inode_write_at in filesys/inode.c, on blocks that the file has.
use Prim.Native.Nat.{min}
use oscourse_all_files.Common.{
  ℕ, zero, suc, ◌+◌, ◌-◌, ◌*◌, ◌/◌, ◌%◌, ◌^◌, ◌≤◌, ◌<◌, ◌≡◌, inl, inr, refl, sym, ◌∙◌, ap, true,
  Bool-cases, List, length, take, drop, length-take, length-drop, Result, ok, ◌>>=◌, arith,
}
use oscourse_all_files.Block.{block_sector_size}
use oscourse_all_files.Inode.{SectorCache, Inode, less_signed, find_block}
use oscourse_all_files.Inode.Layout.{Disk, CacheLaws, block_of, file_byte, IsBlock}
use oscourse_all_files.Inode.Find.{find_block_lem, bind_value, bind_state}
use oscourse_all_files.Inode.Frame.{HasBlocks, SameWay, block_of_same}
use oscourse_all_files.Inode.Update.{piece_of, write_loop}
use oscourse_all_files.Inode.Overwrite.{
  Writes, outside_buffer, overwritten_twice, frame-SameWay, frame-HasBlocks, piece_disk,
  piece_frame, piece-Writes,
}

module _ {size : ℕ} {f : Disk} {sector m : ℕ} (v : HasBlocks size f sector m) where
  Writes-trans :
      {f1 f2 : Disk} (offset c : ℕ) (buffer : List ℕ)
      → c ≤ length buffer
      → Writes m f f1 sector offset (take c buffer)
      → Writes m f1 f2 sector (offset + c) (drop c buffer)
      → Writes m f f2 sector offset buffer
  Writes-trans {f1} {f2} offset c buffer h w1 w2 = record {
    frame = λ t out.
        w2.frame t (λ k hk e. out k hk (sym (block_of_same (same k hk)) ∙ e)) ∙ w1.frame t out;
    bytes = λ i hi.
        w2.bytes i hi
        ∙ overwritten_twice offset c buffer (file_byte f sector) (file_byte f1 sector) i h
            (w1.bytes i hi);
  }
    where
      same : (k : ℕ) → k < m → SameWay f f1 sector k
      same = frame-SameWay v w1.frame

-- A write to the disk `f`: the call returns this value, and a disk with the buffer in the file.
abbrev pub Overwrites :
    {cache : SectorCache}
    → CacheLaws cache
    → ℕ
    → ℕ
    → Disk
    → ℕ
    → ℕ
    → List ℕ
    → Result (ℕ × cache.State)
    → Type 0
Overwrites {cache} laws size m f sector offset buffer r =
    (st' : cache.State) × (f' : Disk) × (r ≡ ok (length buffer, st'))
    × laws.Holds size f' st'
    × Writes m f f' sector offset buffer

module _ {cache : SectorCache} (laws : CacheLaws cache) {size : ℕ} (inode : Inode) (m : ℕ) where
  open cache use {State}
  open laws use {Holds}

  -- A round, and then the others.
  piece_step :
      {f : Disk} (v : HasBlocks size f inode.sector m)
      → {st : State} → Holds size f st
      → (buffer : List ℕ) (offset c : ℕ) → c ≤ length buffer
      → (counted : offset / block_sector_size < m) → offset % block_sector_size < block_sector_size
      → (fits : offset % block_sector_size + length (take c buffer) ≤ block_sector_size)
      → (next : State → Result (ℕ × State))
      → ((st' : State)
          → Holds size (piece_disk v offset (take c buffer) counted fits) st'
          → Overwrites laws size m
              (piece_disk v offset (take c buffer) counted fits)
              inode.sector
              (offset + c)
              (drop c buffer)
              (next st'))
      → Overwrites laws size m f inode.sector offset buffer (
          find_block cache st inode offset >>= λ (b, st).
          cache.write st b (take c buffer) (offset % block_sector_size) >>= λ st.
          next st >>= λ (w, st). ok (c + w, st))
  piece_step {f} v h buffer offset c by_buffer counted in_block fits next rest =
      let k : ℕ = offset / block_sector_size in
      let block : IsBlock size f inode.sector k = v.blocks k counted in
      let w1 : Writes m f (piece_disk v offset (take c buffer) counted fits) inode.sector offset
          (take c buffer) =
        piece-Writes v offset (take c buffer) counted fits
          (laws.length-sector h (block_of f inode.sector k) block.block) in
      let P = Overwrites laws size m f inode.sector offset buffer in
      bind_value laws P _ (find_block_lem laws inode v.in_range h offset block) (λ st1 h1.
        bind_state laws P _
          (laws.write_lem h1 (block_of f inode.sector k) (offset % block_sector_size)
            (take c buffer) block.block in_block fits)
          (λ st2 h2. finish w1 (rest st2 h2)))
    where
      finish :
          {f1 : Disk} {r : Result (ℕ × State)}
          → Writes m f f1 inode.sector offset (take c buffer)
          → Overwrites laws size m f1 inode.sector (offset + c) (drop c buffer) r
          → Overwrites laws size m f inode.sector offset buffer (r >>= λ (w, st). ok (c + w, st))
      finish w1 (st3, f3, e3, h3, w3) =
          let whole : c + length (drop c buffer) ≡ length buffer =
            omega (arith, length-drop c buffer) in
          (
            st3,
            f3,
            rw e3 (ap (λ z. ok (z, st3)) whole),
            h3,
            Writes-trans v offset c buffer by_buffer w1 w3,
          )

  -- The whole buffer is written, if its end is within the blocks of the inode.
  pub write_loop_lem :
      (fuel : ℕ) {f : Disk}
      → HasBlocks size f inode.sector m
      → {st : State} → Holds size f st
      → (buffer : List ℕ) (n offset : ℕ) → length buffer ≡ n
      → n < fuel
      → offset + n < 2 ^ 31
      → offset + n ≤ m * block_sector_size
      → Overwrites laws size m f inode.sector offset buffer
          (write_loop cache fuel st inode buffer n offset)
  unfolding write_loop
  write_loop_lem zero v h buffer n offset long hf hn room = absurd (omega arith)
  write_loop_lem (suc fuel) {f} v {st} h buffer n offset long hf hn room =
      elim (Bool-cases (less_signed 0 n)) [
        | inl e ↦
            let positive : 0 < n = ground arith in
            let counted : offset / block_sector_size < m = omega arith in
            let c : ℕ = piece_of n offset in
            let value : c ≡ min n (block_sector_size - offset % block_sector_size) = ground arith in
            let more : less_signed 0 c ≡ true = ground arith in
            let front : length (take c buffer) ≡ c = omega (arith, length-take c buffer) in
            let back : length (drop c buffer) ≡ n - c = omega (arith, length-drop c buffer) in
            let fits : offset % block_sector_size + length (take c buffer) ≤ block_sector_size =
              omega arith in
            let w1 = piece_frame v offset (take c buffer) counted fits in
            rw (e, more)
              (piece_step v h buffer offset c (omega arith) counted (omega arith) fits
                (λ st. write_loop cache fuel st inode (drop c buffer) (n - c) (offset + c))
                (λ st' h'.
                  write_loop_lem fuel (frame-HasBlocks v w1) h' (drop c buffer) (n - c) (offset + c)
                    back (omega arith) (omega arith) (omega arith)))
        | inr e ↦
            let empty : length buffer ≡ 0 = ground arith in
            rw (e, empty) (st, f, refl, h, nothing f buffer offset empty)
      ]
    where
      nothing :
          (f : Disk) (buffer : List ℕ) (offset : ℕ)
          → length buffer ≡ 0
          → Writes m f f inode.sector offset buffer
      nothing f buffer offset empty = record {
        frame = λ t _. refl;
        bytes =
            λ i _. sym (outside_buffer offset buffer (file_byte f inode.sector) i (omega arith));
      }
