-- ===== src/Inode/Overwrite.antt =====
-- What writing bytes to a file of filesys/inode.c does to the bytes of the file.
use oscourse_all_files.Common.{
  ℕ, ◌+◌, ◌-◌, ◌*◌, ◌/◌, ◌%◌, ◌≤◌, ◌<◌, ◌≡◌, ◌≢◌, ◌⊎◌, inl, inr, refl, sym, ◌∙◌, ap, true, false,
  Bool-cases, ltb, leb, ◌&&◌, ◌==◌, ==_iff, ==_refl, if◌then◌else◌, List, length, get_or, take,
  drop, length-take, length-drop, update, arith,
}
use oscourse_all_files.Block.{block_sector_size}
use oscourse_all_files.Cache.{copy_in, copy_out}
use oscourse_all_files.Inode.{word}
use oscourse_all_files.Inode.Layout.{Disk, word_at, block_of, file_byte}
use oscourse_all_files.Inode.Frame.{HasBlocks, SameWay, block_of_same, HasBlocks-same}
use oscourse_all_files.Inode.Word.{
  get_or-take, get_or-drop, copy_in_before, copy_in_within, copy_in_after,
}

-- The byte at `i` once `buffer` is written at `offset` over the bytes `g`.
abbrev pub overwritten : ℕ → List ℕ → (ℕ → ℕ) → ℕ → ℕ
overwritten offset buffer g i =
    if leb offset i && ltb i (offset + length buffer) then get_or buffer (i - offset) 0 else g i

module _ (offset : ℕ) (buffer : List ℕ) (g : ℕ → ℕ) (i : ℕ) where
  pub inside_buffer :
      offset ≤ i
      → i < offset + length buffer
      → overwritten offset buffer g i ≡ get_or buffer (i - offset) 0
  inside_buffer lo hi =
      let e : (leb offset i && ltb i (offset + length buffer)) ≡ true = ground arith in rw e refl

  pub outside_buffer :
      (i < offset) ⊎ (offset + length buffer ≤ i) → overwritten offset buffer g i ≡ g i
  outside_buffer h =
      let e : (leb offset i && ltb i (offset + length buffer)) ≡ false = ground arith in rw e refl

  buffer_cases :
      ((offset ≤ i) × (i < offset + length buffer)) ⊎ (i < offset) ⊎ (offset + length buffer ≤ i)
  buffer_cases = omega arith

-- The front of a buffer, and then the rest of it.
pub overwritten_twice :
    (offset c : ℕ) (buffer : List ℕ) (g g' : ℕ → ℕ) (i : ℕ)
    → c ≤ length buffer
    → g' i ≡ overwritten offset (take c buffer) g i
    → overwritten (offset + c) (drop c buffer) g' i ≡ overwritten offset buffer g i
overwritten_twice offset c buffer g g' i h e =
    from (buffer_cases offset buffer g i) (buffer_cases (offset + c) (drop c buffer) g' i)
  where
    front : length (take c buffer) ≡ c
    front = omega (arith, length-take c buffer)

    back : length (drop c buffer) ≡ length buffer - c
    back = length-drop c buffer

    from :
        ((offset ≤ i) × (i < offset + length buffer)) ⊎ (i < offset) ⊎ (offset + length buffer ≤ i)
        → ((offset + c ≤ i) × (i < offset + c + length (drop c buffer)))
          ⊎ (i < offset + c)
          ⊎ (offset + c + length (drop c buffer) ≤ i)
        → overwritten (offset + c) (drop c buffer) g' i ≡ overwritten offset buffer g i
    from (inl (lo, hi)) (inl (lo', hi')) =
        let index : c + (i - (offset + c)) ≡ i - offset = omega arith in
        inside_buffer (offset + c) (drop c buffer) g' i lo' hi'
        ∙ get_or-drop c buffer (i - (offset + c))
        ∙ ap (λ k. get_or buffer k 0) index
        ∙ sym (inside_buffer offset buffer g i lo hi)
    from (inl (lo, hi)) (inr (inl below)) =
        outside_buffer (offset + c) (drop c buffer) g' i (inl below)
        ∙ e
        ∙ inside_buffer offset (take c buffer) g i lo (omega (arith, front))
        ∙ get_or-take c buffer (i - offset) (omega arith)
        ∙ sym (inside_buffer offset buffer g i lo hi)
    from (inl (lo, hi)) (inr (inr above)) = absurd (omega (arith, back))
    from (inr out) _ =
        outside_buffer (offset + c) (drop c buffer) g' i (omega (arith, back))
        ∙ e
        ∙ outside_buffer offset (take c buffer) g i (omega (arith, front))
        ∙ sym (outside_buffer offset buffer g i out)

-- From disk `f` to `f'` the buffer is written to the `m` blocks of the inode, and nothing else
-- changes.
pub record Writes (m : ℕ) (f f' : Disk) (sector offset : ℕ) (buffer : List ℕ) : Type 0 where
  pub frame : (t : ℕ) → ((k : ℕ) → k < m → block_of f sector k ≢ t) → f' t ≡ f t
  pub bytes :
      (i : ℕ)
      → i < m * block_sector_size
      → file_byte f' sector i ≡ overwritten offset buffer (file_byte f sector) i

module _ {size : ℕ} {f : Disk} {sector m : ℕ} (v : HasBlocks size f sector m) where
  module _ {f' : Disk}
      (frame : (t : ℕ) → ((k : ℕ) → k < m → block_of f sector k ≢ t) → f' t ≡ f t) where
    sector_same : f' sector ≡ f sector
    sector_same = frame sector v.own

    pub word_same : (o : ℕ) → word_at f' sector o ≡ word_at f sector o
    word_same o = ap (λ bs. word (copy_out bs o 4)) sector_same

    pub frame-SameWay : (k : ℕ) → k < m → SameWay f f' sector k
    frame-SameWay k h = record {
      pointers = λ o _ _. word_same o;
      lists = λ t l. frame t (λ i hi. v.apart i k t hi h l);
    }

    pub frame-HasBlocks : HasBlocks size f' sector m
    frame-HasBlocks = HasBlocks-same v frame-SameWay

  -- A piece within one block.
  module _ (offset : ℕ) (piece : List ℕ) (inside : offset / block_sector_size < m)
      (fits : offset % block_sector_size + length piece ≤ block_sector_size) where
    abbrev b : ℕ
    b = block_of f sector (offset / block_sector_size)

    abbrev pub piece_disk : Disk
    piece_disk = update f b (copy_in (f b) (offset % block_sector_size) piece)

    pub piece_frame : (t : ℕ) → ((k : ℕ) → k < m → block_of f sector k ≢ t) → piece_disk t ≡ f t
    piece_frame t out =
        let ne : (t == b) ≡ false = ground (arith, out (offset / block_sector_size) inside) in
        rw ne refl

    -- A byte of the block of the piece, and a byte of another block.
    piece_here :
        (i : ℕ)
        → i / block_sector_size ≡ offset / block_sector_size
        → length (f b) ≡ block_sector_size
        → get_or (piece_disk b) (i % block_sector_size) 0
          ≡ overwritten offset piece (file_byte f sector) i
    piece_here i e long = rw (==_refl b) (from (buffer_cases offset piece (file_byte f sector) i))
      where
        j : ℕ
        j = i % block_sector_size

        o : ℕ
        o = offset % block_sector_size

        fits_block : o + length piece ≤ length (f b)
        fits_block = omega (arith, long, fits)

        old : get_or (f b) j 0 ≡ file_byte f sector i
        old = ap (λ k. get_or (f (block_of f sector k)) j 0) (sym e)

        from :
            ((offset ≤ i) × (i < offset + length piece))
              ⊎ (i < offset)
              ⊎ (offset + length piece ≤ i)
            → get_or (copy_in (f b) o piece) j 0 ≡ overwritten offset piece (file_byte f sector) i
        from (inl (lo, hi)) =
            let index : j - o ≡ i - offset = omega (arith, e) in
            copy_in_within (f b) o piece fits_block j (omega (arith, e)) (omega (arith, e))
            ∙ ap (λ k. get_or piece k 0) index
            ∙ sym (inside_buffer offset piece (file_byte f sector) i lo hi)
        from (inr (inl h)) =
            copy_in_before (f b) o piece fits_block j (omega (arith, e))
            ∙ old
            ∙ sym (outside_buffer offset piece (file_byte f sector) i (inl h))
        from (inr (inr h)) =
            copy_in_after (f b) o piece fits_block j (omega (arith, e))
            ∙ old
            ∙ sym (outside_buffer offset piece (file_byte f sector) i (inr h))

    piece_bytes :
        length (f b) ≡ block_sector_size
        → (i : ℕ) → i < m * block_sector_size
        → file_byte piece_disk sector i ≡ overwritten offset piece (file_byte f sector) i
    piece_bytes long i h =
        ap (λ t. get_or (piece_disk t) (i % block_sector_size) 0)
          (block_of_same (frame-SameWay piece_frame (i / block_sector_size) counted))
        ∙ elim (Bool-cases (i / block_sector_size == offset / block_sector_size)) [
          | inl e ↦
              let same : i / block_sector_size ≡ offset / block_sector_size = (==_iff _ _).0 e in
              ap (λ k. get_or (piece_disk (block_of f sector k)) (i % block_sector_size) 0) same
              ∙ piece_here i same long
          | inr e ↦
              let ne : i / block_sector_size ≢ offset / block_sector_size = ground arith in
              let differ : block_of f sector (i / block_sector_size) ≢ b = λ x. ne (
                v.distinct (i / block_sector_size) (offset / block_sector_size) counted inside x) in
              let other : (block_of f sector (i / block_sector_size) == b) ≡ false = ground arith in
              let out : (i < offset) ⊎ (offset + length piece ≤ i) = omega arith in
              rw other (sym (outside_buffer offset piece (file_byte f sector) i out))
        ]
      where
        counted : i / block_sector_size < m
        counted = omega arith

    pub piece-Writes : length (f b) ≡ block_sector_size → Writes m f piece_disk sector offset piece
    piece-Writes long = record { frame = piece_frame; bytes = piece_bytes long }
