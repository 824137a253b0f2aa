-- ===== src/Inode/Find.antt =====
-- The functions of filesys/inode.c that find the sector of a position.
use oscourse_all_files.Common.{
  ℕ, ◌+◌, ◌-◌, ◌*◌, ◌/◌, ◌%◌, ◌^◌, ◌≤◌, ◌<◌, ◌≡◌, refl, inl, inr, Result, ok, ◌>>=◌, if◌then◌else◌,
  ltb, ltb→lt, lt→ltb, Bool-cases, arith,
}
use oscourse_all_files.Block.{block_sector_size}
use oscourse_all_files.Cache.{no_sector}
use oscourse_all_files.Inode.{
  SectorCache, Inode, direct_blocks, inode_list, less_signed, read_word, find_directblock,
  single_block, double_block, find_indirectblock, find_block, byte_to_sector, inode_length,
}
use oscourse_all_files.Inode.Layout.{
  Disk, CacheLaws, word_at, first_double, direct_pointer, single_list, double_list, inner_list,
  single_pointer, double_pointer, block_of, file_length, IsBlock, IsFile,
}

-- The call returns this value, and leaves the disk as it is.
abbrev pub Gives {ℓ} :
    {A : Type ℓ} {cache : SectorCache}
    → CacheLaws cache
    → ℕ
    → Disk
    → Result (A × cache.State)
    → A
    → Type ℓ
Gives {cache = cache} laws size f r v =
    (st' : cache.State) × (r ≡ ok (v, st')) × laws.Holds size f st'

module _ {cache : SectorCache} (laws : CacheLaws cache) {size : ℕ} {f : Disk} where
  open cache use {State}
  open laws use {Holds}

  -- A call, then what follows it.
  pub and_then {ℓ κ} :
      {A : Type ℓ} {B : Type κ} {r : Result (A × State)} {v : A} {w : B}
      (next : A × State → Result (B × State))
      → Gives laws size f r v
      → ((st' : State) → Holds size f st' → Gives laws size f (next (v, st')) w)
      → Gives laws size f (r >>= next) w
  and_then next (st', e, h) rest = rw e (rest st' h)

  -- The same for any property of what follows, after a call that gives a value or only a state.
  pub bind_value {ℓ κ μ} :
      {A : Type ℓ} {B : Type κ} {r : Result (A × State)} {v : A} (P : Result B → Type μ)
      (next : A × State → Result B)
      → Gives laws size f r v
      → ((st' : State) → Holds size f st' → P (next (v, st')))
      → P (r >>= next)
  bind_value P next (st', e, h) rest = rw e (rest st' h)

  pub bind_state {κ μ} :
      {B : Type κ} {r : Result State} (P : Result B → Type μ) (next : State → Result B)
      → (st' : State) × (r ≡ ok st') × Holds size f st'
      → ((st' : State) → Holds size f st' → P (next st'))
      → P (r >>= next)
  bind_state P next (st', e, h) rest = rw e (rest st' h)

  pub read_word_lem :
      {st : State}
      → Holds size f st
      → (s offset : ℕ) → s < size
      → offset + 4 ≤ block_sector_size
      → Gives laws size f (read_word cache st s offset) (word_at f s offset)
  unfolding read_word
  read_word_lem h s offset inside fits =
      and_then _ (laws.read_lem h s offset 4 inside (omega (arith, fits)) fits)
        (λ st' h'. (st', refl, h'))

  module _ (inode : Inode) (inside : inode.sector < size) where
    find_directblock_lem :
        {st : State}
        → Holds size f st
        → (pos : ℕ) → pos / block_sector_size < direct_blocks
        → Gives laws size f
            (find_directblock cache st inode pos)
            (direct_pointer f inode.sector (pos / block_sector_size))
    unfolding find_directblock
    find_directblock_lem h pos direct =
        rw (lt→ltb (pos / block_sector_size) direct_blocks direct)
          (read_word_lem h inode.sector (12 + pos / block_sector_size * 4) inside (omega arith))

    single_block_lem :
        {st : State}
        → Holds size f st
        → (k : ℕ) → k < first_double
        → direct_blocks ≤ k
        → single_list f inode.sector < size
        → Gives laws size f (single_block cache st inode k) (single_pointer f inode.sector k)
    unfolding single_block
    single_block_lem h k below above list =
        and_then _ (read_word_lem h inode.sector (12 + direct_blocks * 4) inside (omega arith))
          (λ _ h'.
            read_word_lem h' (single_list f inode.sector) ((k - direct_blocks) * 4) list
              (omega arith))

    double_block_lem :
        {st : State}
        → Holds size f st
        → (k : ℕ) → first_double ≤ k
        → IsBlock size f inode.sector k
        → Gives laws size f (double_block cache st inode k) (double_pointer f inode.sector k)
    unfolding double_block
    double_block_lem h k above b =
        let p : ℕ = k - direct_blocks - inode_list in
        let small : p / inode_list < inode_list = omega (arith, b.reachable) in
        let same : p ≡ k - first_double = omega arith in
        let rest : p - p / inode_list * inode_list ≡ (k - first_double) % inode_list =
          omega arith in
        rw (rest, same)
          (and_then _
            (read_word_lem h inode.sector (12 + (direct_blocks + 1) * 4) inside (omega arith))
            (λ _ h1.
              and_then _
                (read_word_lem h1 (double_list f inode.sector) ((k - first_double) / inode_list * 4)
                  (b.double above) (omega arith))
                (λ _ h2.
                  read_word_lem h2 (inner_list f inode.sector k)
                    ((k - first_double) % inode_list * 4) (b.inner above) (omega arith))))

    -- The block of a position is found where it and its lists are on the disk.
    pub find_block_lem :
        {st : State}
        → Holds size f st
        → (pos : ℕ) → IsBlock size f inode.sector (pos / block_sector_size)
        → Gives laws size f
            (find_block cache st inode pos)
            (block_of f inode.sector (pos / block_sector_size))
    unfolding find_block find_indirectblock block_of
    find_block_lem h pos b = elim (Bool-cases (ltb (pos / block_sector_size) direct_blocks)) [
      | inl e ↦ rw e (find_directblock_lem h pos (ltb→lt (pos / block_sector_size) direct_blocks e))
      | inr e ↦
          let k : ℕ = pos / block_sector_size in
          let above : direct_blocks ≤ k = ground arith in
          rw e (
            and_then _ (read_word_lem h inode.sector 0 inside (omega arith)) (λ _ h1.
              elim (Bool-cases (ltb k first_double)) [
                | inl e' ↦
                    let below : k < first_double = ltb→lt k first_double e' in
                    rw e' (single_block_lem h1 k below above (b.single above below))
                | inr e' ↦
                    let beyond : first_double ≤ k = ground arith in
                    rw e' (double_block_lem h1 k beyond b)
              ]))
    ]

    pub inode_length_lem :
        {st : State}
        → Holds size f st
        → Gives laws size f (inode_length cache st inode) (file_length f inode.sector)
    unfolding inode_length
    inode_length_lem h = read_word_lem h inode.sector 4 inside (omega arith)

    -- A position of the file is found in its block, and there is no sector for a position beyond
    -- its end.
    pub byte_to_sector_lem :
        IsFile size f inode.sector
        → {st : State} → Holds size f st
        → (pos : ℕ) → pos < 2 ^ 31
        → Gives laws size f (byte_to_sector cache st inode pos) (
            if ltb pos (file_length f inode.sector)
            then block_of f inode.sector (pos / block_sector_size)
            else no_sector)
    unfolding byte_to_sector
    byte_to_sector_lem file h pos small =
        let l : ℕ = file_length f inode.sector in
        let same : less_signed pos l ≡ ltb pos l = ground (arith, file.short) in
        and_then _ (read_word_lem h inode.sector 4 inside (omega arith)) (λ st1 h1.
          rw same (elim (Bool-cases (ltb pos l)) [
            | inl e ↦
                let within : pos < l = ltb→lt pos l e in
                rw e (find_block_lem h1 pos (file.blocks (pos / block_sector_size) (omega arith)))
            | inr e ↦ rw e (st1, refl, h1)
          ]))
