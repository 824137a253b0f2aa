-- ===== src/Inode/Frame.antt =====
-- Which changes of the disk leave the block lists of an inode of filesys/inode.c as they are.
use oscourse_all_files.Common.{
  ℕ, ◌+◌, ◌-◌, ◌*◌, ◌/◌, ◌%◌, ◌^◌, ◌≤◌, ◌<◌, ◌≡◌, ◌≢◌, ◌⊎◌, inl, inr, refl, sym, ◌∙◌, ap,
  Bool-cases, ltb, ltb→lt, arith,
}
use oscourse_all_files.Block.{block_sector_size}
use oscourse_all_files.Cache.{copy_out}
use oscourse_all_files.Inode.{word, direct_blocks, inode_list}
use oscourse_all_files.Inode.Layout.{
  Disk, word_at, first_double, single_list, double_list, inner_list, block_of, file_length, IsBlock,
  IsFile,
}

-- The number of blocks that an inode counts.
abbrev pub block_count : Disk → ℕ → ℕ
block_count f sector = word_at f sector 0

-- Sector `t` is a list on the way to block `k`.
abbrev pub IsList : Disk → ℕ → ℕ → ℕ → Type 0
IsList f sector k t =
    ((direct_blocks ≤ k) × (k < first_double) × (t ≡ single_list f sector))
    ⊎ ((first_double ≤ k) × ((t ≡ double_list f sector) ⊎ (t ≡ inner_list f sector k)))

-- The inode at `sector` has pointers to `m` blocks: sectors of the disk, different ones, and none of
-- them is a list or the inode's own.
pub record HasBlocks (size : ℕ) (f : Disk) (sector m : ℕ) : Type 0 where
  pub in_range : sector < size
  pub blocks : (k : ℕ) → k < m → IsBlock size f sector k
  pub distinct : (i j : ℕ) → i < m → j < m → block_of f sector i ≡ block_of f sector j → i ≡ j
  pub own : (k : ℕ) → k < m → block_of f sector k ≢ sector
  pub apart : (i k t : ℕ) → i < m → k < m → IsList f sector k t → block_of f sector i ≢ t
  pub lists : (k t : ℕ) → k < m → IsList f sector k t → t ≢ sector

-- It has the blocks that it counts, one more than its length fills.
pub record IsInode (size : ℕ) (f : Disk) (sector : ℕ) : Type 0 where
  pub short : file_length f sector < 2 ^ 31
  pub count : block_count f sector ≡ file_length f sector / block_sector_size + 1
  pub has : HasBlocks size f sector (block_count f sector)

pub IsInode-IsFile :
    {size : ℕ} {f : Disk} {sector : ℕ} → IsInode size f sector → IsFile size f sector
IsInode-IsFile v = record {
  in_range = v.has.in_range;
  short = v.short;
  blocks = λ k h. v.has.blocks k (omega (arith, v.count));
}

-- The pointers of the inode are the same, and so are the lists on the way to block `k`.
pub record SameWay (f f' : Disk) (sector k : ℕ) : Type 0 where
  pub pointers :
      (o : ℕ) → 12 ≤ o → o + 4 ≤ block_sector_size → word_at f' sector o ≡ word_at f sector o
  pub lists : (t : ℕ) → IsList f sector k t → f' t ≡ f t

module _ {f f' : Disk} {sector k : ℕ} (w : SameWay f f' sector k) where
  single_list_same : single_list f' sector ≡ single_list f sector
  single_list_same = w.pointers (12 + direct_blocks * 4) (omega arith) (omega arith)

  double_list_same : double_list f' sector ≡ double_list f sector
  double_list_same = w.pointers (12 + (direct_blocks + 1) * 4) (omega arith) (omega arith)

  -- A word of a list is read through a pointer.
  through : {t' t : ℕ} → t' ≡ t → IsList f sector k t → (o : ℕ) → word_at f' t' o ≡ word_at f t o
  through {t'} {t} e l o =
      ap (λ x. word_at f' x o) e ∙ ap (λ bs. word (copy_out bs o 4)) (w.lists t l)

  inner_list_same : first_double ≤ k → inner_list f' sector k ≡ inner_list f sector k
  inner_list_same h =
      through double_list_same (inr (h, inl refl)) ((k - first_double) / inode_list * 4)

  pub block_of_same : block_of f' sector k ≡ block_of f sector k
  unfolding block_of
  block_of_same = elim (Bool-cases (ltb k direct_blocks)) [
    | inl e ↦
        let direct : k < direct_blocks = ltb→lt k direct_blocks e in
        rw e (w.pointers (12 + k * 4) (omega arith) (omega arith))
    | inr e ↦ elim (Bool-cases (ltb k first_double)) [
      | inl e' ↦
          let above : direct_blocks ≤ k = ground arith in
          rw (e, e')
            (through single_list_same (inl (above, ltb→lt k first_double e', refl))
              ((k - direct_blocks) * 4))
      | inr e' ↦
          let above : first_double ≤ k = ground arith in
          rw (e, e')
            (through (inner_list_same above) (inr (above, inr refl))
              ((k - first_double) % inode_list * 4))
    ]
  ]

  pub IsBlock-same : {size : ℕ} → IsBlock size f sector k → IsBlock size f' sector k
  IsBlock-same b = record {
    reachable = b.reachable;
    block = rw block_of_same b.block;
    single = λ lo hi. rw single_list_same (b.single lo hi);
    double = λ h. rw double_list_same (b.double h);
    inner = λ h. rw (inner_list_same h) (b.inner h);
  }

  pub IsList-same : (t : ℕ) → IsList f' sector k t → IsList f sector k t
  IsList-same t (inl (lo, hi, e)) = inl (lo, hi, e ∙ single_list_same)
  IsList-same t (inr (h, inl e)) = inr (h, inl (e ∙ double_list_same))
  IsList-same t (inr (h, inr e)) = inr (h, inr (e ∙ inner_list_same h))

-- A change that leaves the lists leaves the blocks.
pub HasBlocks-same :
    {size : ℕ} {f f' : Disk} {sector m : ℕ}
    → HasBlocks size f sector m
    → ((k : ℕ) → k < m → SameWay f f' sector k)
    → HasBlocks size f' sector m
HasBlocks-same v w = record {
  in_range = v.in_range;
  blocks = λ k h. IsBlock-same (w k h) (v.blocks k h);
  distinct = λ i j hi hj e.
      v.distinct i j hi hj (sym (block_of_same (w i hi)) ∙ e ∙ block_of_same (w j hj));
  own = λ k h e. v.own k h (sym (block_of_same (w k h)) ∙ e);
  apart = λ i k t hi hk l e.
      v.apart i k t hi hk (IsList-same (w k hk) t l) (sym (block_of_same (w i hi)) ∙ e);
  lists = λ k t h l. v.lists k t h (IsList-same (w k h) t l);
}
