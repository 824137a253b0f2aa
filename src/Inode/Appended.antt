-- ===== src/Inode/Appended.antt =====
-- The blocks of an inode once file_grow of filesys/inode.c has stored new block numbers in it.
use mathlib.Core.Bool.{Bool, false≢true}
use oscourse_all_files.Common.{
  ℕ, ◌+◌, ◌-◌, ◌*◌, ◌≤◌, ◌<◌, ◌≡◌, ◌≢◌, inl, inr, refl, sym, ◌∙◌, ap, true, false, Bool-cases, ltb,
  lt→ltb, ◌==◌, ==_iff, ==_refl, List, length, get_or, update, arith,
}
use oscourse_all_files.Block.{block_sector_size}
use oscourse_all_files.Cache.{no_sector, copy_out}
use oscourse_all_files.FreeMap.{FreeMap}
use oscourse_all_files.FreeMap.Sectors.{used}
use oscourse_all_files.Inode.{word, direct_blocks}
use oscourse_all_files.Inode.Layout.{Disk, word_at, block_of, direct_pointer, file_length}
use oscourse_all_files.Inode.Frame.{block_count, IsList, HasBlocks, IsInode}
use oscourse_all_files.Inode.MapFile.{HasMap}
use oscourse_all_files.Inode.Grow.{zeros, set_words}
use oscourse_all_files.Inode.Allocate.{NewBlocks}
use oscourse_all_files.Inode.Pointers.{set_words_apart, set_words_at}

-- The free map has the sectors of the inode in use, and those of its own file, which are other ones.
pub record IsOwned (is_map : ℕ → Bool) (free : FreeMap) (f : Disk) (sector : ℕ) : Type 0 where
  pub inode : used free sector ≡ true
  pub blocks : (k : ℕ) → k < block_count f sector → used free (block_of f sector k) ≡ true
  pub has_map : HasMap is_map free
  pub not_map : is_map sector ≡ false
  pub blocks_not_map : (k : ℕ) → k < block_count f sector → is_map (block_of f sector k) ≡ false

-- From disk `f` to `f'` the inode has gained blocks, up to `m`, that were free and hold zeros;
-- what was in use is as before, but for the free map file and the inode's own sector, and there
-- the counts are the same.
pub record IsGrown (size m : ℕ) (is_map : ℕ → Bool) (free free' : FreeMap) (f f' : Disk)
    (sector : ℕ) : Type 0 where
  pub has : HasBlocks size f' sector m
  pub count_same : block_count f' sector ≡ block_count f sector
  pub length_same : file_length f' sector ≡ file_length f sector
  pub old : (k : ℕ) → k < block_count f sector → block_of f' sector k ≡ block_of f sector k
  pub fresh :
      (k : ℕ)
      → block_count f sector ≤ k
      → k < m
      → (used free (block_of f' sector k) ≡ false)
        × (used free' (block_of f' sector k) ≡ true)
        × (f' (block_of f' sector k) ≡ zeros)
  pub kept :
      (t : ℕ)
      → used free t ≡ true
      → (used free' t ≡ true) × (t ≢ sector → is_map t ≡ false → f' t ≡ f t)

module _ {size : ℕ} {is_map : ℕ → Bool} {free free' : FreeMap} {f f1 : Disk} {sector : ℕ}
    (bs : List ℕ) (v : IsInode size f sector) (o : IsOwned is_map free f sector)
    (n : NewBlocks is_map free free' f f1 bs) (long : length (f sector) ≡ block_sector_size)
    (fits : free.map.bit_cnt ≤ size) (small : size ≤ no_sector)
    (room : block_count f sector + length bs ≤ direct_blocks) where
  abbrev nb : ℕ
  nb = block_count f sector

  -- The inode with the new block numbers, and the disk with it.
  abbrev pub new_inode_bytes : List ℕ
  new_inode_bytes = set_words (f sector) (12 + nb * 4) bs

  abbrev pub appended : Disk
  appended = update f1 sector new_inode_bytes

  here : appended sector ≡ new_inode_bytes
  here = rw (==_refl sector) refl

  elsewhere : (t : ℕ) → t ≢ sector → appended t ≡ f1 t
  elsewhere t ne = let e : (t == sector) ≡ false = ground arith in rw e refl

  word_old : (p : ℕ) → p + 4 ≤ 12 + nb * 4 → word_at appended sector p ≡ word_at f sector p
  word_old p h =
      ap (λ b. word (copy_out b p 4)) here
      ∙ set_words_apart (f sector) (12 + nb * 4) bs p long (omega arith) (inl h)

  word_new : (k : ℕ) → k < length bs → word_at appended sector (12 + nb * 4 + k * 4) ≡ get_or bs k 0
  word_new k h =
      ap (λ b. word (copy_out b (12 + nb * 4 + k * 4) 4)) here
      ∙ set_words_at (f sector) (12 + nb * 4) bs k long (omega arith) h
          (omega (arith, n.in_map k h))

  direct : (g : Disk) (k : ℕ) → k < direct_blocks → block_of g sector k ≡ direct_pointer g sector k
  unfolding block_of
  direct g k h = rw (lt→ltb k direct_blocks h) refl

  old_block : (k : ℕ) → k < nb → block_of appended sector k ≡ block_of f sector k
  old_block k h =
      direct appended k (omega arith)
      ∙ word_old (12 + k * 4) (omega arith)
      ∙ sym (direct f k (omega arith))

  new_block :
      (k : ℕ) → nb ≤ k → k < nb + length bs → block_of appended sector k ≡ get_or bs (k - nb) 0
  new_block k lo hi =
      let place : 12 + k * 4 ≡ 12 + nb * 4 + (k - nb) * 4 = omega arith in
      direct appended k (omega arith)
      ∙ ap (word_at appended sector) place
      ∙ word_new (k - nb) (omega arith)

  -- Of a block of the inode: it was in use, or was free.
  old_used : (k : ℕ) → k < nb → used free (block_of appended sector k) ≡ true
  old_used k h = ap (used free) (old_block k h) ∙ o.blocks k h

  new_free : (k : ℕ) → nb ≤ k → k < nb + length bs → used free (block_of appended sector k) ≡ false
  new_free k lo hi = ap (used free) (new_block k lo hi) ∙ n.was_free (k - nb) (omega arith)

  used_apart : (s t : ℕ) → used free s ≡ true → used free t ≡ false → s ≢ t
  used_apart s t hs ht e = false≢true (sym ht ∙ ap (used free) (sym e) ∙ hs)

  -- In order, so that each case stands once.
  apart_in_order :
      (i j : ℕ)
      → i < j
      → j < nb + length bs
      → block_of appended sector i ≢ block_of appended sector j
  apart_in_order i j lt h e = elim (Bool-cases (ltb j nb)) [
    | inl below ↦
        let hj : j < nb = ground arith in
        let same : i ≡ j =
          v.has.distinct i j (omega arith) hj
            (sym (old_block i (omega arith)) ∙ e ∙ old_block j hj) in
        absurd (omega arith)
    | inr above ↦
        let hj : nb ≤ j = ground arith in
        elim (Bool-cases (ltb i nb)) [
          | inl below' ↦
              let hi : i < nb = ground arith in
              used_apart (block_of appended sector i) (block_of appended sector j) (old_used i hi)
                (new_free j hj h) e
          | inr above' ↦
              let hi : nb ≤ i = ground arith in
              n.distinct (i - nb) (j - nb) (omega arith) (omega arith)
                (sym (new_block i hi (omega arith)) ∙ e ∙ new_block j hj h)
        ]
  ]

  not_sector : (k : ℕ) → k < nb + length bs → block_of appended sector k ≢ sector
  not_sector k h e = elim (Bool-cases (ltb k nb)) [
    | inl below ↦ let hk : k < nb = ground arith in v.has.own k hk (sym (old_block k hk) ∙ e)
    | inr above ↦
        let hk : nb ≤ k = ground arith in
        used_apart sector (block_of appended sector k) o.inode (new_free k hk h) (sym e)
  ]

  in_disk : (k : ℕ) → k < nb + length bs → block_of appended sector k < size
  in_disk k h = elim (Bool-cases (ltb k nb)) [
    | inl below ↦
        let hk : k < nb = ground arith in omega (arith, old_block k hk, (v.has.blocks k hk).block)
    | inr above ↦
        let hk : nb ≤ k = ground arith in
        omega (arith, new_block k hk h, n.in_map (k - nb) (omega arith))
  ]

  no_list : (k t : ℕ) → k < nb + length bs → IsList appended sector k t → ⊥
  no_list k t h (inl (lo, _, _)) = absurd (omega arith)
  no_list k t h (inr (lo, _)) = absurd (omega arith)

  pub appended-IsGrown : IsGrown size (nb + length bs) is_map free free' f appended sector
  appended-IsGrown = record {
    has = record {
      in_range = v.has.in_range;
      blocks = λ k h. record {
        reachable = omega arith;
        block = in_disk k h;
        single = λ lo _. absurd (omega arith);
        double = λ lo. absurd (omega arith);
        inner = λ lo. absurd (omega arith);
      };
      distinct = λ i j hi hj e. distinct i j hi hj e;
      own = not_sector;
      apart = λ i k t hi hk l. absurd (no_list k t hk l);
      lists = λ k t h l. absurd (no_list k t h l);
    };
    count_same = word_old 0 (omega arith);
    length_same = word_old 4 (omega arith);
    old = old_block;
    fresh = λ k lo hi. (
      new_free k lo hi,
      ap (used free') (new_block k lo hi) ∙ n.in_use (k - nb) (omega arith),
      elsewhere (block_of appended sector k) (not_sector k hi)
          ∙ ap f1 (new_block k lo hi)
          ∙ n.zeroed (k - nb) (omega arith),
    );
    kept = λ t h. ((n.kept t h).0, λ ne out. elsewhere t ne ∙ (n.kept t h).1 out);
  }
    where
      distinct :
          (i j : ℕ)
          → i < nb + length bs
          → j < nb + length bs
          → block_of appended sector i ≡ block_of appended sector j
          → i ≡ j
      distinct i j hi hj e = elim (Bool-cases (i == j)) [
        | inl same ↦ (==_iff i j).0 same
        | inr ne ↦ elim (Bool-cases (ltb i j)) [
          | inl lt ↦ absurd (apart_in_order i j (ground arith) hj e)
          | inr ge ↦ absurd (apart_in_order j i (ground arith) hi (sym e))
        ]
      ]
