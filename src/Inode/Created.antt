-- ===== src/Inode/Created.antt =====
-- The disk once inode_create of filesys/inode.c has written the inode of an empty file.
use mathlib.Core.Bool.{Bool, false≢true}
use oscourse_all_files.Common.{
  ℕ, ◌+◌, ◌-◌, ◌*◌, ◌/◌, ◌%◌, ◌≤◌, ◌<◌, ◌≡◌, ◌≢◌, inl, inr, refl, sym, ◌∙◌, ap, true, false, ◌==◌,
  ==_refl, List, [], ◌∷◌, length, get_or, update, arith, two_32, length-replicate,
}
use oscourse_all_files.Block.{block_sector_size}
use oscourse_all_files.Cache.{no_sector, copy_out}
use oscourse_all_files.Cache.ReadWrite.{length-copy_in}
use oscourse_all_files.FreeMap.{FreeMap}
use oscourse_all_files.FreeMap.Sectors.{used}
use oscourse_all_files.Inode.{word, bytes_of}
use oscourse_all_files.Inode.Layout.{Disk, block_of, file_byte, file_length}
use oscourse_all_files.Inode.Word.{length-bytes_of, get_or-replicate, word_apart}
use oscourse_all_files.Inode.Frame.{block_count, IsList, IsInode}
use oscourse_all_files.Inode.MapFile.{HasMap, free_not_map}
use oscourse_all_files.Inode.Grow.{zeros, set_words}
use oscourse_all_files.Inode.Open.{inode_magic, disk_inode}
use oscourse_all_files.Inode.Allocate.{NewBlocks}
use oscourse_all_files.Inode.Pointers.{length-set_words, set_words_apart, set_words_at}
use oscourse_all_files.Inode.Appended.{IsOwned}

-- What was in use is as before, but for the contents of one sector and of the free map file.
abbrev pub KeepsUsed : (ℕ → Bool) → FreeMap → FreeMap → Disk → Disk → ℕ → Type 0
KeepsUsed is_map free free' f f' sector =
    (t : ℕ)
    → used free t ≡ true
    → (used free' t ≡ true) × (t ≢ sector → is_map t ≡ false → f' t ≡ f t)

-- From disk `f` to `f'` the sector has become the inode of a file of some length, whose blocks were
-- free and hold zeros.
pub record IsCreated (size : ℕ) (is_map : ℕ → Bool) (free free' : FreeMap) (f f' : Disk)
    (sector size_bytes : ℕ) : Type 0 where
  pub inode : IsInode size f' sector
  pub owned : IsOwned is_map free' f' sector
  pub long : file_length f' sector ≡ size_bytes
  pub was_free : (k : ℕ) → k < block_count f' sector → used free (block_of f' sector k) ≡ false
  pub zeroed : (i : ℕ) → i < block_count f' sector * block_sector_size → file_byte f' sector i ≡ 0
  pub kept : KeepsUsed is_map free free' f f' sector

length-zeros : length zeros ≡ block_sector_size
length-zeros = length-replicate {A = ℕ} block_sector_size 0

module _ (blocks : List ℕ) (type : ℕ) (few : length blocks ≤ 1) where
  abbrev header : List ℕ
  header = set_words zeros 0 (1 ∷ 0 ∷ inode_magic ∷ [])

  length-header : length header ≡ block_sector_size
  length-header = length-set_words zeros 0 (1 ∷ 0 ∷ inode_magic ∷ []) length-zeros (omega arith)

  length-listed : length (set_words header 12 blocks) ≡ block_sector_size
  length-listed = length-set_words header 12 blocks length-header (omega arith)

  pub length-disk_inode : length (disk_inode blocks type) ≡ block_sector_size
  length-disk_inode =
      length-copy_in (set_words header 12 blocks) (bytes_of type) (block_sector_size - 4)
        length-listed (omega (arith, length-bytes_of type))

  -- A word before the type.
  before_type :
      (p : ℕ)
      → p + 4 ≤ block_sector_size - 4
      → word (copy_out (disk_inode blocks type) p 4)
        ≡ word (copy_out (set_words header 12 blocks) p 4)
  before_type p h =
      word_apart (set_words header 12 blocks) (block_sector_size - 4) (bytes_of type) p
        (omega (arith, length-bytes_of type, length-listed)) (inl h)

  header_word :
      (k : ℕ)
      → k < 3
      → get_or (1 ∷ 0 ∷ inode_magic ∷ []) k 0 < two_32
      → word (copy_out (disk_inode blocks type) (0 + k * 4) 4)
        ≡ get_or (1 ∷ 0 ∷ inode_magic ∷ []) k 0
  header_word k h small =
      before_type (0 + k * 4) (omega arith)
      ∙ set_words_apart header 12 blocks (0 + k * 4) length-header (omega arith) (inl (omega arith))
      ∙ set_words_at zeros 0 (1 ∷ 0 ∷ inode_magic ∷ []) k length-zeros (omega arith) (omega arith)
          small

  pointer :
      0 < length blocks
      → get_or blocks 0 0 < two_32
      → word (copy_out (disk_inode blocks type) (12 + 0 * 4) 4) ≡ get_or blocks 0 0
  pointer some small =
      before_type (12 + 0 * 4) (omega arith)
      ∙ set_words_at header 12 blocks 0 length-header (omega arith) some small

module _ (f1 : Disk) (sector : ℕ) (bs : List ℕ) (type : ℕ) where
  -- The disk with the inode.
  abbrev pub created : Disk
  created = update f1 sector (disk_inode bs type)

  here : created sector ≡ disk_inode bs type
  here = rw (==_refl sector) refl

  elsewhere : (t : ℕ) → t ≢ sector → created t ≡ f1 t
  elsewhere t ne = let e : (t == sector) ≡ false = ground arith in rw e refl

  pub created-KeepsUsed :
      {is_map : ℕ → Bool} {free free' : FreeMap} {f : Disk}
      → NewBlocks is_map free free' f f1 bs
      → KeepsUsed is_map free free' f created sector
  created-KeepsUsed n t h = ((n.kept t h).0, λ ne out. elsewhere t ne ∙ (n.kept t h).1 out)

  module _ {size : ℕ} {is_map : ℕ → Bool} {free free' : FreeMap} {f : Disk}
      (n : NewBlocks is_map free free' f f1 bs) (one : length bs ≡ 1)
      (held : used free sector ≡ true) (in_range : sector < size) (fits : free.map.bit_cnt ≤ size)
      (small : size ≤ no_sector) (has_map : HasMap is_map free)
      (not_map : is_map sector ≡ false) where
    in_map : get_or bs 0 0 < free.map.bit_cnt
    in_map = n.in_map 0 (omega arith)

    count_one : block_count created sector ≡ 1
    count_one =
        ap (λ x. word (copy_out x 0 4)) here
        ∙ header_word bs type (omega arith) 0 (omega arith) (omega arith)

    length_none : file_length created sector ≡ 0
    length_none =
        ap (λ x. word (copy_out x 4 4)) here
        ∙ header_word bs type (omega arith) 1 (omega arith) (omega arith)

    first_block : block_of created sector 0 ≡ get_or bs 0 0
    unfolding block_of
    first_block =
        ap (λ x. word (copy_out x 12 4)) here
        ∙ pointer bs type (omega arith) (omega arith) (omega (arith, in_map))

    block : (k : ℕ) → k < block_count created sector → block_of created sector k ≡ get_or bs 0 0
    block k h =
        let z : k ≡ 0 = omega (arith, count_one) in ap (block_of created sector) z ∙ first_block

    free_before : used free (get_or bs 0 0) ≡ false
    free_before = n.was_free 0 (omega arith)

    not_sector : get_or bs 0 0 ≢ sector
    not_sector e = false≢true (sym free_before ∙ ap (used free) e ∙ held)

    no_list : (k t : ℕ) → k < block_count created sector → IsList created sector k t → ⊥
    no_list k t h (inl (lo, _, _)) = absurd (omega (arith, count_one))
    no_list k t h (inr (lo, _)) = absurd (omega (arith, count_one))

    created-IsInode : IsInode size created sector
    created-IsInode = record {
      short = omega (arith, length_none);
      count = count_one ∙ omega (arith, length_none);
      has = record {
        in_range = in_range;
        blocks = λ k h. record {
          reachable = omega (arith, count_one);
          block = omega (arith, block k h, in_map);
          single = λ lo _. absurd (omega (arith, count_one));
          double = λ lo. absurd (omega (arith, count_one));
          inner = λ lo. absurd (omega (arith, count_one));
        };
        distinct = λ i j hi hj _. omega (arith, count_one);
        own = λ k h e. not_sector (sym (block k h) ∙ e);
        apart = λ i k t hi hk l. absurd (no_list k t hk l);
        lists = λ k t h l. absurd (no_list k t h l);
      };
    }

    block_zeros : created (get_or bs 0 0) ≡ zeros
    block_zeros = elsewhere (get_or bs 0 0) not_sector ∙ n.zeroed 0 (omega arith)

    pub created-IsCreated : IsCreated size is_map free free' f created sector 0
    created-IsCreated = record {
      inode = created-IsInode;
      owned = record {
        inode = (n.kept sector held).0;
        blocks = λ k h. ap (used free') (block k h) ∙ n.in_use 0 (omega arith);
        has_map = λ t h. (n.kept t (has_map t h)).0;
        not_map = not_map;
        blocks_not_map = λ k h.
            ap is_map (block k h) ∙ free_not_map is_map free has_map (get_or bs 0 0) free_before;
      };
      long = length_none;
      was_free = λ k h. ap (used free) (block k h) ∙ free_before;
      zeroed = λ i h.
          ap (λ t. get_or (created t) (i % block_sector_size) 0)
            (block (i / block_sector_size) (omega arith))
          ∙ ap (λ x. get_or x (i % block_sector_size) 0) block_zeros
          ∙ get_or-replicate block_sector_size (i % block_sector_size);
      kept = created-KeepsUsed n;
    }
