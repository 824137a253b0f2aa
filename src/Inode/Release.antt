-- ===== src/Inode/Release.antt =====
-- Removing a file in filesys/inode.c: its blocks go back to the free map.
use mathlib.Core.Path.{subst}
use oscourse_all_files.Common.{
  ℕ, some, assert, ◌>>◌, ◌≤◌, ◌<◌, ◌≡◌, ◌≢◌, refl, sym, ◌∙◌, ap, Bool, true, false, leb, lt→ltb,
  le→leb, ◌==◌, ==_iff, List, Result, ok, ◌>>=◌, arith,
}
use oscourse_all_files.Block.{block_sector_size}
use oscourse_all_files.Cache.{copy_out}
use oscourse_all_files.FreeMap.{FreeMap, free_map_release}
use oscourse_all_files.FreeMap.Sectors.{used, IsWellFormed}
use oscourse_all_files.Bitmap.{Bitmap}
use oscourse_all_files.Inode.MapFile.{MapFile, HoldsBut, keeps}
use oscourse_all_files.Inode.{SectorCache, Inode, direct_blocks}
use oscourse_all_files.Inode.Layout.{Disk, CacheLaws, block_of, direct_pointer}
use oscourse_all_files.Inode.Find.{bind_value, read_word_lem}
use oscourse_all_files.Inode.Frame.{block_count, IsInode}
use oscourse_all_files.Inode.Grow.{FileSystem}
use oscourse_all_files.Inode.Open.{
  release_loop, release_blocks, find_open, remove_open, inode_close,
}
use oscourse_all_files.Inode.GiveBack.{IsHeld, take_all, give_one, release_loop_lem}

-- The free map after the blocks of a removed inode are given back.
pub record IsFreed (free free' : FreeMap) (f : Disk) (sector : ℕ) : Type 0 where
  pub well_formed : IsWellFormed free'
  pub inode_free : used free' sector ≡ false
  pub blocks_free : (k : ℕ) → k < block_count f sector → used free' (block_of f sector k) ≡ false
  pub kept :
      (j : ℕ)
      → j ≢ sector
      → ((k : ℕ) → k < block_count f sector → block_of f sector k ≢ j)
      → used free' j ≡ used free j

module _ {cache : SectorCache} (laws : CacheLaws cache) (size : ℕ) (f : Disk) (sector : ℕ)
    (v : IsInode size f sector) (few : block_count f sector ≤ direct_blocks)
    (bitmap_write : Bitmap → cache.State → Result (Bool × cache.State))
    (file : MapFile laws size bitmap_write) where
  open laws use {Holds}

  direct : (k : ℕ) → k < block_count f sector → block_of f sector k ≡ direct_pointer f sector k
  unfolding block_of
  direct k h = rw (lt→ltb k direct_blocks (omega (arith, few))) refl

  -- What is asked of the free map: it has the sectors of the inode.
  abbrev pub Held : FreeMap → Type 0
  Held free =
      IsHeld free sector × ((k : ℕ) → k < block_count f sector → IsHeld free (block_of f sector k))

  abbrev pub Frees : FileSystem cache → Result (FileSystem cache) → Type 0
  Frees fs r =
      (fs' : FileSystem cache) × (r ≡ ok fs')
      × HoldsBut file f fs'.cached
      × IsFreed fs.free fs'.free f sector

  -- What follows the two reads.
  give_all :
      (fs : FileSystem cache)
      → Holds size f fs.cached
      → file.Ready f
      → IsWellFormed fs.free
      → fs.free.has_file ≡ true
      → Held fs.free
      → Frees fs (
          release_loop cache bitmap_write (block_count f sector) fs (f sector) 0 >>= λ fs'.
          assert (leb (block_count f sector) direct_blocks)
          >> (free_map_release bitmap_write fs'.free fs'.cached sector 1 >>= λ (free, st).
              ok (record { cached = st; free = free })))
  give_all fs h ready w has_file (own, blocks) =
      let p : ℕ → ℕ = direct_pointer f sector in
      let n : ℕ = block_count f sector in
      let fits : leb n direct_blocks ≡ true = le→leb n direct_blocks few in
      let (free1, st1, e1, p1, g1) =
        release_loop_lem cache bitmap_write (HoldsBut file f) (keeps file f) (f sector) p
          (λ k _. refl) n fs 0 (omega (arith, few)) w has_file (f, h, (λ _ _. refl), ready)
          (λ k _ hi. subst (IsHeld fs.free) (direct k (omega arith)) (blocks k (omega arith)))
          (λ k l lt hi _ x.
            let same : k ≡ l =
              v.has.distinct k l (omega arith) (omega arith)
                (direct k (omega arith) ∙ x ∙ sym (direct l (omega arith))) in
            absurd (omega arith)) in
      let apart : (k : ℕ) → k < n → p k ≢ sector = λ k hk x. v.has.own k hk (direct k hk ∙ x) in
      let still : IsHeld free1 sector = record {
        in_map = omega (arith, own.in_map, g1.size_same);
        held = g1.kept sector (λ k _ hi. apart k (omega arith)) ∙ own.held;
        not_fixed = own.not_fixed;
      } in
      let (free2, st2, e2, p2, g2) =
        give_one bitmap_write (HoldsBut file f) (keeps file f) free1 st1 g1.well_formed g1.has_file
          p1 (λ _. sector) 0 still in
      (
        record { cached = st2; free = free2 },
        rw (e1, fits, e2) refl,
        p2,
        record {
          well_formed = g2.well_formed;
          inode_free = g2.freed 0 (omega arith) (omega arith);
          blocks_free = λ k hk.
              g2.kept (block_of f sector k) (λ _ _ _ x. v.has.own k hk (sym x))
              ∙ ap (used free1) (direct k hk)
              ∙ g1.freed k (omega arith) (omega arith);
          kept = λ j ne out.
              g2.kept j (λ _ _ _ x. ne (sym x))
              ∙ g1.kept j (λ k _ hi x. out k (omega arith) (direct k (omega arith) ∙ x));
        },
      )

  release_blocks_lem :
      (fs : FileSystem cache)
      → Holds size f fs.cached
      → file.Ready f
      → IsWellFormed fs.free
      → fs.free.has_file ≡ true
      → Held fs.free
      → Frees fs (release_blocks cache bitmap_write fs sector)
  unfolding release_blocks
  release_blocks_lem fs h ready w has_file (own, blocks) =
      let whole : copy_out (f sector) 0 block_sector_size ≡ f sector =
        take_all block_sector_size (f sector) (laws.length-sector h sector v.has.in_range) in
      bind_value laws (Frees fs) _
        (laws.read_lem h sector 0 block_sector_size v.has.in_range (omega arith) (omega arith))
        (λ st1 h1.
          bind_value laws (Frees fs) _ (read_word_lem laws h1 sector 0 v.has.in_range (omega arith))
            (λ st2 h2.
              rw whole (give_all (record fs { cached = st2 }) h2 ready w has_file (own, blocks))))

  -- There is a free map file, ready on the disk for the write of the map, which then returns,
  -- leaves it ready, and changes only sectors of that file. An inode counts one block more than
  -- its length fills, at most the 122 direct ones; the blocks are sectors of the disk, all
  -- different, and different from the inode's. The free map is well formed and has the inode's
  -- sector and its blocks in use, and none of them is one of the two fixed sectors. If the inode
  -- is open, was removed and has one opener, `inode_close` returns, and takes it off the list of
  -- open inodes. Afterwards its sector and all its blocks are free, every other sector is free or
  -- in use as before, the free map is well formed, and the disk is as before but for the sectors
  -- of the free map file.
  pub inode_close_removed :
      (fs : FileSystem cache) (open_inodes : List Inode) (inode : Inode)
      → find_open open_inodes sector ≡ some inode
      → inode.open_cnt ≡ 1
      → inode.removed ≡ true
      → Holds size f fs.cached
      → file.Ready f
      → IsWellFormed fs.free
      → fs.free.has_file ≡ true
      → Held fs.free
      → (fs' : FileSystem cache) × (inode_close cache bitmap_write fs open_inodes sector
          ≡ ok (fs', remove_open open_inodes sector))
        × HoldsBut file f fs'.cached
        × IsFreed fs.free fs'.free f sector
  unfolding inode_close
  inode_close_removed fs open_inodes inode e one removed h ready w has_file held =
      let (fs', e', h', freed) = release_blocks_lem fs h ready w has_file held in
      let last : (inode.open_cnt == 1) ≡ true = (==_iff inode.open_cnt 1).1 one in
      (fs', rw (e, inode_close, last, removed, e') refl, h', freed)
