-- ===== src/Inode/Growing.antt =====
-- file_grow of filesys/inode.c, while the file stays within the direct blocks.
use mathlib.Core.Path.{subst}
use oscourse_all_files.Common.{
  ℕ, ◌+◌, ◌-◌, ◌*◌, ◌/◌, ◌≤◌, ◌<◌, ◌≡◌, ◌⊎◌, inl, inr, refl, sym, ◌∙◌, Bool, true, false, ltb, ◌==◌,
  if◌then◌else◌, none, List, length, update, Result, ok, ◌>>=◌, arith,
}
use oscourse_all_files.Bitmap.{Bitmap}
use oscourse_all_files.Block.{block_sector_size}
use oscourse_all_files.Cache.{copy_out}
use oscourse_all_files.FreeMap.Sectors.{used, IsWellFormed}
use oscourse_all_files.FreeMap.Count.{free_count}
use oscourse_all_files.Inode.MapFile.{MapFile}
use oscourse_all_files.Inode.{SectorCache, Inode, direct_blocks, less_signed, sub_word}
use oscourse_all_files.Inode.Layout.{Disk, CacheLaws}
use oscourse_all_files.Inode.Find.{bind_value, read_word_lem}
use oscourse_all_files.Inode.Frame.{block_count, IsInode}
use oscourse_all_files.Inode.Grow.{
  FileSystem, Growth, add_word, set_words, inode_allocblocks, alloc_loop, grow_direct, grow_single,
  grow_double, save_list, save_growth, file_grow,
}
use oscourse_all_files.Inode.GiveBack.{take_all}
use oscourse_all_files.Inode.Allocate.{NewBlocks, NoSpace, Gets, alloc_loop_lem, copy_in_whole}
use oscourse_all_files.Inode.Pointers.{length-set_words}
use oscourse_all_files.Inode.Appended.{IsOwned, IsGrown, appended-IsGrown}

module _ {cache : SectorCache} (laws : CacheLaws cache) (size : ℕ)
    (bitmap_write : Bitmap → cache.State → Result (Bool × cache.State))
    (file : MapFile laws size bitmap_write) where
  open laws use {Holds}
  open file use {is_map, Ready}

  -- Where all the blocks fit the direct ones, the loop gets as many as are asked for.
  grow_direct_lem :
      (g : Growth cache)
      → 0 < g.newblocks
      → g.number_blocks + g.newblocks ≤ direct_blocks
      → grow_direct cache bitmap_write g ≡ (
          alloc_loop cache bitmap_write g.newblocks false g.fs >>= λ ((success, blocks), fs).
          ok (record g {
            success = success;
            temp = set_words g.temp (12 + g.number_blocks * 4) blocks;
            newblocks = 0;
            number_blocks = g.number_blocks + g.newblocks;
            fs = fs;
          }))
  unfolding grow_direct inode_allocblocks
  grow_direct_lem g pos room =
      let loads : (if ltb (add_word g.number_blocks g.newblocks) direct_blocks
            then g.newblocks
            else direct_blocks - g.number_blocks)
          ≡ g.newblocks =
        ground arith in
      let some_room : ltb g.number_blocks direct_blocks ≡ true = ground arith in
      let positive : less_signed 0 g.newblocks ≡ true = ground arith in
      let none_left : sub_word g.newblocks g.newblocks ≡ 0 = omega arith in
      rw (loads, some_room, positive, none_left) refl

  -- Nothing is left to do for the lists.
  grow_single_none : (g : Growth cache) → g.newblocks ≡ 0 → grow_single cache bitmap_write g ≡ ok g
  unfolding grow_single
  grow_single_none g e = rw e refl

  grow_double_none :
      (memory : List ℕ) (g : Growth cache)
      → g.newblocks ≡ 0
      → grow_double cache bitmap_write memory g ≡ ok g
  unfolding grow_double
  grow_double_none memory g e = rw e refl

  module _ (memory : List ℕ) (f : Disk) (inode : Inode) (v : IsInode size f inode.sector) where
    -- The file has grown to `m` blocks; or it has not, and what was in use is as before.
    abbrev pub Grows : ℕ → FileSystem cache → Result (Bool × FileSystem cache) → Type 0
    Grows m fs r =
        (fs' : FileSystem cache) × (f' : Disk) × Holds size f' fs'.cached
        × IsWellFormed fs'.free
        × (((r ≡ ok (true, fs')) × IsGrown size m is_map fs.free fs'.free f f' inode.sector)
            ⊎ ((r ≡ ok (false, fs'))
                × NoSpace cache bitmap_write fs'
                × (free_count fs.free + block_count f inode.sector < m + free_count fs'.free)
                × ((t : ℕ)
                    → used fs.free t ≡ true
                    → (used fs'.free t ≡ true) × (is_map t ≡ false → f' t ≡ f t))))

    -- The variables at the start, and what follows the three ranges of blocks.
    abbrev start : ℕ → FileSystem cache → Growth cache
    start m fs = record {
      success = false;
      temp = f inode.sector;
      linked = none;
      dlinked = none;
      newblocks = sub_word m (block_count f inode.sector);
      number_blocks = block_count f inode.sector;
      fs = fs;
    }

    abbrev finished : Growth cache → Result (Bool × FileSystem cache)
    finished g =
        if g.success
        then (save_growth cache bitmap_write g inode >>= λ fs. ok (true, fs))
        else ok (false, g.fs)

    -- The new block numbers are written.
    saved :
        (m : ℕ) (fs fs1 : FileSystem cache) (f1 : Disk) (bs : List ℕ) (g : Growth cache)
        → Holds size f fs.cached
        → IsOwned is_map fs.free f inode.sector
        → fs.free.map.bit_cnt ≤ size
        → m ≡ block_count f inode.sector + length bs
        → m ≤ direct_blocks
        → Holds size f1 fs1.cached
        → NewBlocks is_map fs.free fs1.free f f1 bs
        → g.success ≡ true
        → g.temp ≡ set_words (f inode.sector) (12 + block_count f inode.sector * 4) bs
        → g.linked ≡ none
        → g.dlinked ≡ none
        → g.fs ≡ fs1
        → Grows m fs (finished g)
    unfolding save_growth save_list
    saved m fs fs1 f1 bs g h o fits count room h1 new good temp linked dlinked gfs =
        let s : ℕ = inode.sector in
        let long : length (f s) ≡ block_sector_size = laws.length-sector h s v.has.in_range in
        let long1 : length (f1 s) ≡ block_sector_size = laws.length-sector h1 s v.has.in_range in
        let bytes : List ℕ = set_words (f s) (12 + block_count f s * 4) bs in
        let size_bytes : length bytes ≡ block_sector_size =
          length-set_words (f s) (12 + block_count f s * 4) bs long (omega arith) in
        let (st, e, h2) = laws.write_lem h1 s 0 bytes v.has.in_range (omega arith) (omega arith) in
        let grown = appended-IsGrown bs v o new long fits (laws.size_small h) (omega arith) in
        (
          record fs1 { cached = st },
          update f1 s bytes,
          subst (λ b. Holds size (update f1 s b) st)
              (copy_in_whole (f1 s) bytes (long1 ∙ sym size_bytes)) h2,
          new.well_formed,
          inl (
            rw (good, gfs, temp, e, linked, dlinked) refl,
            subst (λ k. IsGrown size k is_map fs.free fs1.free f (update f1 s bytes) s) (sym count)
                grown,
          ),
        )

    stages :
        (m : ℕ) (fs : FileSystem cache)
        → Holds size f fs.cached
        → Ready f
        → IsWellFormed fs.free
        → IsOwned is_map fs.free f inode.sector
        → fs.free.map.bit_cnt ≤ size
        → block_count f inode.sector < m
        → m ≤ direct_blocks
        → Grows m fs (
            grow_direct cache bitmap_write (start m fs) >>= λ g.
            grow_single cache bitmap_write g >>= λ g.
            grow_double cache bitmap_write memory g >>= finished)
    stages m fs h ready w o fits more room =
        let nb : ℕ = block_count f inode.sector in
        let d : ℕ = sub_word m nb in
        let d_value : d ≡ m - nb = omega arith in
        from d d_value (grow_direct_lem (start m fs) (omega arith) (omega arith)) more
          (alloc_loop_lem laws file d false fs f h ready w fits o.has_map)
      where
        from :
            (d : ℕ)
            → d ≡ m - block_count f inode.sector
            → grow_direct cache bitmap_write (start m fs) ≡ (
                alloc_loop cache bitmap_write d false fs >>= λ ((success, blocks), fs1).
                ok (record (start m fs) {
                  success = success;
                  temp = set_words (f inode.sector) (12 + block_count f inode.sector * 4) blocks;
                  newblocks = 0;
                  number_blocks = block_count f inode.sector + d;
                  fs = fs1;
                }))
            → block_count f inode.sector < m
            → Gets laws file fs f false d (alloc_loop cache bitmap_write d false fs)
            → Grows m fs (
                grow_direct cache bitmap_write (start m fs) >>= λ g.
                grow_single cache bitmap_write g >>= λ g.
                grow_double cache bitmap_write memory g >>= finished)
        from d d_value run more (bs, fs1, f1, result, e, h1, _, new, c) =
            let g : Growth cache = record (start m fs) {
              success = result;
              temp = set_words (f inode.sector) (12 + block_count f inode.sector * 4) bs;
              newblocks = 0;
              number_blocks = block_count f inode.sector + d;
              fs = fs1;
            } in
            let some_new : (d == 0) ≡ false = ground arith in
            let result_of : ((length bs ≡ d) × (result ≡ (if d == 0 then false else true)))
                  ⊎ ((length bs < d) × (result ≡ false) × NoSpace cache bitmap_write fs1)
                → Grows m fs (finished g) =
              λ c. elim c [
                | inl (all, good) ↦
                    let yes_new : (if d == 0 then false else true) ≡ true = rw some_new refl in
                    saved m fs fs1 f1 bs g h o fits (omega arith) room h1 new (good ∙ yes_new) refl
                      refl refl refl
                | inr (few, bad, why) ↦ (
                  fs1,
                  f1,
                  h1,
                  new.well_formed,
                  inr (rw bad refl, why, omega (arith, new.room, few, d_value, more), new.kept),
                )
              ] in
            rw (run, e, grow_single_none g refl, grow_double_none memory g refl) (result_of c)

    -- The free map file is ready on the disk for the write of the map, which then returns, leaves
    -- it ready, and changes only sectors of the free map file, which the free map has in use and
    -- the inode does not have. An inode whose blocks the free map has in use, as its own sector;
    -- the free map is well formed and no larger than the disk; the block of `pos` is one that the
    -- inode has not yet, and one of the direct ones. Then `file_grow` returns, with a well-formed
    -- free map. Either it returns true, and the inode has the blocks up to that of `pos`, all
    -- different: the old ones, and new ones that were free, are in use and hold zeros; or it
    -- returns false, since fewer sectors were free than were needed and none is left, or the
    -- write of the map with one more sector in use answered false. What was in use stays so, and
    -- of its sectors only those of the free map file have changed, and that of the inode where it
    -- returns true.
    pub file_grow_lem :
        (fs : FileSystem cache) (pos : ℕ)
        → Holds size f fs.cached
        → Ready f
        → IsWellFormed fs.free
        → IsOwned is_map fs.free f inode.sector
        → fs.free.map.bit_cnt ≤ size
        → block_count f inode.sector < pos / block_sector_size + 1
        → pos / block_sector_size + 1 ≤ direct_blocks
        → Grows (pos / block_sector_size + 1) fs (file_grow cache bitmap_write memory fs inode pos)
    unfolding file_grow
    file_grow_lem fs pos h ready w o fits more room =
        let m : ℕ = pos / block_sector_size + 1 in
        let nb : ℕ = block_count f inode.sector in
        let some_new : (sub_word m nb == 0) ≡ false = ground arith in
        let whole : copy_out (f inode.sector) 0 block_sector_size ≡ f inode.sector =
          take_all block_sector_size (f inode.sector)
            (laws.length-sector h inode.sector v.has.in_range) in
        bind_value laws (Grows m fs) _
          (read_word_lem laws h inode.sector 0 v.has.in_range (omega arith))
          (λ st1 h1.
            bind_value laws (Grows m fs) _
              (laws.read_lem h1 inode.sector 0 block_sector_size v.has.in_range (omega arith)
                (omega arith))
              (λ st2 h2.
                rw (some_new, whole)
                  (stages m (record fs { cached = st2 }) h2 ready w o fits more room)))
