-- ===== src/Tests/Inodes.antt =====
-- filesys/inode.c on a disk with one file: its inode is in sector 2, its one block is sector 3,
-- and it has 5 bytes.
use mathlib.Core.Path.{subst}
use oscourse_all_files.Common.{
  ℕ, zero, suc, ◌-◌, ◌<◌, ◌≡◌, inl, inr, refl, sym, ◌∙◌, ap, Bool, true, false, ◌≢◌, Result, ok,
  panic, hang, ◌>>=◌, take, length-take, update, ==_iff, ◌≤◌, ◌+◌, List, [], ◌∷◌, ok, length,
  length-replicate, replicate, get_or, arith, ◌==◌, if◌then◌else◌, Bool-cases,
}
use Prim.Native.Nat.{min}
use oscourse_all_files.Bitmap.View.{nth}
use oscourse_all_files.Block.{block_sector_size}
use oscourse_all_files.Cache.ReadWrite.{length-copy_in}
use oscourse_all_files.Cache.{Cache}
use oscourse_all_files.Cache.Coherent.{contents_absent}
use oscourse_all_files.Inode.{Inode, word, inode_read_at}
use oscourse_all_files.Inode.Layout.{Disk, block_of, file_length, file_bytes}
use oscourse_all_files.Inode.Find.{Gives}
use oscourse_all_files.Inode.Frame.{IsList, block_count, IsInode, IsInode-IsFile}
use oscourse_all_files.Inode.Cached.{sector_cache, IsCacheOf, sector_cache_laws}
use oscourse_all_files.Bitmap.{Bitmap}
use oscourse_all_files.FreeMap.Count.{free_below, free_count}
use oscourse_all_files.Inode.MapFile.{MapFile, HoldsBut, HasMap, Answers}
use oscourse_all_files.Cache.{write_cache, copy_in}
use oscourse_all_files.Inode.Grow.{zeros, set_words, FileSystem, file_grow}
use oscourse_all_files.FreeMap.Sectors.{used}
use oscourse_all_files.Inode.Update.{inode_write_at}
use oscourse_all_files.Inode.Appended.{IsOwned}
use oscourse_all_files.Inode.Growing.{Grows, file_grow_lem}
use oscourse_all_files.Inode.Creating.{Creates, inode_create_lem}
use oscourse_all_files.Inode.Extended.{Extending, inode_write_at_extends}
use oscourse_all_files.Inode.Open.{find_open, remove_open, inode_open, inode_close, inode_create}
use oscourse_all_files.Inode.Stored.{Stores, inode_write_at_lem, inode_read_at-inode_write_at}
use oscourse_all_files.Inode.Table.{inode_close-inode_open}
use oscourse_all_files.Inode.GiveBack.{IsHeld}
use oscourse_all_files.Inode.Release.{IsFreed, inode_close_removed}
use oscourse_all_files.Inode.Read.{inode_read_at_lem}
use oscourse_all_files.Tests.Disk.{memory_disk, read_bytes, tabulate-get_or}
use oscourse_all_files.Tests.Caches.{cold_over, cold_over-IsCoherent}
use oscourse_all_files.Tests.FreeMaps.{smaller, smaller-IsWellFormed}

abbrev image : Disk
image s =
    if s == 2
    then 1 ∷ 0 ∷ 0 ∷ 0 ∷ 5 ∷ 0 ∷ 0 ∷ 0 ∷ 68 ∷ 79 ∷ 78 ∷ 73 ∷ 3 ∷ 0 ∷ 0 ∷ 0 ∷ replicate 496 0
    else replicate 512 s

length-image : (s : ℕ) → length (image s) ≡ 512
length-image s = elim (Bool-cases (s == 2)) [
  | inl e ↦ rw e refl
  | inr e ↦ rw e (length-replicate 512 s)
]

abbrev bytes : ℕ → ℕ → ℕ
bytes s i = get_or (image s) i 0

abbrev state : Cache memory_disk
state = cold_over bytes

state-IsCacheOf : IsCacheOf memory_disk 100 image state
unfolding read_bytes
state-IsCacheOf = record {
  coherent = cold_over-IsCoherent bytes;
  device_size = refl;
  same = λ t h.
      contents_absent memory_disk state t (λ j hj e. absurd (omega (arith, e)))
      ∙ tabulate-get_or (image t) 512 (length-image t);
}

abbrev file : Inode
file = record { sector = 2; open_cnt = 1; removed = true; deny_write_cnt = 0 }

one_block : block_count image 2 ≡ 1
unfolding word
one_block = refl

five_bytes : file_length image 2 ≡ 5
unfolding word
five_bytes = refl

in_sector_3 : (k : ℕ) → k < 1 → block_of image 2 k ≡ 3
unfolding word block_of
in_sector_3 zero h = refl
in_sector_3 (suc k) h = absurd (omega arith)

no_lists : (k t : ℕ) → k < block_count image 2 → IsList image 2 k t → ⊥
no_lists k t h (inl (lo, _, _)) = absurd (omega (arith, one_block))
no_lists k t h (inr (lo, _)) = absurd (omega (arith, one_block))

file-IsInode : IsInode 100 image 2
file-IsInode = record {
  short = omega (arith, five_bytes);
  count = one_block ∙ omega (arith, five_bytes);
  has = record {
    in_range = omega arith;
    blocks = λ k h. record {
      reachable = omega (arith, one_block);
      block = omega (arith, in_sector_3 k (omega (arith, one_block)));
      single = λ lo _. absurd (omega (arith, one_block));
      double = λ lo. absurd (omega (arith, one_block));
      inner = λ lo. absurd (omega (arith, one_block));
    };
    distinct = λ i j hi hj _. omega (arith, one_block);
    own = λ k h e. absurd (omega (arith, one_block, in_sector_3 k (omega (arith, one_block)), e));
    apart = λ i k t hi hk l. absurd (no_lists k t hk l);
    lists = λ k t h l. absurd (no_lists k t h l);
  };
}

inode_read_at_example :
    Gives
      (sector_cache_laws memory_disk)
      100
      image
      (inode_read_at (sector_cache memory_disk) state file 9 2)
      (min 9 (file_length image 2 - 2), file_bytes image 2 2 (min 9 (file_length image 2 - 2)))
inode_read_at_example =
    inode_read_at_lem (sector_cache_laws memory_disk) file (IsInode-IsFile file-IsInode)
      state-IsCacheOf 9 2 (omega arith) (omega arith)

-- The free map file is sector 4: the first 128 words of the map are written there.
abbrev map_bytes : List ℕ → List ℕ
map_bytes ws = take 512 (set_words zeros 0 (take 128 ws))

abbrev write_map : Bitmap → Cache memory_disk → Result (Bool × Cache memory_disk)
write_map b st = write_cache memory_disk st 4 (map_bytes b.bits) 0 >>= λ st. ok (true, st)

abbrev in_map : ℕ → Bool
in_map s = s == 4

abbrev map_file : MapFile (sector_cache_laws memory_disk) 100 write_map
map_file = record {
  is_map = in_map;
  Ready = λ f. length (f 4) ≡ block_sector_size;
  stable = λ r same. ap length (same 4 refl) ∙ r;
  bitmap_write_lem = λ {f} {st} b h r.
      let laws = sector_cache_laws memory_disk in
      let fits : 0 + length (map_bytes b.bits) ≤ 512 =
        omega (arith, length-take 512 (set_words zeros 0 (take 128 b.bits))) in
      let (st', e, h') = laws.write_lem h 4 0 (map_bytes b.bits) (omega arith) (omega arith) fits in
      (
        true,
        st',
        update f 4 (copy_in (f 4) 0 (map_bytes b.bits)),
        rw e refl,
        h',
        (λ t ne. rw ne refl),
        length-copy_in (f 4) (map_bytes b.bits) 0 r fits,
      );
}

abbrev files : FileSystem (sector_cache memory_disk)
files = record { cached = state; free = smaller }

inode_write_at_example :
    Stores
      (sector_cache_laws memory_disk)
      100
      file
      (block_count image 2)
      image
      files
      4
      (7 ∷ 8 ∷ [])
      (inode_write_at (sector_cache memory_disk) write_map [] files file (7 ∷ 8 ∷ []) 2 4)
inode_write_at_example =
    inode_write_at_lem (sector_cache_laws memory_disk) 100 file write_map [] file-IsInode files
      (7 ∷ 8 ∷ []) 2 4 refl (omega arith) (omega (arith, one_block)) refl state-IsCacheOf

inode_read_at-inode_write_at_example :
    (st' : Cache memory_disk) × (st'' : Cache memory_disk) × (inode_write_at
        (sector_cache memory_disk)
        write_map
        []
        files
        file
        (7 ∷ 8 ∷ [])
        2
        4
      ≡ ok (2, record { cached = st'; free = smaller }))
    × (inode_read_at (sector_cache memory_disk) st' file 2 4 ≡ ok ((2, 7 ∷ 8 ∷ []), st''))
inode_read_at-inode_write_at_example =
    inode_read_at-inode_write_at (sector_cache_laws memory_disk) 100 file write_map [] file-IsInode
      files (7 ∷ 8 ∷ []) 2 4 refl (omega arith) (omega (arith, one_block)) refl state-IsCacheOf

inode_close-inode_open_example :
    (t : List Inode) × (inode_open true (file ∷ []) 2 ≡ (true, t))
    × (inode_close (sector_cache memory_disk) write_map files t 2 ≡ ok (files, file ∷ []))
inode_close-inode_open_example =
    inode_close-inode_open {cache = sector_cache memory_disk} write_map files (file ∷ []) 2
      (omega arith, tt)

two-IsHeld : IsHeld smaller 2
unfolding nth
two-IsHeld = record { in_map = omega arith; held = refl; not_fixed = omega arith }

three-IsHeld : IsHeld smaller 3
unfolding nth
three-IsHeld = record { in_map = omega arith; held = refl; not_fixed = omega arith }

inode_close_removed_example :
    (fs' : FileSystem (sector_cache memory_disk)) × (inode_close
        (sector_cache memory_disk)
        write_map
        files
        (file ∷ [])
        2
      ≡ ok (fs', remove_open (file ∷ []) 2))
    × HoldsBut map_file image fs'.cached
    × IsFreed smaller fs'.free image 2
unfolding find_open
inode_close_removed_example =
    inode_close_removed (sector_cache_laws memory_disk) 100 image 2 file-IsInode
      (omega (arith, one_block)) write_map map_file files (file ∷ []) file refl refl refl
      state-IsCacheOf (length-image 4) smaller-IsWellFormed refl
      (
        two-IsHeld,
        λ k h. subst (IsHeld smaller) (sym (in_sector_3 k (omega (arith, one_block)))) three-IsHeld,
      )

map_in_use : HasMap in_map smaller
unfolding nth
map_in_use t h = subst (λ s. used smaller s ≡ true) (sym ((==_iff t 4).0 h)) refl

-- The map file takes every map.
write_map-Answers : Answers (sector_cache memory_disk) write_map
write_map-Answers b st st' e = answered (write_cache memory_disk st 4 (map_bytes b.bits) 0) e
  where
    answered :
        (r : Result (Cache memory_disk))
        → ◌>>=◌ {B = Bool × Cache memory_disk} r (λ st. ok (true, st)) ≢ ok (false, st')
    answered (ok st0) e = absurd (cc)
    answered panic e = absurd (cc)
    answered hang e = absurd (cc)

file-IsOwned : IsOwned in_map smaller image 2
unfolding nth
file-IsOwned = record {
  inode = refl;
  blocks = λ k h. ap (used smaller) (in_sector_3 k (omega (arith, one_block)));
  has_map = map_in_use;
  not_map = refl;
  blocks_not_map = λ k h. ap in_map (in_sector_3 k (omega (arith, one_block)));
}

file_grow_example :
    Grows
      (sector_cache_laws memory_disk)
      100
      write_map
      map_file
      []
      image
      file
      file-IsInode
      2
      files
      (file_grow (sector_cache memory_disk) write_map [] files file 600)
file_grow_example =
    file_grow_lem (sector_cache_laws memory_disk) 100 write_map map_file [] image file file-IsInode
      files 600 state-IsCacheOf (length-image 4) smaller-IsWellFormed file-IsOwned (omega arith)
      (omega (arith, one_block)) (omega arith)

some_free : free_count smaller ≡ 34
unfolding free_below nth
some_free = refl

inode_write_at_extends_example :
    Extending
      (sector_cache_laws memory_disk)
      100
      write_map
      map_file
      []
      image
      file
      file-IsInode
      files
      (7 ∷ 8 ∷ [])
      2
      600
      refl
      (inode_write_at (sector_cache memory_disk) write_map [] files file (7 ∷ 8 ∷ []) 2 600)
inode_write_at_extends_example =
    inode_write_at_extends (sector_cache_laws memory_disk) 100 write_map map_file [] image file
      file-IsInode files (7 ∷ 8 ∷ []) 2 600 refl refl state-IsCacheOf (length-image 4)
      smaller-IsWellFormed file-IsOwned write_map-Answers (omega (arith, some_free)) (omega arith)
      (omega arith) (omega arith) (omega (arith, one_block)) (omega arith)

inode_create_example :
    Creates
      (sector_cache_laws memory_disk)
      100
      write_map
      map_file
      []
      image
      files
      (file ∷ [])
      32
      1
      600
      (inode_create (sector_cache memory_disk) write_map [] files (file ∷ []) 32 600 1)
unfolding find_open nth
inode_create_example =
    inode_create_lem (sector_cache_laws memory_disk) 100 write_map map_file [] image files
      (file ∷ []) 32 1 600 refl state-IsCacheOf (length-image 4) smaller-IsWellFormed (omega arith)
      (omega arith) refl refl map_in_use write_map-Answers (omega (arith, some_free)) (omega arith)
      (omega arith)
