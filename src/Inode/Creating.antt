-- ===== src/Inode/Creating.antt =====
-- inode_create of filesys/inode.c, for files that fit the direct blocks.
use mathlib.Core.Path.{subst}
use mathlib.Core.Bool.{false≢true}
use oscourse_all_files.Common.{
  ℕ, ◌==◌, ==_iff, ◌+◌, ◌-◌, ◌/◌, ◌^◌, ◌≤◌, ◌<◌, ◌≡◌, inl, inr, refl, sym, ◌∙◌, ap, Bool, true,
  false, Bool-cases, ltb, ==_refl, if◌then◌else◌, none, List, [], ◌∷◌, length, update, Result, ok,
  panic, hang, ◌>>=◌, arith,
}
use oscourse_all_files.Bitmap.{Bitmap}
use oscourse_all_files.Block.{block_sector_size}
use oscourse_all_files.Cache.{copy_in}
use oscourse_all_files.FreeMap.Sectors.{used, IsWellFormed}
use oscourse_all_files.FreeMap.Count.{free_count}
use oscourse_all_files.Inode.MapFile.{MapFile, Answers, HasMap}
use oscourse_all_files.Inode.{SectorCache, Inode, direct_blocks, less_signed}
use oscourse_all_files.Inode.Layout.{Disk, CacheLaws}
use oscourse_all_files.Inode.Frame.{block_count}
use oscourse_all_files.Inode.Grow.{FileSystem, alloc_loop, inode_allocblocks}
use oscourse_all_files.Inode.Update.{inode_write_at}
use oscourse_all_files.Inode.Open.{
  find_open, remove_open, new_inode, inode_open, inode_close, disk_inode, write_last, inode_create,
}
use oscourse_all_files.Inode.Stored.{inode_write_at_lem}
use oscourse_all_files.Inode.Allocate.{Gets, alloc_loop_lem, copy_in_whole}
use oscourse_all_files.Inode.Extended.{inode_write_at_extends}
use oscourse_all_files.Inode.Filled.{stored-IsCreated, extended-IsCreated}
use oscourse_all_files.Inode.Created.{IsCreated, created, created-IsCreated, length-disk_inode}

module _ {cache : SectorCache} (laws : CacheLaws cache) (size : ℕ)
    (bitmap_write : Bitmap → cache.State → Result (Bool × cache.State))
    (file : MapFile laws size bitmap_write) (memory : List ℕ) (f : Disk) (fs : FileSystem cache)
    (open_inodes : List Inode) (sector type : ℕ) where
  open laws use {Holds}
  open file use {is_map, Ready}

  -- The file is created.
  abbrev pub Creates : ℕ → Result (Bool × FileSystem cache × List Inode) → Type 0
  Creates size_bytes r =
      (fs' : FileSystem cache) × (f' : Disk) × (r ≡ ok (true, fs', open_inodes))
      × Holds size f' fs'.cached
      × IsWellFormed fs'.free
      × IsCreated size is_map fs.free fs'.free f f' sector size_bytes

  close_after :
      (r : Result (ℕ × FileSystem cache))
      → (r >>= λ (_, fs2).
          inode_close cache bitmap_write fs2 (new_inode sector ∷ open_inodes) sector)
        ≡ (r >>= λ (_, fs2). ok (fs2, open_inodes))
  unfolding inode_close find_open remove_open
  close_after (ok (n, fs2)) = rw (==_refl sector, inode_close, ==_refl sector) refl
  close_after panic = refl
  close_after hang = refl

  closed_again :
      {t : List Inode}
      → new_inode sector ∷ open_inodes ≡ t
      → (r : Result (ℕ × FileSystem cache))
      → (r >>= λ (_, fs2). inode_close cache bitmap_write fs2 t sector)
        ≡ (r >>= λ (_, fs2). ok (fs2, open_inodes))
  closed_again e r =
      subst
        (λ t.
          (r >>= λ (_, fs2). inode_close cache bitmap_write fs2 t sector)
          ≡ (r >>= λ (_, fs2). ok (fs2, open_inodes)))
        e (close_after r)

  write_last_lem :
      (fs1 : FileSystem cache) (size_bytes : ℕ)
      → find_open open_inodes sector ≡ none
      → write_last cache bitmap_write memory fs1 open_inodes sector size_bytes ≡ (
          inode_write_at cache bitmap_write memory fs1
            (new_inode sector)
            (0 ∷ [])
            1
            (size_bytes - 1)
          >>= λ (_, fs2). ok (fs2, open_inodes))
  unfolding write_last inode_open find_open
  write_last_lem fs1 size_bytes closed =
      let opened : inode_open true open_inodes sector ≡ (true, new_inode sector ∷ open_inodes) =
        rw (closed, inode_open) refl in
      rw (opened, write_last, ==_refl sector)
        (closed_again (sym (ap (λ p. p.1) opened)) (
          inode_write_at cache bitmap_write memory fs1 (new_inode sector) (0 ∷ []) 1
            (size_bytes - 1)))

  -- What is left of the call once the byte is to be written.
  abbrev wrote : FileSystem cache → ℕ → Result (Bool × FileSystem cache × List Inode)
  wrote fs1 last =
      (inode_write_at cache bitmap_write memory fs1 (new_inode sector) (0 ∷ []) 1 last
        >>= (λ (_, fs2). ok (fs2, open_inodes)))
      >>= (λ (fs2, t). ok (true, fs2, t))

  last_byte :
      (fs1 : FileSystem cache) (f1 : Disk) (last : ℕ)
      → find_open open_inodes sector ≡ none
      → last + 1 < 2 ^ 31
      → (last + 1) / block_sector_size < direct_blocks
      → Holds size f1 fs1.cached
      → Ready f1
      → IsWellFormed fs1.free
      → fs1.free.map.bit_cnt ≤ size
      → IsCreated size is_map fs.free fs1.free f f1 sector 0
      → Answers cache bitmap_write
      → (last + 1) / block_sector_size ≤ free_count fs1.free
      → Creates (last + 1) (wrote fs1 last)
  last_byte fs1 f1 last closed short room h ready w fits c answers space =
      elim (Bool-cases (ltb ((last + 1) / block_sector_size) (block_count f1 sector))) [
        | inl inside ↦
            let (st, f2, e, h2, s) =
              inode_write_at_lem laws size (new_inode sector) bitmap_write memory c.inode fs1
                (0 ∷ []) 1 last refl short (ground arith) refl h in
            (record fs1 { cached = st }, f2, rw e refl, h2, w, stored-IsCreated c last s)
        | inr outside ↦
            let (fs2, f2, e, h2, w2, x) =
              inode_write_at_extends laws size bitmap_write file memory f1 (new_inode sector)
                c.inode fs1 (0 ∷ []) 1 last refl refl h ready w c.owned answers
                (omega (arith, c.inode.count, c.long, space)) fits (omega arith) short
                (ground arith) room in
            (fs2, f2, rw e refl, h2, w2, extended-IsCreated c last x)
      ]

  -- The inode is on the disk; its last byte is to be written.
  first_block :
      (fs1 : FileSystem cache) (f1 : Disk) (size_bytes : ℕ)
      → find_open open_inodes sector ≡ none
      → size_bytes < 2 ^ 31
      → size_bytes / block_sector_size < direct_blocks
      → Holds size f1 fs1.cached
      → Ready f1
      → IsWellFormed fs1.free
      → fs1.free.map.bit_cnt ≤ size
      → IsCreated size is_map fs.free fs1.free f f1 sector 0
      → Answers cache bitmap_write
      → size_bytes / block_sector_size ≤ free_count fs1.free
      → Creates size_bytes (
          (if less_signed 0 size_bytes
            then write_last cache bitmap_write memory fs1 open_inodes sector size_bytes
            else ok (fs1, open_inodes))
          >>= λ (fs2, t). ok (true, fs2, t))
  first_block fs1 f1 size_bytes closed short room h ready w fits c answers space =
      elim (Bool-cases (less_signed 0 size_bytes)) [
        | inl some_bytes ↦
            let whole : size_bytes - 1 + 1 ≡ size_bytes = ground arith in
            rw (some_bytes, write_last_lem fs1 size_bytes closed)
              (subst (λ n. Creates n (wrote fs1 (size_bytes - 1))) whole
                (last_byte fs1 f1 (size_bytes - 1) closed (omega arith)
                  (subst (λ n. n / block_sector_size < direct_blocks) (sym whole) room) h ready w
                  fits c answers
                  (subst (λ n. n / block_sector_size ≤ free_count fs1.free) (sym whole) space)))
        | inr no_bytes ↦
            let none_at_all : 0 ≡ size_bytes = ground arith in
            rw no_bytes (
              fs1,
              f1,
              refl,
              h,
              w,
              subst (IsCreated size is_map fs.free fs1.free f f1 sector) none_at_all c,
            )
      ]

  -- The free map file is ready on the disk for the write of the map, which then returns true,
  -- leaves it ready, and changes only sectors of the free map file, which the free map has in
  -- use. A sector of the disk that is in use, and not that of an open inode or of the free map
  -- file; the length is below 2 ^ 31, and its last block among the direct ones; the free map is
  -- well formed, no larger than the disk, and has as many free sectors as blocks are needed. Then
  -- `inode_create` returns true with the list of open inodes as before. The disk is then that of
  -- a well-formed inode with this length in the sector: its blocks, all different, were free and
  -- are in use in a well-formed free map, and hold zeros. What was in use stays so, and of its
  -- sectors only that of the inode and those of the free map file have changed.
  pub inode_create_lem :
      (size_bytes : ℕ)
      → find_open open_inodes sector ≡ none
      → Holds size f fs.cached
      → Ready f
      → IsWellFormed fs.free
      → fs.free.map.bit_cnt ≤ size
      → sector < size
      → used fs.free sector ≡ true
      → is_map sector ≡ false
      → HasMap is_map fs.free
      → Answers cache bitmap_write
      → size_bytes / block_sector_size + 1 ≤ free_count fs.free
      → size_bytes < 2 ^ 31
      → size_bytes / block_sector_size < direct_blocks
      → Creates size_bytes
          (inode_create cache bitmap_write memory fs open_inodes sector size_bytes type)
  unfolding inode_create inode_allocblocks
  inode_create_lem size_bytes closed h ready w fits in_range held not_map has_map answers space
        short room =
      written (alloc_loop_lem laws file 1 false fs f h ready w fits has_map)
    where
      written :
          Gets laws file fs f false 1 (alloc_loop cache bitmap_write 1 false fs)
          → Creates size_bytes
              (inode_create cache bitmap_write memory fs open_inodes sector size_bytes type)
      written (bs, fs1, f1, result, e, h1, ready1, new, inr (few, bad, inl none_left)) =
          absurd (omega (arith, none_left, few, new.room, space))
      written
            (
              bs,
              fs1,
              f1,
              result,
              e,
              h1,
              ready1,
              new,
              inr (few, bad, inr (st0, (_, (b, t, _, refused)))),
            ) =
          absurd (answers b st0 fs1.cached refused)
      written (bs, fs1, f1, result, e, h1, ready1, new, inl (one, good)) =
          let bytes : List ℕ = disk_inode bs type in
          let size_of : length bytes ≡ block_sector_size =
            length-disk_inode bs type (omega arith) in
          let (st, e2, h2) =
            laws.write_lem h1 sector 0 bytes in_range (omega arith) (omega arith) in
          let whole : copy_in (f1 sector) 0 bytes ≡ bytes =
            copy_in_whole (f1 sector) bytes (laws.length-sector h1 sector in_range ∙ sym size_of) in
          let made : IsCreated size is_map fs.free fs1.free f (created f1 sector bs type) sector 0 =
            created-IsCreated f1 sector bs type new one held in_range fits (laws.size_small h)
              has_map not_map in
          let made_ready : Ready (created f1 sector bs type) = file.stable ready1 (λ t m.
            let ne : (t == sector) ≡ false = elim (Bool-cases (t == sector)) [
              | inl x ↦
                  absurd (false≢true (sym not_map ∙ ap is_map (sym ((==_iff t sector).0 x)) ∙ m))
              | inr x ↦ x
            ] in
            rw ne refl) in
          let done : result ≡ true = good in
          let not_negative : less_signed size_bytes 0 ≡ false = ground arith in
          let fs2 : FileSystem cache = record fs1 { cached = st } in
          let run : inode_create cache bitmap_write memory fs open_inodes sector size_bytes type ≡ (
              (if less_signed 0 size_bytes
                then write_last cache bitmap_write memory fs2 open_inodes sector size_bytes
                else ok (fs2, open_inodes))
              >>= (λ (fs2, t). ok (true, fs2, t))) =
            rw (not_negative, e, e2, done) refl in
          subst (Creates size_bytes) (sym run) (
            first_block (record fs1 { cached = st }) (created f1 sector bs type) size_bytes closed
              short room (subst (λ b. Holds size (update f1 sector b) st) whole h2) made_ready
              new.well_formed (omega (arith, new.size_same)) made answers
              (omega (arith, one, new.room, space)))
