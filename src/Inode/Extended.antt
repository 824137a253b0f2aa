-- ===== src/Inode/Extended.antt =====
-- inode_write_at of filesys/inode.c where the file has to grow, within the direct blocks.
use Prim.Native.Nat.{max}
use mathlib.Core.Bool.{false≢true}
use native.Mathlib.Nat
use oscourse_all_files.Common.{
  ℕ, ◌+◌, ◌-◌, ◌*◌, ◌/◌, ◌%◌, ◌^◌, ◌≤◌, ◌<◌, ◌≡◌, ◌≢◌, inl, inr, sym, ◌∙◌, ap, Bool, true, false,
  Bool-cases, ltb, leb, ◌&&◌, ◌==◌, ==_iff, if◌then◌else◌, List, length, get_or, Result, ok, ◌>>=◌,
  arith,
}
use oscourse_all_files.Bitmap.{Bitmap}
use oscourse_all_files.Block.{block_sector_size}
use oscourse_all_files.FreeMap.{FreeMap}
use oscourse_all_files.FreeMap.Sectors.{used, IsWellFormed}
use oscourse_all_files.FreeMap.Count.{free_count}
use oscourse_all_files.Inode.MapFile.{MapFile, Answers, free_not_map}
use oscourse_all_files.Inode.{SectorCache, Inode, direct_blocks, less_signed, inode_type}
use oscourse_all_files.Inode.Layout.{Disk, CacheLaws, block_of, file_length, file_byte}
use oscourse_all_files.Inode.Word.{get_or-replicate}
use oscourse_all_files.Inode.Find.{bind_value, read_word_lem}
use oscourse_all_files.Inode.Frame.{block_count, IsInode}
use oscourse_all_files.Inode.Grow.{FileSystem, add_word}
use oscourse_all_files.Inode.Update.{grow_for, inode_write_at}
use oscourse_all_files.Inode.Overwrite.{overwritten}
use oscourse_all_files.Inode.End.{IsReady}
use oscourse_all_files.Inode.Stored.{IsStored, go_on, write_then_end}
use oscourse_all_files.Inode.Appended.{IsOwned, IsGrown}
use oscourse_all_files.Inode.Growing.{Grows, file_grow_lem}

-- From disk `f` to `f'` the file has grown to `m` blocks, the new ones among those that were
-- free, and has the buffer at the offset; the bytes of its new blocks that are not of the buffer
-- are 0.
pub record IsExtended (size m : ℕ) (is_map : ℕ → Bool) (free free' : FreeMap) (f f' : Disk)
    (sector offset : ℕ) (buffer : List ℕ) : Type 0 where
  pub inode : IsInode size f' sector
  pub owned : IsOwned is_map free' f' sector
  pub counted : block_count f' sector ≡ m
  pub old : (k : ℕ) → k < block_count f sector → block_of f' sector k ≡ block_of f sector k
  pub fresh : (k : ℕ) → block_count f sector ≤ k → k < m → used free (block_of f' sector k) ≡ false
  pub in_use : (t : ℕ) → used free t ≡ true → used free' t ≡ true
  pub longer : file_length f' sector ≡ max (file_length f sector) (offset + length buffer)
  pub bytes :
      (i : ℕ)
      → i < block_count f sector * block_sector_size
      → file_byte f' sector i ≡ overwritten offset buffer (file_byte f sector) i
  pub gap :
      (i : ℕ)
      → block_count f sector * block_sector_size ≤ i
      → i < m * block_sector_size
      → file_byte f' sector i ≡ overwritten offset buffer (λ _. 0) i
  pub others :
      (t : ℕ)
      → used free t ≡ true
      → t ≢ sector
      → is_map t ≡ false
      → ((k : ℕ) → k < block_count f sector → block_of f sector k ≢ t)
      → f' t ≡ f t

same_under :
    (offset : ℕ) (buffer : List ℕ) (g g' : ℕ → ℕ) (i : ℕ)
    → g i ≡ g' i
    → overwritten offset buffer g i ≡ overwritten offset buffer g' i
same_under offset buffer g g' i e =
    ap
      (λ z.
        if leb offset i && ltb i (offset + length buffer) then get_or buffer (i - offset) 0 else z)
      e

module _ {size m : ℕ} {is_map : ℕ → Bool} {free free' : FreeMap} {f f1 : Disk} {sector : ℕ}
    (v : IsInode size f sector) (o : IsOwned is_map free f sector)
    (g : IsGrown size m is_map free free' f f1 sector) where
  old_byte :
      (i : ℕ)
      → i < block_count f sector * block_sector_size
      → file_byte f1 sector i ≡ file_byte f sector i
  old_byte i h =
      let k : ℕ = i / block_sector_size in
      let counted : k < block_count f sector = omega arith in
      ap (λ t. get_or (f1 t) (i % block_sector_size) 0) (g.old k counted)
      ∙ ap (λ bs. get_or bs (i % block_sector_size) 0)
          ((g.kept (block_of f sector k) (o.blocks k counted)).1 (v.has.own k counted)
            (o.blocks_not_map k counted))

  new_byte :
      (i : ℕ)
      → block_count f sector * block_sector_size ≤ i
      → i < m * block_sector_size
      → file_byte f1 sector i ≡ 0
  new_byte i lo hi =
      let (_, _, zeroed) = g.fresh (i / block_sector_size) (omega arith) (omega arith) in
      ap (λ bs. get_or bs (i % block_sector_size) 0) zeroed
      ∙ get_or-replicate block_sector_size (i % block_sector_size)

  owned_after : (k : ℕ) → k < m → used free' (block_of f1 sector k) ≡ true
  owned_after k h = elim (Bool-cases (ltb k (block_count f sector))) [
    | inl below ↦
        let hk : k < block_count f sector = ground arith in
        ap (used free') (g.old k hk) ∙ (g.kept (block_of f sector k) (o.blocks k hk)).0
    | inr above ↦ let hk : block_count f sector ≤ k = ground arith in (g.fresh k hk h).1
  ]

  new_not_map : (k : ℕ) → k < m → is_map (block_of f1 sector k) ≡ false
  new_not_map k h = elim (Bool-cases (ltb k (block_count f sector))) [
    | inl below ↦
        let hk : k < block_count f sector = ground arith in
        ap is_map (g.old k hk) ∙ o.blocks_not_map k hk
    | inr above ↦
        let hk : block_count f sector ≤ k = ground arith in
        free_not_map is_map free o.has_map (block_of f1 sector k) (g.fresh k hk h).0
  ]

  stored-IsExtended :
      {f2 : Disk} (offset : ℕ) (buffer : List ℕ)
      → IsStored size m f1 f2 sector offset buffer
      → block_count f sector ≤ m
      → IsExtended size m is_map free free' f f2 sector offset buffer
  stored-IsExtended offset buffer s more = record {
    inode = s.inode;
    owned = record {
      inode = (g.kept sector o.inode).0;
      blocks = λ k h.
          ap (used free') (s.same k (omega (arith, s.counted)))
          ∙ owned_after k (omega (arith, s.counted));
      has_map = λ t h. (g.kept t (o.has_map t h)).0;
      not_map = o.not_map;
      blocks_not_map = λ k h.
          let hk : k < m = omega (arith, s.counted) in ap is_map (s.same k hk) ∙ new_not_map k hk;
    };
    counted = s.counted;
    old = λ k h. s.same k (omega (arith, more)) ∙ g.old k h;
    fresh = λ k lo hi. ap (used free) (s.same k hi) ∙ (g.fresh k lo hi).0;
    in_use = λ t h. (g.kept t h).0;
    longer = s.longer ∙ ap (λ l. max l (offset + length buffer)) g.length_same;
    bytes = λ i h.
        s.bytes i (omega (arith, Nat.mul-le-mul_right block_sector_size more))
        ∙ same_under offset buffer (file_byte f1 sector) (file_byte f sector) i (old_byte i h);
    gap = λ i lo hi.
        s.bytes i hi ∙ same_under offset buffer (file_byte f1 sector) (λ _. 0) i (new_byte i lo hi);
    others = λ t h ne out_map out.
        s.others t ne (λ k hk e. elim (Bool-cases (ltb k (block_count f sector))) [
          | inl below ↦
              let old : k < block_count f sector = ground arith in out k old (sym (g.old k old) ∙ e)
          | inr above ↦
              let new : block_count f sector ≤ k = ground arith in
              false≢true (sym (g.fresh k new hk).0 ∙ ap (used free) e ∙ h)
        ])
        ∙ (g.kept t h).1 ne out_map;
  }

module _ {cache : SectorCache} (laws : CacheLaws cache) (size : ℕ)
    (bitmap_write : Bitmap → cache.State → Result (Bool × cache.State))
    (file : MapFile laws size bitmap_write) (memory : List ℕ) (f : Disk) (inode : Inode)
    (v : IsInode size f inode.sector) (fs : FileSystem cache) (buffer : List ℕ) (n offset : ℕ)
    (long : length buffer ≡ n) where
  open laws use {Holds}

  -- The write is done.
  abbrev pub Extending : Result (ℕ × FileSystem cache) → Type 0
  Extending r =
      (fs' : FileSystem cache) × (f' : Disk) × (r ≡ ok (n, fs'))
      × Holds size f' fs'.cached
      × IsWellFormed fs'.free
      × IsExtended size ((offset + n) / block_sector_size + 1) file.is_map fs.free fs'.free f f'
          inode.sector offset buffer

  abbrev blocks_after : ℕ
  blocks_after = (offset + n) / block_sector_size + 1

  grown_then_written :
      (st : cache.State)
      → IsOwned file.is_map fs.free f inode.sector
      → Answers cache bitmap_write
      → blocks_after ≤ block_count f inode.sector + free_count fs.free
      → offset + n < 2 ^ 31
      → block_count f inode.sector ≤ (offset + n) / block_sector_size
      → {r : Result (Bool × FileSystem cache)}
      → Grows laws size bitmap_write file memory f inode v blocks_after
          (record fs { cached = st })
          r
      → Extending ((r >>= λ (_, fs'). ok fs') >>= go_on laws size inode n buffer offset)
  grown_then_written st o answers enough short beyond
        (fs1, f1, h1, w1, inr (e, inl none_left, needed, _)) =
      absurd (omega (arith, none_left, needed, enough))
  grown_then_written st o answers enough short beyond
        (fs1, f1, h1, w1, inr (e, inr (st0, (_, (b, t, _, refused))), _, _)) =
      absurd (answers b st0 fs1.cached refused)
  grown_then_written st o answers enough short beyond (fs1, f1, h1, w1, inl (e, grown)) =
      let ready : IsReady size blocks_after f1 inode.sector (offset + length buffer) = record {
        short = omega (arith, grown.length_same, v.short);
        count = omega (arith, grown.length_same, grown.count_same, v.count);
        enough = omega (arith, grown.count_same, ap (λ z. (offset + z) / block_sector_size) long);
        has = grown.has;
      } in
      let (st3, f2, e2, h2, s) =
        write_then_end laws size inode fs1 buffer n offset long short ready h1 in
      (
        record fs1 { cached = st3 },
        f2,
        rw (e, e2) (ap (λ z. ok (z, record fs1 { cached = st3 })) long),
        h2,
        w1,
        stored-IsExtended v o grown offset buffer s (omega (arith, beyond)),
      )

  -- The free map file is ready on the disk for the write of the map, which then returns true,
  -- leaves it ready, and changes only sectors of the free map file, which the free map has in use
  -- and the inode does not have. An inode whose blocks the free map has in use, as its own
  -- sector; the free map is well formed, no larger than the disk, and has a free sector for each
  -- block that is missing; writes are allowed; the buffer has `n` > 0 bytes, and its end, below 2
  -- ^ 31, is in a block that the inode has not yet and that is one of the direct ones. Then
  -- `inode_write_at` returns `n`. The disk is then that of a well-formed inode that ends with the
  -- buffer; its blocks are in use in a well-formed free map, the old ones the same and the new
  -- ones free before; what was in use stays so. Its bytes are those of the buffer from the offset
  -- on, before it the old ones, and 0 in the blocks that are new. The sectors that were in use by
  -- other things are as before, but for those of the free map file.
  pub inode_write_at_extends :
      inode.deny_write_cnt ≡ 0
      → Holds size f fs.cached
      → file.Ready f
      → IsWellFormed fs.free
      → IsOwned file.is_map fs.free f inode.sector
      → Answers cache bitmap_write
      → (offset + n) / block_sector_size + 1 ≤ block_count f inode.sector + free_count fs.free
      → fs.free.map.bit_cnt ≤ size
      → 0 < n
      → offset + n < 2 ^ 31
      → block_count f inode.sector ≤ (offset + n) / block_sector_size
      → (offset + n) / block_sector_size < direct_blocks
      → Extending (inode_write_at cache bitmap_write memory fs inode buffer n offset)
  unfolding inode_write_at grow_for inode_type
  inode_write_at_extends allowed h ready w o answers space fits some short beyond room =
      let e : (inode.deny_write_cnt == 0) ≡ true = (==_iff _ _).1 allowed in
      let some_bytes : less_signed 0 n ≡ true = ground arith in
      let missing : leb (block_count f inode.sector) (add_word offset n / block_sector_size)
          ≡ true =
        ground arith in
      rw (e, some_bytes)
        (bind_value laws (λ r. Extending (r >>= go_on laws size inode n buffer offset)) _
          (read_word_lem laws h inode.sector 0 v.has.in_range (omega arith))
          (λ st1 h1. rw missing (
            bind_value laws (λ r. Extending (r >>= go_on laws size inode n buffer offset)) _
              (read_word_lem laws h1 inode.sector (block_sector_size - 4) v.has.in_range
                (omega arith))
              (λ st2 h2. grown_then_written st2 o answers space short beyond (
                file_grow_lem laws size bitmap_write file memory f inode v
                  (record fs { cached = st2 }) (offset + n) h2 ready w o fits (omega arith)
                  (omega arith))))))
