-- ===== src/Inode/Cached.antt =====
-- The buffer cache of filesys/cache.c is a cache that filesys/inode.c can rely on.
use oscourse_all_files.Common.{
  ℕ, ◌+◌, ◌≤◌, ◌<◌, ◌≡◌, ◌≢◌, ◌⊎◌, inl, inr, sym, ◌∙◌, ap, Bool-cases, List, ok, length, update,
  ◌==◌, if◌then◌else◌, arith,
}
use oscourse_all_files.Block.{BlockOperations, block_sector_size}
use oscourse_all_files.Cache.{
  Cache, cache_size, no_sector, copy_in, copy_out, read_cache, write_cache,
}
use oscourse_all_files.Cache.Coherent.{
  bid_of, contents, IsCoherent, Absent, contents_absent, contents_cached, held_cases,
}
use oscourse_all_files.Cache.ReadWrite.{read_cache_lem, write_cache_lem}
use oscourse_all_files.Inode.{SectorCache}
use oscourse_all_files.Inode.Layout.{Disk, CacheLaws}

module _ (ops : BlockOperations) where
  abbrev pub sector_cache : SectorCache
  sector_cache = record { State = Cache ops; read = read_cache ops; write = write_cache ops }

  -- A coherent cache over a device of this size, with these contents.
  pub record IsCacheOf (size : ℕ) (f : Disk) (c : Cache ops) : Type 0 where
    pub coherent : IsCoherent ops c
    pub device_size : c.fs_device.size ≡ size
    pub same : (t : ℕ) → t < size → contents ops c t ≡ f t

  module _ {size : ℕ} {f : Disk} {c : Cache ops} (h : IsCacheOf size f c) where
    sector_exists : (s : ℕ) → s < size → s ≢ no_sector
    sector_exists s lt e = absurd (omega (arith, h.coherent.device.small, h.device_size))

    in_device : (s : ℕ) → s < size → s < c.fs_device.size
    in_device s lt = omega (arith, h.device_size)

    pub length-contents : (s : ℕ) → s < size → length (contents ops c s) ≡ block_sector_size
    length-contents s lt = from (held_cases ops c s)
      where
        from :
            ((k : ℕ) × (k < cache_size) × (bid_of ops c k ≡ s)) ⊎ Absent ops c s
            → length (contents ops c s) ≡ block_sector_size
        from (inl (k, hk, e)) =
            let ne : bid_of ops c k ≢ no_sector = λ x. sector_exists s lt (sym e ∙ x) in
            ap length (contents_cached ops c s h.coherent k hk e (sector_exists s lt))
            ∙ ground (arith, (h.coherent.entries k hk).state, ne)
        from (inr a) = ap length (contents_absent ops c s a) ∙ ops.length-read c.fs_device.aux s

    pub cached_read :
        (s offset n : ℕ)
        → s < size
        → offset < block_sector_size
        → offset + n ≤ block_sector_size
        → (c' : Cache ops) × (read_cache ops c s offset n ≡ ok (copy_out (f s) offset n, c'))
          × IsCacheOf size f c'
    cached_read s offset n lt start fits =
        let (c', e, v, size', same') =
          read_cache_lem ops h.coherent s (in_device s lt) offset n start fits in
        (
          c',
          e ∙ ap (λ bs. ok (copy_out bs offset n, c')) (h.same s lt),
          record {
            coherent = v;
            device_size = size' ∙ h.device_size;
            same = λ t ht. same' t (sector_exists t ht) ∙ h.same t ht;
          },
        )

    pub cached_write :
        (s offset : ℕ) (buffer : List ℕ)
        → s < size
        → offset < block_sector_size
        → offset + length buffer ≤ block_sector_size
        → (c' : Cache ops) × (write_cache ops c s buffer offset ≡ ok c')
          × IsCacheOf size (update f s (copy_in (f s) offset buffer)) c'
    cached_write s offset buffer lt fits inside =
        let (c', e, v, size', same') =
          write_cache_lem ops h.coherent s (in_device s lt) buffer offset fits inside in
        (
          c',
          e,
          record {
            coherent = v;
            device_size = size' ∙ h.device_size;
            same = λ t ht. same' t (sector_exists t ht) ∙ by_sector t ht;
          },
        )
      where
        by_sector :
            (t : ℕ)
            → t < size
            → (if t == s then copy_in (contents ops c s) offset buffer else contents ops c t)
              ≡ update f s (copy_in (f s) offset buffer) t
        by_sector t ht = elim (Bool-cases (t == s)) [
          | inl e ↦ rw e (ap (λ bs. copy_in bs offset buffer) (h.same s lt))
          | inr e ↦ rw e (h.same t ht)
        ]

  -- What filesys/inode.c asks of the cache holds of this one.
  abbrev pub sector_cache_laws : CacheLaws sector_cache
  sector_cache_laws = record {
    Holds = IsCacheOf;
    size_small = λ h. omega (arith, h.coherent.device.small, h.device_size);
    length-sector = λ h s lt. ap length (sym (h.same s lt)) ∙ length-contents h s lt;
    read_lem = cached_read;
    write_lem = cached_write;
  }
