-- ===== src/Cache/Init.antt =====
-- The cache that `init_cache` of filesys/cache.c sets up: nothing is cached.
use oscourse_all_files.Common.{
  ℕ, ◌<◌, ◌≡◌, ◌≢◌, inl, refl, Bool, true, some, List, ok, All, length, two_32, arith,
}
use oscourse_all_files.Bitmap.{Bitmap, bitmap_create, elem_cnt}
use oscourse_all_files.Bitmap.View.{nth, IsValid}
use oscourse_all_files.Bitmap.Create.{bitmap_create_lem}
use oscourse_all_files.Block.{BlockOperations, Block}
use oscourse_all_files.Cache.{Cache, cache_size, no_sector, init_cache, empty_entry}
use oscourse_all_files.Cache.Coherent.{contents, DeviceOk, TableOk, IsCoherent, contents_absent}

module _ (ops : BlockOperations) {device : Block ops} (d : DeviceOk ops device) where
  module _ (table : Bitmap) (t : TableOk table)
      (clear : (j : ℕ) → j < cache_size → nth table j ≡ Bool.false) where
    fresh : Cache ops
    fresh = record { cache = λ _. empty_entry ops; cache_table = table; fs_device = device }

    fresh-IsCoherent : IsCoherent ops fresh
    unfolding fresh
    fresh-IsCoherent = record {
      table = t;
      device = d;
      entries = λ j h. record { no_reader = refl; no_writer = refl; state = inl (clear j h, refl) };
      distinct = λ i j hi hj e n. absurd (n refl);
    }

    contents-fresh : (s : ℕ) → s ≢ no_sector → contents ops fresh s ≡ ops.read device.aux s
    unfolding fresh
    contents-fresh s ne = contents_absent ops fresh s (λ j h e. ne (omega arith))

  -- On a device that is not foreign and has fewer sectors than the sector number -1, with memory
  -- for the bit table, whatever that memory holds, `init_cache` returns a coherent cache whose
  -- contents are those of the device.
  pub init_cache_lem :
      (block : List ℕ)
      → length block ≡ elem_cnt cache_size
      → All (λ w. w < two_32) block
      → (c : Cache ops) × (init_cache ops device true (some block) ≡ ok (some c))
        × IsCoherent ops c
        × ((s : ℕ) → s ≢ no_sector → contents ops c s ≡ ops.read device.aux s)
  unfolding init_cache fresh
  init_cache_lem block enough words =
      from (bitmap_create_lem cache_size block (omega arith) enough words)
    where
      from :
          (b : Bitmap) × (bitmap_create cache_size true (some block) ≡ ok (some b))
            × IsValid b
            × (b.bit_cnt ≡ cache_size)
            × ((j : ℕ) → j < cache_size → nth b j ≡ Bool.false)
          → (c : Cache ops) × (init_cache ops device true (some block) ≡ ok (some c))
            × IsCoherent ops c
            × ((s : ℕ) → s ≢ no_sector → contents ops c s ≡ ops.read device.aux s)
      from (b, e, v, bits, clear) =
          let t : TableOk b = record { valid = v; bits = bits } in
          (fresh b t clear, rw e, fresh-IsCoherent b t clear, contents-fresh b t clear)
