-- ===== src/Cache/Writeback.antt =====
-- Evicting an entry of filesys/cache.c: its bytes are on the device afterwards.
use oscourse_all_files.Common.{
  ℕ, ◌+◌, ◌-◌, ◌<◌, ◌≡◌, ◌≢◌, ◌⊎◌, inl, inr, refl, sym, ◌∙◌, ap, true, false, ok, ◌==◌,
  if◌then◌else◌, length, arith, Bool-cases, ==_iff, update,
}
use oscourse_all_files.Bitmap.{Bitmap, bitmap_set, bitmap_test}
use oscourse_all_files.Bitmap.View.{nth}
use oscourse_all_files.Bitmap.Single.{Becomes, bitmap_set_lem, bitmap_test_lem}
use oscourse_all_files.Block.{BlockOperations, Block, block_sector_size, block_write}
use oscourse_all_files.Block.Transfer.{block_write_lem}
use oscourse_all_files.Cache.{
  CacheBlock, Cache, cache_size, no_sector, writeback_cache, evict_entry,
}
use oscourse_all_files.Cache.Coherent.{bid_of, on_disk, IsCoherent}
use oscourse_all_files.Cache.Sweep.{IsSwept}
use oscourse_all_files.Cache.Replace.{SameEntry, IsReady}

module _ (ops : BlockOperations) where
  module _ {c : Cache ops} (v : IsCoherent ops c) where
    -- Entry `k` was written back, and nothing else has changed.
    pub record IsFlushed (c3 : Cache ops) (k : ℕ) : Type 0 where
      pub same : (j : ℕ) → SameEntry ops (c.cache j) (c3.cache j)
      pub table : c3.cache_table ≡ c.cache_table
      pub size : c3.fs_device.size ≡ c.fs_device.size
      pub kind : c3.fs_device.kind ≡ c.fs_device.kind
      pub others : (s : ℕ) → s ≢ bid_of ops c k → on_disk ops c3 s ≡ on_disk ops c s
      pub saved : bid_of ops c k ≢ no_sector → on_disk ops c3 (bid_of ops c k) ≡ (c.cache k).kpage

    -- What an eviction needs to know of its entry, and does.
    pub record IsEvicted (c3 : Cache ops) (k : ℕ) : Type 0 where
      pub ready : IsReady ops c c3 k
      pub free : nth c3.cache_table k ≡ false

    module _ {c2 : Cache ops} (w : IsSwept ops c c2) (k : ℕ) (h : k < cache_size)
        (used : nth c.cache_table k ≡ true) where
      -- The entry after its turn as a writer.
      left : CacheBlock
      left = record (c2.cache k) { writer = (c2.cache k).writer + 1 - 1 }

      in_table : k < c2.cache_table.bit_cnt
      in_table = rw w.table (omega (arith, v.table.bits))

      tested : bitmap_test c2.cache_table k ≡ ok true
      tested =
          ap (λ t. bitmap_test t k) w.table
          ∙ bitmap_test_lem v.table.valid k (omega (arith, v.table.bits))
          ∙ ap ok used

      written : (device : Block ops) → Cache ops
      written device = record c2 { cache = update c2.cache k left; fs_device = device }

      -- The state after the write, if the device has the entry's bytes.
      record IsSaved (device : Block ops) : Type 0 where
        size : device.size ≡ c.fs_device.size
        kind : device.kind ≡ c.fs_device.kind
        others : (s : ℕ) → s ≢ bid_of ops c k → ops.read device.aux s ≡ on_disk ops c s
        saved : ops.read device.aux (bid_of ops c k) ≡ (c.cache k).kpage

      -- The entry holds a sector of the device.
      filled :
          (bid_of ops c k < c.fs_device.size)
          × (length (c.cache k).kpage ≡ block_sector_size)
          × (((c.cache k).dirty ≡ true) ⊎ ((c.cache k).kpage ≡ on_disk ops c (bid_of ops c k)))
      filled = from (v.entries k h).state
        where
          from :
              ((nth c.cache_table k ≡ false) × (bid_of ops c k ≡ no_sector))
                ⊎ ((nth c.cache_table k ≡ true)
                    × (bid_of ops c k < c.fs_device.size)
                    × (length (c.cache k).kpage ≡ block_sector_size)
                    × (((c.cache k).dirty ≡ true)
                        ⊎ ((c.cache k).kpage ≡ on_disk ops c (bid_of ops c k))))
              → (bid_of ops c k < c.fs_device.size)
                × (length (c.cache k).kpage ≡ block_sector_size)
                × (((c.cache k).dirty ≡ true)
                    ⊎ ((c.cache k).kpage ≡ on_disk ops c (bid_of ops c k)))
          from (inl (u, e)) = cc
          from (inr (u, lt, len, f)) = (lt, len, f)

      disk : (s : ℕ) → on_disk ops c2 s ≡ on_disk ops c s
      disk s = ap (λ d. ops.read d.aux s) w.device

      -- `block_write` of the entry.
      after_write : Block ops
      after_write = record (c2.fs_device) {
        aux = ops.write c2.fs_device.aux (bid_of ops c2 k) (c2.cache k).kpage;
        write_cnt = c2.fs_device.write_cnt + 1;
      }

      after_write-IsSaved : IsSaved after_write
      unfolding after_write
      after_write-IsSaved = record {
        size = ap (λ d. d.size) w.device;
        kind = ap (λ d. d.kind) w.device;
        others = λ s ne.
            ops.read-write_ne c2.fs_device.aux (bid_of ops c2 k) s (c2.cache k).kpage
              (λ e. ne (e ∙ (w.same k).bid))
            ∙ disk s;
        saved =
            ap (ops.read after_write.aux) (sym (w.same k).bid)
            ∙ ops.read-write c2.fs_device.aux (bid_of ops c2 k) (c2.cache k).kpage
                (ap length (w.same k).kpage ∙ filled.1)
            ∙ (w.same k).kpage;
      }

      clean-IsSaved : (c2.cache k).dirty ≡ false → IsSaved c2.fs_device
      clean-IsSaved e = record {
        size = ap (λ d. d.size) w.device;
        kind = ap (λ d. d.kind) w.device;
        others = λ s _. disk s;
        saved = disk (bid_of ops c k) ∙ clean filled.2;
      }
        where
          clean :
              ((c.cache k).dirty ≡ true) ⊎ ((c.cache k).kpage ≡ on_disk ops c (bid_of ops c k))
              → on_disk ops c (bid_of ops c k) ≡ (c.cache k).kpage
          clean (inl d) = ground (arith, (w.same k).dirty)
          clean (inr q) = sym q

      writeback_lem :
          (device : Block ops) × (writeback_cache ops c2 k ≡ ok (written device)) × IsSaved device
      unfolding writeback_cache written left after_write
      writeback_lem = elim (Bool-cases (c2.cache k).dirty) [
        | inl d ↦ (after_write, rw tested (rw d (rw wrote)), after_write-IsSaved)
        | inr d ↦ (c2.fs_device, rw tested (rw d), clean-IsSaved d)
      ]
        where
          wrote : block_write ops c2.fs_device (bid_of ops c2 k) (c2.cache k).kpage ≡ ok after_write
          wrote =
              block_write_lem ops c2.fs_device (bid_of ops c2 k) (c2.cache k).kpage
                (omega (arith, filled.0, (w.same k).bid, ap (λ d. d.size) w.device))
                (λ e. v.device.ours (sym (ap (λ d. d.kind) w.device) ∙ e))

      -- The entry with its turn as a writer over.
      left-same :
          (device : Block ops) (j : ℕ) → SameEntry ops (c.cache j) ((written device).cache j)
      unfolding written left
      left-same device j = elim (Bool-cases (j == k)) [
        | inl e ↦ rw (e, (==_iff j k).0 e) same_fields
        | inr e ↦ rw e (w.same j)
      ]
        where
          same_fields :
              SameEntry ops
                (c.cache k)
                (record (c2.cache k) { writer = (c2.cache k).writer + 1 - 1 })
          same_fields = record {
            bid = (w.same k).bid;
            kpage = (w.same k).kpage;
            dirty = (w.same k).dirty;
            reader = (w.same k).reader;
            writer = omega (arith, (w.same k).writer);
          }

      flush_used : (c3 : Cache ops) × (writeback_cache ops c2 k ≡ ok c3) × IsFlushed c3 k
      unfolding written left
      flush_used =
          let (device, e, sv) = writeback_lem in
          (
            written device,
            e,
            record {
              same = left-same device;
              table = w.table;
              size = sv.size;
              kind = sv.kind;
              others = sv.others;
              saved = λ _. sv.saved;
            },
          )

      -- The evicted state.
      freed : Block ops → Bitmap → Cache ops
      freed device table = record (written device) { cache_table = table }

      freed-IsEvicted :
          (device : Block ops) (table : Bitmap)
          → IsSaved device
          → Becomes c.cache_table table (λ j. if j == k then false else nth c.cache_table j)
          → IsEvicted (freed device table) k
      unfolding freed written left
      freed-IsEvicted device table sv b = record {
        ready = record {
          in_range = h;
          same = λ j _. left-same device j;
          table = record { valid = b.valid; bits = b.same ∙ v.table.bits };
          used = λ j ne. ground (arith, b.reads j);
          size = sv.size;
          kind = sv.kind;
          others = sv.others;
          saved = λ _. sv.saved;
        };
        free = ground (arith, b.reads k);
      }

      pub evict_entry_lem :
          (c3 : Cache ops) × (evict_entry ops c2 k ≡ ok (true, c3)) × IsEvicted c3 k
      unfolding evict_entry freed written
      evict_entry_lem = finish writeback_lem set_free
        where
          set_free :
              (table : Bitmap) × (bitmap_set c2.cache_table k false ≡ ok table)
              × Becomes c.cache_table table (λ j. if j == k then false else nth c.cache_table j)
          set_free =
              let (table, e, b) =
                bitmap_set_lem v.table.valid k (omega (arith, v.table.bits)) false in
              (table, ap (λ t. bitmap_set t k false) w.table ∙ e, b)

          finish :
              (device : Block ops) × (writeback_cache ops c2 k ≡ ok (written device))
                × IsSaved device
              → (table : Bitmap) × (bitmap_set c2.cache_table k false ≡ ok table)
                × Becomes c.cache_table table (λ j. if j == k then false else nth c.cache_table j)
              → (c3 : Cache ops) × (evict_entry ops c2 k ≡ ok (true, c3)) × IsEvicted c3 k
          finish (device, e, sv) (table, e', b) =
              (freed device table, rw e (rw e'), freed-IsEvicted device table sv b)

    swept : IsSwept ops c c
    swept = record {
      same = λ j. record { bid = refl; kpage = refl; dirty = refl; reader = refl; writer = refl };
      table = refl;
      device = refl;
    }

    -- An entry that is not in use is left alone.
    flush_free :
        (k : ℕ)
        → k < cache_size
        → nth c.cache_table k ≡ false
        → (c3 : Cache ops) × (writeback_cache ops c k ≡ ok c3) × IsFlushed c3 k
    unfolding writeback_cache
    flush_free k h free = (
      c,
      rw (bitmap_test_lem v.table.valid k (omega (arith, v.table.bits))) (rw free),
      record {
        same = swept.same;
        table = refl;
        size = refl;
        kind = refl;
        others = λ _ _. refl;
        saved = λ some. absurd (ground (arith, (v.entries k h).state));
      },
    )

    pub flush_lem :
        (k : ℕ)
        → k < cache_size
        → (c3 : Cache ops) × (writeback_cache ops c k ≡ ok c3) × IsFlushed c3 k
    flush_lem k h = elim (Bool-cases (nth c.cache_table k)) [
      | inl used ↦ flush_used swept k h used
      | inr free ↦ flush_free k h free
    ]
