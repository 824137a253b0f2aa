-- ===== src/Cache/Load.antt =====
-- Loading a sector into filesys/cache.c: a free entry is always found, and no contents change.
use oscourse_all_files.Common.{
  ℕ, ◌+◌, ◌<◌, ◌≡◌, ◌≢◌, inl, inr, refl, ◌∙◌, ap, true, false, Result, ok, ◌==◌, if◌then◌else◌,
  arith, Bool-cases, ==_iff, ==_refl, update,
}
use oscourse_all_files.Bitmap.{Bitmap, bitmap_error, bitmap_scan}
use oscourse_all_files.Bitmap.View.{nth}
use oscourse_all_files.Bitmap.Single.{Becomes, bitmap_set_lem}
use oscourse_all_files.Bitmap.Scan.{Scanned, bitmap_scan_lem}
use oscourse_all_files.Block.{BlockOperations, Block, block_read}
use oscourse_all_files.Block.Transfer.{block_read_lem}
use oscourse_all_files.Cache.{
  CacheBlock, Cache, cache_size, no_sector, evict_fuel, evict_cache, free_entry, add_cache,
}
use oscourse_all_files.Cache.Coherent.{bid_of, on_disk, contents, TableOk, IsCoherent, Absent}
use oscourse_all_files.Cache.Replace.{IsReady, IsLoaded, loaded-IsCoherent, contents-loaded}
use oscourse_all_files.Cache.Writeback.{IsEvicted}
use oscourse_all_files.Cache.Evict.{evict_cache_lem}

module _ (ops : BlockOperations) where
  -- A scan of a table that has a free bit `k` and no other finds it.
  scan_only :
      {table : Bitmap} (t : TableOk table) (k : ℕ)
      → k < cache_size
      → nth table k ≡ false
      → ((j : ℕ) → j ≢ k → j < cache_size → nth table j ≡ true)
      → bitmap_scan table 0 1 false ≡ ok k
  scan_only {table} t k h free others = from (bitmap_scan_lem t.valid 1 false 0 (omega arith))
    where
      from :
          Scanned (nth table) 0 table.bit_cnt 1 false (bitmap_scan table 0 1 false)
          → bitmap_scan table 0 1 false ≡ ok k
      from (inl (i, e, lt, g)) = elim (Bool-cases (i == k)) [
        | inl ik ↦ e ∙ ap ok ((==_iff i k).0 ik)
        | inr ik ↦ absurd (ground (arith, g.group i, others i, t.bits))
      ]
      from (inr (e, g)) = absurd (
          g k (omega arith) (omega (arith, t.bits))
            (λ j lo hi. let q : j ≡ k = omega arith in ap (nth table) q ∙ free))

  module _ {c : Cache ops} (v : IsCoherent ops c) where
    abbrev pub Free : Result (ℕ × Cache ops) → Type 0
    Free r = (k : ℕ) × (c' : Cache ops) × (r ≡ ok (k, c')) × IsReady ops c c' k

    free_now : (k : ℕ) → k < cache_size → nth c.cache_table k ≡ false → IsReady ops c c k
    free_now k h free = record {
      in_range = h;
      same = λ j _. record { bid = refl; kpage = refl; dirty = refl; reader = refl; writer = refl };
      table = v.table;
      used = λ _ _. refl;
      size = refl;
      kind = refl;
      others = λ _ _. refl;
      saved = λ some. absurd (ground (arith, (v.entries k h).state));
    }

    evict_first :
        bitmap_scan c.cache_table 0 1 false ≡ ok bitmap_error
        → (full : (j : ℕ) → j < cache_size → nth c.cache_table j ≡ true) → Free (free_entry ops c)
    unfolding free_entry
    evict_first e full = from (evict_cache_lem ops v full 0)
      where
        from :
            (k : ℕ) × (c3 : Cache ops) × (evict_cache ops evict_fuel c ≡ ok c3)
              × IsEvicted ops v c3 k
            → Free (free_entry ops c)
        from (k, c3, e', d) = (k, c3, rw e (rw e' (rw found)), d.ready)
          where
            found : bitmap_scan c3.cache_table 0 1 false ≡ ok k
            found =
                scan_only d.ready.table k d.ready.in_range d.free
                  (λ j ne h. d.ready.used j ne ∙ full j h)

    -- An entry to load into is found, if need be by an eviction.
    free_entry_lem : Free (free_entry ops c)
    unfolding free_entry
    free_entry_lem = from (bitmap_scan_lem v.table.valid 1 false 0 (omega arith))
      where
        from :
            Scanned
              (nth c.cache_table)
              0
              c.cache_table.bit_cnt
              1
              false
              (bitmap_scan c.cache_table 0 1 false)
            → Free (free_entry ops c)
        from (inl (k, e, lt, g)) =
            let in_range : k < cache_size = omega (arith, v.table.bits) in
            let ne : (k == bitmap_error) ≡ false = ground arith in
            (k, c, rw e (rw ne), free_now k in_range (g.group k (omega arith) (omega arith)))
        from (inr (e, g)) = evict_first e (λ j h. elim (Bool-cases (nth c.cache_table j)) [
          | inl used ↦ used
          | inr free ↦ absurd (
              g j (omega arith) (omega (arith, v.table.bits))
                (λ i lo hi. let q : i ≡ j = omega arith in ap (nth c.cache_table) q ∙ free))
        ])

    -- Entry `k` holds sector `s`, and no contents differ from those of `c`.
    pub record Holds (c' : Cache ops) (k s : ℕ) : Type 0 where
      pub coherent : IsCoherent ops c'
      pub in_range : k < cache_size
      pub bid : bid_of ops c' k ≡ s
      pub unchanged : (t : ℕ) → t ≢ no_sector → contents ops c' t ≡ contents ops c t
      pub size : c'.fs_device.size ≡ c.fs_device.size

    module _ (s : ℕ) (absent : Absent ops c s) (inside : s < c.fs_device.size) where
      abbrev pub Added : Result (ℕ × Cache ops) → Type 0
      Added r = (k : ℕ) × (c' : Cache ops) × (r ≡ ok (k, c')) × Holds c' k s

      module _ {c' : Cache ops} {k : ℕ} (ready : IsReady ops c c' k) where
        device' : Block ops
        device' = record (c'.fs_device) { read_cnt = c'.fs_device.read_cnt + 1 }

        new_entry : CacheBlock
        new_entry = record (c'.cache k) {
          kpage = on_disk ops c' s;
          dirty = false;
          accessed = false;
          bid = s;
        }

        loaded : Bitmap → Cache ops
        loaded table = record {
          cache = update c'.cache k new_entry;
          cache_table = table;
          fs_device = device';
        }

        loaded-IsLoaded :
            (table : Bitmap)
            → Becomes c'.cache_table table (λ j. if j == k then true else nth c'.cache_table j)
            → IsLoaded ops c' (loaded table) k s
        unfolding loaded new_entry device'
        loaded-IsLoaded table b = record {
          elsewhere = λ j ne. ground arith;
          bid = ap (λ (e : CacheBlock). e.bid) here;
          kpage = ap (λ (e : CacheBlock). e.kpage) here;
          idle = (
            ap (λ (e : CacheBlock). e.reader) here
                ∙ (ready.same k ready.in_range).reader
                ∙ (v.entries k ready.in_range).no_reader,
            ap (λ (e : CacheBlock). e.writer) here
                ∙ (ready.same k ready.in_range).writer
                ∙ (v.entries k ready.in_range).no_writer,
          );
          table = record { valid = b.valid; bits = b.same ∙ ready.table.bits };
          used = b.reads;
          size = refl;
          kind = refl;
          aux = refl;
        }
          where
            here : (loaded table).cache k ≡ new_entry
            here = rw (==_refl k)

        loaded-Holds :
            (table : Bitmap) → IsLoaded ops c' (loaded table) k s → Holds (loaded table) k s
        loaded-Holds table l = record {
          coherent = loaded-IsCoherent ops v absent inside ready l;
          in_range = ready.in_range;
          bid = l.bid;
          unchanged = contents-loaded ops v absent inside ready l;
          size = l.size ∙ ready.size;
        }

        add_to : free_entry ops c ≡ ok (k, c') → Added (add_cache ops c s)
        unfolding add_cache loaded new_entry device'
        add_to e =
            let (table, set, b) =
              bitmap_set_lem ready.table.valid k (omega (arith, ready.in_range, ready.table.bits))
                true in
            let ne : (k == bitmap_error) ≡ false = ground (arith, ready.in_range) in
            let was_read : block_read ops c'.fs_device s ≡ ok (on_disk ops c' s, device') =
              block_read_lem ops c'.fs_device s (omega (arith, ready.size)) in
            (
              k,
              loaded table,
              rw e (rw ne (rw was_read (rw set))),
              loaded-Holds table (loaded-IsLoaded table b),
            )

      -- On a coherent cache that does not hold the sector `s` of the device, `add_cache` returns an
      -- index within the cache whose entry holds `s` afterwards. The cache is coherent, over a
      -- device of the same size, and the contents of no sector change, though a dirty sector may
      -- have been evicted.
      pub add_cache_lem : Added (add_cache ops c s)
      add_cache_lem = let (k, c', e, ready) = free_entry_lem in add_to ready e
