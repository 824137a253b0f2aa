-- ===== src/Cache/Evict.antt =====
-- The second-chance eviction of filesys/cache.c ends within two rounds.
use oscourse_all_files.Common.{ℕ, suc, ◌<◌, ◌≡◌, inl, inr, refl, true, false, Result, ok, arith}
use oscourse_all_files.Bitmap.View.{nth}
use oscourse_all_files.Block.{BlockOperations}
use oscourse_all_files.Cache.{Cache, cache_size, evict_entry, evict_loop, evict_cache}
use oscourse_all_files.Cache.Coherent.{IsCoherent}
use oscourse_all_files.Cache.Sweep.{IsSwept, Outcome, evict_loop_lem}
use oscourse_all_files.Cache.Writeback.{IsEvicted, evict_entry_lem}

module _ (ops : BlockOperations) where
  module _ {c : Cache ops} (v : IsCoherent ops c)
      (full : (j : ℕ) → j < cache_size → nth c.cache_table j ≡ true) where
    Evicts : Result (Cache ops) → Type 0
    Evicts r = (k : ℕ) × (c3 : Cache ops) × (r ≡ ok c3) × IsEvicted ops v c3 k

    -- A round that picks an entry ends the loop.
    picked :
        (fuel : ℕ) (c1 c2 : Cache ops) (k : ℕ)
        → k < cache_size
        → IsSwept ops c c2
        → evict_loop ops cache_size c1 0 ≡ evict_entry ops c2 k
        → Evicts (evict_cache ops (suc fuel) c1)
    unfolding evict_cache Evicts
    picked fuel c1 c2 k h w e =
        let (c3, e', d) = evict_entry_lem ops v w k h (full k h) in
        (k, c3, rw e (rw e'), record { ready = d.ready; free = d.free })

    swept : IsSwept ops c c
    swept = record {
      same = λ j. record { bid = refl; kpage = refl; dirty = refl; reader = refl; writer = refl };
      table = refl;
      device = refl;
    }

    second :
        (fuel : ℕ) (c1 : Cache ops)
        → ((j : ℕ) → j < cache_size → (c1.cache j).accessed ≡ false)
        → Outcome ops v c1 0 cache_size (evict_loop ops cache_size c1 0)
        → Evicts (evict_cache ops (suc fuel) c1)
    second fuel c1 clear (inl (k, c2, h, w, e)) = picked fuel c1 c2 k h w e
    second fuel c1 clear (inr (c2, e, w, done, _)) = absurd (ground (arith, done 0, clear 0))

    first :
        (fuel : ℕ)
        → Outcome ops v c 0 cache_size (evict_loop ops cache_size c 0)
        → Evicts (evict_cache ops (suc (suc fuel)) c)
    unfolding evict_cache
    first fuel (inl (k, c2, h, w, e)) = picked (suc fuel) c c2 k h w e
    first fuel (inr (c2, e, w, done, _)) = rw e (
        second fuel c2 (λ j h. (done j (omega arith) (omega arith)).1)
          (evict_loop_lem ops v cache_size c2 0 (omega arith) w))

    -- On a coherent cache with no free entry, whatever the accessed flags are, the `while` loop of
    -- `evict_cache` ends within two rounds. The cache that is left has one free entry, every
    -- entry keeps its sector, bytes and counts, the device has the bytes of the evicted
    -- entry at its sector, and other sectors of the device are unchanged.
    pub evict_cache_lem :
        (fuel : ℕ)
        → (k : ℕ) × (c3 : Cache ops) × (evict_cache ops (suc (suc fuel)) c ≡ ok c3)
          × IsEvicted ops v c3 k
    unfolding Evicts
    evict_cache_lem fuel = first fuel (evict_loop_lem ops v cache_size c 0 (omega arith) swept)
