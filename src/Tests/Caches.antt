-- ===== src/Tests/Caches.antt =====
-- filesys/cache.c over a disk of 100 sectors.
use oscourse_all_files.Common.{
  zero, suc, get_or, inr, ◌/◌, ◌%◌, ℕ, ◌<◌, ◌≡◌, ◌≢◌, inl, refl, true, false, some, List, [], ◌∷◌,
  ok, arith, ◌==◌, if◌then◌else◌,
}
use oscourse_all_files.Bitmap.View.{nth}
use oscourse_all_files.Block.{Block, BlockType}
use oscourse_all_files.Cache.{
  Cache, cache_size, no_sector, empty_entry, copy_in, copy_out, read_cache, write_cache,
  save_cachetable, init_cache, add_cache, evict_cache,
}
use oscourse_all_files.Cache.Coherent.{contents, on_disk, DeviceOk, IsCoherent, Absent}
use oscourse_all_files.Cache.ReadWrite.{read_cache_lem, write_cache_lem}
use oscourse_all_files.Cache.Save.{save_cachetable_lem}
use oscourse_all_files.Cache.Init.{init_cache_lem}
use oscourse_all_files.Tests.Disk.{memory_disk, read_bytes, length-read_bytes}
use oscourse_all_files.Bits.{bit, bit-zero, bit-complement}
use oscourse_all_files.Cache.Writeback.{IsEvicted}
use oscourse_all_files.Cache.Evict.{evict_cache_lem}
use oscourse_all_files.Cache.Load.{Added, add_cache_lem}

-- A device with these bytes, and an empty cache over it.
abbrev pub device_over : (ℕ → ℕ → ℕ) → Block memory_disk
device_over bytes = record {
  kind = BlockType.filesys;
  size = 100;
  aux = bytes;
  read_cnt = 0;
  write_cnt = 0;
}

abbrev pub cold_over : (ℕ → ℕ → ℕ) → Cache memory_disk
cold_over bytes = record {
  cache = λ _. empty_entry memory_disk;
  cache_table = record { bit_cnt = 64; bits = 0 ∷ 0 ∷ [] };
  fs_device = device_over bytes;
}

abbrev device : Block memory_disk
device = device_over (λ s i. s)

abbrev cold : Cache memory_disk
cold = cold_over (λ s i. s)

device-DeviceOk : DeviceOk memory_disk device
device-DeviceOk = record { small = omega arith; ours = λ e. cc }

abbrev zeros : List ℕ
zeros = 0 ∷ 0 ∷ []

abbrev ones : List ℕ
ones = 0xffff_ffff ∷ 0xffff_ffff ∷ []

cold_words : (k : ℕ) → get_or zeros k 0 ≡ 0
cold_words zero = refl
cold_words (suc zero) = refl
cold_words (suc (suc k)) = refl

cold-clear : (j : ℕ) → nth cold.cache_table j ≡ false
unfolding nth
cold-clear j = rw (cold_words (j / 32), bit-zero (j % 32)) refl

-- Every entry is in use, dirty and accessed.
abbrev warm : Cache memory_disk
warm = record {
  cache = λ i. record {
    bid = i;
    kpage = read_bytes (λ s k. s) i;
    dirty = true;
    accessed = true;
    reader = 0;
    writer = 0;
  };
  cache_table = record { bit_cnt = 64; bits = 0xffff_ffff ∷ 0xffff_ffff ∷ [] };
  fs_device = device;
}

warm_words : (k : ℕ) → k < 2 → get_or ones k 0 ≡ 0xffff_ffff
warm_words zero h = refl
warm_words (suc zero) h = refl
warm_words (suc (suc k)) h = absurd (omega arith)

warm-full : (j : ℕ) → j < cache_size → nth warm.cache_table j ≡ true
unfolding nth
warm-full j h =
    let set : bit (j % 32) 0xffff_ffff ≡ 1 =
      omega (arith, bit-complement 32 (j % 32) 0 (omega arith) (omega arith), bit-zero (j % 32)) in
    rw (warm_words (j / 32) (omega arith), set) refl

warm-IsCoherent : IsCoherent memory_disk warm
warm-IsCoherent = record {
  table = record {
    valid = record { fits = omega arith; enough = refl; words = (omega arith, (omega arith, tt)) };
    bits = refl;
  };
  device = device-DeviceOk;
  entries = λ j h. record {
    no_reader = refl;
    no_writer = refl;
    state = inr (warm-full j h, omega arith, length-read_bytes (λ s k. s) j, inl refl);
  };
  distinct = λ i j hi hj e n. e;
}

evict_cache_example :
    (k : ℕ) × (c : Cache memory_disk) × (evict_cache memory_disk 2 warm ≡ ok c)
    × IsEvicted memory_disk warm-IsCoherent c k
evict_cache_example = evict_cache_lem memory_disk warm-IsCoherent warm-full 0

eighty-Absent : Absent memory_disk warm 80
eighty-Absent j h e = omega arith

add_cache_example :
    Added memory_disk warm-IsCoherent 80 eighty-Absent (omega arith) (add_cache memory_disk warm 80)
add_cache_example = add_cache_lem memory_disk warm-IsCoherent 80 eighty-Absent (omega arith)

pub cold_over-IsCoherent : (bytes : ℕ → ℕ → ℕ) → IsCoherent memory_disk (cold_over bytes)
cold_over-IsCoherent bytes = record {
  table = record {
    valid = record { fits = omega arith; enough = refl; words = (omega arith, (omega arith, tt)) };
    bits = refl;
  };
  device = record { small = omega arith; ours = λ e. cc };
  entries = λ j h. record { no_reader = refl; no_writer = refl; state = inl (cold-clear j, refl) };
  distinct = λ i j hi hj e n. absurd (n refl);
}

cold-IsCoherent : IsCoherent memory_disk cold
cold-IsCoherent = cold_over-IsCoherent (λ s i. s)

read_cache_example :
    (c' : Cache memory_disk) × (read_cache memory_disk cold 7 4 2
      ≡ ok (copy_out (contents memory_disk cold 7) 4 2, c'))
    × IsCoherent memory_disk c'
    × (c'.fs_device.size ≡ 100)
    × ((t : ℕ) → t ≢ no_sector → contents memory_disk c' t ≡ contents memory_disk cold t)
read_cache_example =
    read_cache_lem memory_disk cold-IsCoherent 7 (omega arith) 4 2 (omega arith) (omega arith)

write_cache_example :
    (c' : Cache memory_disk) × (write_cache memory_disk cold 7 (1 ∷ 2 ∷ []) 4 ≡ ok c')
    × IsCoherent memory_disk c'
    × (c'.fs_device.size ≡ 100)
    × ((t : ℕ)
        → t ≢ no_sector
        → contents memory_disk c' t ≡ (
            if t == 7
            then copy_in (contents memory_disk cold 7) 4 (1 ∷ 2 ∷ [])
            else contents memory_disk cold t))
write_cache_example =
    write_cache_lem memory_disk cold-IsCoherent 7 (omega arith) (1 ∷ 2 ∷ []) 4 (omega arith)
      (omega arith)

save_cachetable_example :
    (c' : Cache memory_disk) × (save_cachetable memory_disk cold ≡ ok c')
    × IsCoherent memory_disk c'
    × ((t : ℕ)
        → t ≢ no_sector
        → (on_disk memory_disk c' t ≡ contents memory_disk cold t)
          × (contents memory_disk c' t ≡ contents memory_disk cold t))
save_cachetable_example = save_cachetable_lem memory_disk cold-IsCoherent

init_cache_example :
    (c : Cache memory_disk) × (init_cache memory_disk device true (some (7 ∷ 9 ∷ [])) ≡ ok (some c))
    × IsCoherent memory_disk c
    × ((s : ℕ) → s ≢ no_sector → contents memory_disk c s ≡ memory_disk.read device.aux s)
init_cache_example =
    init_cache_lem memory_disk device-DeviceOk (7 ∷ 9 ∷ []) refl (omega arith, (omega arith, tt))
