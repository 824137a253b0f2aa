-- ===== src/Cache.antt =====
-- filesys/cache.c: the buffer cache of 64 sectors with second-chance eviction, as one caller sees
-- it: the lock is taken and released within each call, so it is left out.
pub mod Coherent
pub mod Replace
pub mod Sweep
pub mod Writeback
pub mod Evict
pub mod Load
pub mod Store
pub mod ReadWrite
pub mod Save
pub mod Init
use oscourse_all_files.Common.{
  ℕ, zero, suc, ◌+◌, ◌-◌, ◌≡◌, Bool, true, false, not, ◌&&◌, Option, none, some, List, [], ◌++◌,
  Result, ok, panic, hang, ◌>>=◌, ◌>>◌, assert, ltb, ◌==◌, if◌then◌else◌, take, drop, length,
  update, two_32, replicate,
}
use oscourse_all_files.Bitmap.{
  Bitmap, bitmap_error, bitmap_create, bitmap_set, bitmap_test, bitmap_scan,
}
use oscourse_all_files.Block.{BlockOperations, Block, block_sector_size, block_read, block_write}

abbrev pub cache_size : ℕ
cache_size = 64

-- The rounds that `add_cache` gives the `while` loop of `evict_cache`.
abbrev pub evict_fuel : ℕ
evict_fuel = 2

-- The sector number -1, converted to `block_sector_t`.
abbrev pub no_sector : ℕ
no_sector = two_32 - 1

-- `struct cache_block`; `kpage` holds the bytes that the pointer leads to.
pub record CacheBlock : Type 0 where
  pub bid : ℕ
  pub kpage : List ℕ
  pub dirty : Bool
  pub accessed : Bool
  pub reader : ℕ
  pub writer : ℕ

-- `memcpy` out of and into a sector, at an offset.
abbrev pub copy_out : List ℕ → ℕ → ℕ → List ℕ
copy_out kpage offset readsize = take readsize (drop offset kpage)

abbrev pub copy_in : List ℕ → ℕ → List ℕ → List ℕ
copy_in kpage offset buffer = take offset kpage ++ (buffer ++ drop (offset + length buffer) kpage)

-- `rw`, the kind of access, says which count goes up.
pub data Access : Type 0 where
  reading writing neither : Access

abbrev pub enter : Access → CacheBlock → CacheBlock
enter reading b = record b { reader = b.reader + 1 }
enter writing b = record b { writer = b.writer + 1 }
enter neither b = b

module _ (ops : BlockOperations) where
  -- The module's variables, with the device that they cache.
  pub record Cache : Type 0 where
    pub cache : ℕ → CacheBlock
    pub cache_table : Bitmap
    pub fs_device : Block ops

  -- `cache[i]` after a change of its fields.
  abbrev pub put : Cache → ℕ → CacheBlock → Cache
  put c i b = record c { cache = update c.cache i b }

  -- The loop of `find_sector`: the first of the `n` entries from `i` on that holds the sector.
  pub find_loop : ℕ → Cache → ℕ → ℕ → Option ℕ
  find_loop zero c i bid = none
  find_loop (suc n) c i bid =
      let rest = find_loop n c (i + 1) bid in if (c.cache i).bid == bid then some i else rest

  -- `none` is -1.
  pub find_sector : Cache → ℕ → Access → Option ℕ × Cache
  find_sector c bid rw = elim (find_loop cache_size c 0 bid) [
    | none ↦ (none, c)
    | some i ↦ (some i, put c i (enter rw (c.cache i)))
  ]

  pub writeback_cache : Cache → ℕ → Result Cache
  writeback_cache c idx = do
    t ← bitmap_test c.cache_table idx
    let b = c.cache idx
    let entered = record b { writer = b.writer + 1 }
    let left = record b { writer = entered.writer - 1 }
    if not t
        then ok c
        else (if b.dirty
            then (block_write ops c.fs_device b.bid b.kpage >>= λ device.
                ok (record c { cache = update c.cache idx left; fs_device = device }))
            else ok (put c idx left))

  -- The body of `evict_cache` for the entry that it picks.
  pub evict_entry : Cache → ℕ → Result (Bool × Cache)
  evict_entry c i = do
    c' ← writeback_cache c i
    table ← bitmap_set c'.cache_table i false
    ok (true, record c' { cache_table = table })

  -- The `for` loop of `evict_cache` at `i`, with `n` entries left. True is its `return`.
  pub evict_loop : ℕ → Cache → ℕ → Result (Bool × Cache)
  evict_loop zero c i = ok (false, c)
  evict_loop (suc n) c i =
      let b = c.cache i in
      let skip = evict_loop n c (i + 1) in
      let clear = evict_loop n (put c i (record b { accessed = false })) (i + 1) in
      if b.writer == 0 && b.reader == 0
      then (if b.accessed then clear else evict_entry c i)
      else skip

  -- The `while` loop of `evict_cache`, for at most `fuel` rounds.
  pub evict_cache : ℕ → Cache → Result Cache
  evict_cache zero c = hang
  evict_cache (suc fuel) c = do
    (evicted, c') ← evict_loop cache_size c 0
    elim evicted [ true ↦ ok c' | false ↦ evict_cache fuel c' ]

  -- A free entry, found at once or after an eviction.
  free_entry : Cache → Result (ℕ × Cache)
  free_entry c = do
    free ← bitmap_scan c.cache_table 0 1 false
    if free == bitmap_error
        then (evict_cache evict_fuel c >>= λ c'.
            bitmap_scan c'.cache_table 0 1 false >>= λ free'. ok (free', c'))
        else ok (free, c)

  pub add_cache : Cache → ℕ → Result (ℕ × Cache)
  add_cache c bid = do
    (free, c') ← free_entry c
    assert (not (free == bitmap_error))
    (bytes, device) ← block_read ops c'.fs_device bid
    let b = c'.cache free
    let b' = record b { kpage = bytes; dirty = false; accessed = false; bid = bid }
    table ← bitmap_set c'.cache_table free true
    ok (free, record { cache = update c'.cache free b'; cache_table = table; fs_device = device })

  -- The entry of the sector with its count raised, loaded if it is not there.
  entry : Cache → ℕ → Access → Result (ℕ × Cache)
  entry c bid rw =
      let (get, c') = find_sector c bid rw in
      elim get [
        | some i ↦ ok (i, c')
        | none ↦ add_cache c' bid >>= λ (i, c''). ok (i, put c'' i (enter rw (c''.cache i)))
      ]

  -- What is copied to `buffer`, and the cache afterwards.
  pub read_cache : Cache → ℕ → ℕ → ℕ → Result (List ℕ × Cache)
  read_cache c bid offset readsize = do
    assert (ltb offset block_sector_size)
    (get, c') ← entry c bid reading
    let b = c'.cache get
    let b' = record b { accessed = true; reader = b.reader - 1 }
    ok (copy_out b.kpage offset readsize, put c' get b')

  -- `buffer` holds the `writesize` bytes to write.
  pub write_cache : Cache → ℕ → List ℕ → ℕ → Result Cache
  write_cache c bid buffer offset = do
    assert (ltb offset block_sector_size)
    (get, c') ← entry c bid writing
    let b = c'.cache get
    let b' = record b {
      kpage = copy_in b.kpage offset buffer;
      accessed = true;
      dirty = true;
      writer = b.writer - 1;
    }
    ok (put c' get b')

  -- The loop of `save_cachetable` at `i`, with `n` entries left.
  pub save_loop : ℕ → Cache → ℕ → Result Cache
  save_loop zero c i = ok c
  save_loop (suc n) c i = do c' ← writeback_cache c i; save_loop n c' (i + 1)

  pub save_cachetable : Cache → Result Cache
  save_cachetable c = save_loop cache_size c 0

  -- An unused entry over its part of a zeroed page.
  abbrev pub empty_entry : CacheBlock
  empty_entry = record {
    bid = no_sector;
    kpage = replicate block_sector_size 0;
    dirty = false;
    accessed = false;
    reader = 0;
    writer = 0;
  }

  abbrev empty_cache : Block ops → Option Bitmap → Option Cache
  empty_cache device none = none
  empty_cache device (some table) =
      some (record { cache = λ _. empty_entry; cache_table = table; fs_device = device })

  -- `header` and `block` are what malloc gives `bitmap_create`. `none` is a NULL `cache_table`.
  pub init_cache : Block ops → Bool → Option (List ℕ) → Result (Option Cache)
  init_cache device header block = do
    table ← bitmap_create cache_size header block
    ok (empty_cache device table)
