-- ===== src/Cache/ReadWrite.antt =====
-- Reading and writing through filesys/cache.c: to its callers the cache is the device.
use oscourse_all_files.Common.{
  ℕ, ◌+◌, ◌-◌, ◌≤◌, ◌<◌, ◌≡◌, ◌≢◌, ◌⊎◌, inl, inr, refl, sym, ◌∙◌, ap, ap₂, Bool, true, Option, none,
  some, List, ◌++◌, Result, ok, ◌==◌, if◌then◌else◌, length, length-append, length-take,
  length-drop, take, drop, arith, Bool-cases, ==_iff, lt→ltb, update, update_self, update-update,
}
use oscourse_all_files.Block.{BlockOperations, block_sector_size}
use oscourse_all_files.Cache.{
  CacheBlock, Cache, cache_size, no_sector, put, copy_in, copy_out, Access, reading, writing, enter,
  find_loop, find_sector, entry, read_cache, write_cache,
}
use oscourse_all_files.Cache.Coherent.{
  bid_of, contents, IsCoherent, Absent, contents_cached, find_cases,
}
use oscourse_all_files.Cache.Load.{Holds, add_cache_lem}
use oscourse_all_files.Cache.Store.{IsUpdate, stored-IsCoherent, contents-stored}

pub length-copy_in :
    (kpage buffer : List ℕ) (offset : ℕ)
    → length kpage ≡ block_sector_size
    → offset + length buffer ≤ block_sector_size
    → length (copy_in kpage offset buffer) ≡ block_sector_size
length-copy_in kpage buffer offset long fits = omega (
  arith,
  length-append (take offset kpage) (buffer ++ drop (offset + length buffer) kpage),
  length-append buffer (drop (offset + length buffer) kpage),
  length-take offset kpage,
  length-drop (offset + length buffer) kpage,
)

module _ (ops : BlockOperations) {c : Cache ops} (v : IsCoherent ops c) (s : ℕ)
    (inside : s < c.fs_device.size) where
  ne_none : s ≢ no_sector
  ne_none e = absurd (omega (arith, v.device.small))

  find_hit :
      (access : Access) (k : ℕ)
      → find_loop ops cache_size c 0 s ≡ some k
      → find_sector ops c s access ≡ (some k, put ops c k (enter access (c.cache k)))
  unfolding find_sector
  find_hit access k e = rw (e, find_sector)

  find_miss :
      (access : Access)
      → find_loop ops cache_size c 0 s ≡ none
      → find_sector ops c s access ≡ (none, c)
  unfolding find_sector
  find_miss access e = rw (e, find_sector)

  -- The entry of the sector, whether or not it had to be loaded.
  entry_lem :
      (access : Access)
      → (k : ℕ) × (c' : Cache ops) × (entry ops c s access
          ≡ ok (k, put ops c' k (enter access (c'.cache k))))
        × Holds ops v c' k s
  unfolding entry
  entry_lem access = from (find_cases ops c s)
    where
      from :
          ((k : ℕ) × (find_loop ops cache_size c 0 s ≡ some k)
              × (k < cache_size)
              × (bid_of ops c k ≡ s))
            ⊎ ((find_loop ops cache_size c 0 s ≡ none) × Absent ops c s)
          → (k : ℕ) × (c' : Cache ops) × (entry ops c s access
              ≡ ok (k, put ops c' k (enter access (c'.cache k))))
            × Holds ops v c' k s
      from (inl (k, e, h, b)) = (
        k,
        c,
        rw (find_hit access k e, entry)
            (ap (λ (r : Option ℕ × Cache ops). ok (k, r.1)) (find_hit access k e)),
        record { coherent = v; in_range = h; bid = b; unchanged = λ _ _. refl; size = refl },
      )
      from (inr (e, out)) =
          let (k, c', e', held) = add_cache_lem ops v s out inside in
          (
            k,
            c',
            rw (find_miss access e, entry)
                (rw (ap (λ (r : Option ℕ × Cache ops). r.1) (find_miss access e)) (rw e')),
            held,
          )

  module _ {c' : Cache ops} {k : ℕ} (held : Holds ops v c' k s) where
    abbrev here : CacheBlock
    here = c'.cache k

    some_sector : bid_of ops c' k ≢ no_sector
    some_sector e = ne_none (sym held.bid ∙ e)

    length-here : length here.kpage ≡ block_sector_size
    length-here = ground (arith, (held.coherent.entries k held.in_range).state, some_sector)

    bytes : here.kpage ≡ contents ops c s
    bytes =
        sym (contents_cached ops c' s held.coherent k held.in_range held.bid ne_none)
        ∙ held.unchanged s ne_none

    -- The contents once the entry is overwritten.
    contents_after :
        (b' : CacheBlock)
        → IsUpdate ops here b'
        → (new : List ℕ) → b'.kpage ≡ new
        → (t : ℕ) → t ≢ no_sector
        → contents ops (put ops c' k b') t ≡ (if t == s then new else contents ops c t)
    contents_after b' u new e t ne =
        contents-stored ops held.coherent held.in_range some_sector u t ne
        ∙ ap₂ (λ (b : Bool) (bs : List ℕ). if b then bs else contents ops c' t)
            (ap (λ (x : ℕ). t == x) held.bid) e
        ∙ ap (λ (bs : List ℕ). if t == s then new else bs) (held.unchanged t ne)

    -- The entry after the read.
    read_entry : CacheBlock
    read_entry = record here { accessed = true; reader = here.reader + 1 - 1 }

    read_entry-IsUpdate : IsUpdate ops here read_entry
    unfolding read_entry
    read_entry-IsUpdate = record {
      bid = refl;
      no_reader = omega (arith, (held.coherent.entries k held.in_range).no_reader);
      no_writer = (held.coherent.entries k held.in_range).no_writer;
      long = length-here;
      dirty = inr (refl, refl);
    }

    -- The entry after the write.
    written_entry : List ℕ → ℕ → CacheBlock
    written_entry buffer offset = record here {
      kpage = copy_in here.kpage offset buffer;
      accessed = true;
      dirty = true;
      writer = here.writer + 1 - 1;
    }

    written_entry-IsUpdate :
        (buffer : List ℕ) (offset : ℕ)
        → offset + length buffer ≤ block_sector_size
        → IsUpdate ops here (written_entry buffer offset)
    unfolding written_entry
    written_entry-IsUpdate buffer offset fits = record {
      bid = refl;
      no_reader = (held.coherent.entries k held.in_range).no_reader;
      no_writer = omega (arith, (held.coherent.entries k held.in_range).no_writer);
      long = length-copy_in here.kpage buffer offset length-here fits;
      dirty = inl refl;
    }

  -- On a coherent cache, for a sector `s` of the device and a range that starts within the sector
  -- and does not go past its end, a read returns the `readsize` bytes of the sector's contents
  -- from the offset on. The cache is coherent again, over a device of the same size, and the
  -- contents of no sector change.
  pub read_cache_lem :
      (offset readsize : ℕ)
      → offset < block_sector_size
      → offset + readsize ≤ block_sector_size
      → (c' : Cache ops) × (read_cache ops c s offset readsize
          ≡ ok (copy_out (contents ops c s) offset readsize, c'))
        × IsCoherent ops c'
        × (c'.fs_device.size ≡ c.fs_device.size)
        × ((t : ℕ) → t ≢ no_sector → contents ops c' t ≡ contents ops c t)
  unfolding read_cache read_entry
  read_cache_lem offset readsize h inside_page = from (entry_lem reading)
    where
      from :
          (k : ℕ) × (c' : Cache ops) × (entry ops c s reading
              ≡ ok (k, put ops c' k (enter reading (c'.cache k))))
            × Holds ops v c' k s
          → (c' : Cache ops) × (read_cache ops c s offset readsize
              ≡ ok (copy_out (contents ops c s) offset readsize, c'))
            × IsCoherent ops c'
            × (c'.fs_device.size ≡ c.fs_device.size)
            × ((t : ℕ) → t ≢ no_sector → contents ops c' t ≡ contents ops c t)
      from (k, c', e, held) = (
        put ops c' k (read_entry held),
        rw (lt→ltb offset block_sector_size h) (rw e result),
        stored-IsCoherent ops held.coherent held.in_range (some_sector held)
            (read_entry-IsUpdate held),
        held.size,
        λ t ne.
            contents_after held (read_entry held) (read_entry-IsUpdate held) (contents ops c s)
              (bytes held) t ne
            ∙ same_contents t,
      )
        where
          same_contents :
              (t : ℕ) → (if t == s then contents ops c s else contents ops c t) ≡ contents ops c t
          same_contents t = elim (Bool-cases (t == s)) [
            | inl e ↦ rw (e, (==_iff t s).0 e)
            | inr e ↦ rw e
          ]

          raised : CacheBlock
          raised = enter reading (c'.cache k)

          result :
              ◌≡◌ {A = Result (List ℕ × Cache ops)}
                (ok (
                  copy_out (update c'.cache k raised k).kpage offset readsize,
                  put ops (put ops c' k raised) k (record (update c'.cache k raised k) {
                    accessed = true;
                    reader = (update c'.cache k raised k).reader - 1;
                  }),
                ))
                (ok (copy_out (contents ops c s) offset readsize, put ops c' k (read_entry held)))
          result =
              ap₂
                (λ (bs : List ℕ) (f : ℕ → CacheBlock).
                  ok (copy_out bs offset readsize, record c' { cache = f }))
                (ap (λ (b : CacheBlock). b.kpage) (update_self c'.cache k raised) ∙ bytes held)
                (update-update c'.cache k raised
                  (λ b. record b { accessed = true; reader = b.reader - 1 }))

  -- On a coherent cache, for a sector `s` of the device and an `offset` within the sector, a buffer
  -- that ends within the sector is written: the call returns, whatever had to be evicted, with a
  -- coherent cache over a device of the same size. The contents of `s` are then the old ones
  -- with the buffer copied in at the offset; those of every other sector are unchanged.
  pub write_cache_lem :
      (buffer : List ℕ) (offset : ℕ)
      → offset < block_sector_size
      → offset + length buffer ≤ block_sector_size
      → (c' : Cache ops) × (write_cache ops c s buffer offset ≡ ok c')
        × IsCoherent ops c'
        × (c'.fs_device.size ≡ c.fs_device.size)
        × ((t : ℕ)
            → t ≢ no_sector
            → contents ops c' t
              ≡ (if t == s then copy_in (contents ops c s) offset buffer else contents ops c t))
  unfolding write_cache written_entry
  write_cache_lem buffer offset h fits = from (entry_lem writing)
    where
      from :
          (k : ℕ) × (c' : Cache ops) × (entry ops c s writing
              ≡ ok (k, put ops c' k (enter writing (c'.cache k))))
            × Holds ops v c' k s
          → (c' : Cache ops) × (write_cache ops c s buffer offset ≡ ok c')
            × IsCoherent ops c'
            × (c'.fs_device.size ≡ c.fs_device.size)
            × ((t : ℕ)
                → t ≢ no_sector
                → contents ops c' t
                  ≡ (if t == s then copy_in (contents ops c s) offset buffer else contents ops c t))
      from (k, c', e, held) = (
        put ops c' k (written_entry held buffer offset),
        rw (lt→ltb offset block_sector_size h) (rw e result),
        stored-IsCoherent ops held.coherent held.in_range (some_sector held)
            (written_entry-IsUpdate held buffer offset fits),
        held.size,
        contents_after held (written_entry held buffer offset)
            (written_entry-IsUpdate held buffer offset fits) _
            (ap (λ (bs : List ℕ). copy_in bs offset buffer) (bytes held)),
      )
        where
          raised : CacheBlock
          raised = enter writing (c'.cache k)

          overwrite : CacheBlock → CacheBlock
          overwrite b = record b {
            kpage = copy_in b.kpage offset buffer;
            accessed = true;
            dirty = true;
            writer = b.writer - 1;
          }

          result :
              ◌≡◌ {A = Result (Cache ops)}
                (ok (put ops (put ops c' k raised) k (overwrite (update c'.cache k raised k))))
                (ok (put ops c' k (written_entry held buffer offset)))
          result =
              ap (λ (f : ℕ → CacheBlock). ok (record c' { cache = f }))
                (update-update c'.cache k raised overwrite)
