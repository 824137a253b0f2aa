-- ===== src/Cache/Coherent.antt =====
-- What the entries of filesys/cache.c mean together: the contents of each sector of the device.
use oscourse_all_files.Common.{
  ℕ, zero, suc, ◌+◌, ◌≤◌, ◌<◌, ◌≡◌, ◌≢◌, ◌⊎◌, inl, inr, refl, sym, ◌∙◌, ap, Bool, true, false,
  Option, none, some, List, ◌==◌, length, arith, Bool-cases, ==_iff,
}
use oscourse_all_files.Bitmap.{Bitmap}
use oscourse_all_files.Bitmap.View.{nth, IsValid}
use oscourse_all_files.Block.{BlockOperations, Block, BlockType, block_sector_size}
use oscourse_all_files.Cache.{CacheBlock, Cache, cache_size, no_sector, find_loop}

pub record TableOk (table : Bitmap) : Type 0 where
  pub valid : IsValid table
  pub bits : table.bit_cnt ≡ cache_size

module _ (ops : BlockOperations) where
  open ops use {read}

  abbrev pub bid_of : Cache ops → ℕ → ℕ
  bid_of c i = (c.cache i).bid

  -- The sector as the device has it.
  abbrev pub on_disk : Cache ops → ℕ → List ℕ
  on_disk c s = read c.fs_device.aux s

  -- The bytes that the cache stands for at sector `s`: those of its entry, or of the device.
  pub contents : Cache ops → ℕ → List ℕ
  contents c s = elim (find_loop ops cache_size c 0 s) [
    | some i ↦ (c.cache i).kpage
    | none ↦ on_disk c s
  ]

  -- The entry is idle; it is empty, or holds a sector that is clean or marked dirty.
  pub record EntryOk (device : Block ops) (b : CacheBlock) (used : Bool) : Type 0 where
    pub no_reader : b.reader ≡ 0
    pub no_writer : b.writer ≡ 0
    pub state :
        ((used ≡ false) × (b.bid ≡ no_sector))
        ⊎ ((used ≡ true)
            × (b.bid < device.size)
            × (length b.kpage ≡ block_sector_size)
            × ((b.dirty ≡ true) ⊎ (b.kpage ≡ read device.aux b.bid)))

  pub record DeviceOk (device : Block ops) : Type 0 where
    pub small : device.size ≤ no_sector
    pub ours : device.kind ≢ BlockType.foreign

  pub record IsCoherent (c : Cache ops) : Type 0 where
    pub table : TableOk c.cache_table
    pub device : DeviceOk c.fs_device
    pub entries : (j : ℕ) → j < cache_size → EntryOk c.fs_device (c.cache j) (nth c.cache_table j)
    pub distinct :
        (i j : ℕ)
        → i < cache_size
        → j < cache_size
        → bid_of c i ≡ bid_of c j
        → bid_of c i ≢ no_sector
        → i ≡ j

  -- No entry holds the sector.
  abbrev pub Absent : Cache ops → ℕ → Type 0
  Absent c s = (j : ℕ) → j < cache_size → bid_of c j ≢ s

  abbrev Found : ℕ → Cache ops → ℕ → ℕ → Option ℕ → Type 0
  Found n c i s r =
      ((k : ℕ) × (r ≡ some k) × (i ≤ k) × (k < i + n) × (bid_of c k ≡ s))
      ⊎ ((r ≡ none) × ((k : ℕ) → i ≤ k → k < i + n → bid_of c k ≢ s))

  find_loop_lem : (n : ℕ) (c : Cache ops) (i s : ℕ) → Found n c i s (find_loop ops n c i s)
  unfolding find_loop
  find_loop_lem zero c i s = inr (refl, λ k lo hi. absurd (omega arith))
  find_loop_lem (suc n) c i s = elim (Bool-cases (bid_of c i == s)) [
    | inl e ↦ rw e (inl (i, refl, omega arith, omega arith, (==_iff _ s).0 e))
    | inr e ↦ rw e (later e (find_loop_lem n c (i + 1) s))
  ]
    where
      later :
          {r : Option ℕ} → (bid_of c i == s) ≡ false → Found n c (i + 1) s r → Found (suc n) c i s r
      later e (inl (k, q, lo, hi, h)) = inl (k, q, omega arith, omega arith, h)
      later e (inr (q, g)) = inr (
        q,
        λ k lo hi h. elim (Bool-cases (k == i)) [
          | inl here ↦ ground (arith)
          | inr there ↦ g k (ground arith) (omega arith) h
        ],
      )

  -- A sector is in one entry of a coherent cache, or in none.
  pub find_cases :
      (c : Cache ops) (s : ℕ)
      → ((k : ℕ) × (find_loop ops cache_size c 0 s ≡ some k) × (k < cache_size) × (bid_of c k ≡ s))
        ⊎ ((find_loop ops cache_size c 0 s ≡ none) × Absent c s)
  find_cases c s = from (find_loop_lem cache_size c 0 s)
    where
      from :
          {r : Option ℕ}
          → Found cache_size c 0 s r
          → ((k : ℕ) × (r ≡ some k) × (k < cache_size) × (bid_of c k ≡ s))
            ⊎ ((r ≡ none) × Absent c s)
      from (inl (k, q, lo, hi, h)) = inl (k, q, omega arith, h)
      from (inr (q, g)) = inr (q, λ j h. g j (omega arith) (omega arith))

  module _ (c : Cache ops) (s : ℕ) where
    pub contents_absent : Absent c s → contents c s ≡ on_disk c s
    unfolding contents
    contents_absent a = from (find_cases c s)
      where
        from :
            ((k : ℕ) × (find_loop ops cache_size c 0 s ≡ some k)
                × (k < cache_size)
                × (bid_of c k ≡ s))
              ⊎ ((find_loop ops cache_size c 0 s ≡ none) × Absent c s)
            → contents c s ≡ on_disk c s
        from (inl (k, q, lt, h)) = absurd (a k lt h)
        from (inr (q, g)) = rw (q, contents)

    pub contents_cached :
        IsCoherent c
        → (i : ℕ) → i < cache_size
        → bid_of c i ≡ s
        → s ≢ no_sector
        → contents c s ≡ (c.cache i).kpage
    unfolding contents
    contents_cached v i lt e ne = from (find_cases c s)
      where
        from :
            ((k : ℕ) × (find_loop ops cache_size c 0 s ≡ some k)
                × (k < cache_size)
                × (bid_of c k ≡ s))
              ⊎ ((find_loop ops cache_size c 0 s ≡ none) × Absent c s)
            → contents c s ≡ (c.cache i).kpage
        from (inl (k, q, klt, h)) =
            let same : k ≡ i = v.distinct k i klt lt (h ∙ sym e) (λ x. ne (sym h ∙ x)) in
            rw (q, contents) (ap (λ j. (c.cache j).kpage) same)
        from (inr (q, g)) = absurd (g i lt e)

  -- A sector is in an entry, or absent.
  pub held_cases :
      (c : Cache ops) (s : ℕ) → ((k : ℕ) × (k < cache_size) × (bid_of c k ≡ s)) ⊎ Absent c s
  held_cases c s = elim (find_cases c s) [ inl (k, _, h, e) ↦ inl (k, h, e) | inr (_, a) ↦ inr a ]
