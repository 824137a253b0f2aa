-- ===== src/Cache/Sweep.antt =====
-- One round of the second-chance eviction of filesys/cache.c.
use oscourse_all_files.Common.{
  ℕ, zero, suc, ◌+◌, ◌≤◌, ◌<◌, ◌≡◌, ◌⊎◌, inl, inr, refl, Bool, true, false, ◌&&◌, Result, ok, ◌==◌,
  arith, Bool-cases, ==_iff,
}
use oscourse_all_files.Block.{BlockOperations}
use oscourse_all_files.Cache.{Cache, cache_size, put, evict_entry, evict_loop}
use oscourse_all_files.Cache.Coherent.{IsCoherent}
use oscourse_all_files.Cache.Replace.{SameEntry}

module _ (ops : BlockOperations) where
  -- Only `accessed` flags have changed.
  pub record IsSwept (c c' : Cache ops) : Type 0 where
    pub same : (j : ℕ) → SameEntry ops (c.cache j) (c'.cache j)
    pub table : c'.cache_table ≡ c.cache_table
    pub device : c'.fs_device ≡ c.fs_device

  abbrev pub accessed_of : Cache ops → ℕ → Bool
  accessed_of c j = (c.cache j).accessed

  -- Clearing one more flag.
  IsSwept-clear :
      {c c' : Cache ops} (i : ℕ)
      → IsSwept c c'
      → IsSwept c (put ops c' i (record (c'.cache i) { accessed = false }))
  IsSwept-clear {c} {c'} i w = record {
    same = λ j. elim (Bool-cases (j == i)) [
      | inl e ↦ rw (e, (==_iff j i).0 e) same_fields
      | inr e ↦ rw e (w.same j)
    ];
    table = w.table;
    device = w.device;
  }
    where
      same_fields : SameEntry ops (c.cache i) (record (c'.cache i) { accessed = false })
      same_fields = record {
        bid = (w.same i).bid;
        kpage = (w.same i).kpage;
        dirty = (w.same i).dirty;
        reader = (w.same i).reader;
        writer = (w.same i).writer;
      }

  module _ {c : Cache ops} (v : IsCoherent ops c) where
    -- The loop evicts an entry; or it comes to its end and has cleared the flags on its way.
    abbrev pub Outcome : Cache ops → ℕ → ℕ → Result (Bool × Cache ops) → Type 0
    Outcome c1 i n r =
        ((k : ℕ) × (c2 : Cache ops) × (k < cache_size) × IsSwept c c2 × (r ≡ evict_entry ops c2 k))
        ⊎ ((c2 : Cache ops) × (r ≡ ok (false, c2))
            × IsSwept c c2
            × ((j : ℕ) → i ≤ j → j < i + n → (accessed_of c1 j ≡ true) × (accessed_of c2 j ≡ false))
            × ((j : ℕ) → j < i → accessed_of c2 j ≡ accessed_of c1 j))

    idle :
        {c1 : Cache ops} (i : ℕ)
        → i < cache_size
        → IsSwept c c1
        → ((c1.cache i).writer == 0 && (c1.cache i).reader == 0) ≡ true
    idle i h w = ground (
      arith,
      (w.same i).writer,
      (w.same i).reader,
      (v.entries i h).no_writer,
      (v.entries i h).no_reader,
    )

    pub evict_loop_lem :
        (n : ℕ) (c1 : Cache ops) (i : ℕ)
        → i + n ≤ cache_size
        → IsSwept c c1
        → Outcome c1 i n (evict_loop ops n c1 i)
    unfolding evict_loop
    evict_loop_lem zero c1 i h w =
        inr (c1, refl, w, (λ j lo hi. absurd (omega arith)), (λ j lt. refl))
    evict_loop_lem (suc n) c1 i h w = elim (Bool-cases (accessed_of c1 i)) [
      | inl a ↦
          rw (idle i (omega arith) w)
            (rw a (cleared a (evict_loop_lem n c1' (i + 1) (omega arith) (IsSwept-clear i w))))
      | inr a ↦ rw (idle i (omega arith) w) (rw a (inl (i, c1, omega arith, w, refl)))
    ]
      where
        c1' : Cache ops
        c1' = put ops c1 i (record (c1.cache i) { accessed = false })

        cleared :
            {r : Result (Bool × Cache ops)}
            → accessed_of c1 i ≡ true
            → Outcome c1' (i + 1) n r
            → Outcome c1 i (suc n) r
        cleared a (inl e) = inl e
        cleared a (inr (c2, e, w2, done, before)) = inr (
          c2,
          e,
          w2,
          (λ j lo hi. elim (Bool-cases (j == i)) [
            | inl here ↦ (ground arith, ground (arith, before j))
            | inr there ↦ ground (arith, done j)
          ]),
          (λ j lt. ground (arith, before j)),
        )
