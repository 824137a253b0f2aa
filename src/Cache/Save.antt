-- ===== src/Cache/Save.antt =====
-- `save_cachetable` of filesys/cache.c: afterwards the device has all that was written.
use oscourse_all_files.Common.{
  ℕ, zero, suc, ◌+◌, ◌<◌, ◌≡◌, ◌≢◌, ◌⊎◌, inl, inr, refl, sym, ◌∙◌, ap, true, false, ok, ◌==◌,
  length, arith, Bool-cases, ==_iff,
}
use oscourse_all_files.Bitmap.View.{nth}
use oscourse_all_files.Block.{BlockOperations, block_sector_size}
use oscourse_all_files.Cache.{
  Cache, cache_size, no_sector, writeback_cache, save_loop, save_cachetable,
}
use oscourse_all_files.Cache.Coherent.{
  bid_of, on_disk, contents, EntryOk, IsCoherent, Absent, contents_absent, contents_cached,
  held_cases,
}
use oscourse_all_files.Cache.Writeback.{IsFlushed, flush_lem}

module _ (ops : BlockOperations) where
  module _ {c c3 : Cache ops} (v : IsCoherent ops c) {k : ℕ} (hk : k < cache_size)
      (f : IsFlushed ops v c3 k) where
    -- The device's copy of an entry's sector after the write.
    disk_after :
        (j : ℕ)
        → j < cache_size
        → bid_of ops c j ≢ no_sector
        → (j ≢ k → (c.cache j).kpage ≡ on_disk ops c (bid_of ops c j))
        → (c.cache j).kpage ≡ on_disk ops c3 (bid_of ops c j)
    disk_after j h some e = elim (Bool-cases (j == k)) [
      | inl jk ↦
          let q : j ≡ k = (==_iff j k).0 jk in
          ap (λ i. (c.cache i).kpage) q
          ∙ sym (f.saved (λ z. some (ap (bid_of ops c) q ∙ z)))
          ∙ ap (λ i. on_disk ops c3 (bid_of ops c i)) (sym q)
      | inr jk ↦
          let ne : j ≢ k = ground arith in
          e ne ∙ sym (f.others (bid_of ops c j) (λ q. ne (v.distinct j k h hk q some)))
    ]

    flushed_entry :
        (j : ℕ) → j < cache_size → EntryOk ops c3.fs_device (c3.cache j) (nth c3.cache_table j)
    flushed_entry j h = record {
      no_reader = (f.same j).reader ∙ (v.entries j h).no_reader;
      no_writer = (f.same j).writer ∙ (v.entries j h).no_writer;
      state = state (v.entries j h).state;
    }
      where
        used : nth c3.cache_table j ≡ nth c.cache_table j
        used = ap (λ t. nth t j) f.table

        state :
            ((nth c.cache_table j ≡ false) × (bid_of ops c j ≡ no_sector))
              ⊎ ((nth c.cache_table j ≡ true)
                  × (bid_of ops c j < c.fs_device.size)
                  × (length (c.cache j).kpage ≡ block_sector_size)
                  × (((c.cache j).dirty ≡ true)
                      ⊎ ((c.cache j).kpage ≡ on_disk ops c (bid_of ops c j))))
            → ((nth c3.cache_table j ≡ false) × (bid_of ops c3 j ≡ no_sector))
              ⊎ ((nth c3.cache_table j ≡ true)
                  × (bid_of ops c3 j < c3.fs_device.size)
                  × (length (c3.cache j).kpage ≡ block_sector_size)
                  × (((c3.cache j).dirty ≡ true)
                      ⊎ ((c3.cache j).kpage ≡ on_disk ops c3 (bid_of ops c3 j))))
        state (inl (u, e)) = inl (used ∙ u, (f.same j).bid ∙ e)
        state (inr (u, lt, len, inl d)) = inr (
          used ∙ u,
          omega (arith, (f.same j).bid, f.size),
          ap length (f.same j).kpage ∙ len,
          inl ((f.same j).dirty ∙ d),
        )
        state (inr (u, lt, len, inr e)) = inr (
          used ∙ u,
          omega (arith, (f.same j).bid, f.size),
          ap length (f.same j).kpage ∙ len,
          inr (
              (f.same j).kpage
              ∙ disk_after j h (λ x. omega (arith, v.device.small)) (λ _. e)
              ∙ ap (on_disk ops c3) (sym (f.same j).bid)),
        )

    flushed-IsCoherent : IsCoherent ops c3
    flushed-IsCoherent = record {
      table = let back = sym f.table in rw back at v.table;
      device = record {
        small = omega (arith, v.device.small, f.size);
        ours = λ e. v.device.ours (sym f.kind ∙ e);
      };
      entries = flushed_entry;
      distinct = λ i j hi hj e n.
          v.distinct i j hi hj (sym (f.same i).bid ∙ e ∙ (f.same j).bid)
            (λ x. n ((f.same i).bid ∙ x));
    }

    contents-flushed : (t : ℕ) → t ≢ no_sector → contents ops c3 t ≡ contents ops c t
    contents-flushed t ne = from (held_cases ops c t)
      where
        from :
            ((i : ℕ) × (i < cache_size) × (bid_of ops c i ≡ t)) ⊎ Absent ops c t
            → contents ops c3 t ≡ contents ops c t
        from (inl (i, h, e)) =
            contents_cached ops c3 t flushed-IsCoherent i h ((f.same i).bid ∙ e) ne
            ∙ (f.same i).kpage
            ∙ sym (contents_cached ops c t v i h e ne)
        from (inr out) =
            contents_absent ops c3 t (λ j h e. out j h (sym (f.same j).bid ∙ e))
            ∙ f.others t (λ e. out k hk (sym e))
            ∙ sym (contents_absent ops c t out)

  -- The entries below `i` are on the device.
  abbrev Flushed : Cache ops → ℕ → Type 0
  Flushed c i =
      (j : ℕ)
      → j < i
      → j < cache_size
      → bid_of ops c j ≢ no_sector
      → on_disk ops c (bid_of ops c j) ≡ (c.cache j).kpage

  Flushed-suc :
      {c c3 : Cache ops} (v : IsCoherent ops c) (k : ℕ)
      → k < cache_size
      → IsFlushed ops v c3 k
      → Flushed c k
      → Flushed c3 (k + 1)
  Flushed-suc {c} {c3} v k hk f below j lt h some =
      ap (on_disk ops c3) (f.same j).bid
      ∙ sym (disk_after v hk f j h held (λ ne. sym (below j (omega arith) h held)))
      ∙ sym (f.same j).kpage
    where
      held : bid_of ops c j ≢ no_sector
      held x = some ((f.same j).bid ∙ x)

  save_loop_lem :
      (n : ℕ) {c : Cache ops} (v : IsCoherent ops c) (i : ℕ)
      → i + n ≡ cache_size
      → Flushed c i
      → (c' : Cache ops) × (save_loop ops n c i ≡ ok c')
        × IsCoherent ops c'
        × Flushed c' cache_size
        × ((t : ℕ) → t ≢ no_sector → contents ops c' t ≡ contents ops c t)
  unfolding save_loop
  save_loop_lem zero {c} v i e below =
      (c, refl, v, (λ j lt h some. below j (omega arith) h some), λ _ _. refl)
  save_loop_lem (suc n) {c} v i e below =
      next (flush_lem ops v i in_range)
        (λ c3 v' b. save_loop_lem n {c = c3} v' (i + 1) (omega arith) b)
    where
      in_range : i < cache_size
      in_range = omega arith

      next :
          (c3 : Cache ops) × (writeback_cache ops c i ≡ ok c3) × IsFlushed ops v c3 i
          → ((c3 : Cache ops)
              → IsCoherent ops c3
              → Flushed c3 (i + 1)
              → (c' : Cache ops) × (save_loop ops n c3 (i + 1) ≡ ok c')
                × IsCoherent ops c'
                × Flushed c' cache_size
                × ((t : ℕ) → t ≢ no_sector → contents ops c' t ≡ contents ops c3 t))
          → (c' : Cache ops) × (save_loop ops (suc n) c i ≡ ok c')
            × IsCoherent ops c'
            × Flushed c' cache_size
            × ((t : ℕ) → t ≢ no_sector → contents ops c' t ≡ contents ops c t)
      next (c3, w, f) rest =
          let (c', r, v', all, same) =
            rest c3 (flushed-IsCoherent v in_range f) (Flushed-suc v i in_range f below) in
          (c', rw w r, v', all, λ t ne. same t ne ∙ contents-flushed v in_range f t ne)

  -- On a coherent cache `save_cachetable` returns a coherent cache whose device holds, at every
  -- sector, the contents that the cache stood for; the contents themselves are unchanged.
  pub save_cachetable_lem :
      {c : Cache ops}
      → IsCoherent ops c
      → (c' : Cache ops) × (save_cachetable ops c ≡ ok c')
        × IsCoherent ops c'
        × ((t : ℕ)
            → t ≢ no_sector
            → (on_disk ops c' t ≡ contents ops c t) × (contents ops c' t ≡ contents ops c t))
  unfolding save_cachetable
  save_cachetable_lem {c} v =
      let (c', e, v', all, same) =
        save_loop_lem cache_size v 0 (omega arith) (λ j lt h some. absurd (omega arith)) in
      (c', e, v', λ t ne. (on_device v' all t ne ∙ same t ne, same t ne))
    where
      on_device :
          {c' : Cache ops}
          → IsCoherent ops c'
          → Flushed c' cache_size
          → (t : ℕ) → t ≢ no_sector
          → on_disk ops c' t ≡ contents ops c' t
      on_device {c'} v' all t ne = elim (held_cases ops c' t) [
        | inl (i, h, e) ↦
            ap (on_disk ops c') (sym e)
            ∙ all i h h (λ x. ne (sym e ∙ x))
            ∙ sym (contents_cached ops c' t v' i h e ne)
        | inr out ↦ sym (contents_absent ops c' t out)
      ]
