-- ===== src/Cache/Store.antt =====
-- Overwriting the entry of a sector in filesys/cache.c.
use oscourse_all_files.Common.{
  ℕ, ◌<◌, ◌≡◌, ◌≢◌, ◌⊎◌, inl, inr, sym, ◌∙◌, ap, true, false, ◌==◌, if◌then◌else◌, length, arith,
  Bool-cases, ==_iff, ==_refl,
}
use oscourse_all_files.Bitmap.View.{nth}
use oscourse_all_files.Block.{BlockOperations, block_sector_size}
use oscourse_all_files.Cache.{CacheBlock, Cache, cache_size, no_sector, put}
use oscourse_all_files.Cache.Coherent.{
  bid_of, on_disk, contents, EntryOk, IsCoherent, Absent, contents_absent, contents_cached,
  held_cases,
}

module _ (ops : BlockOperations) where
  -- The new entry is for the same sector, idle, a sector long, and dirty unless the bytes stay.
  pub record IsUpdate (b b' : CacheBlock) : Type 0 where
    pub bid : b'.bid ≡ b.bid
    pub no_reader : b'.reader ≡ 0
    pub no_writer : b'.writer ≡ 0
    pub long : length b'.kpage ≡ block_sector_size
    pub dirty : (b'.dirty ≡ true) ⊎ ((b'.dirty ≡ b.dirty) × (b'.kpage ≡ b.kpage))

  module _ {c : Cache ops} (v : IsCoherent ops c) {k : ℕ} (h : k < cache_size) {b' : CacheBlock}
      (some : bid_of ops c k ≢ no_sector) (u : IsUpdate (c.cache k) b') where
    stored : Cache ops
    stored = put ops c k b'

    at_k : stored.cache k ≡ b'
    unfolding stored
    at_k = rw (==_refl k)

    not_k : (j : ℕ) → j ≢ k → stored.cache j ≡ c.cache j
    unfolding stored
    not_k j ne = ground arith

    bids : (j : ℕ) → bid_of ops stored j ≡ bid_of ops c j
    bids j = elim (Bool-cases (j == k)) [
      | inl e ↦
          let q : j ≡ k = (==_iff j k).0 e in
          ap (bid_of ops stored) q
          ∙ ap (λ (x : CacheBlock). x.bid) at_k
          ∙ u.bid
          ∙ ap (bid_of ops c) (sym q)
      | inr e ↦ ap (λ (x : CacheBlock). x.bid) (not_k j (ground arith))
    ]

    stored_entry : EntryOk ops c.fs_device b' (nth c.cache_table k)
    stored_entry = record {
      no_reader = u.no_reader;
      no_writer = u.no_writer;
      state = from (v.entries k h).state;
    }
      where
        from :
            ((nth c.cache_table k ≡ false) × (bid_of ops c k ≡ no_sector))
              ⊎ ((nth c.cache_table k ≡ true)
                  × (bid_of ops c k < c.fs_device.size)
                  × (length (c.cache k).kpage ≡ block_sector_size)
                  × (((c.cache k).dirty ≡ true)
                      ⊎ ((c.cache k).kpage ≡ on_disk ops c (bid_of ops c k))))
            → ((nth c.cache_table k ≡ false) × (b'.bid ≡ no_sector))
              ⊎ ((nth c.cache_table k ≡ true)
                  × (b'.bid < c.fs_device.size)
                  × (length b'.kpage ≡ block_sector_size)
                  × ((b'.dirty ≡ true) ⊎ (b'.kpage ≡ on_disk ops c b'.bid)))
        from (inl (_, e)) = absurd (some e)
        from (inr (used, lt, len, inl d)) =
            inr (used, rw u.bid lt, u.long, inl (ground (arith, u.dirty)))
        from (inr (used, lt, len, inr e)) = inr (used, rw u.bid lt, u.long, clean u.dirty)
          where
            clean :
                (b'.dirty ≡ true)
                  ⊎ ((b'.dirty ≡ (c.cache k).dirty) × (b'.kpage ≡ (c.cache k).kpage))
                → (b'.dirty ≡ true) ⊎ (b'.kpage ≡ on_disk ops c b'.bid)
            clean (inl d) = inl d
            clean (inr (_, q)) = inr (q ∙ e ∙ ap (on_disk ops c) (sym u.bid))

    pub stored-IsCoherent : IsCoherent ops (put ops c k b')
    unfolding stored
    stored-IsCoherent = record {
      table = v.table;
      device = v.device;
      entries = λ j hj. elim (Bool-cases (j == k)) [
        | inl e ↦ rw (e, (==_iff j k).0 e) stored_entry
        | inr e ↦ rw e (v.entries j hj)
      ];
      distinct =
          λ i j hi hj e n. v.distinct i j hi hj (sym (bids i) ∙ e ∙ bids j) (λ x. n (bids i ∙ x));
    }

    -- The sector has the new bytes, and no other contents change.
    pub contents-stored :
        (t : ℕ)
        → t ≢ no_sector
        → contents ops (put ops c k b') t
          ≡ (if t == bid_of ops c k then b'.kpage else contents ops c t)
    unfolding stored
    contents-stored t ne = elim (Bool-cases (t == bid_of ops c k)) [
      | inl e ↦
          let q : t ≡ bid_of ops c k = (==_iff t (bid_of ops c k)).0 e in
          rw e (
            contents_cached ops stored t stored-IsCoherent k h (bids k ∙ sym q) ne
            ∙ ap (λ (x : CacheBlock). x.kpage) at_k)
      | inr e ↦ rw e (elsewhere (ground arith) (held_cases ops c t))
    ]
      where
        elsewhere :
            t ≢ bid_of ops c k
            → ((i : ℕ) × (i < cache_size) × (bid_of ops c i ≡ t)) ⊎ Absent ops c t
            → contents ops stored t ≡ contents ops c t
        elsewhere n (inl (i, hi, e)) =
            contents_cached ops stored t stored-IsCoherent i hi (bids i ∙ e) ne
            ∙ ap (λ (x : CacheBlock). x.kpage) (not_k i (λ q. n (sym e ∙ ap (bid_of ops c) q)))
            ∙ sym (contents_cached ops c t v i hi e ne)
        elsewhere n (inr out) =
            contents_absent ops stored t (λ j hj e. out j hj (sym (bids j) ∙ e))
            ∙ sym (contents_absent ops c t out)
