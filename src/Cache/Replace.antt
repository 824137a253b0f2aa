-- ===== src/Cache/Replace.antt =====
-- Giving an entry of filesys/cache.c to another sector, once its own bytes are on the device.
use oscourse_all_files.Common.{
  ℕ, ◌<◌, ◌≡◌, ◌≢◌, ◌⊎◌, inl, inr, sym, ◌∙◌, ap, true, false, ◌==◌, if◌then◌else◌, length, arith,
  Bool-cases, ==_iff,
}
use oscourse_all_files.Bitmap.View.{nth}
use oscourse_all_files.Block.{BlockOperations, block_sector_size}
use oscourse_all_files.Cache.{CacheBlock, Cache, cache_size, no_sector}
use oscourse_all_files.Cache.Coherent.{
  bid_of, on_disk, contents, EntryOk, TableOk, IsCoherent, Absent, contents_absent, contents_cached,
  find_cases,
}

module _ (ops : BlockOperations) where
  open ops use {read}

  -- An entry but for its `accessed` flag.
  pub record SameEntry (b b' : CacheBlock) : Type 0 where
    pub bid : b'.bid ≡ b.bid
    pub kpage : b'.kpage ≡ b.kpage
    pub dirty : b'.dirty ≡ b.dirty
    pub reader : b'.reader ≡ b.reader
    pub writer : b'.writer ≡ b.writer

  -- Entry `k` can be overwritten: it is empty, or its bytes are on the device by now.
  pub record IsReady (c c' : Cache ops) (k : ℕ) : Type 0 where
    pub in_range : k < cache_size
    pub same : (j : ℕ) → j < cache_size → SameEntry (c.cache j) (c'.cache j)
    pub table : TableOk c'.cache_table
    pub used : (j : ℕ) → j ≢ k → nth c'.cache_table j ≡ nth c.cache_table j
    pub size : c'.fs_device.size ≡ c.fs_device.size
    pub kind : c'.fs_device.kind ≡ c.fs_device.kind
    pub others : (s : ℕ) → s ≢ bid_of ops c k → on_disk ops c' s ≡ on_disk ops c s
    pub saved : bid_of ops c k ≢ no_sector → on_disk ops c' (bid_of ops c k) ≡ (c.cache k).kpage

  -- `c''` is `c'` with entry `k` loaded with sector `s`.
  pub record IsLoaded (c' c'' : Cache ops) (k s : ℕ) : Type 0 where
    pub elsewhere : (j : ℕ) → j ≢ k → c''.cache j ≡ c'.cache j
    pub bid : bid_of ops c'' k ≡ s
    pub kpage : (c''.cache k).kpage ≡ on_disk ops c' s
    pub idle : ((c''.cache k).reader ≡ 0) × ((c''.cache k).writer ≡ 0)
    pub table : TableOk c''.cache_table
    pub used : (j : ℕ) → nth c''.cache_table j ≡ (if j == k then true else nth c'.cache_table j)
    pub size : c''.fs_device.size ≡ c'.fs_device.size
    pub kind : c''.fs_device.kind ≡ c'.fs_device.kind
    pub aux : c''.fs_device.aux ≡ c'.fs_device.aux

  module _ {c c' c'' : Cache ops} {k s : ℕ} (v : IsCoherent ops c) (absent : Absent ops c s)
      (inside : s < c.fs_device.size) (ready : IsReady c c' k) (loaded : IsLoaded c' c'' k s) where
    ne_none : s ≢ no_sector
    ne_none e = absurd (omega (arith, v.device.small))

    -- The other entries keep all but a flag.
    kept : (j : ℕ) → j < cache_size → j ≢ k → SameEntry (c.cache j) (c''.cache j)
    kept j h ne = rw (loaded.elsewhere j ne) (ready.same j h)

    disk : (t : ℕ) → on_disk ops c'' t ≡ on_disk ops c' t
    disk t = ap (λ a. read a t) loaded.aux

    -- Another entry does not hold the sector of entry `k`.
    apart :
        (j : ℕ)
        → j < cache_size
        → j ≢ k
        → bid_of ops c j ≢ no_sector
        → bid_of ops c j ≢ bid_of ops c k
    apart j h ne some e = ne (v.distinct j k h ready.in_range e some)

    new_entry : EntryOk ops c''.fs_device (c''.cache k) (nth c''.cache_table k)
    new_entry = record {
      no_reader = loaded.idle.0;
      no_writer = loaded.idle.1;
      state = inr (
        ground (arith, loaded.used k),
        omega (arith, loaded.bid, loaded.size, ready.size),
        ap length loaded.kpage ∙ ops.length-read c'.fs_device.aux s,
        inr (loaded.kpage ∙ sym (disk s) ∙ ap (on_disk ops c'') (sym loaded.bid)),
      );
    }

    old_entry :
        (j : ℕ)
        → j < cache_size
        → j ≢ k
        → EntryOk ops c''.fs_device (c''.cache j) (nth c''.cache_table j)
    old_entry j h ne = record {
      no_reader = same.reader ∙ (v.entries j h).no_reader;
      no_writer = same.writer ∙ (v.entries j h).no_writer;
      state = state (v.entries j h).state;
    }
      where
        same : SameEntry (c.cache j) (c''.cache j)
        same = kept j h ne

        used : nth c''.cache_table j ≡ nth c.cache_table j
        used = ground (arith, loaded.used j, ready.used j ne)

        clean :
            (c.cache j).kpage ≡ on_disk ops c (bid_of ops c j)
            → bid_of ops c j ≢ no_sector
            → (c''.cache j).kpage ≡ on_disk ops c'' (bid_of ops c'' j)
        clean e some =
            same.kpage
            ∙ e
            ∙ sym (ready.others (bid_of ops c j) (apart j h ne some))
            ∙ sym (disk (bid_of ops c j))
            ∙ ap (on_disk ops c'') (sym same.bid)

        state :
            ((nth c.cache_table j ≡ false) × (bid_of ops c j ≡ no_sector))
              ⊎ ((nth c.cache_table j ≡ true)
                  × (bid_of ops c j < c.fs_device.size)
                  × (length (c.cache j).kpage ≡ block_sector_size)
                  × (((c.cache j).dirty ≡ true)
                      ⊎ ((c.cache j).kpage ≡ on_disk ops c (bid_of ops c j))))
            → ((nth c''.cache_table j ≡ false) × (bid_of ops c'' j ≡ no_sector))
              ⊎ ((nth c''.cache_table j ≡ true)
                  × (bid_of ops c'' j < c''.fs_device.size)
                  × (length (c''.cache j).kpage ≡ block_sector_size)
                  × (((c''.cache j).dirty ≡ true)
                      ⊎ ((c''.cache j).kpage ≡ on_disk ops c'' (bid_of ops c'' j))))
        state (inl (u, e)) = inl (used ∙ u, same.bid ∙ e)
        state (inr (u, lt, len, inl d)) = inr (
          used ∙ u,
          omega (arith, same.bid, loaded.size, ready.size),
          ap length same.kpage ∙ len,
          inl (same.dirty ∙ d),
        )
        state (inr (u, lt, len, inr e)) = inr (
          used ∙ u,
          omega (arith, same.bid, loaded.size, ready.size),
          ap length same.kpage ∙ len,
          inr (clean e (λ x. omega (arith, v.device.small))),
        )

    bids :
        (i j : ℕ)
        → i < cache_size
        → j < cache_size
        → bid_of ops c'' i ≡ bid_of ops c'' j
        → bid_of ops c'' i ≢ no_sector
        → i ≡ j
    bids i j hi hj e some = elim (Bool-cases (i == k)) [
      | inl ik ↦ elim (Bool-cases (j == k)) [
        | inl jk ↦ (==_iff i k).0 ik ∙ sym ((==_iff j k).0 jk)
        | inr jk ↦
            let nj : j ≢ k = ground arith in
            let ek : i ≡ k = (==_iff i k).0 ik in
            absurd
              (absent j hj (sym (kept j hj nj).bid ∙ sym e ∙ ap (bid_of ops c'') ek ∙ loaded.bid))
      ]
      | inr ik ↦
          let ni : i ≢ k = ground arith in
          elim (Bool-cases (j == k)) [
            | inl jk ↦
                let ek : j ≡ k = (==_iff j k).0 jk in
                absurd
                  (absent i hi (sym (kept i hi ni).bid ∙ e ∙ ap (bid_of ops c'') ek ∙ loaded.bid))
            | inr jk ↦
                let nj : j ≢ k = ground arith in
                v.distinct i j hi hj (sym (kept i hi ni).bid ∙ e ∙ (kept j hj nj).bid)
                  (λ x. some ((kept i hi ni).bid ∙ x))
          ]
    ]

    pub loaded-IsCoherent : IsCoherent ops c''
    loaded-IsCoherent = record {
      table = loaded.table;
      device = record {
        small = omega (arith, v.device.small, loaded.size, ready.size);
        ours = λ e. v.device.ours (sym ready.kind ∙ sym loaded.kind ∙ e);
      };
      entries = λ j h. elim (Bool-cases (j == k)) [
        | inl e ↦ rw ((==_iff j k).0 e) new_entry
        | inr e ↦ old_entry j h (ground arith)
      ];
      distinct = bids;
    }

    -- A sector that the new cache does not hold, and the old one held in entry `k` or not at all.
    absent_after :
        (t : ℕ) → t ≢ s → ((j : ℕ) → j < cache_size → j ≢ k → bid_of ops c j ≢ t) → Absent ops c'' t
    absent_after t ne out j h e = elim (Bool-cases (j == k)) [
      | inl jk ↦ ne (sym e ∙ ap (bid_of ops c'') ((==_iff j k).0 jk) ∙ loaded.bid)
      | inr jk ↦ let nj : j ≢ k = ground arith in out j h nj (sym (kept j h nj).bid ∙ e)
    ]

    -- The sector that entry `k` held is read from the device now.
    given_up : (t : ℕ) → t ≢ no_sector → bid_of ops c k ≡ t → contents ops c'' t ≡ contents ops c t
    given_up t some e =
        contents_absent ops c'' t (absent_after t other out)
        ∙ disk t
        ∙ ap (on_disk ops c') (sym e)
        ∙ ready.saved (λ x. some (sym e ∙ x))
        ∙ sym (contents_cached ops c t v k ready.in_range e some)
      where
        other : t ≢ s
        other x = absent k ready.in_range (e ∙ x)

        out : (j : ℕ) → j < cache_size → j ≢ k → bid_of ops c j ≢ t
        out j h ne x = apart j h ne (λ z. some (sym x ∙ z)) (x ∙ sym e)

    -- The sector that entry `k` holds now was read from the device before.
    taken : contents ops c'' s ≡ contents ops c s
    taken =
        contents_cached ops c'' s loaded-IsCoherent k ready.in_range loaded.bid ne_none
        ∙ loaded.kpage
        ∙ ready.others s (λ e. absent k ready.in_range (sym e))
        ∙ sym (contents_absent ops c s absent)

    -- Loading a sector changes the contents of none.
    pub contents-loaded : (t : ℕ) → t ≢ no_sector → contents ops c'' t ≡ contents ops c t
    contents-loaded t some = elim (find_cases ops c t) [
      | inl (i, _, h, e) ↦ elim (Bool-cases (i == k)) [
        | inl ik ↦ given_up t some (ap (bid_of ops c) (sym ((==_iff i k).0 ik)) ∙ e)
        | inr ik ↦
            let ni : i ≢ k = ground arith in
            contents_cached ops c'' t loaded-IsCoherent i h ((kept i h ni).bid ∙ e) some
            ∙ (kept i h ni).kpage
            ∙ sym (contents_cached ops c t v i h e some)
      ]
      | inr (_, out) ↦ elim (Bool-cases (t == s)) [
        | inl ts ↦
            let same : t ≡ s = (==_iff t s).0 ts in
            ap (contents ops c'') same ∙ taken ∙ ap (contents ops c) (sym same)
        | inr ts ↦
            contents_absent ops c'' t (absent_after t (ground arith) (λ j h _. out j h))
            ∙ disk t
            ∙ ready.others t (λ e. out k ready.in_range (sym e))
            ∙ sym (contents_absent ops c t out)
      ]
    ]
