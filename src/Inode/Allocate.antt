-- ===== src/Inode/Allocate.antt =====
-- inode_allocblocks of filesys/inode.c: new blocks, each a sector of zeros that was free.
use mathlib.Core.Bool.{false≢true}
use oscourse_all_files.Common.{
  ℕ, zero, suc, ◌+◌, ◌≤◌, ◌<◌, ◌≡◌, ◌≢◌, ◌⊎◌, inl, inr, refl, sym, ◌∙◌, ap, Bool, true, false,
  Bool-cases, ◌==◌, ==_refl, if◌then◌else◌, List, [], ◌∷◌, ◌++◌, length, length-replicate, get_or,
  drop, update, Result, ok, ◌>>=◌, arith,
}
use oscourse_all_files.Bitmap.{Bitmap}
use oscourse_all_files.Block.{block_sector_size}
use oscourse_all_files.Cache.{copy_in}
use oscourse_all_files.FreeMap.{FreeMap}
use oscourse_all_files.FreeMap.Sectors.{
  used, IsWellFormed, Allocates, Full, Refused, free_map_allocate_lem,
}
use oscourse_all_files.FreeMap.Count.{
  free_count, free_count_taken, free_count_same, free_count-Full,
}
use oscourse_all_files.Inode.MapFile.{SameBut, HasMap, MapFile, HoldsBut, keeps, free_not_map}
use oscourse_all_files.Inode.{SectorCache}
use oscourse_all_files.Inode.Layout.{Disk, CacheLaws}
use oscourse_all_files.Inode.Find.{bind_state}
use oscourse_all_files.Inode.Grow.{FileSystem, zeros, alloc_loop}

-- The sectors in `bs` were free and are in use, hold zeros, and are different; what was in use is
-- as before, but for the contents of the free map file.
pub record NewBlocks (is_map : ℕ → Bool) (free free' : FreeMap) (f f' : Disk) (bs : List ℕ)
    : Type 0 where
  pub well_formed : IsWellFormed free'
  pub size_same : free'.map.bit_cnt ≡ free.map.bit_cnt
  pub was_free : (k : ℕ) → k < length bs → used free (get_or bs k 0) ≡ false
  pub in_use : (k : ℕ) → k < length bs → used free' (get_or bs k 0) ≡ true
  pub in_map : (k : ℕ) → k < length bs → get_or bs k 0 < free.map.bit_cnt
  pub zeroed : (k : ℕ) → k < length bs → f' (get_or bs k 0) ≡ zeros
  pub distinct : (i j : ℕ) → i < j → j < length bs → get_or bs i 0 ≢ get_or bs j 0
  pub room : free_count free' + length bs ≡ free_count free
  pub kept : (t : ℕ) → used free t ≡ true → (used free' t ≡ true) × (is_map t ≡ false → f' t ≡ f t)

no_blocks :
    {is_map : ℕ → Bool} {free : FreeMap} {f : Disk}
    → IsWellFormed free
    → NewBlocks is_map free free f f []
no_blocks w = record {
  well_formed = w;
  size_same = refl;
  was_free = λ k h. absurd (omega arith);
  in_use = λ k h. absurd (omega arith);
  in_map = λ k h. absurd (omega arith);
  zeroed = λ k h. absurd (omega arith);
  distinct = λ i j lt h. absurd (omega arith);
  room = omega arith;
  kept = λ t h. (h, λ _. refl);
}

-- A sector that is overwritten whole.
drop_all : (n : ℕ) (xs : List ℕ) → length xs ≤ n → drop n xs ≡ []
drop_all zero [] h = refl
drop_all zero (x ∷ xs) h = absurd (omega arith)
drop_all (suc n) [] h = refl
drop_all (suc n) (x ∷ xs) h = drop_all n xs (omega arith)

append_nil : (xs : List ℕ) → xs ++ [] ≡ xs
append_nil [] = refl
append_nil (x ∷ xs) = ap (λ t. x ∷ t) (append_nil xs)

pub copy_in_whole : (xs ys : List ℕ) → length xs ≡ length ys → copy_in xs 0 ys ≡ ys
copy_in_whole xs ys h =
    ap (λ t. ys ++ t) (drop_all (0 + length ys) xs (omega arith)) ∙ append_nil ys

pub length-zeros : length zeros ≡ block_sector_size
length-zeros = length-replicate {A = ℕ} block_sector_size 0

-- The disk with the block overwritten.
abbrev pub cleared : Disk → ℕ → Disk
cleared f b = update f b (copy_in (f b) 0 zeros)

module _ {is_map : ℕ → Bool} {free free1 : FreeMap} (f f0 : Disk) (b : ℕ)
    (a : Allocates free free1 1 b) (same_but : SameBut is_map f f0)
    (has_map : HasMap is_map free) where
  free_before : used free b ≡ false
  free_before = a.lowest.group b (omega arith) (omega arith)

  b_not_map : is_map b ≡ false
  b_not_map = free_not_map is_map free has_map b free_before

  used_after : used free1 b ≡ true
  used_after = ground (arith, a.after b)

  other : (t : ℕ) → t ≢ b → (used free1 t ≡ used free t) × (cleared f0 b t ≡ f0 t)
  other t ne = let e : (t == b) ≡ false = ground arith in (ground (arith, a.after t), rw e refl)

  not_b : (t : ℕ) → used free t ≡ true → t ≢ b
  not_b t h e = false≢true (sym free_before ∙ ap (used free) (sym e) ∙ h)

  cleared_block : length (f0 b) ≡ block_sector_size → cleared f0 b b ≡ zeros
  cleared_block long = rw (==_refl b) (copy_in_whole (f0 b) zeros (long ∙ sym length-zeros))

  Allocates-HasMap : HasMap is_map free1
  Allocates-HasMap t h = let u : used free t ≡ true = has_map t h in (other t (not_b t u)).0 ∙ u

  -- One block, and then more.
  block_then :
      {free2 : FreeMap} {f2 : Disk} (bs : List ℕ)
      → length (f0 b) ≡ block_sector_size
      → NewBlocks is_map free1 free2 (cleared f0 b) f2 bs
      → NewBlocks is_map free free2 f f2 (b ∷ bs)
  block_then {free2} {f2} bs long n = record {
    well_formed = n.well_formed;
    size_same = n.size_same ∙ a.same;
    was_free = was_free;
    in_use = in_use;
    in_map = in_map;
    zeroed = zeroed;
    distinct = distinct;
    room = omega (arith, n.room, free_count_taken b a);
    kept = λ t h.
        let (same, bytes) = other t (not_b t h) in
        let (now, bytes') = n.kept t (same ∙ h) in
        (now, λ out. bytes' out ∙ bytes ∙ same_but t out);
  }
    where
      -- What is free after the first block is not that block, and was free before.
      later : (t : ℕ) → used free1 t ≡ false → t ≢ b
      later t h e = false≢true (sym h ∙ ap (used free1) e ∙ used_after)

      was_free : (k : ℕ) → k < suc (length bs) → used free (get_or (b ∷ bs) k 0) ≡ false
      was_free zero h = free_before
      was_free (suc k) h =
          let x : ℕ = get_or bs k 0 in
          let f1 : used free1 x ≡ false = n.was_free k (omega arith) in
          sym (other x (later x f1)).0 ∙ f1

      in_use : (k : ℕ) → k < suc (length bs) → used free2 (get_or (b ∷ bs) k 0) ≡ true
      in_use zero h = (n.kept b used_after).0
      in_use (suc k) h = n.in_use k (omega arith)

      in_map : (k : ℕ) → k < suc (length bs) → get_or (b ∷ bs) k 0 < free.map.bit_cnt
      in_map zero h = omega (arith, a.in_range)
      in_map (suc k) h = omega (arith, n.in_map k (omega arith), a.same)

      zeroed : (k : ℕ) → k < suc (length bs) → f2 (get_or (b ∷ bs) k 0) ≡ zeros
      zeroed zero h = (n.kept b used_after).1 b_not_map ∙ cleared_block long
      zeroed (suc k) h = n.zeroed k (omega arith)

      distinct : (i j : ℕ) → i < j → j < suc (length bs) → get_or (b ∷ bs) i 0 ≢ get_or (b ∷ bs) j 0
      distinct i zero lt h = absurd (omega arith)
      distinct zero (suc j) lt h = λ e. later (get_or bs j 0) (n.was_free j (omega arith)) (sym e)
      distinct (suc i) (suc j) lt h = n.distinct i j (omega arith) (omega arith)

-- There is no free sector left; or there is a free map file, and the write of the map with one
-- more sector in use answered false, and left the state.
abbrev pub NoSpace :
    (cache : SectorCache)
    → (Bitmap → cache.State → Result (Bool × cache.State))
    → FileSystem cache
    → Type 0
NoSpace cache bitmap_write fs =
    (free_count fs.free ≡ 0) ⊎ ((st : cache.State) × Refused bitmap_write fs.free 1 st fs.cached)

module _ {cache : SectorCache} (laws : CacheLaws cache) {size : ℕ}
    {bitmap_write : Bitmap → cache.State → Result (Bool × cache.State)}
    (file : MapFile laws size bitmap_write) where
  open laws use {Holds}
  open file use {is_map, Ready}

  -- All `n` blocks were allocated, or fewer.
  abbrev pub Gets :
      FileSystem cache → Disk → Bool → ℕ → Result ((Bool × List ℕ) × FileSystem cache) → Type 0
  Gets fs f success n r =
      (bs : List ℕ) × (fs' : FileSystem cache) × (f' : Disk) × (result : Bool) × (r
        ≡ ok ((result, bs), fs'))
      × Holds size f' fs'.cached
      × Ready f'
      × NewBlocks is_map fs.free fs'.free f f' bs
      × (((length bs ≡ n) × (result ≡ (if n == 0 then success else true)))
          ⊎ ((length bs < n) × (result ≡ false) × NoSpace cache bitmap_write fs'))

  -- The first block, and what the rest of the loop gets.
  more :
      (fs : FileSystem cache) (f f0 : Disk) (success : Bool) (n b : ℕ) (free1 : FreeMap)
      (a : Allocates fs.free free1 1 b)
      → SameBut is_map f f0
      → HasMap is_map fs.free
      → length (f0 b) ≡ block_sector_size
      → (st1 : cache.State) {r : Result ((Bool × List ℕ) × FileSystem cache)}
      → Gets (record { cached = st1; free = free1 }) (cleared f0 b) true n r
      → Gets fs f success (suc n) (r >>= λ ((success, bs), fs). ok ((success, b ∷ bs), fs))
  more fs f f0 success n b free1 a sb hm long st1
        (bs, fs2, f2, result, e, h2, ready, new, inl (all, good)) =
      let done : (if n == 0 then true else true) ≡ true = elim (Bool-cases (n == 0)) [
        | inl x ↦ rw x refl
        | inr x ↦ rw x refl
      ] in
      let first : (suc n == 0) ≡ false = ground arith in
      (
        b ∷ bs,
        fs2,
        f2,
        result,
        rw e refl,
        h2,
        ready,
        block_then f f0 b a sb hm bs long new,
        inl (ap suc all, rw first (good ∙ done)),
      )
  more fs f f0 success n b free1 a sb hm long st1
        (bs, fs2, f2, result, e, h2, ready, new, inr (few, bad, why)) =
      (
        b ∷ bs,
        fs2,
        f2,
        result,
        rw e refl,
        h2,
        ready,
        block_then f f0 b a sb hm bs long new,
        inr (omega arith, bad, why),
      )

  still_ready :
      (free : FreeMap) (f f0 : Disk) (b : ℕ) (free1 : FreeMap) (a : Allocates free free1 1 b)
      → SameBut is_map f f0
      → HasMap is_map free
      → Ready f0
      → Ready (cleared f0 b)
  still_ready free f f0 b free1 a sb hm ready =
      file.stable ready (λ t h. (other f f0 b a sb hm t (not_b f f0 b a sb hm t (hm t h))).1)

  none_new :
      (fs : FileSystem cache) (f f0 : Disk) (success : Bool) (n : ℕ) (free1 : FreeMap)
      (st1 : cache.State)
      → SameBut is_map f f0
      → Holds size f0 st1
      → Ready f0
      → IsWellFormed free1
      → ((j : ℕ) → used free1 j ≡ used fs.free j)
      → free1.map.bit_cnt ≡ fs.free.map.bit_cnt
      → NoSpace cache bitmap_write (record { cached = st1; free = free1 })
      → Gets fs f success (suc n) (ok ((false, []), record { cached = st1; free = free1 }))
  none_new fs f f0 success n free1 st1 sb h1 ready w1 same size_same why = (
    [],
    record { cached = st1; free = free1 },
    f0,
    false,
    refl,
    h1,
    ready,
    record {
      well_formed = w1;
      size_same = size_same;
      was_free = λ k h. absurd (omega arith);
      in_use = λ k h. absurd (omega arith);
      in_map = λ k h. absurd (omega arith);
      zeroed = λ k h. absurd (omega arith);
      distinct = λ i j lt h. absurd (omega arith);
      room = omega (arith, free_count_same fs.free free1 same size_same);
      kept = λ t h. (same t ∙ h, sb t);
    },
    inr (omega arith, refl, why),
  )

  no_space :
      (free : FreeMap) (st st' : cache.State)
      → (Full free 1 × (st' ≡ st)) ⊎ Refused bitmap_write free 1 st st'
      → NoSpace cache bitmap_write (record { cached = st'; free = free })
  no_space free st st' (inl (full, _)) = inl (free_count-Full free full)
  no_space free st st' (inr r) = inr (st, r)

  pub alloc_loop_lem :
      (n : ℕ) (success : Bool) (fs : FileSystem cache) (f : Disk)
      → Holds size f fs.cached
      → Ready f
      → IsWellFormed fs.free
      → fs.free.map.bit_cnt ≤ size
      → HasMap is_map fs.free
      → Gets fs f success n (alloc_loop cache bitmap_write n success fs)
  unfolding alloc_loop
  alloc_loop_lem zero success fs f h ready w fits hm =
      ([], fs, f, success, refl, h, ready, no_blocks w, inl (refl, refl))
  alloc_loop_lem (suc n) success fs f h ready w fits hm =
      elim (free_map_allocate_lem bitmap_write (HoldsBut file f) (keeps file f) fs.free fs.cached 1
        w (f, h, (λ t _. refl), ready)) [
          | inl (b, free1, st0, e, (f0, h0, sb, ready0), w1, a, _) ↦
              let in_disk : b < size = omega (arith, a.in_range) in
              rw e (
                bind_state laws (Gets fs f success (suc n)) _
                  (laws.write_lem h0 b 0 zeros in_disk (omega arith) (omega (arith, length-zeros)))
                  (λ st1 h1.
                    more fs f f0 success n b free1 a sb hm (laws.length-sector h0 b in_disk) st1 (
                      alloc_loop_lem n true (record { cached = st1; free = free1 }) (cleared f0 b)
                        h1 (still_ready fs.free f f0 b free1 a sb hm ready0) w1
                        (omega (arith, a.same)) (Allocates-HasMap f f0 b a sb hm))))
          | inr (free1, st0, e, (f0, h0, sb, ready0), w1, same, size_same, _, why) ↦ rw e (
              none_new fs f f0 success n free1 st0 sb h0 ready0 w1 same size_same
                (no_space free1 fs.cached st0 why))
        ]
