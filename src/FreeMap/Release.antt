-- ===== src/FreeMap/Release.antt =====
-- What free_map_release of filesys/free-map.c does, and what it undoes.
use oscourse_all_files.Common.{
  ℕ, ◌+◌, ◌≤◌, ◌<◌, ◌≡◌, inl, inr, refl, ◌∙◌, Bool, true, false, some, Result, ok, panic,
  if◌then◌else◌, arith,
}
use oscourse_all_files.Bitmap.{Bitmap}
use oscourse_all_files.Bitmap.View.{nth, IsValid, AllBits}
use oscourse_all_files.Bitmap.Queries.{bitmap_all_lem}
use oscourse_all_files.Bitmap.Range.{inside, bitmap_set_multiple_lem}
use oscourse_all_files.FreeMap.{FreeMap, free_map_allocate, free_map_release}
use oscourse_all_files.FreeMap.Sectors.{
  used, IsWellFormed, Allocates, Keeps, Allocated, free_map_allocate_lem,
}

module _ {S : Type 0} (bitmap_write : Bitmap → S → Result (Bool × S)) where
  module _ (f : FreeMap) (st : S) (w : IsWellFormed f) (sector cnt : ℕ)
      (h : sector + cnt ≤ f.map.bit_cnt) where
    -- The sectors are free afterwards, no other sector changes, and the map is written.
    abbrev pub Released : (S → Type 0) → Result (FreeMap × S) → Type 0
    Released P r =
        (f' : FreeMap) × (st' : S) × (r ≡ ok (f', st'))
        × P st'
        × IsValid f'.map
        × (f'.map.bit_cnt ≡ f.map.bit_cnt)
        × (f'.has_file ≡ true)
        × ((j : ℕ) → used f' j ≡ (if inside sector cnt j then false else used f j))
        × ((answer : Bool) × (bitmap_write f'.map st ≡ ok (answer, st')))

    pub free_map_release_lem :
        (P : S → Type 0)
        → Keeps bitmap_write P
        → P st
        → f.has_file ≡ true
        → AllBits (nth f.map) sector cnt true
        → Released P (free_map_release bitmap_write f st sector cnt)
    unfolding free_map_release
    free_map_release_lem P keeps p file all =
        let (b, e, c) = bitmap_set_multiple_lem w.valid sector cnt false h in
        let (answer, st', wr, p') = keeps b st p in
        (
          record f { map = b },
          st',
          rw ((bitmap_all_lem w.valid sector cnt h).0 all, e, file, wr) refl,
          p',
          c.valid,
          c.same,
          file,
          c.reads,
          (answer, wr),
        )

    -- On a well-formed free map, releasing a range within the map that has a free sector `k` panics.
    pub free_map_release_panics :
        (k : ℕ)
        → sector ≤ k
        → k < sector + cnt
        → nth f.map k ≡ false
        → free_map_release bitmap_write f st sector cnt ≡ panic
    unfolding free_map_release
    free_map_release_panics k lo hi free =
        rw ((bitmap_all_lem w.valid sector cnt h).1 (k, lo, hi, free))

  -- The write of the map returns, and there is a free map file. What `free_map_allocate` gave on
  -- a well-formed free map, `free_map_release` takes back without a panic, in the state that the
  -- first call left, and then each sector is used or free as it was before.
  pub free_map_release-allocate :
      (P : S → Type 0)
      → Keeps bitmap_write P
      → {f f' : FreeMap} {st st' : S} (cnt s : ℕ) → IsWellFormed f
      → f.has_file ≡ true
      → P st
      → free_map_allocate bitmap_write f st cnt ≡ ok (some s, f', st')
      → (f'' : FreeMap) × (st'' : S) × (free_map_release bitmap_write f' st' s cnt ≡ ok (f'', st''))
        × ((j : ℕ) → used f'' j ≡ used f j)
  free_map_release-allocate P keeps {f} {f'} {st} {st'} cnt s w file p e =
      from (free_map_allocate_lem bitmap_write P keeps f st cnt w p)
    where
      Back : FreeMap → S → ℕ → Type 0
      Back g sg t =
          (f'' : FreeMap) × (st'' : S) × (free_map_release bitmap_write g sg t cnt ≡ ok (f'', st''))
          × ((j : ℕ) → used f'' j ≡ used f j)

      back :
          (t : ℕ) (g : FreeMap) (sg : S) → P sg → IsWellFormed g → Allocates f g cnt t → Back g sg t
      back t g sg pg w' a =
          let (f'', st'', r, _, v, _, _, reads, _) =
            free_map_release_lem g sg w' t cnt (omega (arith, a.in_range, a.same)) P keeps pg
              (a.file ∙ file) (λ k lo hi. ground (arith, a.after k)) in
          (f'', st'', r, λ j. ground (arith, reads j, a.after j, a.lowest.group j))

      from :
          Allocated bitmap_write P keeps f st cnt (free_map_allocate bitmap_write f st cnt)
          → Back f' st' s
      from (inl (t, g, sg, e', pg, w', a, _)) =
          let p : t ≡ s = cc in
          let q : g ≡ f' = cc in let r : sg ≡ st' = cc in rw (← p, ← q, ← r) (back t g sg pg w' a)
      from (inr (g, sg, e', _, _, _, _, _, _)) = absurd (cc)
