-- ===== src/FreeMap/Sectors.antt =====
-- What filesys/free-map.c promises about the sectors that it hands out and takes back.
use oscourse_all_files.Common.{
  ℕ, ◌+◌, ◌≤◌, ◌≡◌, ◌⊎◌, inl, inr, refl, ◌∙◌, Bool, true, false, Option, none, some, Result, ok,
  ◌==◌, if◌then◌else◌, arith, Bool-cases,
}
use oscourse_all_files.Bitmap.{Bitmap, bitmap_error, bitmap_scan_and_flip}
use oscourse_all_files.Bitmap.View.{nth, IsValid, AllBits}
use oscourse_all_files.Bitmap.Single.{Becomes}
use oscourse_all_files.Bitmap.Range.{inside, bitmap_set_multiple_lem}
use oscourse_all_files.Bitmap.Scan.{IsFirst, Flipped, bitmap_scan_and_flip_lem}
use oscourse_all_files.FreeMap.{FreeMap, free_map_sector, root_dir_sector, free_map_allocate}

-- Sector `s` is in use.
abbrev pub used : FreeMap → ℕ → Bool
used f s = nth f.map s

-- The map is well formed, and the two fixed sectors are never free.
pub record IsWellFormed (f : FreeMap) : Type 0 where
  pub valid : IsValid f.map
  pub map_used : used f free_map_sector ≡ true
  pub root_used : used f root_dir_sector ≡ true

-- `cnt` sectors from `s` on pass from free to used, and no other sector changes.
pub record Allocates (f f' : FreeMap) (cnt s : ℕ) : Type 0 where
  pub in_range : s + cnt ≤ f.map.bit_cnt
  pub lowest : IsFirst (nth f.map) 0 cnt s false
  pub same : f'.map.bit_cnt ≡ f.map.bit_cnt
  pub after : (j : ℕ) → used f' j ≡ (if inside s cnt j then true else used f j)
  pub file : f'.has_file ≡ f.has_file

-- No group of `cnt` sectors is free.
abbrev pub Full : FreeMap → ℕ → Type 0
Full f cnt = (j : ℕ) → j + cnt ≤ f.map.bit_cnt → ¬ AllBits (nth f.map) j cnt false

-- What is taken from the write of the map: it returns, and keeps what is said of the state.
abbrev pub Keeps : {S : Type 0} → (Bitmap → S → Result (Bool × S)) → (S → Type 0) → Type 0
Keeps {S} bitmap_write P =
    (b : Bitmap) (st : S)
    → P st
    → (answer : Bool) × (st' : S) × (bitmap_write b st ≡ ok (answer, st')) × P st'

module _ {S : Type 0} (bitmap_write : Bitmap → S → Result (Bool × S)) where
  -- The new map was written, if there is a file.
  abbrev pub Written : FreeMap → FreeMap → S → S → Type 0
  Written f f' st st' =
      ((f.has_file ≡ true) × (bitmap_write f'.map st ≡ ok (true, st')))
      ⊎ ((f.has_file ≡ false) × (st' ≡ st))

  -- The write of the map with `cnt` sectors of `f` in use in addition answered false.
  abbrev pub Refused : FreeMap → ℕ → S → S → Type 0
  Refused f cnt st st' =
      (f.has_file ≡ true)
      × ((b : Bitmap) × (s : ℕ) × ((j : ℕ) → nth b j ≡ (if inside s cnt j then true else used f j))
          × (bitmap_write b st ≡ ok (false, st')))

  module _ (P : S → Type 0) (keeps : Keeps bitmap_write P) (f : FreeMap) (st : S) (cnt : ℕ) where
    abbrev pub Allocated : Result (Option ℕ × FreeMap × S) → Type 0
    Allocated r =
        ((s : ℕ) × (f' : FreeMap) × (st' : S) × (r ≡ ok (some s, f', st'))
          × P st'
          × IsWellFormed f'
          × Allocates f f' cnt s
          × Written f f' st st')
        ⊎ ((f' : FreeMap) × (st' : S) × (r ≡ ok (none, f', st'))
            × P st'
            × IsWellFormed f'
            × ((j : ℕ) → used f' j ≡ used f j)
            × (f'.map.bit_cnt ≡ f.map.bit_cnt)
            × (f'.has_file ≡ f.has_file)
            × ((Full f' cnt × (st' ≡ st)) ⊎ Refused f' cnt st st'))

    module _ (w : IsWellFormed f) (p : P st) where
      module _ (i : ℕ) (b' : Bitmap) (e : bitmap_scan_and_flip f.map 0 cnt false ≡ ok (i, b'))
          (le : i + cnt ≤ f.map.bit_cnt) (g : IsFirst (nth f.map) 0 cnt i false)
          (c : Becomes f.map b' (λ j. if inside i cnt j then true else nth f.map j)) where
        ne : (i == bitmap_error) ≡ false
        ne = ground (arith, w.valid.fits)

        well_formed : IsWellFormed (record f { map = b' })
        well_formed = record {
          valid = c.valid;
          map_used = ground (arith, c.reads 0, w.map_used);
          root_used = ground (arith, c.reads 1, w.root_used);
        }

        allocates : Allocates f (record f { map = b' }) cnt i
        allocates = record {
          in_range = le;
          same = c.same;
          lowest = g;
          after = c.reads;
          file = refl;
        }

        -- There is no file yet.
        no_file : f.has_file ≡ false → Allocated (free_map_allocate bitmap_write f st cnt)
        unfolding free_map_allocate
        no_file none_yet = inl (
          i,
          record f { map = b' },
          st,
          rw (e, ne, none_yet) refl,
          p,
          well_formed,
          allocates,
          inr (none_yet, refl),
        )

        -- The map is written.
        kept :
            (st' : S)
            → f.has_file ≡ true
            → bitmap_write b' st ≡ ok (true, st')
            → P st'
            → Allocated (free_map_allocate bitmap_write f st cnt)
        unfolding free_map_allocate
        kept st' file wr p' = inl (
          i,
          record f { map = b' },
          st',
          rw (e, ne, file, wr) refl,
          p',
          well_formed,
          allocates,
          inl (file, wr),
        )

        -- The map could not be written, and the sectors are set free again.
        undone :
            (st' : S)
            → f.has_file ≡ true
            → bitmap_write b' st ≡ ok (false, st')
            → P st'
            → Allocated (free_map_allocate bitmap_write f st cnt)
        unfolding free_map_allocate
        undone st' file wr p' =
            let (b'', e', c') =
              bitmap_set_multiple_lem c.valid i cnt false (omega (arith, c.same, le)) in
            let back : (j : ℕ) → nth b'' j ≡ nth f.map j =
              λ j. ground (arith, c.reads j, c'.reads j, g.group j) in
            inr (
              record f { map = b'' },
              st',
              rw (e, ne, file, wr, e') refl,
              p',
              record {
                valid = c'.valid;
                map_used = back 0 ∙ w.map_used;
                root_used = back 1 ∙ w.root_used;
              },
              back,
              c'.same ∙ c.same,
              refl,
              inr (file, (b', i, (λ j. ground (arith, c.reads j, back j)), wr)),
            )

        found : Allocated (free_map_allocate bitmap_write f st cnt)
        found = elim (Bool-cases f.has_file) [
          | inl file ↦ answered file (keeps b' st p)
          | inr none_yet ↦ no_file none_yet
        ]
          where
            answered :
                f.has_file ≡ true
                → (answer : Bool) × (st' : S) × (bitmap_write b' st ≡ ok (answer, st')) × P st'
                → Allocated (free_map_allocate bitmap_write f st cnt)
            answered file (true, st', wr, p') = kept st' file wr p'
            answered file (false, st', wr, p') = undone st' file wr p'

      -- The write of the map returns. On a well-formed free map the call returns with a
      -- well-formed map. Either it gives the first sector of the lowest free group of `cnt`
      -- sectors, marks exactly those as used, and has written that map and got true, if there is
      -- a file; or it gives none, neither a sector nor the size changes, and no group of `cnt`
      -- sectors is free, or there is a file and the write of the map with `cnt` more sectors in
      -- use answered false.
      pub free_map_allocate_lem : Allocated (free_map_allocate bitmap_write f st cnt)
      unfolding free_map_allocate
      free_map_allocate_lem = from (bitmap_scan_and_flip_lem w.valid cnt false 0 (omega arith))
        where
          from :
              Flipped w.valid cnt false 0 (bitmap_scan_and_flip f.map 0 cnt false)
              → Allocated (free_map_allocate bitmap_write f st cnt)
          from (inl (i, b', e, le, g, c)) = found i b' e le g c
          from (inr (e, g)) = inr (
            record f { map = f.map },
            st,
            rw e refl,
            p,
            w,
            (λ j. refl),
            refl,
            refl,
            inl ((λ j h. g j (omega arith) h), refl),
          )
