-- ===== src/Inode/MapFile.antt =====
-- The file of the free map, as the allocation and release of blocks in filesys/inode.c meet it.
use mathlib.Core.Bool.{false≢true}
use oscourse_all_files.Common.{
  ℕ, ◌≡◌, ◌≢◌, sym, ◌∙◌, Bool, true, false, inl, inr, Bool-cases, Result, ok,
}
use oscourse_all_files.Bitmap.{Bitmap}
use oscourse_all_files.FreeMap.{FreeMap}
use oscourse_all_files.FreeMap.Sectors.{used, Keeps}
use oscourse_all_files.Inode.{SectorCache}
use oscourse_all_files.Inode.Layout.{Disk, CacheLaws}

-- Two disks that differ at most in the sectors of the free map file.
abbrev pub SameBut : (ℕ → Bool) → Disk → Disk → Type 0
SameBut is_map f f' = (t : ℕ) → is_map t ≡ false → f' t ≡ f t

-- What is asked of the write of the map, on a disk whose file is ready for it: it returns, leaves
-- the file ready, and writes to no other sector than those of the file. Whether it is ready
-- depends on these sectors only.
pub record MapFile {cache : SectorCache} (laws : CacheLaws cache) (size : ℕ)
    (bitmap_write : Bitmap → cache.State → Result (Bool × cache.State)) : Type 1 where
  pub is_map : ℕ → Bool
  pub Ready : Disk → Type 0
  pub stable : {f f' : Disk} → Ready f → ((t : ℕ) → is_map t ≡ true → f' t ≡ f t) → Ready f'
  pub bitmap_write_lem :
      {f : Disk} {st : cache.State} (b : Bitmap)
      → laws.Holds size f st
      → Ready f
      → (answer : Bool) × (st' : cache.State) × (f' : Disk) × (bitmap_write b st ≡ ok (answer, st'))
        × laws.Holds size f' st'
        × SameBut is_map f f'
        × Ready f'

-- The free map file takes every map.
abbrev pub Answers :
    (cache : SectorCache) → (Bitmap → cache.State → Result (Bool × cache.State)) → Type 0
Answers cache bitmap_write =
    (b : Bitmap) (st st' : cache.State) → bitmap_write b st ≢ ok (false, st')

-- The sectors of the file are in use.
abbrev pub HasMap : (ℕ → Bool) → FreeMap → Type 0
HasMap is_map free = (t : ℕ) → is_map t ≡ true → used free t ≡ true

pub free_not_map :
    (is_map : ℕ → Bool) (free : FreeMap)
    → HasMap is_map free
    → (t : ℕ) → used free t ≡ false
    → is_map t ≡ false
free_not_map is_map free has t h = elim (Bool-cases (is_map t)) [
  | inl e ↦ absurd (false≢true (sym h ∙ has t e))
  | inr e ↦ e
]

module _ {cache : SectorCache} {laws : CacheLaws cache} {size : ℕ}
    {bitmap_write : Bitmap → cache.State → Result (Bool × cache.State)}
    (file : MapFile laws size bitmap_write) where
  -- The state holds a disk that differs from `f` at most in the free map file.
  abbrev pub HoldsBut : Disk → cache.State → Type 0
  HoldsBut f st = (f' : Disk) × laws.Holds size f' st × SameBut file.is_map f f' × file.Ready f'

  pub keeps : (f : Disk) → Keeps bitmap_write (HoldsBut f)
  keeps f b st (f1, h1, same1, ready1) =
      let (answer, st', f2, e, h2, same2, ready2) = file.bitmap_write_lem b h1 ready1 in
      (answer, st', e, (f2, h2, (λ t h. same2 t h ∙ same1 t h), ready2))
