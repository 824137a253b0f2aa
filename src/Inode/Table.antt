-- ===== src/Inode/Table.antt =====
-- Opening and closing in filesys/inode.c.
use mathlib.Core.Path.{subst}
use oscourse_all_files.Common.{
  Bool, Result, ℕ, ◌+◌, ◌-◌, ◌<◌, ◌≡◌, inl, inr, refl, ◌∙◌, ap, true, false, Bool-cases, some,
  Option-cases, ◌==◌, ==_refl, List, [], ◌∷◌, All, ok, arith,
}
use oscourse_all_files.Bitmap.{Bitmap}
use oscourse_all_files.Inode.{SectorCache, Inode}
use oscourse_all_files.Inode.Grow.{FileSystem}
use oscourse_all_files.Inode.Open.{
  find_open, change, remove_open, inode_reopen, new_inode, inode_open, inode_close,
}

-- An open inode has an opener.
abbrev pub IsOpened : Inode → Type 0
IsOpened inode = 0 < inode.open_cnt

-- The inode that is found is in the list.
find_open-IsOpened :
    (t : List Inode) (s : ℕ) (inode : Inode)
    → find_open t s ≡ some inode
    → All IsOpened t
    → IsOpened inode
unfolding find_open
find_open-IsOpened [] s inode e h = absurd cc
find_open-IsOpened (x ∷ t) s inode e h = elim (Bool-cases (x.sector == s)) [
  | inl here ↦
      let found : some x ≡ some inode = rw here at e in
      let same : x ≡ inode = cc in subst IsOpened same h.0
  | inr there ↦ find_open-IsOpened t s inode (rw there at e) h.1
]

-- Changes that keep the sector.
module _ (by : Inode → Inode) (keeps : (inode : Inode) → (by inode).sector ≡ inode.sector) where
  find_open-change :
      (t : List Inode) (s : ℕ) (inode : Inode)
      → find_open t s ≡ some inode
      → find_open (change t s by) s ≡ some (by inode)
  unfolding find_open change
  find_open-change [] s inode e = absurd cc
  find_open-change (x ∷ t) s inode e = elim (Bool-cases (x.sector == s)) [
    | inl here ↦
        let found : some x ≡ some inode = rw here at e in
        let same : x ≡ inode = cc in
        let again : ((by x).sector == s) ≡ true = ap (λ y. y == s) (keeps x) ∙ here in
        rw (here, again) (ap (λ y. some (by y)) same)
    | inr there ↦ rw (there, there) (find_open-change t s inode (rw there at e))
  ]

  change-change :
      (back : Inode → Inode)
      → ((inode : Inode) → back (by inode) ≡ inode)
      → (t : List Inode) (s : ℕ) → change (change t s by) s back ≡ t
  unfolding change
  change-change back undo [] s = refl
  change-change back undo (x ∷ t) s = elim (Bool-cases (x.sector == s)) [
    | inl here ↦
        let again : ((by x).sector == s) ≡ true = ap (λ y. y == s) (keeps x) ∙ here in
        rw (here, again) (ap (λ y. y ∷ t) (undo x))
    | inr there ↦ rw (there, there) (ap (λ r. x ∷ r) (change-change back undo t s))
  ]

-- If every open inode has an opener and malloc succeeds, then closing an inode that was just opened
-- leaves the list of open inodes and the file system exactly as they were before it was opened.
pub inode_close-inode_open :
    {cache : SectorCache} (bitmap_write : Bitmap → cache.State → Result (Bool × cache.State))
    (fs : FileSystem cache) (open_inodes : List Inode) (sector : ℕ)
    → All IsOpened open_inodes
    → (t : List Inode) × (inode_open true open_inodes sector ≡ (true, t))
      × (inode_close cache bitmap_write fs t sector ≡ ok (fs, open_inodes))
unfolding inode_open inode_close inode_reopen find_open remove_open
inode_close-inode_open bitmap_write fs open_inodes sector h =
    elim (Option-cases (find_open open_inodes sector)) [
      | inl e ↦
          let gone : remove_open (new_inode sector ∷ open_inodes) sector ≡ open_inodes =
            rw (==_refl sector) refl in
          (
            new_inode sector ∷ open_inodes,
            rw (e, inode_open) refl,
            rw (==_refl sector, inode_close) (ap (λ t. ok (fs, t)) gone),
          )
      | inr (inode, e) ↦
          let opened : 0 < inode.open_cnt = find_open-IsOpened open_inodes sector inode e h in
          let more : (inode.open_cnt + 1 == 1) ≡ false = ground (arith) in
          (
            change open_inodes sector raise,
            rw (e, inode_open) refl,
            rw (find_open-change raise (λ _. refl) open_inodes sector inode e, inode_close, more)
                (ap (λ t. ok (fs, t))
                  (change-change raise (λ _. refl) lower back open_inodes sector)),
          )
    ]
  where
    raise : Inode → Inode
    raise inode = record inode { open_cnt = inode.open_cnt + 1 }

    lower : Inode → Inode
    lower inode = record inode { open_cnt = inode.open_cnt - 1 }

    back : (inode : Inode) → lower (raise inode) ≡ inode
    back inode =
        let same : inode.open_cnt + 1 - 1 ≡ inode.open_cnt = omega arith in
        ap (λ n. record inode { open_cnt = n }) same
