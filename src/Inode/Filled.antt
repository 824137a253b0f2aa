-- ===== src/Inode/Filled.antt =====
-- The file that inode_create of filesys/inode.c makes, once its last byte is written.
use mathlib.Core.Bool.{Bool, false≢true}
use mathlib.Core.Path.{subst}
use oscourse_all_files.Common.{
  ℕ, zero, suc, ◌+◌, ◌-◌, ◌*◌, ◌≤◌, ◌<◌, ◌≡◌, ◌≢◌, inl, inr, refl, sym, ◌∙◌, ap, true, false,
  Bool-cases, ltb, leb, ◌&&◌, [], ◌∷◌, length, get_or, arith,
}
use oscourse_all_files.Block.{block_sector_size}
use oscourse_all_files.FreeMap.{FreeMap}
use oscourse_all_files.FreeMap.Sectors.{used}
use oscourse_all_files.Inode.Layout.{Disk, block_of, file_byte}
use oscourse_all_files.Inode.Frame.{block_count}
use oscourse_all_files.Inode.Overwrite.{overwritten}
use oscourse_all_files.Inode.Stored.{IsStored}
use oscourse_all_files.Inode.Extended.{IsExtended}
use oscourse_all_files.Inode.Created.{IsCreated}

-- A byte of 0 over zeros.
get_or-zero : (k : ℕ) → get_or {A = ℕ} (0 ∷ []) k 0 ≡ 0
get_or-zero zero = refl
get_or-zero (suc k) = refl

overwritten_zero : (offset : ℕ) (g : ℕ → ℕ) (i : ℕ) → g i ≡ 0 → overwritten offset (0 ∷ []) g i ≡ 0
overwritten_zero offset g i e =
    elim (Bool-cases (leb offset i && ltb i (offset + length {A = ℕ} (0 ∷ [])))) [
      | inl inside ↦ rw inside (get_or-zero (i - offset))
      | inr outside ↦ rw outside e
    ]

module _ {size : ℕ} {is_map : ℕ → Bool} {free free1 : FreeMap} {f f1 : Disk} {sector : ℕ}
    (c : IsCreated size is_map free free1 f f1 sector 0) where
  -- What is free after the first block is allocated was free before.
  free_before : (t : ℕ) → used free1 t ≡ false → used free t ≡ false
  free_before t h = elim (Bool-cases (used free t)) [
    | inl e ↦ absurd (false≢true (sym h ∙ (c.kept t e).0))
    | inr e ↦ e
  ]

  apart : (t k : ℕ) → used free t ≡ true → k < block_count f1 sector → block_of f1 sector k ≢ t
  apart t k h hk e = false≢true (sym (c.was_free k hk) ∙ ap (used free) e ∙ h)

  -- The byte that is written last is in the first block, or not.
  pub stored-IsCreated :
      {f2 : Disk} (offset : ℕ)
      → IsStored size (block_count f1 sector) f1 f2 sector offset (0 ∷ [])
      → IsCreated size is_map free free1 f f2 sector (offset + 1)
  stored-IsCreated offset s = record {
    inode = s.inode;
    owned = record {
      inode = c.owned.inode;
      blocks = λ k h.
          let hk : k < block_count f1 sector = omega (arith, s.counted) in
          ap (used free1) (s.same k hk) ∙ c.owned.blocks k hk;
      has_map = c.owned.has_map;
      not_map = c.owned.not_map;
      blocks_not_map = λ k h.
          let hk : k < block_count f1 sector = omega (arith, s.counted) in
          ap is_map (s.same k hk) ∙ c.owned.blocks_not_map k hk;
    };
    long = s.longer ∙ omega (arith, c.long);
    was_free = λ k h.
        let hk : k < block_count f1 sector = omega (arith, s.counted) in
        ap (used free) (s.same k hk) ∙ c.was_free k hk;
    zeroed = λ i h.
        let hi : i < block_count f1 sector * block_sector_size =
          subst (λ m. i < m * block_sector_size) s.counted h in
        s.bytes i hi ∙ overwritten_zero offset (file_byte f1 sector) i (c.zeroed i hi);
    kept = λ t h.
        ((c.kept t h).0, λ ne out. s.others t ne (λ k hk. apart t k h hk) ∙ (c.kept t h).1 ne out);
  }

  pub extended-IsCreated :
      {free2 : FreeMap} {f2 : Disk} {m : ℕ} (offset : ℕ)
      → IsExtended size m is_map free1 free2 f1 f2 sector offset (0 ∷ [])
      → IsCreated size is_map free free2 f f2 sector (offset + 1)
  extended-IsCreated {f2 = f2} {m = m} offset x = record {
    inode = x.inode;
    owned = x.owned;
    long = x.longer ∙ omega (arith, c.long);
    was_free = λ k h. elim (Bool-cases (ltb k (block_count f1 sector))) [
      | inl below ↦
          let hk : k < block_count f1 sector = ground arith in
          ap (used free) (x.old k hk) ∙ c.was_free k hk
      | inr above ↦
          let hk : block_count f1 sector ≤ k = ground arith in
          free_before (block_of f2 sector k) (x.fresh k hk (omega (arith, x.counted)))
    ];
    zeroed = λ i h.
        let hi : i < m * block_sector_size = subst (λ m. i < m * block_sector_size) x.counted h in
        elim (Bool-cases (ltb i (block_count f1 sector * block_sector_size))) [
          | inl below ↦
              let lt : i < block_count f1 sector * block_sector_size = ground arith in
              x.bytes i lt ∙ overwritten_zero offset (file_byte f1 sector) i (c.zeroed i lt)
          | inr above ↦
              let ge : block_count f1 sector * block_sector_size ≤ i = ground arith in
              x.gap i ge hi ∙ overwritten_zero offset (λ _. 0) i refl
        ];
    kept = λ t h. (
      x.in_use t (c.kept t h).0,
      λ ne out. x.others t (c.kept t h).0 ne out (λ k hk. apart t k h hk) ∙ (c.kept t h).1 ne out,
    );
  }
