-- ===== src/Inode/GiveBack.antt =====
-- The free map in the loop of inode_close in filesys/inode.c that gives blocks back.
use oscourse_all_files.Common.{
  ℕ, zero, suc, ◌+◌, ◌*◌, ◌≤◌, ◌<◌, ◌≡◌, ◌≢◌, inl, inr, refl, sym, ◌∙◌, ap, true, false, Bool-cases,
  ltb, lt→ltb, ◌==◌, ==_iff, List, [], ◌∷◌, length, take, Bool, Result, ok, arith,
}
use oscourse_all_files.Cache.{copy_out}
use oscourse_all_files.Bitmap.{Bitmap}
use oscourse_all_files.Bitmap.View.{nth}
use oscourse_all_files.FreeMap.{FreeMap, free_map_release, free_map_sector, root_dir_sector}
use oscourse_all_files.FreeMap.Sectors.{used, IsWellFormed, Keeps}
use oscourse_all_files.FreeMap.Release.{free_map_release_lem}
use oscourse_all_files.Inode.{SectorCache, direct_blocks, word}
use oscourse_all_files.Inode.Grow.{FileSystem}
use oscourse_all_files.Inode.Open.{release_loop}

-- A sector that the free map can take back: in use, in the map, and not one of the fixed ones.
pub record IsHeld (free : FreeMap) (s : ℕ) : Type 0 where
  pub in_map : s < free.map.bit_cnt
  pub held : used free s ≡ true
  pub not_fixed : 2 ≤ s

pub take_all : (n : ℕ) (xs : List ℕ) → length xs ≡ n → take n xs ≡ xs
take_all zero [] h = refl
take_all zero (x ∷ xs) h = absurd (omega arith)
take_all (suc n) [] h = refl
take_all (suc n) (x ∷ xs) h = ap (λ t. x ∷ t) (take_all n xs (omega arith))

-- From `free` to `free'` the `n` sectors that `p` gives from `i` on go back.
pub record GivesBack (free free' : FreeMap) (p : ℕ → ℕ) (i n : ℕ) : Type 0 where
  pub well_formed : IsWellFormed free'
  pub size_same : free'.map.bit_cnt ≡ free.map.bit_cnt
  pub has_file : free'.has_file ≡ true
  pub freed : (k : ℕ) → i ≤ k → k < i + n → used free' (p k) ≡ false
  pub kept : (j : ℕ) → ((k : ℕ) → i ≤ k → k < i + n → p k ≢ j) → used free' j ≡ used free j

-- For a write of the map that returns, and keeps what is said of the state.
module _ {S : Type 0} (bitmap_write : Bitmap → S → Result (Bool × S)) (P : S → Type 0)
    (keeps : Keeps bitmap_write P) where
  pub give_one :
      (free : FreeMap) (st : S)
      → IsWellFormed free
      → free.has_file ≡ true
      → P st
      → (p : ℕ → ℕ) (i : ℕ) → IsHeld free (p i)
      → (free' : FreeMap) × (st' : S) × (free_map_release bitmap_write free st (p i) 1
          ≡ ok (free', st'))
        × P st'
        × GivesBack free free' p i 1
  give_one free st w file ps p i h =
      let all : (k : ℕ) → p i ≤ k → k < p i + 1 → nth free.map k ≡ true = λ k lo hi.
        let here : p i ≡ k = omega arith in ap (λ x. nth free.map x) (sym here) ∙ h.held in
      let (free', st', e, ps', valid, same, file', reads, _) =
        free_map_release_lem bitmap_write free st w (p i) 1 (omega (arith, h.in_map)) P keeps ps
          file all in
      let other : (j : ℕ) → j ≢ p i → used free' j ≡ used free j =
        λ j ne. ground (arith, reads j, ne) in
      (
        free',
        st',
        e,
        ps',
        record {
          well_formed = record {
            valid = valid;
            map_used =
                other free_map_sector (λ x. absurd (omega (arith, h.not_fixed))) ∙ w.map_used;
            root_used =
                other root_dir_sector (λ x. absurd (omega (arith, h.not_fixed))) ∙ w.root_used;
          };
          size_same = same;
          has_file = file';
          freed = λ k lo hi.
              let here : k ≡ i = omega arith in
              ap (λ x. used free' (p x)) here ∙ ground (arith, reads (p i));
          kept = λ j out. other j (λ x. out i (omega arith) (omega arith) (sym x));
        },
      )

module _ (cache : SectorCache) (bitmap_write : Bitmap → cache.State → Result (Bool × cache.State))
    (P : cache.State → Type 0) (keeps : Keeps bitmap_write P) (temp : List ℕ) (p : ℕ → ℕ)
    (reads : (k : ℕ) → k < direct_blocks → word (copy_out temp (12 + k * 4) 4) ≡ p k) where
  pub release_loop_lem :
      (n : ℕ) (fs : FileSystem cache) (i : ℕ)
      → i + n ≤ direct_blocks
      → IsWellFormed fs.free
      → fs.free.has_file ≡ true
      → P fs.cached
      → ((k : ℕ) → i ≤ k → k < i + n → IsHeld fs.free (p k))
      → ((k l : ℕ) → k < l → l < i + n → i ≤ k → p k ≢ p l)
      → (free' : FreeMap) × (st' : cache.State) × (release_loop cache bitmap_write n fs temp i
          ≡ ok (record { cached = st'; free = free' }))
        × P st'
        × GivesBack fs.free free' p i n
  unfolding release_loop
  release_loop_lem zero fs i room w file ps held distinct = (
    fs.free,
    fs.cached,
    refl,
    ps,
    record {
      well_formed = w;
      size_same = refl;
      has_file = file;
      freed = λ k lo hi. absurd (omega arith);
      kept = λ j out. refl;
    },
  )
  release_loop_lem (suc n) fs i room w file ps held distinct =
      let inside_array : ltb i (direct_blocks + 2) ≡ true =
        lt→ltb i (direct_blocks + 2) (omega arith) in
      let (free1, st1, e1, ps1, g1) =
        give_one bitmap_write P keeps fs.free fs.cached w file ps p i
          (held i (omega arith) (omega arith)) in
      let apart : (k : ℕ) → suc i ≤ k → k < i + suc n → (m : ℕ) → i ≤ m → m < i + 1 → p m ≢ p k =
        λ k lo hi m lo' hi'. distinct m k (omega arith) hi lo' in
      let (free2, st2, e2, ps2, g2) =
        release_loop_lem n (record { cached = st1; free = free1 }) (i + 1) (omega arith)
          g1.well_formed g1.has_file ps1
          (λ k lo hi.
            let h : IsHeld fs.free (p k) = held k (omega arith) (omega arith) in
            record {
              in_map = omega (arith, h.in_map, g1.size_same);
              held = g1.kept (p k) (apart k (omega arith) (omega arith)) ∙ h.held;
              not_fixed = h.not_fixed;
            })
          (λ k l lt hi lo. distinct k l lt (omega arith) (omega arith)) in
      (
        free2,
        st2,
        rw (inside_array, reads i (omega arith), e1) e2,
        ps2,
        record {
          well_formed = g2.well_formed;
          size_same = g2.size_same ∙ g1.size_same;
          has_file = g2.has_file;
          freed = λ k lo hi. elim (Bool-cases (k == i)) [
            | inl e ↦
                let here : k ≡ i = (==_iff k i).0 e in
                g2.kept (p k) (λ m lo' hi' x. distinct k m (omega arith) (omega arith) lo (sym x))
                ∙ g1.freed k lo (omega arith)
            | inr e ↦ let there : k ≢ i = ground arith in g2.freed k (omega arith) (omega arith)
          ];
          kept = λ j out.
              g2.kept j (λ k lo hi. out k (omega arith) (omega arith))
              ∙ g1.kept j (λ k lo hi. out k lo (omega arith));
        },
      )
