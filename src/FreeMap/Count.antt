-- ===== src/FreeMap/Count.antt =====
-- How many sectors the free map of filesys/free-map.c has left.
use oscourse_all_files.Common.{
  ℕ, zero, suc, ◌+◌, ◌<◌, ◌≡◌, ◌≢◌, inl, inr, refl, sym, ◌∙◌, ap, Bool, true, false, ◌==◌, ==_iff,
  Bool-cases, if◌then◌else◌, arith,
}
use oscourse_all_files.Bitmap.View.{nth}
use oscourse_all_files.FreeMap.{FreeMap}
use oscourse_all_files.FreeMap.Sectors.{used, Allocates, Full}

-- The free ones of the first `n` sectors.
unfoldable pub free_below : (ℕ → Bool) → ℕ → ℕ
free_below q zero = 0
free_below q (suc n) = (if q n then 0 else 1) + free_below q n

abbrev pub free_count : FreeMap → ℕ
free_count f = free_below (nth f.map) f.map.bit_cnt

free_below_same :
    (q q' : ℕ → Bool) (n : ℕ) → ((j : ℕ) → j < n → q' j ≡ q j) → free_below q' n ≡ free_below q n
unfolding free_below
free_below_same q q' zero h = refl
free_below_same q q' (suc n) h =
    rw (h n (omega arith), free_below_same q q' n (λ j hj. h j (omega arith))) refl

-- One sector less is free.
free_below_taken :
    (q q' : ℕ → Bool) (s n : ℕ)
    → s < n
    → q s ≡ false
    → q' s ≡ true
    → ((j : ℕ) → j ≢ s → q' j ≡ q j)
    → free_below q' n + 1 ≡ free_below q n
unfolding free_below
free_below_taken q q' s zero h was now other = absurd (omega arith)
free_below_taken q q' s (suc n) h was now other = elim (Bool-cases (s == n)) [
  | inl e ↦
      let here : s ≡ n = (==_iff s n).0 e in
      let was' : q n ≡ false = ap q (sym here) ∙ was in
      let now' : q' n ≡ true = ap q' (sym here) ∙ now in
      let rest : free_below q' n ≡ free_below q n =
        free_below_same q q' n (λ j hj. other j (λ x. absurd (omega (arith, hj, x, here)))) in
      rw (was', now') (omega (arith, rest))
  | inr e ↦
      let there : s ≢ n = ground arith in
      let rest : free_below q' n + 1 ≡ free_below q n =
        free_below_taken q q' s n (omega (arith, h, there)) was now other in
      rw (other n (λ x. there (sym x))) (omega (arith, rest))
]

none_free_below : (q : ℕ → Bool) (n : ℕ) → ((j : ℕ) → j < n → q j ≢ false) → free_below q n ≡ 0
unfolding free_below
none_free_below q zero h = refl
none_free_below q (suc n) h = elim (Bool-cases (q n)) [
  | inl e ↦ rw e (omega (arith, none_free_below q n (λ j hj. h j (omega arith))))
  | inr e ↦ absurd (h n (omega arith) e)
]

pub free_count_taken :
    {f f' : FreeMap} (s : ℕ) → Allocates f f' 1 s → free_count f' + 1 ≡ free_count f
free_count_taken {f} {f'} s a =
    ap (λ n. free_below (nth f'.map) n + 1) a.same
    ∙ free_below_taken (nth f.map) (nth f'.map) s f.map.bit_cnt (omega (arith, a.in_range))
        (a.lowest.group s (omega arith) (omega arith)) (ground (arith, a.after s))
        (λ j ne. ground (arith, a.after j, ne))

pub free_count_same :
    (f f' : FreeMap)
    → ((j : ℕ) → used f' j ≡ used f j)
    → f'.map.bit_cnt ≡ f.map.bit_cnt
    → free_count f' ≡ free_count f
free_count_same f f' same size =
    ap (free_below (nth f'.map)) size
    ∙ free_below_same (nth f.map) (nth f'.map) f.map.bit_cnt (λ j _. same j)

pub free_count-Full : (f : FreeMap) → Full f 1 → free_count f ≡ 0
free_count-Full f full = none_free_below (nth f.map) f.map.bit_cnt (λ j h e.
    full j (omega arith)
      (λ k lo hi. let here : j ≡ k = omega arith in ap (nth f.map) (sym here) ∙ e))
