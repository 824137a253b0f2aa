-- ===== src/KernelList/Runs.antt =====
-- The runs of a list, which the passes of list_sort in lib/kernel/list.c count and merge.
use oscourse_all_files.Common.{
  ℕ, suc, ◌+◌, ◌≤◌, ◌≡◌, refl, ap, Bool, true, List, [], ◌∷◌, ◌++◌, if◌then◌else◌, length, arith,
  Bool-cases, inl, inr,
}
use oscourse_all_files.KernelList.{sorted_from, is_sorted, run_from}

module _ {A : Type 0} (less : A → A → Bool) where
  -- The places where the list descends, after element `a`.
  unfoldable pub descents : A → List A → ℕ
  descents a [] = 0
  descents a (b ∷ s) = (if less b a then 1 else 0) + descents b s

  unfoldable pub runs : List A → ℕ
  runs [] = 0
  runs (a ∷ s) = suc (descents a s)

  sorted-descents : (a : A) (s : List A) → sorted_from less a s ≡ true → descents a s ≡ 0
  unfolding sorted_from descents
  sorted-descents a [] h = refl
  sorted-descents a (b ∷ s) h = ground (arith, h, sorted-descents b s)

  descents-sorted : (a : A) (s : List A) → descents a s ≡ 0 → sorted_from less a s ≡ true
  unfolding sorted_from descents
  descents-sorted a [] h = refl
  descents-sorted a (b ∷ s) h = ground (arith, h, descents-sorted b s)

  pub runs-sorted : (s : List A) → runs s ≤ 1 → is_sorted less s ≡ true
  unfolding runs is_sorted
  runs-sorted [] h = refl
  runs-sorted (a ∷ s) h = descents-sorted a s (omega arith)

  pub sorted-runs : (s : List A) → is_sorted less s ≡ true → runs s ≤ 1
  unfolding runs is_sorted
  sorted-runs [] h = omega arith
  sorted-runs (a ∷ s) h = omega (arith, sorted-descents a s h)

  descents-append : (a : A) (s t : List A) → descents a (s ++ t) ≤ descents a s + runs t
  unfolding descents runs
  descents-append a [] [] = omega arith
  descents-append a [] (b ∷ t) = ground arith
  descents-append a (b ∷ s) t = omega (arith, descents-append b s t)

  pub runs-append : (s t : List A) → runs (s ++ t) ≤ runs s + runs t
  unfolding runs
  runs-append [] t = omega arith
  runs-append (a ∷ s) t = omega (arith, descents-append a s t)

  pub runs-le : (s : List A) → runs s ≤ length s
  unfolding runs descents
  runs-le [] = omega arith
  runs-le (a ∷ s) = below a s
    where
      below : (a : A) (s : List A) → suc (descents a s) ≤ suc (length s)
      below a [] = omega arith
      below a (b ∷ s) = ground (arith, below b s)

  -- A run after `a` is sorted, and what follows it has one run less.
  pub record IsRun (a : A) (s run rest : List A) : Type 0 where
    pub whole : s ≡ run ++ rest
    pub sorted : sorted_from less a run ≡ true
    pub fewer : descents a s ≡ runs rest

  pub run_from_lem : (a : A) (s : List A) → IsRun a s (run_from less a s).0 (run_from less a s).1
  unfolding run_from descents runs sorted_from
  run_from_lem a [] = record { whole = refl; sorted = refl; fewer = refl }
  run_from_lem a (b ∷ s) = elim (Bool-cases (less b a)) [
    | inl e ↦ rw e (record { whole = refl; sorted = refl; fewer = ground (arith, e) })
    | inr e ↦
        let r = run_from_lem b s in
        rw e (record {
          whole = ap (λ t. b ∷ t) r.whole;
          sorted = rw e r.sorted;
          fewer = ground (arith, e, r.fewer);
        })
  ]
