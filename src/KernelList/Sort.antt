-- ===== src/KernelList/Sort.antt =====
-- list_sort of lib/kernel/list.c: each pass halves the number of runs, so that the sort ends.
use oscourse_all_files.Common.{
  ℕ, zero, suc, ◌+◌, ◌*◌, ◌≤◌, ◌<◌, ◌≡◌, refl, ◌∙◌, ap, Bool, true, List, [], ◌∷◌, ◌++◌, length,
  length-append, arith, Bool-cases, inl, inr, Result, ok, leb, leb→le,
}
use oscourse_all_files.KernelList.{
  is_sorted, run_from, find_end_of_run, merge_loop, inplace_merge, sort_pass, sort_loop, list_sort,
}
use oscourse_all_files.KernelList.Ordered.{count, count-append, IsOrder, merge_loop_lem}
use oscourse_all_files.KernelList.Runs.{
  runs, runs-sorted, sorted-runs, runs-append, runs-le, IsRun, run_from_lem,
}

-- The outcome of a pass in which no ASSERT fails.
passed : {A : Type 0} → (A → A → Bool) → ℕ → List A → ℕ × List A
passed less zero s = (0, s)
passed less (suc n) [] = (0, [])
passed less (suc n) (a ∷ s) =
    let (first, later) = run_from less a s in
    elim later [
      | [] ↦ (1, a ∷ first)
      | b ∷ t ↦
          let (second, rest) = run_from less b t in
          let (output_run_cnt, tail) = passed less n rest in
          let merged =
            merge_loop less (length (a ∷ first) + length (b ∷ second)) (a ∷ first) (b ∷ second) in
          (suc output_run_cnt, merged ++ tail)
    ]

module _ {A : Type 0} {less : A → A → Bool} (o : IsOrder less) where
  -- What a pass makes of `s`: at most as many runs as it counts, which are half of those before,
  -- and the same elements.
  pub record IsPass (s : List A) (output_run_cnt : ℕ) (out : List A) : Type 0 where
    pub few : runs less out ≤ output_run_cnt
    pub half : output_run_cnt * 2 ≤ runs less s + 1
    pub same : (p : A → Bool) → count p out ≡ count p s

  merged : List A → List A → List A
  merged a b = merge_loop less (length a + length b) a b

  -- Two runs are merged before the rest.
  pair-IsPass :
      (a : A) (s first : List A) (b : A) (t second rest : List A) (n : ℕ) (out : List A)
      → IsRun less a s first (b ∷ t)
      → IsRun less b t second rest
      → IsPass rest n out
      → IsPass (a ∷ s) (suc n) (merged (a ∷ first) (b ∷ second) ++ out)
  unfolding runs merged is_sorted
  pair-IsPass a s first b t second rest n out r r' q =
      let (order, counts) =
        merge_loop_lem o (length (a ∷ first) + length (b ∷ second)) (a ∷ first) (b ∷ second)
          r.sorted r'.sorted (omega arith) in
      record {
        few = omega (
          arith,
          runs-append less (merged (a ∷ first) (b ∷ second)) out,
          sorted-runs less (merged (a ∷ first) (b ∷ second)) order,
          q.few,
        );
        half = omega (arith, q.half, r.fewer, r'.fewer);
        same = λ p.
            let whole : count p (a ∷ s) ≡ count p (a ∷ first) + count p (b ∷ t) =
              ap (λ u. count p (a ∷ u)) r.whole ∙ count-append p (a ∷ first) (b ∷ t) in
            let whole' : count p (b ∷ t) ≡ count p (b ∷ second) + count p rest =
              ap (λ u. count p (b ∷ u)) r'.whole ∙ count-append p (b ∷ second) rest in
            omega (
              arith,
              count-append p (merged (a ∷ first) (b ∷ second)) out,
              counts p,
              whole,
              whole',
              q.same p,
            );
      }

  passed_lem :
      (n : ℕ) (s : List A) → length s ≤ n → IsPass s (passed less n s).0 (passed less n s).1
  unfolding passed runs merged is_sorted count
  passed_lem zero [] le = record { few = omega arith; half = omega arith; same = λ p. refl }
  passed_lem zero (a ∷ s) le = absurd (omega arith)
  passed_lem (suc n) [] le = record { few = omega arith; half = omega arith; same = λ p. refl }
  passed_lem (suc n) (a ∷ s) le =
      from (run_from less a s).1 refl (run_from_lem less a s) (passed_lem n)
    where
      first : List A
      first = (run_from less a s).0

      from :
          (later : List A)
          → (run_from less a s).1 ≡ later
          → IsRun less a s first later
          → ((s : List A) → length s ≤ n → IsPass s (passed less n s).0 (passed less n s).1)
          → IsPass (a ∷ s) (passed less (suc n) (a ∷ s)).0 (passed less (suc n) (a ∷ s)).1
      from [] e r next =
          rw (e, passed)
            (record {
              few = sorted-runs less (a ∷ first) r.sorted;
              half = omega arith;
              same = λ p. omega (arith, ap (count p) r.whole, count-append p first []);
            })
      from (b ∷ t) e r next =
          let second = (run_from less b t).0 in
          let rest = (run_from less b t).1 in
          let r' : IsRun less b t second rest = run_from_lem less b t in
          let size : length s ≡ length first + suc (length t) =
            ap length r.whole ∙ length-append first (b ∷ t) in
          let size' : length t ≡ length second + length rest =
            ap length r'.whole ∙ length-append second rest in
          rw (e, passed)
            (pair-IsPass a s first b t second rest (passed less n rest).0 (passed less n rest).1 r
              r' (next rest (omega (arith, size, size'))))

  -- The runs are sorted, so that `sort_pass` comes to its end.
  sort_pass_lem : (n : ℕ) (s : List A) → length s ≤ n → sort_pass less n s ≡ ok (passed less n s)
  unfolding sort_pass passed find_end_of_run inplace_merge is_sorted run_from merge_loop
  sort_pass_lem zero [] le = refl
  sort_pass_lem zero (a ∷ s) le = absurd (omega arith)
  sort_pass_lem (suc n) [] le = refl
  sort_pass_lem (suc n) (a ∷ s) le =
      from (run_from less a s).1 refl (run_from_lem less a s) (sort_pass_lem n)
    where
      from :
          (later : List A)
          → (run_from less a s).1 ≡ later
          → IsRun less a s (run_from less a s).0 later
          → ((s : List A) → length s ≤ n → sort_pass less n s ≡ ok (passed less n s))
          → sort_pass less (suc n) (a ∷ s) ≡ ok (passed less (suc n) (a ∷ s))
      from [] e r next = rw (e, sort_pass, passed) refl
      from (b ∷ t) e r next =
          let r' = run_from_lem less b t in
          let size : length s ≡ length (run_from less a s).0 + suc (length t) =
            ap length r.whole ∙ length-append (run_from less a s).0 (b ∷ t) in
          let size' : length t ≡ length (run_from less b t).0 + length (run_from less b t).1 =
            ap length r'.whole ∙ length-append (run_from less b t).0 (run_from less b t).1 in
          rw
            (
              e,
              sort_pass,
              passed,
              r.sorted,
              r'.sorted,
              next (run_from less b t).1 (omega (arith, size, size')),
            )
            refl

  abbrev Sorts : List A → Result (List A) → Type 0
  Sorts s r =
      (out : List A) × (r ≡ ok out)
      × (is_sorted less out ≡ true)
      × ((p : A → Bool) → count p out ≡ count p s)

  abbrev runs_counted : List A → ℕ
  runs_counted s = (passed less (length s) s).0

  abbrev after_pass : List A → List A
  after_pass s = (passed less (length s) s).1

  enough_rounds : (s : List A) → IsPass s (runs_counted s) (after_pass s)
  enough_rounds s = passed_lem (length s) s (omega arith)

  -- A pass that outputs one run is the last.
  sort_done :
      (fuel : ℕ) (s : List A)
      → leb (runs_counted s) 1 ≡ true
      → Sorts s (sort_loop less (suc fuel) s)
  unfolding sort_loop
  sort_done fuel s e =
      let run = sort_pass_lem (length s) s (omega arith) in
      let q = enough_rounds s in
      let order : is_sorted less (after_pass s) ≡ true =
        runs-sorted less (after_pass s) (omega (arith, q.few, leb→le (runs_counted s) 1 e)) in
      (after_pass s, rw (run, e, order) refl, order, q.same)

  sort_loop_lem :
      (fuel : ℕ) (s : List A) → runs less s ≤ suc fuel → Sorts s (sort_loop less (suc fuel) s)
  unfolding sort_loop
  sort_loop_lem zero s h = elim (Bool-cases (leb (runs_counted s) 1)) [
    | inl e ↦ sort_done zero s e
    | inr e ↦
        let many : 1 < runs_counted s = ground (arith, e) in
        absurd (omega (arith, many, h, (enough_rounds s).half))
  ]
  sort_loop_lem (suc fuel) s h = elim (Bool-cases (leb (runs_counted s) 1)) [
    | inl e ↦ sort_done (suc fuel) s e
    | inr e ↦
        let many : 1 < runs_counted s = ground (arith, e) in
        let (out, eo, order, same) =
          sort_loop_lem fuel (after_pass s)
            (omega (arith, many, h, (enough_rounds s).half, (enough_rounds s).few)) in
        (
          out,
          rw (sort_pass_lem (length s) s (omega arith), e) eo,
          order,
          λ p. same p ∙ (enough_rounds s).same p,
        )
  ]

  -- For a strict weak order, `list_sort` ends within as many passes as the list has elements, and
  -- one more, with no failed ASSERT; the list is then sorted and holds the same elements.
  pub list_sort_lem :
      (s : List A)
      → (out : List A) × (list_sort less s ≡ ok out)
        × (is_sorted less out ≡ true)
        × ((p : A → Bool) → count p out ≡ count p s)
  unfolding list_sort
  list_sort_lem s =
      let (out, e, order, same) = sort_loop_lem (length s) s (omega (arith, runs-le less s)) in
      let one : length s + 1 ≡ suc (length s) = omega arith in
      (out, ap (λ n. sort_loop less n s) one ∙ e, order, same)

-- For a strict weak order and two sorted runs, `inplace_merge` returns without a failed ASSERT:
-- the list is sorted, and holds the elements of both runs.
pub inplace_merge_lem :
    {A : Type 0} {less : A → A → Bool} (o : IsOrder less) (a b : List A)
    → is_sorted less a ≡ true
    → is_sorted less b ≡ true
    → (out : List A) × (inplace_merge less a b ≡ ok out)
      × (is_sorted less out ≡ true)
      × ((p : A → Bool) → count p out ≡ count p a + count p b)
unfolding inplace_merge
inplace_merge_lem {less = less} o a b ha hb =
    let (order, same) = merge_loop_lem o (length a + length b) a b ha hb (omega arith) in
    (merge_loop less (length a + length b) a b, rw (ha, hb) refl, order, same)
