-- ===== src/KernelList.antt =====
-- lib/kernel/list.c: the algorithms on lists in order. A list is the sequence of its elements; the
-- links between them are left out. `less` is the comparison with its auxiliary data.
pub mod Ordered
pub mod Runs
pub mod Sort
use oscourse_all_files.Common.{
  ℕ, zero, suc, ◌+◌, Bool, true, false, not, ◌&&◌, Option, none, some, List, [], ◌∷◌, ◌++◌,
  if◌then◌else◌, length, leb, Result, ok, panic, hang, ◌>>◌, ◌>>=◌, assert,
}

module _ {A : Type 0} (less : A → A → Bool) where
  -- The loop of `is_sorted`, after element `a`.
  unfoldable pub sorted_from : A → List A → Bool
  sorted_from a [] = true
  sorted_from a (b ∷ s) = let rest = sorted_from b s in if less b a then false else rest

  unfoldable pub is_sorted : List A → Bool
  is_sorted [] = true
  is_sorted (a ∷ s) = sorted_from a s

  -- The loop of `find_end_of_run`: the run after element `a`, and what follows it.
  pub run_from : A → List A → List A × List A
  run_from a [] = ([], [])
  run_from a (b ∷ s) =
      let (run, rest) = run_from b s in if less b a then ([], b ∷ s) else (b ∷ run, rest)

  -- A run, and what follows it. The elements are not NULL.
  unfoldable pub find_end_of_run : List A → Result (List A × List A)
  find_end_of_run [] = panic
  find_end_of_run (a ∷ s) = let (run, rest) = run_from a s in ok (a ∷ run, rest)

  -- The loop of `inplace_merge` on the two runs, for at most `fuel` rounds.
  pub merge_loop : ℕ → List A → List A → List A
  merge_loop zero a b = a ++ b
  merge_loop (suc fuel) [] b = b
  merge_loop (suc fuel) (x ∷ a) [] = x ∷ a
  merge_loop (suc fuel) (x ∷ a) (y ∷ b) =
      let keep = merge_loop fuel a (y ∷ b) in
      let splice = merge_loop fuel (x ∷ a) b in if not (less y x) then x ∷ keep else y ∷ splice

  unfoldable pub inplace_merge : List A → List A → Result (List A)
  inplace_merge a b = do
    assert (is_sorted a)
    assert (is_sorted b)
    ok (merge_loop (length a + length b) a b)

  pub list_insert_ordered : List A → A → List A
  list_insert_ordered [] elem = elem ∷ []
  list_insert_ordered (e ∷ s) elem =
      let rest = list_insert_ordered s elem in if less elem e then elem ∷ e ∷ s else e ∷ rest

  -- The loop of `list_unique` after `elem`: the elements kept, and the duplicates in order.
  pub unique_from : A → List A → List A × List A
  unique_from elem [] = ([], [])
  unique_from elem (next ∷ s) =
      let (kept, duplicates) = unique_from elem s in
      let (kept', duplicates') = unique_from next s in
      if not (less elem next) && not (less next elem)
      then (kept, next ∷ duplicates)
      else (next ∷ kept', duplicates')

  pub list_unique : List A → List A × List A
  list_unique [] = ([], [])
  list_unique (elem ∷ s) = let (kept, duplicates) = unique_from elem s in (elem ∷ kept, duplicates)

  -- The loop of `list_max`, with the greatest element so far, and that of `list_min`.
  pub max_from : A → List A → A
  max_from max [] = max
  max_from max (e ∷ s) = max_from (if less max e then e else max) s

  pub min_from : A → List A → A
  min_from min [] = min
  min_from min (e ∷ s) = min_from (if less e min then e else min) s

  -- `none` is the tail of an empty list.
  pub list_max : List A → Option A
  list_max [] = none
  list_max (e ∷ s) = some (max_from e s)

  pub list_min : List A → Option A
  list_min [] = none
  list_min (e ∷ s) = some (min_from e s)

  -- A pass of `list_sort`: the runs that it outputs, and the list afterwards. `n` bounds the pairs
  -- of runs that are left.
  unfoldable pub sort_pass : ℕ → List A → Result (ℕ × List A)
  sort_pass zero [] = ok (0, [])
  sort_pass zero (a ∷ s) = hang
  sort_pass (suc n) [] = ok (0, [])
  sort_pass (suc n) (a ∷ s) = find_end_of_run (a ∷ s) >>= λ (first, later). elim later [
    | [] ↦ ok (1, first)
    | b ∷ t ↦ find_end_of_run (b ∷ t) >>= λ (second, rest). inplace_merge first second >>= λ merged.
        sort_pass n rest >>= λ (output_run_cnt, tail). ok (suc output_run_cnt, merged ++ tail)
  ]

  -- The passes, at most `fuel` of them.
  pub sort_loop : ℕ → List A → Result (List A)
  sort_loop zero s = hang
  sort_loop (suc fuel) s = sort_pass (length s) s >>= λ (output_run_cnt, s').
      let again = sort_loop fuel s' in
      if leb output_run_cnt 1 then (assert (is_sorted s') >> ok s') else again

  pub list_sort : List A → Result (List A)
  list_sort s = sort_loop (length s + 1) s
