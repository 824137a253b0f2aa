-- ===== src/Tests/Orders.antt =====
-- lib/kernel/list.c on lists of numbers.
use oscourse_all_files.Common.{ℕ, ◌+◌, ◌≡◌, refl, Bool, true, [], ◌∷◌, ltb, arith}
use oscourse_all_files.KernelList.{sorted_from, is_sorted, inplace_merge, list_insert_ordered}
use oscourse_all_files.KernelList.{list_sort}
use oscourse_all_files.KernelList.Sort.{list_sort_lem, inplace_merge_lem}
use oscourse_all_files.Common.{ok, List}
use oscourse_all_files.KernelList.Ordered.{count, IsOrder, list_insert_ordered_lem}

ltb-IsOrder : IsOrder ltb
ltb-IsOrder = record {
  asymmetric = λ a b h. ground (arith, h);
  transitive = λ a b c h k. ground (arith, h, k);
}

list_insert_ordered_example :
    (is_sorted ltb (list_insert_ordered ltb (2 ∷ 5 ∷ []) 3) ≡ true)
    × ((p : ℕ → Bool) → count p (list_insert_ordered ltb (2 ∷ 5 ∷ []) 3) ≡ count p (3 ∷ 2 ∷ 5 ∷ []))
unfolding is_sorted sorted_from
list_insert_ordered_example = list_insert_ordered_lem ltb-IsOrder (2 ∷ 5 ∷ []) 3 refl

inplace_merge_example :
    (out : List ℕ) × (inplace_merge ltb (2 ∷ 5 ∷ []) (3 ∷ 4 ∷ []) ≡ ok out)
    × (is_sorted ltb out ≡ true)
    × ((p : ℕ → Bool) → count p out ≡ count p (2 ∷ 5 ∷ []) + count p (3 ∷ 4 ∷ []))
unfolding is_sorted sorted_from
inplace_merge_example = inplace_merge_lem ltb-IsOrder (2 ∷ 5 ∷ []) (3 ∷ 4 ∷ []) refl refl

list_sort_example :
    (out : List ℕ) × (list_sort ltb (3 ∷ 1 ∷ 4 ∷ 1 ∷ 5 ∷ []) ≡ ok out)
    × (is_sorted ltb out ≡ true)
    × ((p : ℕ → Bool) → count p out ≡ count p (3 ∷ 1 ∷ 4 ∷ 1 ∷ 5 ∷ []))
list_sort_example = list_sort_lem ltb-IsOrder (3 ∷ 1 ∷ 4 ∷ 1 ∷ 5 ∷ [])
