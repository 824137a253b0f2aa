-- ===== src/KernelList/Ordered.antt =====
-- Order and elements under the algorithms of lib/kernel/list.c.
use mathlib.Core.Path.{subst}
use oscourse_all_files.Common.{
  ℕ, zero, suc, ◌+◌, ◌≤◌, ◌≡◌, refl, sym, Bool, true, false, some, List, [], ◌∷◌, ◌++◌,
  if◌then◌else◌, length, All, arith, Bool-cases, inl, inr,
}
use oscourse_all_files.KernelList.{
  sorted_from, is_sorted, merge_loop, list_insert_ordered, max_from, list_max,
}

-- How many elements satisfy a test. Two lists hold the same elements when they agree on every test.
unfoldable pub count {ℓ} : {A : Type ℓ} → (A → Bool) → List A → ℕ
count p [] = 0
count p (x ∷ s) = (if p x then 1 else 0) + count p s

-- `less` is a strict weak order.
pub record IsOrder {A : Type 0} (less : A → A → Bool) : Type 0 where
  pub asymmetric : (a b : A) → less a b ≡ true → less b a ≡ false
  pub transitive : (a b c : A) → less b a ≡ false → less c b ≡ false → less c a ≡ false

pub count-append :
    {A : Type 0} (p : A → Bool) (a b : List A) → count p (a ++ b) ≡ count p a + count p b
unfolding count
count-append p [] b = omega arith
count-append p (x ∷ a) b = omega (arith, count-append p a b)

module _ {A : Type 0} (less : A → A → Bool) where
  count-insert :
      (p : A → Bool) (s : List A) (x : A) → count p (list_insert_ordered less s x) ≡ count p (x ∷ s)
  unfolding count list_insert_ordered
  count-insert p [] x = refl
  count-insert p (y ∷ s) x = elim (Bool-cases (less x y)) [
    | inl e ↦ rw e refl
    | inr e ↦ rw e (omega (arith, count-insert p s x))
  ]

  count-merge :
      (p : A → Bool) (n : ℕ) (a b : List A)
      → count p (merge_loop less n a b) ≡ count p a + count p b
  unfolding count merge_loop
  count-merge p zero a b = count-append p a b
  count-merge p (suc n) [] b = omega arith
  count-merge p (suc n) (x ∷ a) [] = omega arith
  count-merge p (suc n) (x ∷ a) (y ∷ b) = elim (Bool-cases (less y x)) [
    | inl e ↦ rw e (omega (arith, count-merge p n (x ∷ a) b))
    | inr e ↦ rw e (omega (arith, count-merge p n a (y ∷ b)))
  ]

module _ {A : Type 0} (less : A → A → Bool) where
  -- No element of the list, nor `m`, is greater than `r`.
  abbrev Tops : A → List A → A → Type 0
  Tops m s r = (less r m ≡ false) × All (λ e. less r e ≡ false) s

module _ {A : Type 0} {less : A → A → Bool} where
  insert-sorted_from :
      (o : IsOrder less) (a x : A) (s : List A)
      → sorted_from less a s ≡ true
      → less x a ≡ false
      → sorted_from less a (list_insert_ordered less s x) ≡ true
  unfolding sorted_from list_insert_ordered
  insert-sorted_from o a x [] h n = rw n refl
  insert-sorted_from o a x (y ∷ s) h n = elim (Bool-cases (less y a)) [
    | inl bad ↦ absurd (ground (arith, h, bad))
    | inr fit ↦ elim (Bool-cases (less x y)) [
      | inl e ↦ ground (arith, h, n, e, fit, o.asymmetric x y)
      | inr e ↦ ground (arith, h, n, e, fit, insert-sorted_from o y x s)
    ]
  ]

  insert-is_sorted :
      (o : IsOrder less) (s : List A) (x : A)
      → is_sorted less s ≡ true
      → is_sorted less (list_insert_ordered less s x) ≡ true
  unfolding is_sorted sorted_from list_insert_ordered
  insert-is_sorted o [] x h = refl
  insert-is_sorted o (y ∷ s) x h = elim (Bool-cases (less x y)) [
    | inl e ↦ rw e (ground (arith, h, o.asymmetric x y e))
    | inr e ↦ rw e (insert-sorted_from o y x s h e)
  ]

  -- For a strict weak order and a sorted list, `list_insert_ordered` gives a sorted list, which
  -- holds the new element and those of the list.
  pub list_insert_ordered_lem :
      (o : IsOrder less) (s : List A) (x : A)
      → is_sorted less s ≡ true
      → (is_sorted less (list_insert_ordered less s x) ≡ true)
        × ((p : A → Bool) → count p (list_insert_ordered less s x) ≡ count p (x ∷ s))
  list_insert_ordered_lem o s x h = (insert-is_sorted o s x h, λ p. count-insert less p s x)

  merge-sorted_from :
      (o : IsOrder less) (n : ℕ) (m : A) (a b : List A)
      → sorted_from less m a ≡ true
      → sorted_from less m b ≡ true
      → length a + length b ≤ n
      → sorted_from less m (merge_loop less n a b) ≡ true
  unfolding sorted_from merge_loop
  merge-sorted_from o zero m [] b ha hb le = hb
  merge-sorted_from o zero m (x ∷ a) b ha hb le = absurd (omega arith)
  merge-sorted_from o (suc n) m [] b ha hb le = hb
  merge-sorted_from o (suc n) m (x ∷ a) [] ha hb le = ha
  merge-sorted_from o (suc n) m (x ∷ a) (y ∷ b) ha hb le = elim (Bool-cases (less y x)) [
    | inl e ↦
        let rest : sorted_from less y (merge_loop less n (x ∷ a) b) ≡ true =
          merge-sorted_from o n y (x ∷ a) b (ground (arith, ha, o.asymmetric y x e))
            (ground (arith, hb)) (omega arith) in
        ground (arith, e, hb, rest)
    | inr e ↦
        let rest : sorted_from less x (merge_loop less n a (y ∷ b)) ≡ true =
          merge-sorted_from o n x a (y ∷ b) (ground (arith, ha)) (ground (arith, hb, e))
            (omega arith) in
        ground (arith, e, ha, rest)
  ]

  merge-is_sorted :
      (o : IsOrder less) (n : ℕ) (a b : List A)
      → is_sorted less a ≡ true
      → is_sorted less b ≡ true
      → length a + length b ≤ n
      → is_sorted less (merge_loop less n a b) ≡ true
  unfolding is_sorted sorted_from merge_loop
  merge-is_sorted o zero [] b ha hb le = hb
  merge-is_sorted o zero (x ∷ a) b ha hb le = absurd (omega arith)
  merge-is_sorted o (suc n) [] b ha hb le = hb
  merge-is_sorted o (suc n) (x ∷ a) [] ha hb le = ha
  merge-is_sorted o (suc n) (x ∷ a) (y ∷ b) ha hb le = elim (Bool-cases (less y x)) [
    | inl e ↦ rw e (
        merge-sorted_from o n y (x ∷ a) b (ground (arith, ha, o.asymmetric y x e)) hb (omega arith))
    | inr e ↦ rw e (merge-sorted_from o n x a (y ∷ b) ha (ground (arith, hb, e)) (omega arith))
  ]

  pub merge_loop_lem :
      (o : IsOrder less) (n : ℕ) (a b : List A)
      → is_sorted less a ≡ true
      → is_sorted less b ≡ true
      → length a + length b ≤ n
      → (is_sorted less (merge_loop less n a b) ≡ true)
        × ((p : A → Bool) → count p (merge_loop less n a b) ≡ count p a + count p b)
  merge_loop_lem o n a b ha hb le =
      (merge-is_sorted o n a b ha hb le, λ p. count-merge less p n a b)

  max_from_lem :
      (o : IsOrder less) (m : A) (s : List A)
      → (less (max_from less m s) m ≡ false) × All (λ e. less (max_from less m s) e ≡ false) s
  unfolding max_from
  max_from_lem o m [] =
      (elim (Bool-cases (less m m)) [ inl e ↦ o.asymmetric m m e | inr e ↦ e ], tt)
  max_from_lem o m (e ∷ s) = elim (Bool-cases (less m e)) [
    | inl h ↦
        let step : max_from less m (e ∷ s) ≡ max_from less e s = rw h refl in
        let (top, rest) = max_from_lem o e s in
        subst (Tops less m (e ∷ s)) (sym step)
          (o.transitive m e (max_from less e s) (o.asymmetric m e h) top, (top, rest))
    | inr h ↦
        let step : max_from less m (e ∷ s) ≡ max_from less m s = rw h refl in
        let (top, rest) = max_from_lem o m s in
        subst (Tops less m (e ∷ s)) (sym step)
          (top, (o.transitive e m (max_from less m s) h top, rest))
  ]

  -- For a strict weak order, `list_max` of a list that is not empty is an answer that is not less
  -- than any element of the list.
  pub list_max_lem :
      (o : IsOrder less) (x : A) (s : List A)
      → (m : A) × (list_max less (x ∷ s) ≡ some m) × All (λ e. less m e ≡ false) (x ∷ s)
  unfolding list_max
  list_max_lem o x s = (max_from less x s, refl, max_from_lem o x s)
