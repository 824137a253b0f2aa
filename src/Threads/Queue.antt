-- ===== src/Threads/Queue.antt =====
-- How often a thread stands in a queue of threads/thread.c.
use oscourse_all_files.Common.{ℕ, ◌+◌, ◌≡◌, refl, List, [], ◌∷◌, ◌++◌, ◌==◌, if◌then◌else◌, arith}

-- The number of times that `t` stands in the list.
abbrev pub occurs : ℕ → List ℕ → ℕ
occurs t [] = 0
occurs t (x ∷ xs) = (if t == x then 1 else 0) + occurs t xs

pub occurs-append :
    (t x : ℕ) (xs : List ℕ) → occurs t (xs ++ (x ∷ [])) ≡ (if t == x then 1 else 0) + occurs t xs
occurs-append t x [] = refl
occurs-append t x (y ∷ ys) = omega (arith, occurs-append t x ys)
