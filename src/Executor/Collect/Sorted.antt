-- ===== src/Executor/Collect/Sorted.antt =====
-- The row numbers of src/executor.ts in ascending order.
use yasd.Prelude.{
  ℕ, suc, ◌≤◌, ◌≡◌, refl, ap, ◌∙◌, Bool, true, false, ◌||◌, List, [], ◌∷◌, ◌++◌, leb, ◌==◌, ==_iff,
  if_rule, arith,
}
use yasd.Executor.Maps.{has, add, add_all, filter}
use yasd.Executor.Maps.Numbers.{holds, has-filter, has-append}
use yasd.Executor.Collect.{insert_id, sort_ids}

-- Ascending from `n` on, each number once.
unfoldable pub IsAscending : ℕ → List ℕ → Type 0
IsAscending n [] = Unit {0}
IsAscending n (i ∷ is) = (n ≤ i) × IsAscending (suc i) is

unfoldable pub IsDistinct : List ℕ → Type 0
IsDistinct [] = Unit {0}
IsDistinct (i ∷ is) = (holds i is ≡ false) × IsDistinct is

pub IsAscending-weaken : (m n : ℕ) (is : List ℕ) → m ≤ n → IsAscending n is → IsAscending m is
unfolding IsAscending
IsAscending-weaken m n [] h a = tt
IsAscending-weaken m n (i ∷ is) h (b, a) = (omega arith, a)

pub IsAscending-bound : (n i : ℕ) (is : List ℕ) → IsAscending n is → holds i is ≡ true → n ≤ i
unfolding IsAscending has
IsAscending-bound n i [] a h = absurd (ground arith)
IsAscending-bound n i (j ∷ is) (b, a) h = ground (arith, IsAscending-bound (suc j) i is a)

has-insert_id : (i j : ℕ) (is : List ℕ) → holds i (insert_id j is) ≡ ((j == i) || holds i is)
unfolding insert_id has
has-insert_id i j [] = refl
has-insert_id i j (k ∷ is) =
    if_rule (λ r. holds i r ≡ ((j == i) || holds i (k ∷ is))) (leb j k) (j ∷ k ∷ is)
      (k ∷ insert_id j is) (λ h. refl) (λ h. ground (arith, has-insert_id i j is))

pub has-sort_ids : (i : ℕ) (is : List ℕ) → holds i (sort_ids is) ≡ holds i is
unfolding sort_ids has
has-sort_ids i [] = refl
has-sort_ids i (j ∷ is) = has-insert_id i j (sort_ids is) ∙ ap (◌||◌ (j == i)) (has-sort_ids i is)

insert_id-IsAscending :
    (n i : ℕ) (is : List ℕ)
    → n ≤ i
    → holds i is ≡ false
    → IsAscending n is
    → IsAscending n (insert_id i is)
unfolding insert_id IsAscending has
insert_id-IsAscending n i [] h f a = (h, tt)
insert_id-IsAscending n i (j ∷ is) h f (b, a) =
    if_rule (IsAscending n) (leb i j) (i ∷ j ∷ is) (j ∷ insert_id i is)
      (λ l. (h, (ground arith, a)))
      (λ l. (b, insert_id-IsAscending (suc j) i is (ground arith) (ground arith) a))

pub sort_ids-IsAscending : (is : List ℕ) → IsDistinct is → IsAscending 0 (sort_ids is)
unfolding sort_ids IsAscending IsDistinct
sort_ids-IsAscending [] d = tt
sort_ids-IsAscending (i ∷ is) (f, d) =
    insert_id-IsAscending 0 i (sort_ids is) (omega arith) (has-sort_ids i is ∙ f)
      (sort_ids-IsAscending is d)

append-IsDistinct :
    (is : List ℕ) (j : ℕ) → holds j is ≡ false → IsDistinct is → IsDistinct (is ++ j ∷ [])
unfolding IsDistinct has
append-IsDistinct [] j h d = (refl, tt)
append-IsDistinct (i ∷ is) j h (f, d) =
    (ground (arith, has-append i is (j ∷ []), ==_iff i j), append-IsDistinct is j (ground arith) d)

add-IsDistinct : (j : ℕ) (is : List ℕ) → IsDistinct is → IsDistinct (add ◌==◌ j is)
unfolding add
add-IsDistinct j is d =
    if_rule IsDistinct (holds j is) is (is ++ j ∷ []) (λ h. d) (λ h. append-IsDistinct is j h d)

pub add_all-IsDistinct : (js is : List ℕ) → IsDistinct is → IsDistinct (add_all ◌==◌ js is)
unfolding add_all
add_all-IsDistinct [] is d = d
add_all-IsDistinct (j ∷ js) is d = add_all-IsDistinct js (add ◌==◌ j is) (add-IsDistinct j is d)

pub filter-IsDistinct : (p : ℕ → Bool) (is : List ℕ) → IsDistinct is → IsDistinct (filter p is)
unfolding filter IsDistinct
filter-IsDistinct p [] d = tt
filter-IsDistinct p (i ∷ is) (f, d) =
    if_rule IsDistinct (p i) (i ∷ filter p is) (filter p is)
      (λ h. (ground (arith, has-filter i p is), filter-IsDistinct p is d))
      (λ h. filter-IsDistinct p is d)
