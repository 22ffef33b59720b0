-- ===== src/Executor/Maps/Numbers.antt =====
-- The sets of row numbers of src/executor.ts.
use yasd.Prelude.{
  ℕ, ◌≡◌, refl, sym, ap, Bool, true, ◌&&◌, ◌||◌, List, [], ◌∷◌, ◌++◌, ◌==◌, ==_iff, if_rule, arith,
}
use yasd.Executor.Maps.{has, add, add_all, filter}

abbrev pub holds : ℕ → List ℕ → Bool
holds i is = has ◌==◌ i is

-- Equal numbers are not told apart.
same_test : (p : ℕ → Bool) (i j : ℕ) → (j == i) ≡ true → p i ≡ p j
same_test p i j h = ap p (sym ((==_iff j i).0 h))

pub has-append : (i : ℕ) (is js : List ℕ) → holds i (is ++ js) ≡ (holds i is || holds i js)
unfolding has
has-append i [] js = refl
has-append i (k ∷ is) js = ground (arith, has-append i is js)

pub has-add : (i j : ℕ) (is : List ℕ) → holds i (add ◌==◌ j is) ≡ (holds i is || (j == i))
unfolding add has
has-add i j is =
    if_rule (λ r. holds i r ≡ (holds i is || (j == i))) (holds j is) is (is ++ j ∷ [])
      (λ h. ground (arith, same_test (λ k. holds k is) i j))
      (λ h. ground (arith, has-append i is (j ∷ [])))

pub has-add_all :
    (i : ℕ) (js is : List ℕ) → holds i (add_all ◌==◌ js is) ≡ (holds i is || holds i js)
unfolding add_all has
has-add_all i [] is = ground arith
has-add_all i (j ∷ js) is = ground (arith, has-add_all i js (add ◌==◌ j is), has-add i j is)

pub has-filter : (i : ℕ) (p : ℕ → Bool) (is : List ℕ) → holds i (filter p is) ≡ (holds i is && p i)
unfolding filter has
has-filter i p [] = refl
has-filter i p (j ∷ is) =
    if_rule (λ r. holds i r ≡ (holds i (j ∷ is) && p i)) (p j) (j ∷ filter p is) (filter p is)
      (λ h. ground (arith, has-filter i p is, same_test p i j))
      (λ h. ground (arith, has-filter i p is, same_test p i j))
