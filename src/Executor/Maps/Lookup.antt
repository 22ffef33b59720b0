-- ===== src/Executor/Maps/Lookup.antt =====
-- Lookups in the maps of src/executor.ts behind a change.
use yasd.Prelude.{
  ℕ, ◌≡◌, ◌↔◌, refl, sym, subst, Bool, true, false, some, List, [], ◌∷◌, if_rule, arith, ◌==◌,
}
use yasd.Executor.Maps.{get, put, remove, has, discard}
use yasd.Executor.Maps.Numbers.{holds}

-- A test of equality.
abbrev pub IsTest : {K : Type 0} → (K → K → Bool) → Type 0
IsTest {K} same = (j k : K) → (same j k ≡ true) ↔ (j ≡ k)

swap_test :
    {K : Type 0} (same : K → K → Bool)
    → IsTest same
    → (i j k : K) → same i j ≡ true
    → same j k ≡ false
    → same i k ≡ false
swap_test same l i j k h n = subst (λ x. same x k ≡ false) (sym ((l i j).0 h)) n

module _ {K V : Type 0} (same : K → K → Bool) (l : IsTest same) where
  pub get-put_same : (k : K) (v : V) (m : List (K × V)) → get same k (put same k v m) ≡ some v
  unfolding get put
  get-put_same k v [] = ground (arith, (l k k).1 refl)
  get-put_same k v ((i, u) ∷ m) =
      if_rule (λ r. get same k r ≡ some v) (same i k) ((i, v) ∷ m) ((i, u) ∷ put same k v m)
        (λ h. ground arith) (λ h. ground (arith, get-put_same k v m))

  pub get-put_other :
      (k j : K) (v : V) (m : List (K × V))
      → same j k ≡ false
      → get same k (put same j v m) ≡ get same k m
  unfolding get put
  get-put_other k j v [] n = ground arith
  get-put_other k j v ((i, u) ∷ m) n =
      if_rule (λ r. get same k r ≡ get same k ((i, u) ∷ m)) (same i j) ((i, v) ∷ m)
        ((i, u) ∷ put same j v m) (λ h. ground (arith, swap_test same l i j k h n))
        (λ h. ground (arith, get-put_other k j v m n))

  pub get-remove_other :
      (k j : K) (m : List (K × V)) → same j k ≡ false → get same k (remove same j m) ≡ get same k m
  unfolding get remove
  get-remove_other k j [] n = refl
  get-remove_other k j ((i, u) ∷ m) n =
      if_rule (λ r. get same k r ≡ get same k ((i, u) ∷ m)) (same i j) m ((i, u) ∷ remove same j m)
        (λ h. ground (arith, swap_test same l i j k h n))
        (λ h. ground (arith, get-remove_other k j m n))

-- Another number stays.
pub has-discard :
    (i j : ℕ) (is : List ℕ)
    → (j == i) ≡ false
    → holds i is ≡ true
    → holds i (discard ◌==◌ j is) ≡ true
unfolding has discard
has-discard i j [] n h = h
has-discard i j (k ∷ is) n h =
    if_rule (λ r. holds i r ≡ true) (k == j) is (k ∷ discard ◌==◌ j is) (λ e. ground arith)
      (λ e. ground (arith, has-discard i j is n))
