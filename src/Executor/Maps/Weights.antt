-- ===== src/Executor/Maps/Weights.antt =====
-- Sums over the values of a map of src/executor.ts.
use yasd.Prelude.{ℕ, ◌+◌, ◌≡◌, ap, Bool, none, some, List, [], ◌∷◌, if_rule, arith, some_injective}
use yasd.Executor.Maps.{get, put, remove}

module _ {K V : Type 0} (weight : V → ℕ) where
  unfoldable pub total : List (K × V) → ℕ
  total [] = 0
  total ((k, v) ∷ m) = weight v + total m

module _ {K V : Type 0} (same : K → K → Bool) (weight : V → ℕ) where
  pub total-put_new :
      (k : K) (v : V) (m : List (K × V))
      → get same k m ≡ none
      → total weight (put same k v m) ≡ total weight m + weight v
  unfolding total get put
  total-put_new k v [] g = omega arith
  total-put_new k v ((j, u) ∷ m) g =
      if_rule (λ r. total weight r ≡ weight u + total weight m + weight v) (same j k) ((j, v) ∷ m)
        ((j, u) ∷ put same k v m) (λ h. absurd (ground arith))
        (λ h. omega (arith, total-put_new k v m (ground arith)))

  pub total-put_old :
      (k : K) (u v : V) (m : List (K × V))
      → get same k m ≡ some u
      → total weight (put same k v m) + weight u ≡ total weight m + weight v
  unfolding total get put
  total-put_old k u v [] g = absurd (ground arith)
  total-put_old k u v ((j, w) ∷ m) g =
      if_rule (λ r. total weight r + weight u ≡ weight w + total weight m + weight v) (same j k)
        ((j, v) ∷ m) ((j, w) ∷ put same k v m)
        (λ h. let e : w ≡ u = some_injective (ground arith) in omega (arith, ap weight e))
        (λ h. omega (arith, total-put_old k u v m (ground arith)))

  pub total-remove :
      (k : K) (u : V) (m : List (K × V))
      → get same k m ≡ some u
      → total weight (remove same k m) + weight u ≡ total weight m
  unfolding total get remove
  total-remove k u [] g = absurd (ground arith)
  total-remove k u ((j, w) ∷ m) g =
      if_rule (λ r. total weight r + weight u ≡ weight w + total weight m) (same j k) m
        ((j, w) ∷ remove same k m)
        (λ h. let e : w ≡ u = some_injective (ground arith) in omega (arith, ap weight e))
        (λ h. omega (arith, total-remove k u m (ground arith)))
