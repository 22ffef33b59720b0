-- ===== src/Executor/Maps.antt =====
-- JavaScript's `Map`, as the list of its pairs in the order of insertion, under a test of the keys.
pub mod Numbers
pub mod Lookup
pub mod Weights
use yasd.Prelude.{
  ℕ, Bool, true, false, not, ◌||◌, Option, none, some, List, [], ◌∷◌, ◌++◌, if◌then◌else◌,
}

module _ {K V : Type 0} (same : K → K → Bool) where
  unfoldable pub get : K → List (K × V) → Option V
  get k [] = none
  get k ((j, v) ∷ m) = if same j k then some v else get k m

  unfoldable pub put : K → V → List (K × V) → List (K × V)
  put k v [] = (k, v) ∷ []
  put k v ((j, u) ∷ m) = if same j k then (j, v) ∷ m else (j, u) ∷ put k v m

  unfoldable pub remove : K → List (K × V) → List (K × V)
  remove k [] = []
  remove k ((j, v) ∷ m) = if same j k then m else (j, v) ∷ remove k m

module _ {A : Type 0} (same : A → A → Bool) where
  -- `Set.has`
  unfoldable pub has : A → List A → Bool
  has a [] = false
  has a (b ∷ bs) = same b a || has a bs

  -- `Set.add`, at the end.
  unfoldable pub add : A → List A → List A
  unfolding has
  add a s = if has a s then s else s ++ a ∷ []

  unfoldable pub add_all : List A → List A → List A
  add_all [] s = s
  add_all (a ∷ bs) s = add_all bs (add a s)

  -- `Set.delete`
  unfoldable pub discard : A → List A → List A
  discard a [] = []
  discard a (b ∷ bs) = if same b a then bs else b ∷ discard a bs

-- `Array.filter`
unfoldable pub filter : {A : Type 0} → (A → Bool) → List A → List A
filter p [] = []
filter p (a ∷ bs) = let rest = filter p bs in if p a then a ∷ rest else rest
