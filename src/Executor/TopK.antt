-- ===== src/Executor/TopK.antt =====
-- `TopK` of src/query-utils.ts: the smallest `k` values in a heap that has the greatest on top.
use yasd.Prelude.{
  ℕ, zero, suc, ◌+◌, ◌*◌, ◌/◌, ◌&&◌, Option, none, some, List, [], ◌∷◌, ◌++◌, length, ltb, ◌==◌,
  if◌then◌else◌,
}
use yasd.Executor.Values.{Order, equal}
use yasd.Executor.Where.{is_below, is_above}

module _ {A : Type 0} where
  unfoldable pub get_elem? : List A → ℕ → Option A
  get_elem? [] i = none
  get_elem? (a ∷ xs) zero = some a
  get_elem? (a ∷ xs) (suc i) = get_elem? xs i

  unfoldable pub set_elem : ℕ → A → List A → List A
  set_elem i b [] = []
  set_elem zero b (a ∷ xs) = b ∷ xs
  set_elem (suc i) b (a ∷ xs) = a ∷ set_elem i b xs

  abbrev exchanged : ℕ → ℕ → Option A → Option A → List A → List A
  exchanged i j (some a) (some b) xs = set_elem i b (set_elem j a xs)
  exchanged i j none b xs = xs
  exchanged i j (some a) none xs = xs

  -- `[h[i], h[j]] = [h[j], h[i]]`
  unfoldable pub exchange : ℕ → ℕ → List A → List A
  unfolding get_elem? set_elem
  exchange i j xs = exchanged i j (get_elem? xs i) (get_elem? xs j) xs

module _ {A : Type 0} (compare : A → A → Order) where
  abbrev compared_elems : Option A → Option A → Order
  compared_elems (some a) (some b) = compare a b
  compared_elems none b = equal
  compared_elems (some a) none = equal

  -- `this.compare(h[i], h[j])`
  unfoldable pub compare_at : ℕ → ℕ → List A → Order
  unfolding get_elem?
  compare_at i j h = compared_elems (get_elem? h i) (get_elem? h j)

  -- The first loop of `add`, on fuel.
  unfoldable pub sift_up : ℕ → ℕ → List A → List A
  unfolding compare_at exchange
  sift_up zero i h = h
  sift_up (suc fuel) zero h = h
  sift_up (suc fuel) (suc i) h =
      let rest = sift_up fuel (i / 2) (exchange (i / 2) (suc i) h) in
      if is_below (compare_at (i / 2) (suc i) h) then rest else h

  -- The greater of the children, where the left one is there.
  unfoldable pub greater_child : ℕ → List A → ℕ
  unfolding compare_at
  greater_child i h =
      let child = i * 2 + 1 in
      if ltb (suc child) (length h) && is_above (compare_at (suc child) child h)
      then suc child
      else child

  -- The second loop of `add`, on fuel.
  unfoldable pub sift_down : ℕ → ℕ → List A → List A
  unfolding compare_at exchange greater_child
  sift_down zero i h = h
  sift_down (suc fuel) i h =
      let child = greater_child i h in
      let rest = sift_down fuel child (exchange i child h) in
      if ltb (i * 2 + 1) (length h) && is_below (compare_at i child h) then rest else h

  unfoldable pub replace_top : A → List A → List A
  unfolding sift_down
  replace_top a [] = []
  replace_top a (top ∷ h) =
      if is_below (compare a top) then sift_down (suc (length h)) 0 (a ∷ h) else top ∷ h

  -- `add`
  unfoldable pub add_top : ℕ → A → List A → List A
  unfolding sift_up replace_top
  add_top k a h =
      if k == 0
      then h
      else if ltb (length h) k
      then sift_up (length h) (length h) (h ++ a ∷ [])
      else replace_top a h

  unfoldable pub add_tops : ℕ → List A → List A → List A
  unfolding add_top
  add_tops k [] h = h
  add_tops k (a ∷ xs) h = add_tops k xs (add_top k a h)

  -- `heap.sort(compare)`, which keeps the order of equal elements.
  unfoldable pub insert_sorted : A → List A → List A
  insert_sorted a [] = a ∷ []
  insert_sorted a (b ∷ bs) =
      let rest = insert_sorted a bs in if is_above (compare a b) then b ∷ rest else a ∷ b ∷ bs

  unfoldable pub sorted : List A → List A
  unfolding insert_sorted
  sorted [] = []
  sorted (a ∷ xs) = insert_sorted a (sorted xs)
