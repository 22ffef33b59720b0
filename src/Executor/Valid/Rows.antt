-- ===== src/Executor/Valid/Rows.antt =====
-- The rows of a table of src/executor.ts behind a change.
use yasd.Prelude.{ℕ, suc, ◌≤◌, ◌<◌, ◌≡◌, refl, ap, none, some, List, [], ◌∷◌, ◌==◌, if_rule, arith}
use yasd.Executor.Maps.{get, put, remove}
use yasd.Executor.Values.{Row}
use yasd.Executor.Collect.Sorted.{IsAscending, IsAscending-weaken}
use yasd.Executor.Valid.{ids_of, AreBelow}

module _ {N : Type 0} where
  pub put_new-IsAscending :
      (m n : ℕ) (row : Row N) (rows : List (ℕ × Row N))
      → m ≤ n
      → AreBelow n rows
      → IsAscending m (ids_of rows)
      → IsAscending m (ids_of (put ◌==◌ n row rows))
  unfolding put IsAscending AreBelow
  put_new-IsAscending m n row [] h b a = (h, tt)
  put_new-IsAscending m n row ((i, r) ∷ rows) h (l, b) (k, a) =
      if_rule (λ s. IsAscending m (ids_of s)) (i == n) ((i, row) ∷ rows)
        ((i, r) ∷ put ◌==◌ n row rows) (λ e. (k, a))
        (λ e. (k, put_new-IsAscending (suc i) n row rows (omega arith) b a))

  AreBelow-weaken : (m n : ℕ) (rows : List (ℕ × Row N)) → m ≤ n → AreBelow m rows → AreBelow n rows
  unfolding AreBelow
  AreBelow-weaken m n [] h b = tt
  AreBelow-weaken m n ((i, r) ∷ rows) h (l, b) = (omega arith, AreBelow-weaken m n rows h b)

  put-AreBelow :
      (m n : ℕ) (row : Row N) (rows : List (ℕ × Row N))
      → n < m
      → AreBelow m rows
      → AreBelow m (put ◌==◌ n row rows)
  unfolding AreBelow put
  put-AreBelow m n row [] h b = (h, tt)
  put-AreBelow m n row ((i, r) ∷ rows) h (l, b) =
      if_rule (AreBelow m) (i == n) ((i, row) ∷ rows) ((i, r) ∷ put ◌==◌ n row rows) (λ e. (l, b))
        (λ e. (l, put-AreBelow m n row rows h b))

  pub put_new-AreBelow :
      (n : ℕ) (row : Row N) (rows : List (ℕ × Row N))
      → AreBelow n rows
      → AreBelow (suc n) (put ◌==◌ n row rows)
  put_new-AreBelow n row rows b =
      put-AreBelow (suc n) n row rows (omega arith) (AreBelow-weaken n (suc n) rows (omega arith) b)

  AreBelow-get :
      (n i : ℕ) (row : Row N) (rows : List (ℕ × Row N))
      → AreBelow n rows
      → get ◌==◌ i rows ≡ some row
      → i < n
  unfolding AreBelow get
  AreBelow-get n i row [] b h = absurd (ground arith)
  AreBelow-get n i row ((j, r) ∷ rows) (l, b) h = ground (arith, AreBelow-get n i row rows b)

  pub put_old-AreBelow :
      (n i : ℕ) (old new : Row N) (rows : List (ℕ × Row N))
      → get ◌==◌ i rows ≡ some old
      → AreBelow n rows
      → AreBelow n (put ◌==◌ i new rows)
  put_old-AreBelow n i old new rows g b =
      put-AreBelow n i new rows (AreBelow-get n i old rows b g) b

  pub put_old-ids_of :
      (i : ℕ) (old new : Row N) (rows : List (ℕ × Row N))
      → get ◌==◌ i rows ≡ some old
      → ids_of (put ◌==◌ i new rows) ≡ ids_of rows
  unfolding put get
  put_old-ids_of i old new [] g = absurd (ground arith)
  put_old-ids_of i old new ((j, r) ∷ rows) g =
      if_rule (λ s. ids_of s ≡ j ∷ ids_of rows) (j == i) ((j, new) ∷ rows)
        ((j, r) ∷ put ◌==◌ i new rows) (λ e. refl)
        (λ e. ap (◌∷◌ j) (put_old-ids_of i old new rows (ground arith)))

  pub remove-IsAscending :
      (m i : ℕ) (rows : List (ℕ × Row N))
      → IsAscending m (ids_of rows)
      → IsAscending m (ids_of (remove ◌==◌ i rows))
  unfolding remove IsAscending
  remove-IsAscending m i [] a = tt
  remove-IsAscending m i ((j, r) ∷ rows) (h, a) =
      if_rule (λ s. IsAscending m (ids_of s)) (j == i) rows ((j, r) ∷ remove ◌==◌ i rows)
        (λ e. IsAscending-weaken m (suc j) (ids_of rows) (omega arith) a)
        (λ e. (h, remove-IsAscending (suc j) i rows a))

  pub remove-AreBelow :
      (n i : ℕ) (rows : List (ℕ × Row N)) → AreBelow n rows → AreBelow n (remove ◌==◌ i rows)
  unfolding remove AreBelow
  remove-AreBelow n i [] b = tt
  remove-AreBelow n i ((j, r) ∷ rows) (l, b) =
      if_rule (AreBelow n) (j == i) rows ((j, r) ∷ remove ◌==◌ i rows) (λ e. b)
        (λ e. (l, remove-AreBelow n i rows b))

  ahead :
      (m i : ℕ) (rows : List (ℕ × Row N))
      → i < m
      → IsAscending m (ids_of rows)
      → get ◌==◌ i rows ≡ none
  unfolding get IsAscending
  ahead m i [] h a = refl
  ahead m i ((j, r) ∷ rows) h (k, a) = ground (arith, ahead (suc j) i rows (omega arith) a)

  pub get-remove_same :
      (m i : ℕ) (rows : List (ℕ × Row N))
      → IsAscending m (ids_of rows)
      → get ◌==◌ i (remove ◌==◌ i rows) ≡ none
  unfolding get remove IsAscending
  get-remove_same m i [] a = refl
  get-remove_same m i ((j, r) ∷ rows) (h, a) =
      if_rule (λ s. get ◌==◌ i s ≡ none) (j == i) rows ((j, r) ∷ remove ◌==◌ i rows)
        (λ e. ahead (suc j) i rows (ground arith) a)
        (λ e. ground (arith, get-remove_same (suc j) i rows a))
