-- ===== src/Executor/Collect/Merge.antt =====
-- The loops of src/executor.ts over two lists of row numbers.
use yasd.Prelude.{
  ℕ, zero, suc, ◌+◌, ◌≤◌, ◌<◌, ◌≡◌, ◌⊎◌, refl, sym, ap, ◌∙◌, subst, Bool, true, false, Option, none,
  some, List, [], ◌∷◌, length, ◌==◌, arith, Option-cases, inl, inr,
}
use yasd.Sql.Syntax.{Where}
use yasd.Executor.Result.{Result, ok, err, SqlError, ◌>>=◌}
use yasd.Executor.Maps.{get, has}
use yasd.Executor.Maps.Numbers.{holds}
use yasd.Executor.Values.{Scalars, Row}
use yasd.Executor.Where.{satisfies}
use yasd.Executor.Collect.{collect, collect_row, kept}
use yasd.Executor.Collect.Sorted.{IsAscending, IsAscending-bound}

pub Result-cases :
    (r : Result Bool) → ((e : SqlError) × (r ≡ err e)) ⊎ ((r ≡ ok true) ⊎ (r ≡ ok false))
Result-cases (err e) = inl (e, refl)
Result-cases (ok true) = inr (inl refl)
Result-cases (ok false) = inr (inr refl)

module _ {N : Type 0} (scalars : Scalars N) where
  -- What a row under its condition adds to the rows behind it.
  abbrev pub gathered :
      Result Bool → ℕ × Row N → Result (List (ℕ × Row N)) → Result (List (ℕ × Row N))
  gathered r p rest = r >>= λ b. rest >>= λ ps. ok (kept scalars b p ps)

  dropped : (p : ℕ × Row N) (r : Result (List (ℕ × Row N))) → gathered (ok false) p r ≡ r
  dropped p (ok ps) = refl
  dropped p (err e) = refl

  pub tail_ok :
      (r : Result Bool) (p : ℕ × Row N) (rest : Result (List (ℕ × Row N))) (ps : List (ℕ × Row N))
      → gathered r p rest ≡ ok ps
      → (qs : List (ℕ × Row N)) × (rest ≡ ok qs)
  tail_ok (err e) p rest ps h = absurd (ground arith)
  tail_ok (ok b) p (err e) ps h = absurd (ground arith)
  tail_ok (ok b) p (ok qs) ps h = (qs, refl)

module _ {N : Type 0} (scalars : Scalars N) (w : Option (Where N)) (rows : List (ℕ × Row N)) where
  pub collect-none :
      (id : ℕ) (ids : List ℕ)
      → get ◌==◌ id rows ≡ none
      → collect scalars w rows (id ∷ ids) ≡ collect scalars w rows ids
  unfolding collect
  collect-none id ids h = ap (λ g. collect_row scalars w g id (collect scalars w rows ids)) h

  pub collect-some :
      (id : ℕ) (row : Row N) (ids : List ℕ)
      → get ◌==◌ id rows ≡ some row
      → collect scalars w rows (id ∷ ids)
        ≡ gathered scalars (satisfies scalars w row) (id, row) (collect scalars w rows ids)
  unfolding collect
  collect-some id row ids h = ap (λ g. collect_row scalars w g id (collect scalars w rows ids)) h

  -- The row is there and satisfies the condition.
  unfoldable pub Selects : ℕ → Row N → Type 0
  Selects id row = (get ◌==◌ id rows ≡ some row) × (satisfies scalars w row ≡ ok true)

  -- A row that is not selected adds nothing.
  collect-unselected :
      (id : ℕ) (ids : List ℕ) (ps : List (ℕ × Row N))
      → ((row : Row N) → Selects id row → ⊥)
      → collect scalars w rows (id ∷ ids) ≡ ok ps
      → collect scalars w rows ids ≡ ok ps
  unfolding Selects
  collect-unselected id ids ps f h = elim (Option-cases (get ◌==◌ id rows)) [
    | inl g ↦ sym (collect-none id ids g) ∙ h
    | inr (row, g) ↦ elim (Result-cases (satisfies scalars w row)) [
      | inl (e, s) ↦ absurd (ground (arith, collect-some id row ids g))
      | inr (inl s) ↦ absurd (f row (g, s))
      | inr (inr s) ↦
          sym (dropped scalars (id, row) (collect scalars w rows ids))
          ∙ ap (λ r. gathered scalars r (id, row) (collect scalars w rows ids)) (sym s)
          ∙ sym (collect-some id row ids g)
          ∙ h
    ]
  ]

  -- Two lists from `n` on, of which the second has every row and the first every selected one.
  unfoldable pub Agree : ℕ → List ℕ → List ℕ → Type 0
  Agree n is js =
      IsAscending n is
      × IsAscending n js
      × ((id : ℕ) (row : Row N) → n ≤ id → Selects id row → holds id is ≡ true)
      × ((id : ℕ) (row : Row N) → n ≤ id → get ◌==◌ id rows ≡ some row → holds id js ≡ true)

  -- A row that only the first list has is not there.
  collect-absent :
      (id : ℕ) (ids : List ℕ)
      → ((row : Row N) → get ◌==◌ id rows ≡ some row → ⊥)
      → collect scalars w rows (id ∷ ids) ≡ collect scalars w rows ids
  collect-absent id ids f = elim (Option-cases (get ◌==◌ id rows)) [
    | inl g ↦ collect-none id ids g
    | inr (row, g) ↦ absurd (f row g)
  ]

  -- The same row in front of both lists.
  collect-both :
      (id : ℕ) (is js : List ℕ) (ps : List (ℕ × Row N))
      → ((qs : List (ℕ × Row N))
          → collect scalars w rows js ≡ ok qs
          → collect scalars w rows is ≡ ok qs)
      → collect scalars w rows (id ∷ js) ≡ ok ps
      → collect scalars w rows (id ∷ is) ≡ ok ps
  collect-both id is js ps f h = elim (Option-cases (get ◌==◌ id rows)) [
    | inl g ↦ collect-none id is g ∙ f ps (sym (collect-none id js g) ∙ h)
    | inr (row, g) ↦
        let (qs, e) =
          tail_ok scalars (satisfies scalars w row) (id, row) (collect scalars w rows js) ps
            (sym (collect-some id row js g) ∙ h) in
        collect-some id row is g
        ∙ ap (gathered scalars (satisfies scalars w row) (id, row)) (f qs e ∙ sym e)
        ∙ sym (collect-some id row js g)
        ∙ h
  ]

  Agree-left :
      (n i j : ℕ) (is js : List ℕ) → i < j → Agree n (i ∷ is) (j ∷ js) → Agree (suc i) is (j ∷ js)
  unfolding Agree IsAscending has
  Agree-left n i j is js l (a, b, f, g) = (
    a.1,
    (omega arith, b.1),
    λ id row h s. ground (arith, f id row (omega (arith, a.0)) s),
    λ id row h s. g id row (omega (arith, a.0)) s,
  )

  Agree-right :
      (n j : ℕ) (is js : List ℕ)
      → n ≤ j
      → IsAscending (suc j) is
      → Agree n is (j ∷ js)
      → Agree (suc j) is js
  unfolding Agree IsAscending has
  Agree-right n j is js l c (a, b, f, g) = (
    c,
    b.1,
    λ id row h s. f id row (omega (arith, l)) s,
    λ id row h s. ground (arith, g id row (omega (arith, l)) s),
  )

  Agree-both : (n j : ℕ) (is js : List ℕ) → Agree n (j ∷ is) (j ∷ js) → Agree (suc j) is js
  unfolding Agree IsAscending has
  Agree-both n j is js (a, b, f, g) = (
    a.1,
    b.1,
    λ id row h s. ground (arith, f id row (omega (arith, a.0)) s),
    λ id row h s. ground (arith, g id row (omega (arith, a.0)) s),
  )

  -- The first row of the second list, in front of the first list, is not selected.
  unselected :
      (n j : ℕ) (is js : List ℕ)
      → n ≤ j
      → IsAscending (suc j) is
      → Agree n is (j ∷ js)
      → (row : Row N) → Selects j row
      → ⊥
  unfolding Agree
  unselected n j is js l c (a, b, f, g) row s =
      absurd (omega (arith, IsAscending-bound (suc j) j is c (f j row l s)))

  -- The first row of the first list, in front of the second list, is not there.
  absent :
      (n i : ℕ) (is js : List ℕ)
      → n ≤ i
      → IsAscending (suc i) js
      → Agree n (i ∷ is) js
      → (row : Row N) → get ◌==◌ i rows ≡ some row
      → ⊥
  unfolding Agree
  absent n i is js l c (a, b, f, g) row s =
      absurd (omega (arith, IsAscending-bound (suc i) i js c (g i row l s)))

  Agree-first : (n i : ℕ) (is js : List ℕ) → Agree n (i ∷ is) js → n ≤ i
  unfolding Agree IsAscending
  Agree-first n i is js (a, b, f, g) = a.0

  Agree-second : (n j : ℕ) (is js : List ℕ) → Agree n is (j ∷ js) → n ≤ j
  unfolding Agree IsAscending
  Agree-second n j is js (a, b, f, g) = b.0

  first_after : (n m i : ℕ) (is js : List ℕ) → m ≤ i → Agree n (i ∷ is) js → IsAscending m (i ∷ is)
  unfolding Agree IsAscending
  first_after n m i is js l (a, b, f, g) = (l, a.1)

  second_after : (n m j : ℕ) (is js : List ℕ) → m ≤ j → Agree n is (j ∷ js) → IsAscending m (j ∷ js)
  unfolding Agree IsAscending
  second_after n m j is js l (a, b, f, g) = (l, b.1)

  nil_after : (n : ℕ) → IsAscending n []
  unfolding IsAscending
  nil_after n = tt

  Agree-end : (n i : ℕ) (is : List ℕ) → Agree n (i ∷ is) [] → Agree (suc i) is []
  unfolding Agree IsAscending has
  Agree-end n i is (a, b, f, g) = (
    a.1,
    tt,
    λ id row h s. ground (arith, f id row (omega (arith, a.0)) s),
    λ id row h s. ground (arith, g id row (omega (arith, a.0)) s),
  )

  ℕ-cases : (i j : ℕ) → (i < j) ⊎ ((i ≡ j) ⊎ (j < i))
  ℕ-cases i j = ground arith

  -- The loop over either of two such lists comes to the same rows, if that over the second throws
  -- nothing.
  pub collect-Agree :
      (k n : ℕ) (is js : List ℕ) (ps : List (ℕ × Row N))
      → length is + length js ≤ k
      → Agree n is js
      → collect scalars w rows js ≡ ok ps
      → collect scalars w rows is ≡ ok ps
  collect-Agree k n [] [] ps l a h = h
  collect-Agree zero n (i ∷ is) js ps l a h = absurd (omega arith)
  collect-Agree zero n [] (j ∷ js) ps l a h = absurd (omega arith)
  collect-Agree (suc k) n [] (j ∷ js) ps l a h =
      let b = Agree-second n j [] js a in
      collect-Agree k (suc j) [] js ps (omega arith) (Agree-right n j [] js b (nil_after (suc j)) a)
        (collect-unselected j js ps (unselected n j [] js b (nil_after (suc j)) a) h)
  collect-Agree (suc k) n (i ∷ is) [] ps l a h =
      let b = Agree-first n i is [] a in
      collect-absent i is (absent n i is [] b (nil_after (suc i)) a)
      ∙ collect-Agree k (suc i) is [] ps (omega arith) (Agree-end n i is a) h
  collect-Agree (suc k) n (i ∷ is) (j ∷ js) ps l a h = elim (ℕ-cases i j) [
    | inl i<j ↦
        collect-absent i is (
          absent n i is (j ∷ js) (Agree-first n i is (j ∷ js) a)
            (second_after n (suc i) j (i ∷ is) js i<j a) a)
        ∙ collect-Agree k (suc i) is (j ∷ js) ps (omega arith) (Agree-left n i j is js i<j a) h
    | inr (inl i≡j) ↦
        subst (λ m. collect scalars w rows (m ∷ is) ≡ ok ps) (sym i≡j)
          (collect-both j is js ps
            (λ qs e.
              collect-Agree k (suc j) is js qs (omega arith)
                (Agree-both n j is js (subst (λ m. Agree n (m ∷ is) (j ∷ js)) i≡j a)) e)
            h)
    | inr (inr j<i) ↦
        let b = Agree-second n j (i ∷ is) js a in
        collect-Agree k (suc j) (i ∷ is) js ps (omega arith)
          (Agree-right n j (i ∷ is) js b (first_after n (suc j) i is (j ∷ js) j<i a) a)
          (collect-unselected j js ps
            (unselected n j (i ∷ is) js b (first_after n (suc j) i is (j ∷ js) j<i a) a) h)
  ]
