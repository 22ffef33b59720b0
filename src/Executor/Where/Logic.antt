-- ===== src/Executor/Where/Logic.antt =====
-- The three-valued logic of the conditions of src/executor.ts.
use yasd.Prelude.{
  ◌≡◌, refl, sym, ap, ◌∙◌, Bool, true, false, none, some, List, [], ◌∷◌, if◌then◌else◌, arith,
  Bool-cases, inl, inr,
}
use yasd.Sql.Syntax.{
  Expression, eq, ge, le, Where, and_clause, or_clause, comparison, in_list, between,
}
use yasd.Executor.Result.{ok, ◌>>=◌}
use yasd.Executor.Values.{Scalars, Row, values_equal}
use yasd.Executor.Where.{
  Truth, or_truth, is_null_value, evaluate, compare_by, compared, among, evaluate_where,
}

module _ {N : Type 0} (scalars : Scalars N) where
  -- A list of alternatives `e = v`, from the left.
  unfoldable pub any_equal : Expression N → Where N → List (Expression N) → Where N
  any_equal e w [] = w
  any_equal e w (f ∷ fs) = any_equal e (or_clause w (comparison e eq f)) fs

  -- On every row, `e BETWEEN low AND high` has the value of `e >= low AND e <= high`, true, false or
  -- unknown, also where `e` or a bound is null.
  pub between-and_clause :
      (row : Row N) (e low high : Expression N)
      → evaluate_where scalars row (between e low high)
        ≡ evaluate_where scalars row (and_clause (comparison e ge low) (comparison e le high))
  unfolding evaluate_where compared compare_by
  between-and_clause row e low high = ground arith

  -- What the loop of `IN` knows in front of the alternatives that are left.
  abbrev so_far : Bool → Truth
  so_far unknown = if unknown then none else some false

  comparison-null :
      (row : Row N) (e f : Expression N)
      → is_null_value (evaluate row e) ≡ true
      → evaluate_where scalars row (comparison e eq f) ≡ ok none
  unfolding evaluate_where
  comparison-null row e f h = ground arith

  comparison-unknown :
      (row : Row N) (e f : Expression N)
      → is_null_value (evaluate row f) ≡ true
      → evaluate_where scalars row (comparison e eq f) ≡ ok none
  unfolding evaluate_where compared
  comparison-unknown row e f h = ground arith

  comparison-known :
      (row : Row N) (e f : Expression N)
      → is_null_value (evaluate row e) ≡ false
      → is_null_value (evaluate row f) ≡ false
      → evaluate_where scalars row (comparison e eq f)
        ≡ ok (some (values_equal scalars (evaluate row e) (evaluate row f)))
  unfolding evaluate_where compared compare_by
  comparison-known row e f h k = ground arith

  -- A comparison with `=` throws nothing.
  comparison-ok :
      (row : Row N) (e f : Expression N)
      → (t : Truth) × (evaluate_where scalars row (comparison e eq f) ≡ ok t)
  comparison-ok row e f = elim (Bool-cases (is_null_value (evaluate row e))) [
    | inl h ↦ (none, comparison-null row e f h)
    | inr h ↦ elim (Bool-cases (is_null_value (evaluate row f))) [
      | inl k ↦ (none, comparison-unknown row e f k)
      | inr k ↦ (
        some (values_equal scalars (evaluate row e) (evaluate row f)),
        comparison-known row e f h k,
      )
    ]
  ]

  or_clause-ok :
      (row : Row N) (v w : Where N) (s t : Truth)
      → evaluate_where scalars row v ≡ ok s
      → evaluate_where scalars row w ≡ ok t
      → evaluate_where scalars row (or_clause v w) ≡ ok (or_truth s t)
  unfolding evaluate_where
  or_clause-ok row v w s t h k =
      ap (λ r. r >>= λ a. evaluate_where scalars row w >>= λ b. ok (or_truth a b)) h
      ∙ ap (λ r. r >>= λ b. ok (or_truth s b)) k

  any_equal-true :
      (row : Row N) (e : Expression N) (w : Where N) (fs : List (Expression N))
      → evaluate_where scalars row w ≡ ok (some true)
      → evaluate_where scalars row (any_equal e w fs) ≡ ok (some true)
  unfolding any_equal
  any_equal-true row e w [] h = h
  any_equal-true row e w (f ∷ fs) h =
      let (t, k) = comparison-ok row e f in
      any_equal-true row e (or_clause w (comparison e eq f)) fs
        (or_clause-ok row w (comparison e eq f) (some true) t h k)

  any_equal-null :
      (row : Row N) (e : Expression N) (w : Where N) (fs : List (Expression N))
      → is_null_value (evaluate row e) ≡ true
      → evaluate_where scalars row w ≡ ok none
      → evaluate_where scalars row (any_equal e w fs) ≡ ok none
  unfolding any_equal
  any_equal-null row e w [] n h = h
  any_equal-null row e w (f ∷ fs) n h =
      any_equal-null row e (or_clause w (comparison e eq f)) fs n
        (or_clause-ok row w (comparison e eq f) none none h (comparison-null row e f n))

  or_so_far : (unknown : Bool) → or_truth (so_far unknown) none ≡ none
  or_so_far true = refl
  or_so_far false = refl

  or_false : (unknown : Bool) → or_truth (so_far unknown) (some false) ≡ so_far unknown
  or_false true = refl
  or_false false = refl

  or_true : (unknown : Bool) → or_truth (so_far unknown) (some true) ≡ some true
  or_true true = refl
  or_true false = refl

  any_equal-among :
      (row : Row N) (e : Expression N) (w : Where N) (unknown : Bool) (fs : List (Expression N))
      → is_null_value (evaluate row e) ≡ false
      → evaluate_where scalars row w ≡ ok (so_far unknown)
      → evaluate_where scalars row (any_equal e w fs)
        ≡ ok (among scalars (evaluate row e) row unknown fs)
  unfolding any_equal among
  any_equal-among row e w unknown [] n h = h
  any_equal-among row e w unknown (f ∷ fs) n h =
      let next = or_clause w (comparison e eq f) in
      elim (Bool-cases (is_null_value (evaluate row f))) [
        | inl k ↦
            any_equal-among row e next true fs n (
              or_clause-ok row w (comparison e eq f) (so_far unknown) none h
                (comparison-unknown row e f k)
              ∙ ap ok (or_so_far unknown))
            ∙ ap ok (ground arith)
        | inr k ↦ elim (Bool-cases (values_equal scalars (evaluate row e) (evaluate row f))) [
          | inl q ↦
              any_equal-true row e next fs (
                or_clause-ok row w (comparison e eq f) (so_far unknown) (some true) h
                  (comparison-known row e f n k ∙ ap (λ b. ok (some b)) q)
                ∙ ap ok (or_true unknown))
              ∙ ap ok (ground arith)
          | inr q ↦
              any_equal-among row e next unknown fs n (
                or_clause-ok row w (comparison e eq f) (so_far unknown) (some false) h
                  (comparison-known row e f n k ∙ ap (λ b. ok (some b)) q)
                ∙ ap ok (or_false unknown))
              ∙ ap ok (ground arith)
        ]
      ]

  in_list-null :
      (row : Row N) (e first : Expression N) (others : List (Expression N))
      → is_null_value (evaluate row e) ≡ true
      → evaluate_where scalars row (in_list e first others) ≡ ok none
  unfolding evaluate_where
  in_list-null row e first others n = ground arith

  in_list-among :
      (row : Row N) (e first : Expression N) (others : List (Expression N))
      → is_null_value (evaluate row e) ≡ false
      → evaluate_where scalars row (in_list e first others)
        ≡ ok (among scalars (evaluate row e) row false (first ∷ others))
  unfolding evaluate_where
  in_list-among row e first others n = ground arith

  first-among :
      (row : Row N) (e first : Expression N) (others : List (Expression N))
      → is_null_value (evaluate row e) ≡ false
      → evaluate_where scalars row (any_equal e (comparison e eq first) others)
        ≡ ok (among scalars (evaluate row e) row false (first ∷ others))
  unfolding among
  first-among row e first others n = elim (Bool-cases (is_null_value (evaluate row first))) [
    | inl k ↦
        any_equal-among row e (comparison e eq first) true others n
          (comparison-unknown row e first k)
        ∙ ap ok (ground arith)
    | inr k ↦ elim (Bool-cases (values_equal scalars (evaluate row e) (evaluate row first))) [
      | inl q ↦
          any_equal-true row e (comparison e eq first) others
            (comparison-known row e first n k ∙ ap (λ b. ok (some b)) q)
          ∙ ap ok (ground arith)
      | inr q ↦
          any_equal-among row e (comparison e eq first) false others n
            (comparison-known row e first n k ∙ ap (λ b. ok (some b)) q)
          ∙ ap ok (ground arith)
    ]
  ]

  -- On every row, `e IN (v, …)` has the value of `e = v OR …`, true, false or unknown, also where `e`
  -- or some of the alternatives are null, and throws nothing.
  pub in_list-any_equal :
      (row : Row N) (e first : Expression N) (others : List (Expression N))
      → evaluate_where scalars row (in_list e first others)
        ≡ evaluate_where scalars row (any_equal e (comparison e eq first) others)
  in_list-any_equal row e first others = elim (Bool-cases (is_null_value (evaluate row e))) [
    | inl n ↦
        in_list-null row e first others n
        ∙ sym
            (any_equal-null row e (comparison e eq first) others n (comparison-null row e first n))
    | inr n ↦ in_list-among row e first others n ∙ sym (first-among row e first others n)
  ]
