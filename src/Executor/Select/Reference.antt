-- ===== src/Executor/Select/Reference.antt =====
-- The rows that `executeSelect` of src/executor.ts selects, without its plans.
use yasd.Prelude.{
  ℕ, zero, suc, ◌≡◌, refl, sym, ap, ◌∙◌, subst, Bool, true, false, Option, none, some, List, [],
  ◌∷◌, take, drop, ◌==◌, arith,
}
use yasd.Sql.Syntax.{Where}
use yasd.Executor.Result.{Result, ok, err, ok_injective}
use yasd.Executor.Maps.{get}
use yasd.Executor.Values.{Scalars, Row}
use yasd.Executor.Where.{satisfies}
use yasd.Executor.Collect.{collect, collect_row, kept, Scan, select_row, scan_row, scan_found, scan}
use yasd.Executor.Collect.Merge.{gathered, tail_ok}
use yasd.Executor.Select.{scan_all, scan_all_found, scan_all_row}

module _ {N : Type 0} (scalars : Scalars N) where
  abbrev Rows : Type 0
  Rows = List (ℕ × Row N)

  select_row-ok :
      (p : ℕ × Row N) (s : Scan scalars) (qs : Rows)
      → s.0 ≡ ok qs
      → (select_row scalars p s).0 ≡ ok (p ∷ qs)
  select_row-ok p (ok rs, n) qs h = ground arith
  select_row-ok p (err e, n) qs h = absurd (ground arith)

  -- What the loop over the rows behind comes to.
  unfoldable pub Takes : (ℕ → ℕ → Scan scalars) → Rows → Type 0
  Takes next qs = (skip n : ℕ) → (next skip (suc n)).0 ≡ ok (take (suc n) (drop skip qs))

  scan_kept :
      (b : Bool) (next : ℕ → ℕ → Scan scalars) (p : ℕ × Row N) (skip n : ℕ) (qs : Rows)
      → Takes next qs
      → (scan_row scalars (ok b) next p skip (suc n)).0
        ≡ ok (take (suc n) (drop skip (kept scalars b p qs)))
  unfolding scan_row Takes
  scan_kept false next p skip n qs f = f skip n
  scan_kept true next p (suc skip) n qs f = f skip n
  scan_kept true next p zero zero qs f = refl
  scan_kept true next p zero (suc n) qs f = select_row-ok p (next zero (suc n)) _ (f zero n)

  pub gathered_ok :
      (b : Bool) (p : ℕ × Row N) (qs ps : Rows) (rest : Result Rows)
      → rest ≡ ok qs
      → gathered scalars (ok b) p rest ≡ ok ps
      → kept scalars b p qs ≡ ps
  gathered_ok b p qs ps (ok rs) e h = ground arith
  gathered_ok b p qs ps (err f) e h = absurd (ground arith)

  scan_row-gathered :
      (r : Result Bool) (next : ℕ → ℕ → Scan scalars) (p : ℕ × Row N) (skip n : ℕ)
      (rest : Result Rows) (ps : Rows)
      → ((qs : Rows) → rest ≡ ok qs → Takes next qs)
      → gathered scalars r p rest ≡ ok ps
      → (scan_row scalars r next p skip (suc n)).0 ≡ ok (take (suc n) (drop skip ps))
  scan_row-gathered (err e) next p skip n rest ps f h = absurd (ground arith)
  scan_row-gathered (ok b) next p skip n rest ps f h =
      let (qs, e) = tail_ok scalars (ok b) p rest ps h in
      subst
        (λ ts. (scan_row scalars (ok b) next p skip (suc n)).0 ≡ ok (take (suc n) (drop skip ts)))
        (gathered_ok b p qs ps rest e h) (scan_kept b next p skip n qs (f qs e))

  module _ (w : Option (Where N)) (rows : Rows) where
    scan_found-collect_row :
        (o : Option (Row N)) (id : ℕ) (next : ℕ → ℕ → Scan scalars) (skip n : ℕ)
        (rest : Result Rows) (ps : Rows)
        → ((qs : Rows) → rest ≡ ok qs → Takes next qs)
        → collect_row scalars w o id rest ≡ ok ps
        → (scan_found scalars w o next id skip (suc n)).0 ≡ ok (take (suc n) (drop skip ps))
    unfolding Takes
    scan_found-collect_row none id next skip n rest ps f h = f ps h skip n
    scan_found-collect_row (some row) id next skip n rest ps f h =
        scan_row-gathered (satisfies scalars w row) next (id, row) skip n rest ps f h

    drop-nil : (n : ℕ) → drop {A = ℕ × Row N} n [] ≡ []
    drop-nil zero = refl
    drop-nil (suc n) = refl

    pub scan-collect :
        (ids : List ℕ) (ps : Rows)
        → collect scalars w rows ids ≡ ok ps
        → Takes (scan scalars w rows ids) ps
    unfolding scan collect Takes
    scan-collect [] ps h skip n =
        subst (λ ts. ok [] ≡ ok (take (suc n) ts))
          (sym (drop-nil skip) ∙ ap (drop skip) (ok_injective h)) refl
    scan-collect (id ∷ ids) ps h skip n =
        scan_found-collect_row (get ◌==◌ id rows) id (scan scalars w rows ids) skip n
          (collect scalars w rows ids) ps (λ qs e. scan-collect ids qs e) h

    unfoldable pub InScan : (r : Result Rows) → Scan scalars → Type 0
    InScan r s = (qs : Rows) → r ≡ ok qs → s.0 ≡ ok qs

    scan_all_row-gathered :
        (r : Result Bool) (p : ℕ × Row N) (s : Scan scalars) (rest : Result Rows)
        → InScan rest s
        → InScan (gathered scalars r p rest) (scan_all_row scalars r s p)
    unfolding InScan
    scan_all_row-gathered (err e) p s rest f ps h = absurd (ground arith)
    scan_all_row-gathered (ok false) p s rest f ps h =
        let (qs, e) = tail_ok scalars (ok false) p rest ps h in
        f qs e ∙ ap ok (gathered_ok false p qs ps rest e h)
    scan_all_row-gathered (ok true) p s rest f ps h =
        let (qs, e) = tail_ok scalars (ok true) p rest ps h in
        select_row-ok p s qs (f qs e) ∙ ap ok (gathered_ok true p qs ps rest e h)

    scan_all_found-collect_row :
        (o : Option (Row N)) (id : ℕ) (s : Scan scalars) (rest : Result Rows)
        → InScan rest s
        → InScan (collect_row scalars w o id rest) (scan_all_found scalars w o id s)
    unfolding InScan
    scan_all_found-collect_row none id s rest f = f
    scan_all_found-collect_row (some row) id s rest f =
        scan_all_row-gathered (satisfies scalars w row) (id, row) s rest f

    pub scan_all-collect :
        (ids : List ℕ) → InScan (collect scalars w rows ids) (scan_all scalars w rows ids)
    unfolding scan_all collect InScan
    scan_all-collect [] ps h = h
    scan_all-collect (id ∷ ids) ps h =
        scan_all_found-collect_row (get ◌==◌ id rows) id (scan_all scalars w rows ids)
          (collect scalars w rows ids) (scan_all-collect ids) ps h
