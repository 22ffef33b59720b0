-- ===== src/Query/Greedy.antt =====
-- The search of `matchLike` of src/query-utils.ts goes back to the last wildcard only.
use yasd.Prelude.{
  ℕ, zero, suc, ◌+◌, ◌*◌, ◌≤◌, ◌<◌, ◌≡◌, refl, sym, ap, ◌∙◌, Bool, true, false, ◌||◌, Option, none,
  some, [], ◌∷◌, length, ◌==◌, arith, Bool-cases, inl, inr,
}
use yasd.Text.{Text}
use yasd.Query.Like.{Saved, only_wildcards, fits, retry, step, run, match_like}
use yasd.Query.Pattern.{like, IsPlain, like-only_wildcards}
use yasd.Query.Saved.{
  Run, here, next, like-one, like-some_rest, later, Leads, later_end, later_wildcard, like-later,
}

-- The steps that the search may still take: as many as the pattern is long for each position.
abbrev cost : ℕ → Text → ℕ
cost k [] = 0
cost k (c ∷ t) = k + cost k t

cost-Run : (k : ℕ) (ps r p t : Text) → Run ps r p t → cost k t ≤ cost k r
cost-Run k ps r p t here = omega arith
cost-Run k ps r p t (next q c s f g) = omega (arith, cost-Run k ps r (q ∷ p) (c ∷ t) s)

abbrev budget : ℕ → Saved → Text → Text → ℕ
budget k none p t = cost k t + length p
budget k (some (ps, r)) p t = cost k r + length p

abbrev IsSavedPlain : ℕ → Saved → Type 0
IsSavedPlain k none = Unit {0}
IsSavedPlain k (some (ps, r)) = IsPlain r × (length ps < k)

-- A state of the search in a text without `%`.
record Searching (k : ℕ) (saved : Saved) (p t : Text) : Type 0 where
  pub text : IsPlain t
  pub kept : IsSavedPlain k saved
  pub leads : Leads saved p t
  pub pattern : length p < k

-- The search from here answers as the patterns say, within `n` steps.
abbrev Answers : ℕ → ℕ → Type 0
Answers k n =
    (t p : Text) (saved : Saved)
    → Searching k saved p t
    → budget k saved p t ≤ n
    → run n t p saved ≡ some (like p t || later saved)

retry-like :
    (k n c : ℕ) (cs p : Text) (saved : Saved)
    → Answers k n
    → Searching k saved p (c ∷ cs)
    → budget k saved p (c ∷ cs) ≤ suc n
    → like p (c ∷ cs) ≡ false
    → retry (run n) saved ≡ some (like p (c ∷ cs) || later saved)
unfolding retry
retry-like k n c cs p none ih s b e = rw e refl
retry-like k n c cs p (some (ps, [])) ih s b e =
    absurd (omega (arith, cost-Run k ps [] p (c ∷ cs) s.leads, s.pattern))
retry-like k n c cs p (some (ps, x ∷ r)) ih s b e =
    ih r ps (some (ps, r))
      (record {
        text = s.kept.0.1;
        kept = (s.kept.0.1, s.kept.1);
        leads = here;
        pattern = s.kept.1;
      })
      (omega (arith, s.kept.1))
    ∙ rw e (ap some (like-later ps r))

extended :
    (k q c : ℕ) (p t : Text) (saved : Saved)
    → Searching k saved (q ∷ p) (c ∷ t)
    → fits q c ≡ true
    → (q == b'%') ≡ false
    → Searching k saved p t
extended k q c p t none s f g = record {
  text = s.text.1;
  kept = tt;
  leads = tt;
  pattern = omega (arith, s.pattern);
}
extended k q c p t (some (ps, r)) s f g = record {
  text = s.text.1;
  kept = s.kept;
  leads = next q c s.leads f g;
  pattern = omega (arith, s.pattern);
}

plain_fits : (q c : ℕ) → (c == b'%') ≡ false → fits q c ≡ true → (q == b'%') ≡ false
plain_fits q c h f = ground arith

module _ (next : Text → Text → Saved → Option Bool) (q c : ℕ) (ps cs : Text) (saved : Saved) where
  step-fits : fits q c ≡ true → step next c cs (q ∷ ps) saved ≡ next cs ps saved
  unfolding step
  step-fits f = rw f refl

  step_wildcard :
      fits q c ≡ false
      → (q == b'%') ≡ true
      → step next c cs (q ∷ ps) saved ≡ next (c ∷ cs) ps (some (ps, c ∷ cs))
  unfolding step
  step_wildcard f w = rw (f, w) refl

  step-retry :
      fits q c ≡ false → (q == b'%') ≡ false → step next c cs (q ∷ ps) saved ≡ retry next saved
  unfolding step
  step-retry f w = rw (f, w) refl

budget_fits :
    (k n q c : ℕ) (p t : Text) (saved : Saved)
    → budget k saved (q ∷ p) (c ∷ t) ≤ suc n
    → budget k saved p t ≤ n
budget_fits k n q c p t none b = omega arith
budget_fits k n q c p t (some (ps, r)) b = omega arith

budget_wildcard :
    (k n q : ℕ) (p t : Text) (saved : Saved)
    → Leads saved (q ∷ p) t
    → budget k saved (q ∷ p) t ≤ suc n
    → budget k (some (p, t)) p t ≤ n
budget_wildcard k n q p t none l b = omega arith
budget_wildcard k n q p t (some (ps, r)) l b = omega (arith, cost-Run k ps r (q ∷ p) t l)

step-like :
    (k n c : ℕ) (cs p : Text) (saved : Saved)
    → Answers k n
    → Searching k saved p (c ∷ cs)
    → budget k saved p (c ∷ cs) ≤ suc n
    → step (run n) c cs p saved ≡ some (like p (c ∷ cs) || later saved)
unfolding step like
step-like k n c cs [] saved ih s b = retry-like k n c cs [] saved ih s b refl
step-like k n c cs (q ∷ ps) saved ih s b = elim (Bool-cases (fits q c)) [
  | inl f ↦
      let w = plain_fits q c s.text.0 f in
      step-fits (run n) q c ps cs saved f
      ∙ ih cs ps saved (extended k q c ps cs saved s f w) (budget_fits k n q c ps cs saved b)
      ∙ rw (like-one q ps (c ∷ cs) w, f) refl
  | inr f ↦ elim (Bool-cases (q == b'%')) [
    | inl w ↦
        step_wildcard (run n) q c ps cs saved f w
        ∙ ih (c ∷ cs) ps (some (ps, c ∷ cs))
            (record {
              text = s.text;
              kept = (s.text, omega (arith, s.pattern));
              leads = here;
              pattern = omega (arith, s.pattern);
            })
            (budget_wildcard k n q ps (c ∷ cs) saved s.leads b)
        ∙ ap some (
            sym (later_wildcard saved q ps (c ∷ cs) w s.leads)
            ∙ rw (like-some_rest q ps (c ∷ cs) w) refl)
    | inr w ↦
        step-retry (run n) q c ps cs saved f w
        ∙ retry-like k n c cs (q ∷ ps) saved ih s b (like-one q ps (c ∷ cs) w ∙ rw f refl)
  ]
]

run_end :
    (p : Text) (saved : Saved)
    → Leads saved p []
    → some (only_wildcards p) ≡ some (like p [] || later saved)
run_end p saved l = rw (later_end saved p l, like-only_wildcards p) (ground arith)

budget_positive :
    (k c : ℕ) (p t : Text) (saved : Saved) → Leads saved p (c ∷ t) → k ≤ budget k saved p (c ∷ t)
budget_positive k c p t none l = omega arith
budget_positive k c p t (some (ps, r)) l = omega (arith, cost-Run k ps r p (c ∷ t) l)

run-like : (k n : ℕ) → Answers k n
unfolding run
run-like k zero [] p saved s b = run_end p saved s.leads
run-like k (suc n) [] p saved s b = run_end p saved s.leads
run-like k zero (c ∷ cs) p saved s b =
    absurd (omega (arith, budget_positive k c p cs saved s.leads, s.pattern))
run-like k (suc n) (c ∷ cs) p saved s b = step-like k n c cs p saved (run-like k n) s b

cost-length : (k : ℕ) (t : Text) → cost k t ≡ length t * k
cost-length k [] = omega arith
cost-length k (c ∷ t) = rw (cost-length k t) (omega arith)

-- The search of `matchLike` goes back to the last `%` only, and answers as the pattern says: `%` for
-- any characters, `_` for one, any other for itself. This is for a text without `%` whose length and
-- the pattern's stay within the limit on the steps, so that it is never met.
pub match_like-like :
    (fold : Text → Text) (value pattern : Text)
    → IsPlain (fold value)
    → length (fold value) * suc (length (fold pattern)) + length (fold pattern) ≤ 1000000
    → match_like fold value pattern ≡ some (like (fold pattern) (fold value))
unfolding match_like
match_like-like fold value pattern h b =
    let k = suc (length (fold pattern)) in
    run-like k 1000000 (fold value) (fold pattern) none
      (record { text = h; kept = tt; leads = tt; pattern = omega arith })
      (rw (cost-length k (fold value)) b)
    ∙ ground arith
