-- ===== src/Metrics/Refinement.antt =====
-- The log of src/metrics.ts against the list of all that was slow.
use yasd.Prelude.{
  ℕ, zero, suc, ◌≤◌, ◌≡◌, refl, sym, ap, ◌∙◌, Option, none, some, List, [], ◌∷◌, length, take, ltb,
  arith, if◌then◌else◌, Bool-cases, inl, inr, if_rule,
}
use yasd.Metrics.{
  Numbers, SlowEntry, SlowLog, check_slow_threshold, with_threshold, set_threshold, is_slow, capped,
  record_slow, clear,
}

-- The calls that change the log.
pub data Call (D : Type 0) : Type 0 where
  recorded : SlowEntry D → Call D
  thresholded : D → Call D
  cleared : Call D

module _ {D : Type 0} (numbers : Numbers D) where
  abbrev pub perform : Call D → SlowLog D → SlowLog D
  perform (recorded e) log = (record_slow numbers e log).1
  perform (thresholded ms) log = set_threshold numbers ms log
  perform cleared log = clear numbers log

  abbrev pub perform_all : List (Call D) → SlowLog D → SlowLog D
  perform_all [] log = log
  perform_all (c ∷ cs) log = perform_all cs (perform c log)

  -- The threshold after a call, and everything slow since the last clear, the newest first.
  abbrev pub next_threshold : Call D → D → D
  next_threshold (recorded e) t = t
  next_threshold (thresholded ms) t = elim (check_slow_threshold numbers ms) [
    | none ↦ t
    | some u ↦ u
  ]
  next_threshold cleared t = t

  abbrev pub next_slow : Call D → D → List (SlowEntry D) → List (SlowEntry D)
  next_slow (recorded e) t es = if is_slow numbers t e.duration then e ∷ es else es
  next_slow (thresholded ms) t es = es
  next_slow cleared t es = []

  abbrev pub all_slow : List (Call D) → D → List (SlowEntry D) → List (SlowEntry D)
  all_slow [] t es = es
  all_slow (c ∷ cs) t es = all_slow cs (next_threshold c t) (next_slow c t es)

  take-take : (n : ℕ) (es : List (SlowEntry D)) → take n (take (suc n) es) ≡ take n es
  take-take zero es = refl
  take-take (suc n) [] = refl
  take-take (suc n) (e ∷ es) = ap (λ x. e ∷ x) (take-take n es)

  take_all : (n : ℕ) (es : List (SlowEntry D)) → length es ≤ n → take n es ≡ es
  take_all zero [] h = refl
  take_all zero (e ∷ es) h = absurd (omega arith)
  take_all (suc n) [] h = refl
  take_all (suc n) (e ∷ es) h = ap (λ x. e ∷ x) (take_all n es (omega arith))

  capped-take : (n : ℕ) (es : List (SlowEntry D)) → capped numbers n es ≡ take n es
  unfolding capped
  capped-take n es =
      if_rule (λ x. x ≡ take n es) (ltb n (length es)) (take n es) es (λ _. refl)
        (λ h. sym (take_all n es (ground arith)))

  abbrev pub log_of : ℕ → D → List (SlowEntry D) → SlowLog D
  log_of n t es = record { entries = es; threshold = t; cap = n }

  take-nil : (n : ℕ) → take {A = SlowEntry D} n [] ≡ []
  take-nil zero = refl
  take-nil (suc n) = refl

  take-newest :
      (n : ℕ) (e : SlowEntry D) (es : List (SlowEntry D)) → take n (e ∷ take n es) ≡ take n (e ∷ es)
  take-newest zero e es = refl
  take-newest (suc n) e es = ap (λ x. e ∷ x) (take-take n es)

  recorded-take :
      (e : SlowEntry D) (n : ℕ) (t : D) (es : List (SlowEntry D))
      → (record_slow numbers e (log_of n t (take n es))).1
        ≡ log_of n t (take n (next_slow (recorded e) t es))
  unfolding record_slow
  recorded-take e n t es = elim (Bool-cases (is_slow numbers t e.duration)) [
    | inl h ↦ rw h (ap (log_of n t) (capped-take n (e ∷ take n es) ∙ take-newest n e es))
    | inr h ↦ rw h refl
  ]

  thresholded-take :
      (u : Option D) (n : ℕ) (t : D) (es : List (SlowEntry D))
      → with_threshold numbers u (log_of n t es) ≡ log_of n (elim u [ none ↦ t | some v ↦ v ]) es
  unfolding with_threshold
  thresholded-take none n t es = refl
  thresholded-take (some v) n t es = refl

  perform-take :
      (c : Call D) (n : ℕ) (t : D) (es : List (SlowEntry D))
      → perform c (log_of n t (take n es))
        ≡ log_of n (next_threshold c t) (take n (next_slow c t es))
  unfolding set_threshold clear
  perform-take (recorded e) n t es = recorded-take e n t es
  perform-take (thresholded ms) n t es =
      thresholded-take (check_slow_threshold numbers ms) n t (take n es)
  perform-take cleared n t es = ap (log_of n t) (sym (take-nil n))

  perform_all-take :
      (cs : List (Call D)) (n : ℕ) (t : D) (es : List (SlowEntry D))
      → (perform_all cs (log_of n t (take n es))).entries ≡ take n (all_slow cs t es)
  perform_all-take [] n t es = refl
  perform_all-take (c ∷ cs) n t es =
      ap (λ log. (perform_all cs log).entries) (perform-take c n t es)
      ∙ perform_all-take cs n (next_threshold c t) (next_slow c t es)

  -- After any calls the log holds the newest of what was slow since the last clear, as many as its cap,
  -- the newest first; slow is by the threshold at the time, which a refused threshold leaves as it is.
  pub perform_all-all_slow :
      (cs : List (Call D)) (n : ℕ) (t : D)
      → (perform_all cs (log_of n t [])).entries ≡ take n (all_slow cs t [])
  perform_all-all_slow cs n t =
      ap (λ es. (perform_all cs (log_of n t es)).entries) (sym (take-nil n))
      ∙ perform_all-take cs n t []
