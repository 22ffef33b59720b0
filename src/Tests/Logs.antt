-- ===== src/Tests/Logs.antt =====
-- Runs of src/metrics.ts.
use yasd.Prelude.{ℕ, ◌≡◌, refl, true, false, none, List, [], ◌∷◌, take, ltb, leb}
use yasd.Text.{codes}
use yasd.Metrics.{Numbers, SlowEntry, validate_non_negative_number, check_slow_threshold, is_slow}
use yasd.Metrics.Refinement.{
  Call, recorded, thresholded, perform_all, all_slow, log_of, perform_all-all_slow,
}

abbrev whole : Numbers ℕ
whole = record {
  is_positive = λ x. ltb 0 x;
  at_least = λ x y. leb y x;
  is_negative = λ x. false;
  is_finite = λ x. true;
}

abbrev entry : ℕ → SlowEntry ℕ
entry d = record { name = codes "GET"; duration = d; at = 0; argc = none }

abbrev calls : List (Call ℕ)
calls =
    recorded (entry 5)
    ∷ recorded (entry 1)
    ∷ recorded (entry 7)
    ∷ thresholded 1
    ∷ recorded (entry 2)
    ∷ []

perform_all-all_slow_example :
    (perform_all whole calls (log_of whole 2 3 [])).entries ≡ take 2 (all_slow whole calls 3 [])
perform_all-all_slow_example = perform_all-all_slow whole calls 2 3

newest_two : all_slow whole calls 3 [] ≡ entry 2 ∷ entry 7 ∷ entry 5 ∷ []
unfolding validate_non_negative_number check_slow_threshold is_slow
newest_two = refl
