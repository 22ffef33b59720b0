-- ===== src/Tests/Queues.antt =====
-- Runs of src/deque.ts.
use yasd.Prelude.{ℕ, ◌≡◌, refl, some, List, [], ◌∷◌}
use yasd.Deque
use yasd.Deque.Calls.{Op, push_op, shift_op, pop_op, drain_op, list_all, run_all, count, item}
use yasd.Deque.Refinement.{empty-Represents, run_all-list_all}

abbrev ops : List (Op ℕ)
ops = push_op 1 ∷ push_op 2 ∷ push_op 3 ∷ shift_op ∷ pop_op ∷ drain_op ∷ shift_op ∷ []

run_all-list_all_example : run_all ops Deque.empty ≡ list_all ops []
run_all-list_all_example = run_all-list_all ops Deque.empty [] empty-Represents

-- First in, first out.
first_out :
    list_all {T = ℕ} (push_op 1 ∷ push_op 2 ∷ shift_op ∷ []) []
    ≡ count 1 ∷ count 2 ∷ item (some 1) ∷ []
unfolding list_all
first_out = refl
