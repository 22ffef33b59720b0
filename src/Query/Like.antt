-- ===== src/Query/Like.antt =====
-- `matchLike` of src/query-utils.ts. A position is what follows it, and the counter of steps counts
-- down from its limit.
use yasd.Prelude.{ℕ, zero, suc, Bool, true, false, ◌&&◌, ◌||◌, Option, none, some, [], ◌∷◌, ◌==◌}
use yasd.Text.{Text}

-- `star + 1` and `retry`: the pattern after the last wildcard, and the text it is tried on.
abbrev pub Saved : Type 0
Saved = Option (Text × Text)

-- `while (pat[j] === "%") j++; return j === pat.length;`
unfoldable pub only_wildcards : Text → Bool
only_wildcards [] = true
only_wildcards (q ∷ ps) = (q == b'%') && only_wildcards ps

-- `pat[j] === "_" || pat[j] === text[i]`
abbrev pub fits : ℕ → ℕ → Bool
fits q c = (q == b'_') || (q == c)

-- `j = star + 1; i = ++retry;`, or `return false` if there was no wildcard.
unfoldable pub retry : (Text → Text → Saved → Option Bool) → Saved → Option Bool
retry next none = some false
retry next (some (ps, [])) = next [] ps (some (ps, []))
retry next (some (ps, x ∷ r)) = next r ps (some (ps, r))

-- The branches of the loop: the pattern's character fits, or is the wildcard.
unfoldable pub attempt :
    (Text → Text → Saved → Option Bool) → Bool → Bool → ℕ → Text → Text → Saved → Option Bool
unfolding retry
attempt next true wildcard c cs ps saved = next cs ps saved
attempt next false true c cs ps saved = next (c ∷ cs) ps (some (ps, c ∷ cs))
attempt next false false c cs ps saved = retry next saved

-- The body of the loop at a text that is not empty.
unfoldable pub step : (Text → Text → Saved → Option Bool) → ℕ → Text → Text → Saved → Option Bool
unfolding retry attempt
step next c cs [] saved = retry next saved
step next c cs (q ∷ ps) saved = attempt next (fits q c) (q == b'%') c cs ps saved

-- The loop, with the steps that are left; `none` if the limit is passed.
unfoldable pub run : ℕ → Text → Text → Saved → Option Bool
unfolding only_wildcards step
run n [] pat saved = some (only_wildcards pat)
run zero (c ∷ cs) pat saved = none
run (suc n) (c ∷ cs) pat saved = step (run n) c cs pat saved

-- `fold` is `toLowerCase`.
unfoldable pub match_like : (Text → Text) → Text → Text → Option Bool
unfolding run
match_like fold value pattern = run 1000000 (fold value) (fold pattern) none
