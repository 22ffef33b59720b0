-- ===== src/Tests/Query.antt =====
-- Runs of src/query-utils.ts.
use yasd.Prelude.{◌≡◌, refl, true, false, some, arith}
use yasd.Text.{Text, codes}
use yasd.Query.Like.{only_wildcards, retry, attempt, step, run, match_like}
use yasd.Query.Pattern.{like}
use yasd.Query.Greedy.{match_like-like}

abbrev keep : Text → Text
keep t = t

match_like-like_example :
    match_like keep (codes "ababc") (codes "a%b_") ≡ some (like (codes "a%b_") (codes "ababc"))
match_like-like_example =
    match_like-like keep (codes "ababc") (codes "a%b_") (refl, (refl, (refl, (refl, (refl, tt)))))
      (omega arith)

matched : match_like keep (codes "ababc") (codes "a%b_") ≡ some true
unfolding match_like run step attempt retry only_wildcards
matched = refl

-- A `%` of the text is taken for the wildcard's own character.
percent_missed : match_like keep (codes "%abc") (codes "%c") ≡ some false
unfolding match_like run step attempt retry only_wildcards
percent_missed = refl

percent_like : like (codes "%c") (codes "%abc") ≡ true
unfolding like
percent_like = refl
