-- ===== src/Tests/Maps.antt =====
-- Runs of src/ordered-map.ts.
use mathlib.Core.List.{lookup}
use yasd.Prelude.{ℕ, ◌≡◌, refl, some, List, [], ◌∷◌}
use yasd.Text.{Text, text_discrete}
use yasd.OrderedMap.{OrderedMap, begin, rollback, set, delete}
use yasd.OrderedMap.Chain.{update, IsDistinct}
use yasd.OrderedMap.Session.{
  Session, here, after_set, after_delete, rollback-begin, Session-IsDistinct,
}

abbrev first : Text
first = b'a' ∷ []

abbrev second : Text
second = b'b' ∷ []

abbrev two : List (Text × ℕ)
two = (first, 1) ∷ (second, 2) ∷ []

abbrev stored : OrderedMap Text ℕ
stored = record { entries = two; undo = []; frames = [] }

two-IsDistinct : IsDistinct text_discrete two
unfolding lookup text_discrete
two-IsDistinct = (refl, (refl, tt))

abbrev changed :
    Session text_discrete
      (begin stored)
      (set text_discrete (delete text_discrete (begin stored) first).0 second 5)
changed = after_set (after_delete here first) second 5

rollback-begin_example :
    rollback text_discrete
      (set text_discrete (delete text_discrete (begin stored) first).0 second 5)
    ≡ some stored
rollback-begin_example = rollback-begin text_discrete changed two-IsDistinct

Session-IsDistinct_example :
    IsDistinct text_discrete
      (set text_discrete (delete text_discrete stored first).0 first 5).entries
Session-IsDistinct_example =
    Session-IsDistinct text_discrete (after_set (after_delete here first) first 5) two-IsDistinct

-- A key that is set again stays where it is.
set_again : (set text_discrete stored first 7).entries ≡ (first, 7) ∷ (second, 2) ∷ []
unfolding set update lookup text_discrete
set_again = refl
