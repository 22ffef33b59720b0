-- ===== src/Executor/Keys.antt =====
-- `assertPrimaryKeyUnique` of src/executor.ts.
use yasd.Prelude.{ℕ, Bool, false, not, ◌||◌, Option, none, some, List, [], ◌∷◌, ◌==◌}
use yasd.Text.{Text, text_eq}
use yasd.Executor.Result.{Result, ok, throw_if, ◌>>◌, primary_key_duplicate}
use yasd.Executor.Maps.{get, has}
use yasd.Executor.Values.{Scalars, Row}
use yasd.Executor.Table.{field}

-- `existing !== undefined && !replacedRows.has(existing)`
unfoldable pub is_taken : List ℕ → Option ℕ → Bool
unfolding has
is_taken replaced none = false
is_taken replaced (some id) = not (has ◌==◌ id replaced)

module _ {N : Type 0} (scalars : Scalars N) where
  -- `valueIdentity` of src/query-utils.ts on the key of a row.
  unfoldable pub key_of : Text → Row N → Text
  unfolding field
  key_of key row = scalars.json (field key row)

  unfoldable pub assert_unique :
      Text → List (Text × ℕ) → List ℕ → List Text → List (Row N) → Result (Unit {0})
  unfolding key_of has get is_taken
  assert_unique key index replaced seen [] = ok tt
  assert_unique key index replaced seen (row ∷ rows) = do
    let k = key_of key row
    throw_if (has text_eq k seen || is_taken replaced (get text_eq k index)) primary_key_duplicate
    assert_unique key index replaced (k ∷ seen) rows

  -- `replaced` are the rows that the candidates take the place of.
  unfoldable pub assert_primary_key_unique :
      Option Text → List (Text × ℕ) → List ℕ → List (Row N) → Result (Unit {0})
  unfolding assert_unique
  assert_primary_key_unique none index replaced rows = ok tt
  assert_primary_key_unique (some key) index replaced rows =
      assert_unique key index replaced [] rows
