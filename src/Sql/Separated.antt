-- ===== src/Sql/Separated.antt =====
-- The comma-separated items in brackets of src/parser.ts.
use yasd.Prelude.{not, List, [], ◌∷◌, ◌++◌, if◌then◌else◌}
use yasd.Text.{codes}
use yasd.Sql.Result.{trailing_comma}
use yasd.Sql.Parser.{Parse, pure, raise_if, ◌>>=◌, ◌>>◌, at, expect, repeat}

-- A comma that no bracket follows.
unfoldable pub separator : Parse (Unit {0})
separator = do expect (codes ","); closed ← at (codes ")"); raise_if closed trailing_comma

-- `while (this.peek() !== ")")` over items between commas.
module _ {A : Type 0} (item : Parse A) where
  unfoldable pub separated_item : List A → Parse (List A)
  separated_item acc = do
    x ← item
    closed ← at (codes ")")
    if closed then pure (acc ++ x ∷ []) else (do separator; pure (acc ++ x ∷ []))

  unfoldable pub separated : Parse (List A)
  separated = repeat (do closed ← at (codes ")"); pure (not closed)) separated_item []
