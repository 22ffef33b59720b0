-- ===== src/Executor/Prepared.antt =====
-- The cache of parsed statements of src/executor.ts.
pub mod Bounds
use yasd.Prelude.{
  ℕ, zero, suc, ◌+◌, ◌-◌, ◌*◌, Bool, true, false, ◌||◌, Option, none, some, List, [], ◌∷◌, ◌++◌,
  length, ltb, leb, if◌then◌else◌,
}
use yasd.Text.{Text, text_eq, utf8_byte_length}
use yasd.Sql.Syntax.{Statement}
use yasd.Sql.Numeric.{Numbers}
use yasd.Sql.Result.{Result, ok, err}
use yasd.Sql.Statements.{parse}
use yasd.Executor.Maps.{get}

-- `statements` and `statementBytes`.
pub record Statements (N : Type 0) : Type 0 where
  pub entries : List (Text × Statement N)
  pub bytes : ℕ

module _ {N : Type 0} (numbers : Numbers N) where
  -- The loop that drops the oldest statements.
  unfoldable pub make_room : ℕ → List (Text × Statement N) → ℕ → Statements N
  make_room added [] bytes = record { entries = []; bytes = bytes }
  make_room added ((key, s) ∷ entries) bytes =
      let rest = make_room added entries (bytes - utf8_byte_length key) in
      if leb 128 (suc (length entries)) || ltb (1024 * 1024) (bytes + added)
      then rest
      else record { entries = (key, s) ∷ entries; bytes = bytes }

  unfoldable pub remembered : Text → Statement N → Statements N → Statements N
  remembered sql s c = record {
    entries = c.entries ++ (sql, s) ∷ [];
    bytes = c.bytes + utf8_byte_length sql;
  }

  unfoldable pub remember : Text → Statement N → Statements N → Statements N
  unfolding make_room remembered
  remember sql s c =
      let added = utf8_byte_length sql in
      if leb added (64 * 1024) then remembered sql s (make_room added c.entries c.bytes) else c

  abbrev pub fresh :
      Text → Result (Statement N) → Statements N → Result (Statement N) × Statements N
  fresh sql (err e) c = (err e, c)
  fresh sql (ok s) c = (ok s, remember sql s c)

  abbrev pub looked_up :
      Text → Option (Statement N) → Statements N → Result (Statement N) × Statements N
  looked_up sql (some s) c = (ok s, c)
  looked_up sql none c = fresh sql (parse numbers sql) c

  -- `prepared`
  unfoldable pub prepared : Text → Statements N → Result (Statement N) × Statements N
  unfolding get remember
  prepared sql c = looked_up sql (get text_eq sql c.entries) c
