-- ===== src/Executor/Prepared/Bounds.antt =====
-- What the cache of parsed statements of src/executor.ts holds, and how much.
use yasd.Prelude.{
  ℕ, suc, ◌+◌, ◌-◌, ◌≤◌, ◌<◌, ◌≡◌, refl, sym, ap, ◌∙◌, subst, Bool, true, false, ◌||◌, Option, none,
  some, List, [], ◌∷◌, ◌++◌, length, length-append, ltb, leb, if◌then◌else◌, if_rule, leb→le, arith,
  some_injective,
}
use yasd.Text.{Text, text_eq, text_eq_iff, utf8_byte_length}
use yasd.Sql.Syntax.{Statement}
use yasd.Sql.Numeric.{Numbers}
use yasd.Sql.Result.{Result, ok, err}
use yasd.Sql.Statements.{parse}
use yasd.Executor.Maps.{get}
use yasd.Executor.Prepared.{Statements, make_room, remembered, remember, fresh, looked_up, prepared}

module _ {N : Type 0} (numbers : Numbers N) where
  -- The bytes of the keys.
  unfoldable pub key_bytes : List (Text × Statement N) → ℕ
  key_bytes [] = 0
  key_bytes ((key, s) ∷ entries) = utf8_byte_length key + key_bytes entries

  -- Every entry is the statement of its key.
  unfoldable pub AreParsed : List (Text × Statement N) → Type 0
  AreParsed [] = Unit {0}
  AreParsed ((key, s) ∷ entries) = (parse numbers key ≡ ok s) × AreParsed entries

  -- At most 128 statements and 1 MiB of text, counted right, each the statement of its text.
  unfoldable pub IsFaithful : Statements N → Type 0
  IsFaithful c =
      (length c.entries ≤ 128)
      × (c.bytes ≤ 1048576)
      × (c.bytes ≡ key_bytes c.entries)
      × AreParsed c.entries

  key_bytes-append :
      (entries : List (Text × Statement N)) (sql : Text) (s : Statement N)
      → key_bytes (entries ++ (sql, s) ∷ []) ≡ key_bytes entries + utf8_byte_length sql
  unfolding key_bytes
  key_bytes-append [] sql s = omega arith
  key_bytes-append ((key, t) ∷ entries) sql s = omega (arith, key_bytes-append entries sql s)

  append-AreParsed :
      (entries : List (Text × Statement N)) (sql : Text) (s : Statement N)
      → AreParsed entries
      → parse numbers sql ≡ ok s
      → AreParsed (entries ++ (sql, s) ∷ [])
  unfolding AreParsed
  append-AreParsed [] sql s h e = (e, tt)
  append-AreParsed ((key, t) ∷ entries) sql s (p, h) e = (p, append-AreParsed entries sql s h e)

  -- What the loop leaves has room for the text.
  Roomy : ℕ → Statements N → Type 0
  Roomy added c =
      (length c.entries < 128)
      × (c.bytes + added ≤ 1048576)
      × (c.bytes ≡ key_bytes c.entries)
      × AreParsed c.entries

  make_room-Roomy :
      (added : ℕ) (entries : List (Text × Statement N)) (bytes : ℕ)
      → added ≤ 65536
      → bytes ≡ key_bytes entries
      → AreParsed entries
      → Roomy added (make_room numbers added entries bytes)
  unfolding Roomy make_room key_bytes AreParsed
  make_room-Roomy added [] bytes h b a = (omega arith, omega arith, b, tt)
  make_room-Roomy added ((key, s) ∷ entries) bytes h b (p, a) =
      if_rule (Roomy added) (leb 128 (suc (length entries)) || ltb 1048576 (bytes + added)) _ _
        (λ _. make_room-Roomy added entries (bytes - utf8_byte_length key) h (omega arith) a)
        (λ q. (ground arith, ground arith, b, (p, a)))

  remembered-IsFaithful :
      (sql : Text) (s : Statement N) (c : Statements N)
      → Roomy (utf8_byte_length sql) c
      → parse numbers sql ≡ ok s
      → IsFaithful (remembered numbers sql s c)
  unfolding Roomy IsFaithful remembered
  remembered-IsFaithful sql s c (l, b, k, a) e = (
    omega (arith, length-append c.entries ((sql, s) ∷ [])),
    b,
    omega (arith, key_bytes-append c.entries sql s),
    append-AreParsed c.entries sql s a e,
  )

  remember-IsFaithful :
      (sql : Text) (s : Statement N) (c : Statements N)
      → IsFaithful c
      → parse numbers sql ≡ ok s
      → IsFaithful (remember numbers sql s c)
  unfolding remember IsFaithful
  remember-IsFaithful sql s c (l, b, k, a) e =
      if_rule IsFaithful (leb (utf8_byte_length sql) 65536) _ _
        (λ h.
          remembered-IsFaithful sql s _ (make_room-Roomy _ c.entries c.bytes (leb→le _ _ h) k a) e)
        (λ _. (l, b, k, a))

  -- An entry that is looked up, under the test of its key.
  entry-parse :
      (b : Bool) (t s : Statement N) (rest : Option (Statement N)) (P : Statement N → Type 0)
      → (b ≡ true → P t)
      → (rest ≡ some s → P s)
      → (if b then some t else rest) ≡ some s
      → P s
  entry-parse true t s rest P f g h = subst P (some_injective h) (f refl)
  entry-parse false t s rest P f g h = g h

  get-parse :
      (sql : Text) (entries : List (Text × Statement N)) (s : Statement N)
      → AreParsed entries
      → get text_eq sql entries ≡ some s
      → parse numbers sql ≡ ok s
  unfolding AreParsed get
  get-parse sql [] s a g = absurd (ground arith)
  get-parse sql ((key, t) ∷ entries) s (p, a) g =
      entry-parse (text_eq key sql) t s (get text_eq sql entries) (λ u. parse numbers sql ≡ ok u)
        (λ h. ap (parse numbers) (sym ((text_eq_iff key sql).0 h)) ∙ p) (get-parse sql entries s a)
        g

  fresh-parse :
      (sql : Text) (c : Statements N) (r : Result (Statement N))
      → parse numbers sql ≡ r
      → IsFaithful c
      → ((fresh numbers sql r c).0 ≡ r) × IsFaithful (fresh numbers sql r c).1
  fresh-parse sql c (err e) h i = (refl, i)
  fresh-parse sql c (ok s) h i = (refl, remember-IsFaithful sql s c i h)

  looked_up-parse :
      (sql : Text) (c : Statements N) (found : Option (Statement N))
      → get text_eq sql c.entries ≡ found
      → IsFaithful c
      → ((looked_up numbers sql found c).0 ≡ parse numbers sql)
        × IsFaithful (looked_up numbers sql found c).1
  unfolding IsFaithful
  looked_up-parse sql c none g i = fresh-parse sql c (parse numbers sql) refl i
  looked_up-parse sql c (some s) g (l, b, k, a) =
      (sym (get-parse sql c.entries s a g), (l, b, k, a))

  -- From a cache that holds at most 128 statements, whose texts have at most 1 MiB together and are
  -- counted right, each with what `parse` makes of it, `prepared` gives on every text what `parse`
  -- gives on it, its errors included, whatever the cache has dropped, and leaves the cache the same way.
  pub prepared-parse :
      (sql : Text) (c : Statements N)
      → IsFaithful c
      → ((prepared numbers sql c).0 ≡ parse numbers sql) × IsFaithful (prepared numbers sql c).1
  unfolding prepared
  prepared-parse sql c i = looked_up-parse sql c (get text_eq sql c.entries) refl i
