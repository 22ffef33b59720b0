-- ===== src/Cache/Write.antt =====
-- src/cache.ts: the methods of `KVCache` that write: `set`, `setAt`, `mset`, `del`,
-- `clearPrefix`, `clear`, and the eviction of the least recently used entries.
use mathlib.Core.Option
use yasd.Prelude.{
  ℕ, zero, suc, ◌+◌, Bool, true, false, ◌&&◌, ◌||◌, Option, none, some, List, [], ◌∷◌, ◌++◌, length,
  ltb, if◌then◌else◌,
}
use yasd.Text.{Text, text_eq, starts_with, colon}
use yasd.OrderedMap
use yasd.Cache.State.{Entry, Options, Json, Cache, Action, pure, gets, lift, modify, ◌>>=◌, ◌>>◌}
use yasd.Cache.Core.{
  peek, is_expired, map_delete, take_out, put_in, add_miss, add_expiry, now, bump_version,
  remove_expired, assert_key_fits, assert_value_fits, resolve_ttl, deadline_after, is_past,
}
use yasd.Cache.Read.{default_json_bytes}

-- `KVBatchEntry`
pub record BatchEntry (V : Type 0) : Type 0 where
  pub key : Text
  pub value : V
  pub ttl : Option ℕ

-- An entry of `mset` that has passed the checks.
pub record Checked (V : Type 0) : Type 0 where
  pub key : Text
  pub value : V
  pub expires_at : Option ℕ

-- `key === prefix || key.startsWith(prefix + ":")`
unfoldable pub in_namespace : Text → Text → Bool
in_namespace prefix key = text_eq key prefix || starts_with key (prefix ++ colon ∷ [])

module _ {V : Type 0} where
  -- The condition of the eviction loops.
  unfoldable pub is_over : Options → Cache V → Bool
  is_over o c =
      (ltb o.max_entries (OrderedMap.size c.map) || ltb o.max_bytes c.bytes)
      && ltb 0 (OrderedMap.size c.map)

  -- `this.map.keys().next()` with its entry.
  unfoldable pub oldest : Cache V → Option (Text × Entry V)
  oldest c = elim c.map.entries [ [] ↦ none | (k, _) ∷ _ ↦ Option.map (λ e. (k, e)) (peek k c) ]

  unfoldable pub evict_out : Text → Entry V → Cache V → Cache V
  evict_out key e c = let c' = take_out key e c in record c' { evictions = c'.evictions + 1 }

  -- `this.map.clear()`: the keys are deleted in order, each with the callback.
  unfoldable pub map_clear : List Text → Cache V → Cache V
  map_clear [] c = c
  map_clear (k ∷ ks) c = map_clear ks (map_delete k c)

  unfoldable pub take_old : Text → Option (Entry V) → Cache V → Cache V
  take_old key none c = c
  take_old key (some old) c = take_out key old c

  unfoldable pub wipe : Cache V → Cache V
  wipe c = record (map_clear (OrderedMap.keys c.map) c) { bytes = 0 }

module _ {V : Type 0} (clock : ℕ → ℕ) (o : Options) (json : Json V) where
  unfoldable pub evict_entry : Text → Entry V → Action V (Unit {0})
  evict_entry key e = do
    t ← now clock
    if is_expired e t
        then remove_expired o key e
        else (do modify (evict_out key e); bump_version o key)

  -- The loop of `evictIfNeeded`; each round takes one entry out.
  unfoldable pub evict_rounds : ℕ → Action V (Unit {0})
  evict_rounds zero c = pure tt c
  evict_rounds (suc n) c = elim (is_over o c) [
    | false ↦ pure tt c
    | true ↦ elim (oldest c) [
      | none ↦ pure tt c
      | some (k, e) ↦ (do evict_entry k e; evict_rounds n) c
    ]
  ]

  unfoldable pub evict_if_needed : Action V (Unit {0})
  evict_if_needed c = evict_rounds (OrderedMap.size c.map) c

  unfoldable pub drop_old : Text → Option (Entry V) → Action V (Unit {0})
  drop_old key none = pure tt
  drop_old key (some old) = do modify (take_out key old); bump_version o key

  -- A deadline that has passed: the old entry goes, and the write counts as an expiry and a miss.
  unfoldable pub set_expired : Text → Action V (Unit {0})
  set_expired key = do
    old ← gets (peek key)
    drop_old key old
    modify (λ c. add_miss (add_expiry c))

  unfoldable pub set_live : Text → Entry V → Action V (Unit {0})
  set_live key e = do
    old ← gets (peek key)
    modify (take_old key old)
    modify (put_in key e)
    bump_version o key
    evict_if_needed

  unfoldable pub set_owned : Text → V → Option ℕ → Action V (Unit {0})
  set_owned key value expires_at = do
    size ← assert_value_fits o json key value
    past ← is_past clock o expires_at
    if past
        then set_expired key
        else set_live key (record { value = value; expires_at = expires_at; size = size })

  unfoldable pub set : Text → V → Option ℕ → Action V V
  set key value ttl = do
    assert_key_fits o key
    owned ← lift (json.clone value o.max_value_bytes)
    resolved ← resolve_ttl clock o key ttl
    expires_at ← deadline_after clock o resolved
    set_owned key owned expires_at
    pure value

  unfoldable pub set_at : Text → V → Option ℕ → Action V V
  set_at key value expires_at = do
    assert_key_fits o key
    owned ← lift (json.clone value o.max_value_bytes)
    set_owned key owned expires_at
    pure value

  unfoldable pub del_found : Text → Option (Entry V) → Action V Bool
  del_found key none = pure false
  del_found key (some e) = do
    t ← now clock
    if is_expired e t
        then (do remove_expired o key e; pure false)
        else (do modify (take_out key e); bump_version o key; pure true)

  unfoldable pub del : Text → Action V Bool
  del key = do assert_key_fits o key; found ← gets (peek key); del_found key found

  unfoldable pub clear_keys : Text → List Text → ℕ → Action V ℕ
  clear_keys prefix [] count = pure count
  clear_keys prefix (k ∷ ks) count =
      let skip = clear_keys prefix ks count in
      let drop = (do
        found ← gets (peek k)
        modify (take_old k found)
        bump_version o k
        clear_keys prefix ks (count + 1)) in
      if in_namespace prefix k then drop else skip

  unfoldable pub clear_prefix : Text → Action V ℕ
  clear_prefix prefix = do
    assert_key_fits o prefix
    ks ← gets (λ c. OrderedMap.keys c.map)
    clear_keys prefix ks 0

  unfoldable pub bump_all : List Text → Action V (Unit {0})
  bump_all [] = pure tt
  bump_all (k ∷ ks) = do bump_version o k; bump_all ks

  unfoldable pub clear : Action V (Unit {0})
  clear = do ks ← gets (λ c. OrderedMap.keys c.map); bump_all ks; modify wipe

  unfoldable pub mset_check : List (BatchEntry V) → Action V (List (Checked V))
  mset_check [] = pure []
  mset_check (b ∷ bs) = do
    value ← lift (json.clone b.value default_json_bytes)
    resolved ← resolve_ttl clock o b.key b.ttl
    expires_at ← deadline_after clock o resolved
    assert_value_fits o json b.key value
    rest ← mset_check bs
    pure (record { key = b.key; value = value; expires_at = expires_at } ∷ rest)

  unfoldable pub mset_write : List (Checked V) → Action V (Unit {0})
  mset_write [] = pure tt
  mset_write (e ∷ es) = do set_owned e.key e.value e.expires_at; mset_write es

  unfoldable pub mset : List (BatchEntry V) → Action V ℕ
  mset entries = do checked ← mset_check entries; mset_write checked; pure (length entries)
