-- ===== src/Cache/Read.antt =====
-- src/cache.ts: the methods of `KVCache` that read: `get`, `mget`, `ttl`, `expiration`,
-- `getVersion`, `dump` and the statistics.
use yasd.Prelude.{ℕ, ◌+◌, ◌-◌, Option, none, some, List, [], ◌∷◌, if◌then◌else◌}
use yasd.Text.{Text, text_discrete}
use yasd.OrderedMap
use yasd.Cache.State.{Entry, Options, Json, Cache, Action, pure, gets, lift, modify, ◌>>=◌, ◌>>◌}
use yasd.Cache.Core.{peek, is_expired, put_last, add_miss, now, remove_expired, assert_key_fits}

-- The `maxBytes` that `cloneJsonValue` defaults to.
abbrev pub default_json_bytes : ℕ
default_json_bytes = 67108864

-- The results of `ttl`: -2, -1 and the milliseconds left.
pub data Ttl : Type 0 where
  missing persists : Ttl
  remaining : ℕ → Ttl

-- The results of `expiration`: null, undefined and a deadline.
pub data Expiration : Type 0 where
  absent persistent : Expiration
  at : ℕ → Expiration

pub record SnapshotEntry (V : Type 0) : Type 0 where
  pub key : Text
  pub value : V
  pub expires_at : Option ℕ

pub record Stats : Type 0 where
  pub hits : ℕ
  pub misses : ℕ
  pub evictions : ℕ
  pub expiries : ℕ
  pub entries : ℕ
  pub bytes : ℕ

module _ {V : Type 0} where
  -- `this.map.delete(key); this.map.set(key, entry); this.hits++`
  unfoldable pub touch : Text → Entry V → Cache V → Cache V
  touch key e c = let c' = put_last key e c in record c' { hits = c'.hits + 1 }

  unfoldable pub stats : Cache V → Stats
  stats c = record {
    hits = c.hits;
    misses = c.misses;
    evictions = c.evictions;
    expiries = c.expiries;
    entries = OrderedMap.size c.map;
    bytes = c.bytes;
  }

  unfoldable pub reset_stats : Cache V → Cache V
  reset_stats c = record c { hits = 0; misses = 0; evictions = 0; expiries = 0 }

module _ {V : Type 0} (clock : ℕ → ℕ) (o : Options) (json : Json V) where
  unfoldable pub get_found : Text → Option (Entry V) → Action V (Option V)
  get_found key none = do modify add_miss; pure none
  get_found key (some e) = do
    t ← now clock
    if is_expired e t then (do remove_expired o key e; modify add_miss; pure none) else (do
      modify (touch key e)
      value ← lift (json.clone e.value default_json_bytes)
      pure (some value))

  unfoldable pub get : Text → Action V (Option V)
  get key = do assert_key_fits o key; found ← gets (peek key); get_found key found

  unfoldable pub mget : List Text → Action V (List (Option V))
  mget [] = pure []
  mget (k ∷ ks) = do v ← get k; vs ← mget ks; pure (v ∷ vs)

  unfoldable pub ttl_live : Option ℕ → Action V Ttl
  ttl_live none = pure persists
  ttl_live (some x) = do t ← now clock; pure (remaining (x - t))

  unfoldable pub ttl_found : Text → Option (Entry V) → Action V Ttl
  ttl_found key none = do modify add_miss; pure missing
  ttl_found key (some e) = do
    t ← now clock
    if is_expired e t
        then (do remove_expired o key e; modify add_miss; pure missing)
        else ttl_live e.expires_at

  unfoldable pub ttl : Text → Action V Ttl
  ttl key = do assert_key_fits o key; found ← gets (peek key); ttl_found key found

  unfoldable pub deadline_of : Option ℕ → Expiration
  deadline_of none = persistent
  deadline_of (some x) = at x

  unfoldable pub expiration_found : Text → Option (Entry V) → Action V Expiration
  expiration_found key none = pure absent
  expiration_found key (some e) = do
    t ← now clock
    if is_expired e t
        then (do remove_expired o key e; pure absent)
        else pure (deadline_of e.expires_at)

  unfoldable pub expiration : Text → Action V Expiration
  expiration key = do assert_key_fits o key; found ← gets (peek key); expiration_found key found

  -- `this.keyVersions.get(key) ?? this.absentEpoch`
  unfoldable pub version_of : Text → Cache V → ℕ
  version_of key c = elim (OrderedMap.get text_discrete c.key_versions key) [
    | none ↦ c.absent_epoch
    | some n ↦ n
  ]

  unfoldable pub drop_if_expired : Text → Option (Entry V) → Action V (Unit {0})
  drop_if_expired key none = pure tt
  drop_if_expired key (some e) = do
    t ← now clock
    if is_expired e t then remove_expired o key e else pure tt

  unfoldable pub get_version : Text → Action V ℕ
  get_version key = do
    assert_key_fits o key
    found ← gets (peek key)
    drop_if_expired key found
    gets (version_of key)

  -- The loop of `dump`, at the one reading of its clock.
  unfoldable pub dump_entries : ℕ → List (Text × Entry V) → Action V (List (SnapshotEntry V))
  dump_entries t [] = pure []
  dump_entries t ((key, e) ∷ es) = if is_expired e t then dump_entries t es else (do
    value ← lift (json.clone e.value default_json_bytes)
    rest ← dump_entries t es
    pure (record { key = key; value = value; expires_at = e.expires_at } ∷ rest))

  unfoldable pub dump : Action V (List (SnapshotEntry V))
  dump = do t ← now clock; es ← gets (λ c. c.map.entries); dump_entries t es
