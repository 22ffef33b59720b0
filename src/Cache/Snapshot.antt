-- ===== src/Cache/Snapshot.antt =====
-- src/cache.ts: `restore` and `replace`, which load a snapshot.
use yasd.Prelude.{
  ℕ, zero, suc, ◌+◌, Bool, true, false, Option, none, some, List, [], ◌∷◌, ltb, leb, if◌then◌else◌,
}
use yasd.Text.{Text, text_discrete}
use yasd.Result.{invalid_snapshot, duplicate_key}
use yasd.OrderedMap
use yasd.Cache.State.{Options, Json, Action, pure, gets, lift, modify, raise_if, ◌>>=◌, ◌>>◌}
use yasd.Cache.Core.{max_safe_integer, peek, put_in, now, bump_version, assert_value_fits}
use yasd.Cache.Read.{SnapshotEntry, default_json_bytes}
use yasd.Cache.Write.{is_over, oldest, evict_out, take_old, clear}
use yasd.Cache.Atomic.{atomic}

-- `seen.has(key)`
unfoldable pub seen_has : Text → List Text → Bool
seen_has key [] = false
seen_has key (k ∷ ks) = elim (text_discrete key k) [ yes _ ↦ true | no _ ↦ seen_has key ks ]

-- `expiresAt !== undefined && Math.abs(expiresAt) > MAX_SAFE_INTEGER`
unfoldable pub is_unsafe : Option ℕ → Bool
is_unsafe none = false
is_unsafe (some x) = ltb max_safe_integer x

-- `expiresAt !== undefined && expiresAt <= now`
unfoldable pub is_over_at : ℕ → Option ℕ → Bool
is_over_at t none = false
is_over_at t (some x) = leb x t

module _ {V : Type 0} (clock : ℕ → ℕ) (o : Options) (json : Json V) where
  -- The checking loop: the entries that are still live, with their copied values.
  unfoldable pub restore_check :
      ℕ → List Text → List (SnapshotEntry V) → Action V (List (SnapshotEntry V))
  restore_check t seen [] = pure []
  restore_check t seen (e ∷ es) = do
    raise_if (seen_has e.key seen) duplicate_key
    raise_if (is_unsafe e.expires_at) invalid_snapshot
    value ← lift (json.clone e.value default_json_bytes)
    assert_value_fits o json e.key value
    rest ← restore_check t (e.key ∷ seen) es
    pure (if is_over_at t e.expires_at then rest else record e { value = value } ∷ rest)

  unfoldable pub restore_put : SnapshotEntry V → ℕ → Action V (Unit {0})
  restore_put e size = do
    modify (put_in e.key (record { value = e.value; expires_at = e.expires_at; size = size }))
    bump_version o e.key

  -- One round of the writing loop.
  unfoldable pub restore_one : SnapshotEntry V → Action V (Unit {0})
  restore_one e = do
    old ← gets (peek e.key)
    modify (take_old e.key old)
    size ← assert_value_fits o json e.key e.value
    restore_put e size

  unfoldable pub restore_write : List (SnapshotEntry V) → ℕ → Action V ℕ
  restore_write [] count = pure count
  restore_write (e ∷ es) count = do restore_one e; restore_write es (count + 1)

  -- The eviction loop of `restore`, which looks at no deadline.
  unfoldable pub trim_rounds : ℕ → Action V (Unit {0})
  trim_rounds zero c = pure tt c
  trim_rounds (suc n) c = elim (is_over o c) [
    | false ↦ pure tt c
    | true ↦ elim (oldest c) [
      | none ↦ pure tt c
      | some (k, e) ↦ (do modify (evict_out k e); bump_version o k; trim_rounds n) c
    ]
  ]

  unfoldable pub trim : Action V (Unit {0})
  trim c = trim_rounds (OrderedMap.size c.map) c

  unfoldable pub restore : List (SnapshotEntry V) → Action V ℕ
  restore entries = do
    t ← now clock
    pending ← restore_check t [] entries
    count ← restore_write pending 0
    trim
    pure count

  unfoldable pub replace : List (SnapshotEntry V) → Action V ℕ
  replace entries = atomic (do clear clock o json; restore entries)
