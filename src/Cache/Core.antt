-- ===== src/Cache/Core.antt =====
-- src/cache.ts: the private methods that every operation of `KVCache` is made of.
use mathlib.Core.List.{map as map_list, lookup}
use yasd.Prelude.{
  ℕ, suc, ◌+◌, ◌-◌, ◌*◌, Bool, false, Option, none, some, List, [], ◌∷◌, ltb, leb, if◌then◌else◌,
}
use yasd.Text.{Text, text_discrete, utf8_byte_length, namespace_of}
use yasd.Result.{
  ok, key_too_long, value_too_long, entry_too_large, ttl_out_of_range, generation_exhausted,
}
use yasd.OrderedMap
use yasd.OrderedMap.{OrderedMap}
use yasd.Cache.State.{
  Entry, Options, Json, Cache, Action, pure, raise, modify, raise_if, ◌>>=◌, ◌>>◌,
}

-- `Number.MAX_SAFE_INTEGER`
abbrev pub max_safe_integer : ℕ
max_safe_integer = 9007199254740991

-- `set.add(key)` of a JavaScript set.
unfoldable pub set_add : Text → List Text → List Text
set_add key [] = key ∷ []
set_add key (k ∷ ks) = elim (text_discrete key k) [ yes _ ↦ k ∷ ks | no _ ↦ k ∷ set_add key ks ]

-- The callback of `map`, which keeps `expiring` in step.
unfoldable pub sync_expiring : Text → Option ℕ → OrderedMap Text ℕ → OrderedMap Text ℕ
sync_expiring key none m = (OrderedMap.delete text_discrete m key).0
sync_expiring key (some t) m = OrderedMap.set text_discrete m key t

-- `ns && this.namespaceTTLMs[ns]`
unfoldable pub namespace_ttl : Options → Text → Option ℕ
namespace_ttl o key = elim (namespace_of key) [
  | [] ↦ none
  | c ∷ cs ↦ lookup text_discrete (c ∷ cs) o.namespace_ttls
]

module _ {V : Type 0} where
  -- `entry !== undefined && entry.expiresAt <= now`
  unfoldable pub is_expired : Entry V → ℕ → Bool
  is_expired e now = elim e.expires_at [ none ↦ false | some t ↦ leb t now ]

  -- `this.map.get(key)`
  abbrev pub peek : Text → Cache V → Option (Entry V)
  peek key c = OrderedMap.get text_discrete c.map key

  -- `this.map.set(key, entry)`
  unfoldable pub map_set : Text → Entry V → Cache V → Cache V
  map_set key e c = record c {
    map = OrderedMap.set text_discrete c.map key e;
    expiring = sync_expiring key e.expires_at c.expiring;
  }

  -- `this.map.delete(key)`: the callback runs only if the key was there.
  unfoldable pub map_delete : Text → Cache V → Cache V
  map_delete key c =
      let (m, found) = OrderedMap.delete text_discrete c.map key in
      if found then (record c { map = m; expiring = sync_expiring key none c.expiring }) else c

  -- `this.map.delete(key); this.bytes -= entry.size`, in either order.
  unfoldable pub take_out : Text → Entry V → Cache V → Cache V
  take_out key e c = record (map_delete key c) { bytes = c.bytes - e.size }

  -- `this.map.set(key, entry); this.bytes += size`
  unfoldable pub put_in : Text → Entry V → Cache V → Cache V
  put_in key e c = record (map_set key e c) { bytes = c.bytes + e.size }

  -- `this.map.delete(key); this.map.set(key, entry)`
  unfoldable pub put_last : Text → Entry V → Cache V → Cache V
  put_last key e c = map_set key e (map_delete key c)

  abbrev pub add_expiry : Cache V → Cache V
  add_expiry c = record c { expiries = c.expiries + 1 }

  abbrev pub add_miss : Cache V → Cache V
  add_miss c = record c { misses = c.misses + 1 }

  -- `notifyExpired`: inside `atomic` the key waits for the commit.
  unfoldable pub notify_expired : Text → Cache V → Cache V
  notify_expired key c = elim c.expired_frames [
    | [] ↦ record c { notified = key ∷ c.notified }
    | frame ∷ frames ↦ record c { expired_frames = set_add key frame ∷ frames }
  ]

  -- `this.absentEpoch = this.generation; this.keyVersions.delete(k)`
  unfoldable pub prune_one : Text → Cache V → Cache V
  prune_one k c = record c {
    absent_epoch = c.generation;
    key_versions = (OrderedMap.delete text_discrete c.key_versions k).0;
  }

  -- `this.keyVersions.set(key, ++this.generation)` and the open frames of changes.
  unfoldable pub next_version : Text → Cache V → Cache V
  next_version key c = record c {
    generation = suc c.generation;
    key_versions = OrderedMap.set text_discrete c.key_versions key (suc c.generation);
    change_frames = map_list (set_add key) c.change_frames;
  }

  module _ (clock : ℕ → ℕ) where
    -- `Date.now()`: each call is one more reading of the clock.
    unfoldable pub now : Action V ℕ
    now c = (ok (clock c.ticks), record c { ticks = suc c.ticks })

  module _ (o : Options) where
    -- The loop that drops the versions of absent keys.
    unfoldable pub prune : List Text → Cache V → Cache V
    prune [] c = c
    prune (k ∷ ks) c =
        let c' = if OrderedMap.has text_discrete c.map k then c else prune_one k c in
        let rest = prune ks c' in
        if leb (OrderedMap.size c'.key_versions) (o.max_entries + 512) then c' else rest

    -- `bumpVersion`
    unfoldable pub bump_version : Text → Action V (Unit {0})
    bump_version key c =
        if leb max_safe_integer c.generation
        then raise generation_exhausted c
        else let c' = next_version key c in
          if ltb (o.max_entries * 2 + 1024) (OrderedMap.size c'.key_versions)
          then pure tt (prune (OrderedMap.keys c'.key_versions) c')
          else pure tt c'

    -- `removeExpired`
    unfoldable pub remove_expired : Text → Entry V → Action V (Unit {0})
    remove_expired key e = do
      modify (λ c. add_expiry (take_out key e c))
      bump_version key
      modify (notify_expired key)

    -- `assertKeyFits`
    unfoldable pub assert_key_fits : Text → Action V (Unit {0})
    assert_key_fits key = raise_if (ltb o.max_key_bytes (utf8_byte_length key)) key_too_long

    module _ (json : Json V) where
      -- `assertValueFits`, with `assertEntryFits`: the bytes that the entry is charged.
      unfoldable pub assert_value_fits : Text → V → Action V ℕ
      assert_value_fits key value = do
        assert_key_fits key
        let size = utf8_byte_length key + json.byte_length value
        raise_if (ltb o.max_key_bytes (utf8_byte_length key)) key_too_long
        raise_if (ltb o.max_value_bytes (json.byte_length value)) value_too_long
        raise_if (ltb o.max_bytes size) entry_too_large
        pure size

  module _ (clock : ℕ → ℕ) (o : Options) where
    -- `validateTTL`: the deadline must be a safe integer.
    unfoldable pub validate_ttl : ℕ → Action V ℕ
    validate_ttl ttl = do
      t ← now clock
      raise_if (ltb max_safe_integer (ttl + t)) ttl_out_of_range
      pure ttl

    unfoldable pub some_ttl : ℕ → Action V (Option ℕ)
    some_ttl ttl = do t ← validate_ttl ttl; pure (some t)

    -- The fallbacks of `resolveTTLMs`.
    unfoldable pub default_ttl : Option ℕ → Option ℕ → Action V (Option ℕ)
    default_ttl (some ttl) d = some_ttl ttl
    default_ttl none (some ttl) = some_ttl ttl
    default_ttl none none = pure none

    -- `resolveTTLMs`
    unfoldable pub resolve_ttl : Text → Option ℕ → Action V (Option ℕ)
    resolve_ttl key (some ttl) = some_ttl ttl
    resolve_ttl key none = default_ttl (namespace_ttl o key) o.default_ttl

    -- `ttl === undefined ? undefined : Date.now() + ttl`
    unfoldable pub deadline_after : Option ℕ → Action V (Option ℕ)
    deadline_after none = pure none
    deadline_after (some ttl) = do t ← now clock; pure (some (t + ttl))

    -- `expiresAt !== undefined && expiresAt <= Date.now()`: the clock is read only for a deadline.
    unfoldable pub is_past : Option ℕ → Action V Bool
    is_past none = pure false
    is_past (some x) = do t ← now clock; pure (leb x t)
