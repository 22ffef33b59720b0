-- ===== src/Cache/Counter.antt =====
-- src/cache.ts: the read-modify-write methods of `KVCache`: `incr`, `decr` and `cas`.
use yasd.Prelude.{ℕ, ◌+◌, Bool, true, false, not, ◌||◌, Option, none, some, is_some, if◌then◌else◌}
use yasd.Text.{Text}
use yasd.Result.{not_numeric, not_finite}
use yasd.Cache.State.{
  Entry, Options, Json, Action, pure, raise, gets, lift, modify, raise_if, ◌>>=◌, ◌>>◌,
}
use yasd.Cache.Core.{
  peek, is_expired, take_out, put_in, add_expiry, now, bump_version, remove_expired,
  assert_key_fits, assert_value_fits, validate_ttl, resolve_ttl,
}
use yasd.Cache.Read.{default_json_bytes}
use yasd.Cache.Write.{drop_old, take_old, evict_if_needed}

module _ {V : Type 0} (clock : ℕ → ℕ) (o : Options) (json : Json V) where
  -- The number that is counted from, and the deadline that is kept.
  unfoldable pub incr_base : Text → ℕ → Option (Entry V) → Action V (V × Option ℕ)
  incr_base key t none = pure (json.zero_value, none)
  incr_base key t (some e) =
      if is_expired e t
      then (do remove_expired o key e; pure (json.zero_value, none))
      else if json.is_number e.value
      then pure (e.value, e.expires_at)
      else raise not_numeric

  -- `if (live && !this.isExpired(live, Date.now()))`: the clock is read once more.
  unfoldable pub take_live : Text → Option (Entry V) → Action V (Unit {0})
  take_live key none = pure tt
  take_live key (some live) = do
    t ← now clock
    if is_expired live t then pure tt else modify (take_out key live)

  -- What follows the addition: the old entry goes, the new one is stored.
  unfoldable pub incr_store : Text → Entry V → Action V V
  incr_store key e = do
    live ← gets (peek key)
    take_live key live
    modify (put_in key e)
    bump_version o key
    evict_if_needed clock o json
    pure e.value

  unfoldable pub incr_from : Text → V → V × Option ℕ → Action V V
  incr_from key by (base, expires_at) = do
    let next = json.add base by
    raise_if (not (json.is_number next)) not_finite
    size ← assert_value_fits o json key next
    incr_store key (record { value = next; expires_at = expires_at; size = size })

  unfoldable pub incr : Text → V → Action V V
  incr key by = do
    assert_key_fits o key
    raise_if (not (json.is_number by)) not_finite
    t ← now clock
    found ← gets (peek key)
    start ← incr_base key t found
    incr_from key by start

  unfoldable pub decr : Text → V → Action V V
  decr key by = incr key (json.negate by)

  -- `valuesEqual`, where `none` is undefined.
  unfoldable pub values_equal : Option V → Option V → Bool
  values_equal none none = true
  values_equal none (some b) = false
  values_equal (some a) none = false
  values_equal (some a) (some b) = json.equal a b

  unfoldable pub cas_current : Text → ℕ → Option (Entry V) → Action V (Option V × Option ℕ)
  cas_current key t none = pure (none, none)
  cas_current key t (some e) =
      if is_expired e t
      then (do remove_expired o key e; pure (none, none))
      else pure (some e.value, e.expires_at)

  unfoldable pub clone_expected : Option V → Action V (Option V)
  clone_expected none = pure none
  clone_expected (some v) = do w ← lift (json.clone v default_json_bytes); pure (some w)

  -- `resolvedDefault`
  unfoldable pub cas_default : Text → Option ℕ → Option V → Action V (Option ℕ)
  cas_default key ttl current =
      if is_some ttl || is_some current then pure none else resolve_ttl clock o key none

  -- The nested conditional that picks the deadline.
  unfoldable pub cas_deadline : ℕ → Option ℕ → Option ℕ → Option ℕ → Action V (Option ℕ)
  cas_deadline t (some ttl) keep resolved = do
    checked ← validate_ttl clock o ttl
    pure (some (t + checked))
  cas_deadline t none (some x) resolved = pure (some x)
  cas_deadline t none none none = pure none
  cas_deadline t none none (some d) = pure (some (t + d))

  -- A deadline that has passed: what is still there of the old entry goes.
  unfoldable pub cas_expired : Text → Action V Bool
  cas_expired key = do
    live ← gets (peek key)
    drop_old clock o json key live
    modify add_expiry
    pure true

  unfoldable pub cas_store : Text → Entry V → Action V Bool
  cas_store key e = do
    live ← gets (peek key)
    modify (take_old key live)
    modify (put_in key e)
    bump_version o key
    evict_if_needed clock o json
    pure true

  -- What follows the comparison, given the live value and its deadline.
  unfoldable pub cas_decide :
      Text → V → Option ℕ → Option V → ℕ → ℕ → Option V × Option ℕ → Action V Bool
  cas_decide key owned ttl wanted size t (current, keep) =
      if not (values_equal current wanted) then pure false else (do
        resolved ← cas_default key ttl current
        expires_at ← cas_deadline t ttl keep resolved
        let e : Entry V = record { value = owned; expires_at = expires_at; size = size }
        if is_expired e t then cas_expired key else cas_store key e)

  unfoldable pub cas : Text → Option V → V → Option ℕ → Action V Bool
  cas key expected value ttl = do
    assert_key_fits o key
    wanted ← clone_expected expected
    owned ← lift (json.clone value default_json_bytes)
    size ← assert_value_fits o json key owned
    t ← now clock
    found ← gets (peek key)
    read ← cas_current key t found
    cas_decide key owned ttl wanted size t read
