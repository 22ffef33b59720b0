-- ===== src/Cache/Deadline.antt =====
-- src/cache.ts: the methods of `KVCache` that change or enforce deadlines: `expire`, `expireAt`,
-- `persist` and the full `sweep`.
use yasd.Prelude.{ℕ, ◌+◌, Bool, true, false, Option, none, some, List, [], ◌∷◌, leb, if◌then◌else◌}
use yasd.Text.{Text}
use yasd.OrderedMap
use yasd.Cache.State.{Entry, Options, Json, Action, pure, gets, modify, ◌>>=◌, ◌>>◌}
use yasd.Cache.Core.{
  peek, is_expired, put_last, now, bump_version, remove_expired, assert_key_fits, validate_ttl,
}

module _ {V : Type 0} (clock : ℕ → ℕ) (o : Options) (json : Json V) where
  -- `this.map.set(key, { ...entry, expiresAt })` after a delete, and the new version.
  unfoldable pub retime : Text → Entry V → Option ℕ → Action V Bool
  retime key e expires_at = do
    modify (put_last key (record e { expires_at = expires_at }))
    bump_version o key
    pure true

  unfoldable pub expire_at_found : Text → ℕ → Option (Entry V) → Action V Bool
  expire_at_found key x none = pure false
  expire_at_found key x (some e) = do
    t ← now clock
    if is_expired e t then (do remove_expired o key e; pure false) else (do
      t' ← now clock
      if leb x t' then (do remove_expired o key e; pure true) else retime key e (some x))

  unfoldable pub expire_at : Text → ℕ → Action V Bool
  expire_at key x = do assert_key_fits o key; found ← gets (peek key); expire_at_found key x found

  unfoldable pub expire_found : Text → ℕ → Option (Entry V) → Action V Bool
  expire_found key ttl none = pure false
  expire_found key ttl (some e) = do
    t ← now clock
    if is_expired e t
        then (do remove_expired o key e; pure false)
        else (do t' ← now clock; retime key e (some (t' + ttl)))

  unfoldable pub expire : Text → ℕ → Action V Bool
  expire key ttl = do
    assert_key_fits o key
    checked ← validate_ttl clock o ttl
    found ← gets (peek key)
    expire_found key checked found

  unfoldable pub persist_found : Text → Option (Entry V) → Action V Bool
  persist_found key none = pure false
  persist_found key (some e) = do
    t ← now clock
    if is_expired e t then (do remove_expired o key e; pure false) else retime key e none

  unfoldable pub persist : Text → Action V Bool
  persist key = do assert_key_fits o key; found ← gets (peek key); persist_found key found

  unfoldable pub sweep_one : ℕ → Text → Option (Entry V) → Action V ℕ
  sweep_one t key none = pure 0
  sweep_one t key (some e) = if is_expired e t then (do remove_expired o key e; pure 1) else pure 0

  unfoldable pub sweep_keys : ℕ → List Text → ℕ → Action V ℕ
  sweep_keys t [] count = pure count
  sweep_keys t (k ∷ ks) count = do
    found ← gets (peek k)
    n ← sweep_one t k found
    sweep_keys t ks (count + n)

  unfoldable pub sweep : Action V ℕ
  sweep = do t ← now clock; ks ← gets (λ c. OrderedMap.keys c.expiring); sweep_keys t ks 0
