-- ===== src/Cache/State.antt =====
-- src/cache.ts: the fields of `KVCache`, and its methods as actions on them. A method that throws
-- keeps what it has written, so the state comes back with the exception too.
use yasd.Prelude.{ℕ, Bool, Option, List, [], if◌then◌else◌}
use yasd.Text.{Text}
use yasd.Result.{Result, ok, err, Error}
use yasd.OrderedMap
use yasd.OrderedMap.{OrderedMap}

-- `Entry`. Times are whole milliseconds.
pub record Entry (V : Type 0) : Type 0 where
  pub value : V
  pub expires_at : Option ℕ
  pub size : ℕ

-- `KVOptions` after `validateKVOptions`.
pub record Options : Type 0 where
  pub max_entries : ℕ
  pub max_bytes : ℕ
  pub max_key_bytes : ℕ
  pub max_value_bytes : ℕ
  pub default_ttl : Option ℕ
  pub namespace_ttls : List (Text × ℕ)

-- What the cache uses of the values that it stores (src/json.ts, src/value.ts): the bytes of
-- their JSON text, the copy that it takes, their equality and their numbers.
pub record Json (V : Type 0) : Type 0 where
  pub byte_length : V → ℕ
  pub clone : V → ℕ → Result V
  pub equal : V → V → Bool
  pub is_number : V → Bool
  pub zero_value : V
  pub add : V → V → V
  pub negate : V → V

-- The private fields of `KVCache`. `expired_frames` holds the `expiredKeys` of `atomicFrames`,
-- newest first; `notified` lists the calls of the expiry listener, newest first, and `ticks`
-- counts the readings of the clock.
pub record Cache (V : Type 0) : Type 0 where
  pub map : OrderedMap Text (Entry V)
  pub expiring : OrderedMap Text ℕ
  pub key_versions : OrderedMap Text ℕ
  pub bytes : ℕ
  pub hits : ℕ
  pub misses : ℕ
  pub evictions : ℕ
  pub expiries : ℕ
  pub generation : ℕ
  pub absent_epoch : ℕ
  pub expired_frames : List (List Text)
  pub change_frames : List (List Text)
  pub notified : List Text
  pub ticks : ℕ

abbrev pub new : {V : Type 0} → Cache V
new = record {
  map = OrderedMap.empty;
  expiring = OrderedMap.empty;
  key_versions = OrderedMap.empty;
  bytes = 0;
  hits = 0;
  misses = 0;
  evictions = 0;
  expiries = 0;
  generation = 0;
  absent_epoch = 0;
  expired_frames = [];
  change_frames = [];
  notified = [];
  ticks = 0;
}

-- A method call.
abbrev pub Action : Type 0 → Type 0 → Type 0
Action V A = Cache V → Result A × Cache V

module _ {V A : Type 0} where
  abbrev pub pure : A → Action V A
  pure a c = (ok a, c)

  abbrev pub raise : Error → Action V A
  raise e c = (err e, c)

  abbrev pub gets : (Cache V → A) → Action V A
  gets f c = (ok (f c), c)

  abbrev pub lift : Result A → Action V A
  lift r c = (r, c)

infixl 5 ◌>>=◌ ◌>>◌
abbrev pub ◌>>=◌ : {V A B : Type 0} → Action V A → (A → Action V B) → Action V B
◌>>=◌ m f c = let (r, c') = m c in elim r [ ok a ↦ f a c' | err e ↦ raise e c' ]

abbrev pub ◌>>◌ : {V A B : Type 0} → Action V A → Action V B → Action V B
m >> k = m >>= λ _. k

module _ {V : Type 0} where
  abbrev pub modify : (Cache V → Cache V) → Action V (Unit {0})
  modify f c = (ok tt, f c)

  abbrev pub raise_if : Bool → Error → Action V (Unit {0})
  raise_if b e c = (if b then err e else ok tt, c)
