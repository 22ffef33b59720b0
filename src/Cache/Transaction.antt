-- ===== src/Cache/Transaction.antt =====
-- src/cache.ts: `KVTransaction`, an optimistic transaction over a cache.
use yasd.Prelude.{
  not, ℕ, Bool, true, false, Option, none, some, List, [], ◌∷◌, ◌++◌, ◌==◌, if◌then◌else◌,
}
use yasd.Text.{Text, text_discrete}
use yasd.Result.{transaction_finished, not_finite}
use yasd.OrderedMap
use yasd.OrderedMap.{OrderedMap}
use yasd.Cache.State.{Options, Json, Action, pure, lift, raise_if, ◌>>=◌, ◌>>◌}
use yasd.Cache.Read
use yasd.Cache.Read.{default_json_bytes}
use yasd.Cache.Read.{default_json_bytes}
use yasd.Cache.Write
use yasd.Cache.Write.{BatchEntry}
use yasd.Cache.Deadline
use yasd.Cache.Counter
use yasd.Cache.Atomic.{atomic}

-- `TxQueuedOp`
pub data QueuedOp (V : Type 0) : Type 0 where
  set : Text → V → Option ℕ → QueuedOp V
  mset : List (BatchEntry V) → QueuedOp V
  del : Text → QueuedOp V
  clear_prefix : Text → QueuedOp V
  expire : Text → ℕ → QueuedOp V
  persist : Text → QueuedOp V
  incr : Text → V → QueuedOp V
  decr : Text → V → QueuedOp V
  cas : Text → Option V → V → Option ℕ → QueuedOp V

-- `TxResult`
pub data TxResult (V : Type 0) : Type 0 where
  value : V → TxResult V
  bool : Bool → TxResult V
  count : ℕ → TxResult V

-- The fields of `KVTransaction`; `watched` is a map without transactions of its own.
pub record Transaction (V : Type 0) : Type 0 where
  pub watched : OrderedMap Text ℕ
  pub queue : List (QueuedOp V)
  pub done : Bool

module _ {V : Type 0} where
  abbrev pub multi : Transaction V
  multi = record { watched = OrderedMap.empty; queue = []; done = false }

  -- `assertOpen`
  unfoldable pub assert_open : Transaction V → Action V (Unit {0})
  assert_open tx = raise_if tx.done transaction_finished

module _ {V : Type 0} (clock : ℕ → ℕ) (o : Options) (json : Json V) where
  -- `watch`: each key with its version at this moment.
  unfoldable pub watch_keys : List Text → Transaction V → Action V (Transaction V)
  watch_keys [] tx = pure tx
  watch_keys (k ∷ ks) tx = do
    version ← Read.get_version clock o json k
    watch_keys ks (record tx { watched = OrderedMap.set text_discrete tx.watched k version })

  unfoldable pub watch : List Text → Transaction V → Action V (Transaction V)
  watch keys tx = do assert_open tx; watch_keys keys tx

  unfoldable pub unwatch : Transaction V → Action V (Transaction V)
  unwatch tx = do assert_open tx; pure (record tx { watched = OrderedMap.empty })

  -- `checkValue`: the copy, whose exception becomes a `TransactionError`.
  unfoldable pub check_value : V → Action V V
  check_value v = lift (json.clone v default_json_bytes)

  unfoldable pub check_expected : Option V → Action V (Option V)
  check_expected none = pure none
  check_expected (some v) = do w ← check_value v; pure (some w)

  unfoldable pub check_entries : List (BatchEntry V) → Action V (List (BatchEntry V))
  check_entries [] = pure []
  check_entries (b ∷ bs) = do
    v ← check_value b.value
    rest ← check_entries bs
    pure (record b { value = v } ∷ rest)

  -- The checks that the queueing methods make of their arguments. A time to live is a natural
  -- number here, so `checkTtl` has nothing left to refuse.
  unfoldable pub check_op : QueuedOp V → Action V (QueuedOp V)
  check_op (set k v ttl) = do w ← check_value v; pure (set k w ttl)
  check_op (mset es) = do checked ← check_entries es; pure (mset checked)
  check_op (incr k by) = do raise_if (not (json.is_number by)) not_finite; pure (incr k by)
  check_op (decr k by) = do raise_if (not (json.is_number by)) not_finite; pure (decr k by)
  check_op (cas k expected v ttl) = do
    e ← check_expected expected
    w ← check_value v
    pure (cas k e w ttl)
  check_op op = pure op

  -- `set`, `mset`, `del` and the other methods that queue.
  unfoldable pub enqueue : QueuedOp V → Transaction V → Action V (Transaction V)
  enqueue op tx = do
    assert_open tx
    checked ← check_op op
    pure (record tx { queue = tx.queue ++ checked ∷ [] })

  unfoldable pub discard : Transaction V → Action V (Transaction V)
  discard tx = do
    assert_open tx
    pure (record { watched = OrderedMap.empty; queue = []; done = true })

  -- `apply`
  unfoldable pub apply : QueuedOp V → Action V (TxResult V)
  apply (set k v ttl) = do r ← Write.set clock o json k v ttl; pure (value r)
  apply (mset es) = do r ← Write.mset clock o json es; pure (count r)
  apply (del k) = do r ← Write.del clock o json k; pure (bool r)
  apply (clear_prefix p) = do r ← Write.clear_prefix clock o json p; pure (count r)
  apply (expire k ttl) = do r ← Deadline.expire clock o json k ttl; pure (bool r)
  apply (persist k) = do r ← Deadline.persist clock o json k; pure (bool r)
  apply (incr k by) = do r ← Counter.incr clock o json k by; pure (value r)
  apply (decr k by) = do r ← Counter.decr clock o json k by; pure (value r)
  apply (cas k expected v ttl) = do r ← Counter.cas clock o json k expected v ttl; pure (bool r)

  unfoldable pub apply_all : List (QueuedOp V) → Action V (List (TxResult V))
  apply_all [] = pure []
  apply_all (op ∷ ops) = do r ← apply op; rs ← apply_all ops; pure (r ∷ rs)

  -- The loop over `watched`: are all versions what they were?
  unfoldable pub unchanged : List (Text × ℕ) → Action V Bool
  unchanged [] = pure true
  unchanged ((k, version) ∷ ws) = do
    current ← Read.get_version clock o json k
    if current == version then unchanged ws else pure false

  unfoldable pub commit_queue : List (QueuedOp V) → Action V (List (TxResult V))
  commit_queue [] = pure []
  commit_queue (op ∷ ops) = atomic (apply_all (op ∷ ops))

  -- `exec`: `none` is the null of a conflict. That the transaction is then finished is not part of
  -- the result.
  unfoldable pub exec : Transaction V → Action V (Option (List (TxResult V)))
  exec tx = do
    assert_open tx
    same ← unchanged tx.watched.entries
    if same then (do results ← commit_queue tx.queue; pure (some results)) else pure none
