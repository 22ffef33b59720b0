-- ===== src/Cache/Calls.antt =====
-- src/cache.ts: a client's history of calls of the methods of `KVCache`.
use yasd.Prelude.{ℕ, Option, List, [], ◌∷◌}
use yasd.Text.{Text}
use yasd.Cache.State.{Options, Json, Cache}
use yasd.Cache.Read
use yasd.Cache.Read.{SnapshotEntry}
use yasd.Cache.Write
use yasd.Cache.Write.{BatchEntry}
use yasd.Cache.Deadline
use yasd.Cache.Counter
use yasd.Cache.Snapshot

-- A call of a public method with its arguments; `incr` and `decr` are not among them.
pub data Call (V : Type 0) : Type 0 where
  get : Text → Call V
  mget : List Text → Call V
  get_version : Text → Call V
  ttl : Text → Call V
  expiration : Text → Call V
  sweep : Call V
  set : Text → V → Option ℕ → Call V
  set_at : Text → V → Option ℕ → Call V
  mset : List (BatchEntry V) → Call V
  del : Text → Call V
  clear_prefix : Text → Call V
  clear : Call V
  expire : Text → ℕ → Call V
  expire_at : Text → ℕ → Call V
  persist : Text → Call V
  cas : Text → Option V → V → Option ℕ → Call V
  restore : List (SnapshotEntry V) → Call V
  replace : List (SnapshotEntry V) → Call V

module _ {V : Type 0} (clock : ℕ → ℕ) (o : Options) (json : Json V) where
  -- The cache after a call, whether the call returned or threw.
  unfoldable pub perform : Call V → Cache V → Cache V
  perform (get k) c = (Read.get clock o json k c).1
  perform (mget ks) c = (Read.mget clock o json ks c).1
  perform (get_version k) c = (Read.get_version clock o json k c).1
  perform (ttl k) c = (Read.ttl clock o json k c).1
  perform (expiration k) c = (Read.expiration clock o json k c).1
  perform sweep c = (Deadline.sweep clock o json c).1
  perform (set k v t) c = (Write.set clock o json k v t c).1
  perform (set_at k v x) c = (Write.set_at clock o json k v x c).1
  perform (mset bs) c = (Write.mset clock o json bs c).1
  perform (del k) c = (Write.del clock o json k c).1
  perform (clear_prefix p) c = (Write.clear_prefix clock o json p c).1
  perform clear c = (Write.clear clock o json c).1
  perform (expire k t) c = (Deadline.expire clock o json k t c).1
  perform (expire_at k x) c = (Deadline.expire_at clock o json k x c).1
  perform (persist k) c = (Deadline.persist clock o json k c).1
  perform (cas k e v t) c = (Counter.cas clock o json k e v t c).1
  perform (restore es) c = (Snapshot.restore clock o json es c).1
  perform (replace es) c = (Snapshot.replace clock o json es c).1

  unfoldable pub perform_all : List (Call V) → Cache V → Cache V
  perform_all [] c = c
  perform_all (call ∷ calls) c = perform_all calls (perform call c)
