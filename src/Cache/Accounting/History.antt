-- ===== src/Cache/Accounting/History.antt =====
-- src/cache.ts: the byte count of `KVCache` over a client's history of calls.
use yasd.Prelude.{true, ℕ, List, [], ◌∷◌, refl}
use yasd.Cache.State.{Options, Json, Cache, new}
use yasd.Cache.Calls
use yasd.Cache.Calls.{Call, perform, perform_all}
use yasd.Cache.Steps.Relation.{Runs, here, Runs-trans}
use yasd.Cache.Steps.Methods.{
  Follows-get, Follows-mget, Follows-get_version, Follows-ttl, Follows-expiration, Follows-sweep,
  Follows-del, Follows-expire, Follows-expire_at, Follows-persist,
}
use yasd.Cache.Steps.Writes.{
  Follows-set, Follows-set_at, Follows-mset, Follows-clear_prefix, Follows-clear,
}
use yasd.Cache.Steps.Compound.{Follows-cas, Follows-restore, Follows-replace}
use yasd.Cache.Accounting.Balance.{IsBalanced, Runs-IsBalanced}

module _ {V : Type 0} (clock : ℕ → ℕ) (o : Options) (json : Json V) where
  perform-Runs : (call : Call V) (c : Cache V) → Runs o true c (perform clock o json call c)
  unfolding perform
  perform-Runs (Calls.get k) c = (Follows-get clock o json k).from c
  perform-Runs (Calls.mget ks) c = (Follows-mget clock o json ks).from c
  perform-Runs (Calls.get_version k) c = (Follows-get_version clock o json k).from c
  perform-Runs (Calls.ttl k) c = (Follows-ttl clock o json k).from c
  perform-Runs (Calls.expiration k) c = (Follows-expiration clock o json k).from c
  perform-Runs Calls.sweep c = (Follows-sweep clock o json).from c
  perform-Runs (Calls.set k v t) c = (Follows-set clock o json k v t).from c
  perform-Runs (Calls.set_at k v x) c = (Follows-set_at clock o json k v x).from c
  perform-Runs (Calls.mset bs) c = (Follows-mset clock o json bs).from c
  perform-Runs (Calls.del k) c = (Follows-del clock o json k).from c
  perform-Runs (Calls.clear_prefix p) c = (Follows-clear_prefix clock o json p).from c
  perform-Runs Calls.clear c = (Follows-clear clock o json).from c
  perform-Runs (Calls.expire k t) c = (Follows-expire clock o json k t).from c
  perform-Runs (Calls.expire_at k x) c = (Follows-expire_at clock o json k x).from c
  perform-Runs (Calls.persist k) c = (Follows-persist clock o json k).from c
  perform-Runs (Calls.cas k e v t) c = (Follows-cas clock o json k e v t).from c
  perform-Runs (Calls.restore es) c = (Follows-restore clock o json es).from c
  perform-Runs (Calls.replace es) c = (Follows-replace clock o json es).from c

  perform_all-Runs :
      (calls : List (Call V)) (c : Cache V) → Runs o true c (perform_all clock o json calls c)
  unfolding perform_all
  perform_all-Runs [] c = here
  perform_all-Runs (call ∷ calls) c =
      Runs-trans o (perform-Runs call c) (perform_all-Runs calls (perform clock o json call c))

  -- Every history of the calls in `Call`, each of which may return or throw, keeps three facts of
  -- the cache, if they hold at its start: no key stands twice, `bytes` is the sum of the sizes of
  -- the entries, and each entry fits in `max_bytes`. `incr`, `decr` and the `exec` of a
  -- transaction, which may run them, are not in `Call`.
  pub perform_all-IsBalanced :
      (calls : List (Call V)) (c : Cache V)
      → IsBalanced o c
      → IsBalanced o (perform_all clock o json calls c)
  perform_all-IsBalanced calls c a = Runs-IsBalanced o (perform_all-Runs calls c) a

pub new-IsBalanced : {V : Type 0} (o : Options) → IsBalanced {V = V} o new
new-IsBalanced o = record { distinct = tt; counted_bytes = refl; fit = tt }
