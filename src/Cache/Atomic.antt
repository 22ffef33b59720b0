-- ===== src/Cache/Atomic.antt =====
-- src/cache.ts: `atomic` of `KVCache`, with `captureState` and `restoreState`.
use mathlib.Core.List
use mathlib.Core.List.{foldl}
use yasd.Prelude.{ℕ, Option, none, some, List, [], ◌∷◌}
use yasd.Text.{Text, text_discrete}
use yasd.Result.{Result, ok, err, no_transaction}
use yasd.OrderedMap
use yasd.OrderedMap.{OrderedMap}
use yasd.Cache.State.{Entry, Cache, Action, pure, raise, gets, modify, ◌>>=◌, ◌>>◌}
use yasd.Cache.Core.{set_add}

-- `CacheState`
pub record Saved : Type 0 where
  pub bytes : ℕ
  pub hits : ℕ
  pub misses : ℕ
  pub evictions : ℕ
  pub expiries : ℕ
  pub absent_epoch : ℕ

module _ {V : Type 0} where
  -- The counters that `captureState` returns.
  abbrev pub saved : Cache V → Saved
  saved c = record {
    bytes = c.bytes;
    hits = c.hits;
    misses = c.misses;
    evictions = c.evictions;
    expiries = c.expiries;
    absent_epoch = c.absent_epoch;
  }

  -- The three journals of `captureState`, and the frame that `atomic` pushes.
  unfoldable pub begin_all : Cache V → Cache V
  begin_all c = record c {
    map = OrderedMap.begin c.map;
    key_versions = OrderedMap.begin c.key_versions;
    expiring = OrderedMap.begin c.expiring;
    expired_frames = [] ∷ c.expired_frames;
  }

  -- `commit` and `rollback` of an ordered map throw where no frame is open.
  unfoldable pub or_no_transaction : Option (Cache V) → Action V (Unit {0})
  or_no_transaction none = raise no_transaction
  or_no_transaction (some c') = λ c. (ok tt, c')

  abbrev pub with_map : Cache V → Option (OrderedMap Text (Entry V)) → Option (Cache V)
  with_map c none = none
  with_map c (some m) = some (record c { map = m })

  abbrev pub with_versions : Cache V → Option (OrderedMap Text ℕ) → Option (Cache V)
  with_versions c none = none
  with_versions c (some m) = some (record c { key_versions = m })

  abbrev pub with_expiring : Cache V → Option (OrderedMap Text ℕ) → Option (Cache V)
  with_expiring c none = none
  with_expiring c (some m) = some (record c { expiring = m })

  unfoldable pub commit_all : Action V (Unit {0})
  commit_all = do
    a ← gets (λ c. with_map c (OrderedMap.commit c.map))
    or_no_transaction a
    b ← gets (λ c. with_versions c (OrderedMap.commit c.key_versions))
    or_no_transaction b
    d ← gets (λ c. with_expiring c (OrderedMap.commit c.expiring))
    or_no_transaction d

  unfoldable pub rollback_all : Action V (Unit {0})
  rollback_all = do
    a ← gets (λ c. with_map c (OrderedMap.rollback text_discrete c.map))
    or_no_transaction a
    b ← gets (λ c. with_versions c (OrderedMap.rollback text_discrete c.key_versions))
    or_no_transaction b
    d ← gets (λ c. with_expiring c (OrderedMap.rollback text_discrete c.expiring))
    or_no_transaction d

  unfoldable pub restore_state : Saved → Action V (Unit {0})
  restore_state s = do
    rollback_all
    modify (λ c. record c {
      bytes = s.bytes;
      hits = s.hits;
      misses = s.misses;
      evictions = s.evictions;
      expiries = s.expiries;
      absent_epoch = s.absent_epoch;
    })

  -- The end of a commit: the expired keys go to the frame around it, or to the listener.
  unfoldable pub pass_expired : List (List Text) → Cache V → Cache V
  pass_expired [] c = c
  pass_expired (keys ∷ []) c = record c {
    expired_frames = [];
    notified = foldl (λ ks k. k ∷ ks) c.notified keys;
  }
  pass_expired (keys ∷ parent ∷ frames) c = record c {
    expired_frames = foldl (λ ks k. set_add k ks) parent keys ∷ frames;
  }

  unfoldable pub pop_frame : Cache V → Cache V
  pop_frame c = record c { expired_frames = List.tail c.expired_frames }

  module _ {A : Type 0} where
    -- The body of the `try` block of `atomic`.
    unfoldable pub attempt : Action V A → Action V A
    attempt fn = do
      result ← fn
      commit_all
      modify (λ c. pass_expired c.expired_frames c)
      pure result

    -- Its `catch` block: the state comes back, and the exception goes on.
    unfoldable pub recover : Saved → Result A → Action V A
    recover s (ok a) = pure a
    recover s (err e) = do modify pop_frame; restore_state s; raise e

    unfoldable pub atomic : Action V A → Action V A
    atomic fn c = let (r, c') = attempt fn (begin_all c) in recover (saved c) r c'
