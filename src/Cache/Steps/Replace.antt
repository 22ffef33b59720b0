-- ===== src/Cache/Steps/Replace.antt =====
-- `replace` of src/cache.ts, when it throws.
use yasd.Prelude.{ℕ, ◌≡◌, List, true}
use yasd.Result.{Error, err}
use yasd.Cache.State.{Options, Json, Cache, ◌>>◌}
use yasd.Cache.Read.{SnapshotEntry}
use yasd.Cache.Write.{clear}
use yasd.Cache.Snapshot.{restore, replace}
use yasd.Cache.Steps.Relation.{Follows-bind}
use yasd.Cache.Steps.Writes.{Follows-clear}
use yasd.Cache.Steps.Compound.{Follows-restore}
use yasd.Cache.Steps.Atomic.{IsDistinctCache, restored, atomic_thrown-restored}

module _ {V : Type 0} (clock : ℕ → ℕ) (o : Options) (json : Json V) where
  -- A `replace` that throws, at any entry of the snapshot, has left every map, in its order, every
  -- counter and every open frame as they were, when no key stood twice in a map before. What stays
  -- is the version counter, the change sets, the listener's calls and the clock.
  pub replace-restored :
      (es : List (SnapshotEntry V)) (c d : Cache V) (e : Error)
      → IsDistinctCache c
      → replace clock o json es c ≡ (err e, d)
      → d ≡ restored c d
  unfolding replace
  replace-restored es c d e i h =
      atomic_thrown-restored o {exact = true} (clear clock o json >> restore clock o json es) c d e
        (Follows-bind o (clear clock o json) _ (Follows-clear clock o json)
          (λ _. Follows-restore clock o json es))
        i h
