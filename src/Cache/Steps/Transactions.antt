-- ===== src/Cache/Steps/Transactions.antt =====
-- `incr`, `decr` and `KVTransaction` of src/cache.ts as steps, and a commit that throws.
use yasd.Prelude.{
  ℕ, ◌≡◌, refl, ◌≤◌, inl, inr, false, not, Option, none, some, List, [], ◌∷◌, Bool-cases,
}
use yasd.Text.{Text}
use yasd.Result.{Error, err, not_numeric, not_finite}
use yasd.Cache.State.{Entry, Options, Json, Cache, pure, raise, modify, raise_if, ◌>>=◌, ◌>>◌}
use yasd.Cache.Core.{peek, is_expired, put_in, now, bump_version, remove_expired, assert_key_fits}
use yasd.Cache.Write.{evict_if_needed}
use yasd.Cache.Counter.{incr_base, take_live, incr_store, incr_from, incr, decr}
use yasd.Cache.Transaction
use yasd.Cache.Transaction.{
  QueuedOp, Transaction, TxResult, apply, apply_all, unchanged, commit_queue, exec, assert_open,
}
use yasd.Cache.Steps.Relation.{
  removed, stored, Runs, here, Runs-trans, one, Follows, Follows-pure, Follows-raise, Follows-bind,
  Runs-bind,
}
use yasd.Cache.Steps.Core.{
  Follows-peek, Follows-now, Follows-if, Follows-raise_if, Follows-bump_version,
  Follows-assert_key_fits, remove_expired-Runs, step_rules,
}
use yasd.Cache.Steps.Methods.{Follows-del, Follows-expire, Follows-persist}
use yasd.Cache.Steps.Writes.{
  Follows-sized, Follows-evict_if_needed, Follows-set, Follows-mset, Follows-clear_prefix,
}
use yasd.Cache.Steps.Compound.{Follows-cas}
use yasd.Cache.Steps.Atomic.{IsDistinctCache, restored, atomic_thrown-restored, Follows-atomic}

module _ {V : Type 0} (clock : ℕ → ℕ) (o : Options) (json : Json V) where
  incr_base-Runs :
      (t : ℕ) (k : Text) (found : Option (Entry V)) (c : Cache V)
      → peek k c ≡ found
      → Runs o false c (incr_base clock o json k t found c).1
  unfolding incr_base
  incr_base-Runs t k none c h = here
  incr_base-Runs t k (some e) c h = elim (Bool-cases (is_expired e t)) [
    | inl y ↦ rw y (
        Runs-bind o (remove_expired o k e) (λ _. pure (json.zero_value, none)) c
          (remove_expired-Runs o k e c h) (λ _ _. here))
    | inr n ↦ rw n (
        (Follows-if o (json.is_number e.value) (pure (e.value, e.expires_at)) (raise not_numeric)
            (Follows-pure o (e.value, e.expires_at)) (Follows-raise o not_numeric)).from
          c)
  ]

  take_live-Runs :
      (k : Text) (live : Option (Entry V)) (c : Cache V)
      → peek k c ≡ live
      → Runs o false c (take_live clock o json k live c).1
  unfolding take_live now
  take_live-Runs k none c h = here
  take_live-Runs k (some e) c h =
      Runs-trans o ((Follows-now o clock).from c)
        (elim (Bool-cases (is_expired e (clock c.ticks))) [
          | inl y ↦ rw y here
          | inr n ↦ rw n (one o (removed k e h))
        ])

  store_rest :
      (k : Text) (e : Entry V)
      → e.size ≤ o.max_bytes
      → Follows {V = V} o false (
          modify (put_in k e)
          >> (bump_version o k >> (evict_if_needed clock o json >> pure e.value)))
  store_rest k e fits =
      Follows-bind o (modify (put_in k e)) _ (record { from = λ c. one o (stored k e refl fits) })
        (λ _. Follows-bind o (bump_version o k) _ (Follows-bump_version o k) (λ _.
          Follows-bind o (evict_if_needed clock o json) _ (Follows-evict_if_needed clock o json)
            (λ _. Follows-pure o e.value)))

  incr_store-Follows :
      (k : Text) (e : Entry V)
      → e.size ≤ o.max_bytes
      → Follows {V = V} o false (incr_store clock o json k e)
  unfolding incr_store
  incr_store-Follows k e fits =
      Follows-peek o k
        (λ live.
          take_live clock o json k live
          >> (modify (put_in k e)
              >> (bump_version o k >> (evict_if_needed clock o json >> pure e.value))))
        (λ live c h.
          Runs-bind o (take_live clock o json k live)
            (λ _.
              modify (put_in k e)
              >> (bump_version o k >> (evict_if_needed clock o json >> pure e.value)))
            c (take_live-Runs k live c h) (λ _ _. (store_rest k e fits).from _))

  incr_from-Follows :
      (k : Text) (by : V) (p : V × Option ℕ)
      → Follows {V = V} o false (incr_from clock o json k by p)
  unfolding incr_from
  incr_from-Follows k by (base, x) =
      let sum = json.add base by in
      Follows-bind o (raise_if (not (json.is_number sum)) not_finite) _
        (Follows-raise_if o (not (json.is_number sum)) not_finite)
        (λ _.
          Follows-sized clock o json k sum _ (λ n fits.
            incr_store-Follows k (record { value = sum; expires_at = x; size = n }) fits))

  pub Follows-incr : (k : Text) (by : V) → Follows {V = V} o false (incr clock o json k by)
  unfolding incr
  Follows-incr k by = Follows-bind o (assert_key_fits o k) _ (Follows-assert_key_fits o k) (λ _.
      Follows-bind o (raise_if (not (json.is_number by)) not_finite) _
        (Follows-raise_if o (not (json.is_number by)) not_finite)
        (λ _. Follows-bind o (now clock) _ (Follows-now o clock) (λ t.
          Follows-peek o k
            (λ found. incr_base clock o json k t found >>= λ p. incr_from clock o json k by p)
            (λ found c h.
              Runs-bind o (incr_base clock o json k t found) (λ p. incr_from clock o json k by p) c
                (incr_base-Runs t k found c h) (λ p _. (incr_from-Follows k by p).from _)))))

  pub Follows-decr : (k : Text) (by : V) → Follows {V = V} o false (decr clock o json k by)
  unfolding decr
  Follows-decr k by = Follows-incr k (json.negate by)

  pub Follows-apply : (op : QueuedOp V) → Follows {V = V} o false (apply clock o json op)
  unfolding apply
  Follows-apply (Transaction.set k v ttl) = search (step_rules, Follows-set)
  Follows-apply (Transaction.mset es) = search (step_rules, Follows-mset)
  Follows-apply (Transaction.del k) = search (step_rules, Follows-del)
  Follows-apply (Transaction.clear_prefix p) = search (step_rules, Follows-clear_prefix)
  Follows-apply (Transaction.expire k ttl) = search (step_rules, Follows-expire)
  Follows-apply (Transaction.persist k) = search (step_rules, Follows-persist)
  Follows-apply (Transaction.incr k by) = search (step_rules, Follows-incr)
  Follows-apply (Transaction.decr k by) = search (step_rules, Follows-decr)
  Follows-apply (Transaction.cas k e v ttl) = search (step_rules, Follows-cas)

  pub Follows-apply_all :
      (ops : List (QueuedOp V)) → Follows {V = V} o false (apply_all clock o json ops)
  unfolding apply_all
  Follows-apply_all [] = Follows-pure o []
  Follows-apply_all (op ∷ ops) = Follows-bind o (apply clock o json op) _ (Follows-apply op) (λ r.
      Follows-bind o (apply_all clock o json ops) _ (Follows-apply_all ops)
        (λ rs. Follows-pure o (r ∷ rs)))

  -- A commit of the queue that throws, at whichever operation, has done nothing to the store: every
  -- map, in its order, every counter and every open frame is what it was before, when no key
  -- stood twice in a map before. What stays is the version counter, the change sets, the
  -- listener's calls and the clock.
  pub commit_queue-restored :
      (ops : List (QueuedOp V)) (c d : Cache V) (e : Error)
      → IsDistinctCache c
      → commit_queue clock o json ops c ≡ (err e, d)
      → d ≡ restored c d
  unfolding commit_queue
  commit_queue-restored [] c d e i h = cc
  commit_queue-restored (op ∷ ops) c d e i h =
      atomic_thrown-restored o (apply_all clock o json (op ∷ ops)) c d e
        (Follows-apply_all (op ∷ ops)) i h

  pub Follows-commit_queue :
      (ops : List (QueuedOp V)) → Follows {V = V} o false (commit_queue clock o json ops)
  unfolding commit_queue
  Follows-commit_queue [] = Follows-pure o []
  Follows-commit_queue (op ∷ ops) =
      Follows-atomic o (apply_all clock o json (op ∷ ops)) (Follows-apply_all (op ∷ ops))
