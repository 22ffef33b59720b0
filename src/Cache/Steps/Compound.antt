-- ===== src/Cache/Steps/Compound.antt =====
-- The methods of src/cache.ts that read, decide and write as steps: `cas`, `restore` and `replace`.
use yasd.Prelude.{
  ℕ, zero, suc, ◌+◌, ◌≡◌, refl, sym, subst, ◌∙◌, ◌≤◌, inl, inr, Bool, true, false, not, Option,
  none, some, List, [], ◌∷◌, arith, Bool-cases, Option-cases, if◌then◌else◌, is_some, ◌||◌,
}
use yasd.Text.{Text}
use yasd.Result.{Result, ok, err, duplicate_key, invalid_snapshot}
use yasd.OrderedMap
use yasd.Cache.State.{
  Entry, Options, Json, Cache, Action, pure, gets, lift, modify, raise_if, ◌>>=◌, ◌>>◌,
}
use yasd.Cache.Core.{
  peek, is_expired, put_in, add_expiry, now, bump_version, remove_expired, assert_key_fits,
  assert_value_fits,
}
use yasd.Cache.Read.{SnapshotEntry, default_json_bytes}
use yasd.Cache.Write.{is_over, oldest, evict_out, take_old, drop_old, evict_if_needed, clear}
use yasd.Cache.Counter.{
  values_equal, cas_current, clone_expected, cas_default, cas_deadline, cas_expired, cas_store,
  cas_decide, cas,
}
use yasd.Cache.Snapshot.{
  seen_has, is_unsafe, is_over_at, restore_check, restore_put, restore_one, restore_write,
  trim_rounds, trim, restore, replace,
}
use yasd.Cache.Steps.Relation.{
  counted, replaced, Runs, here, Runs-trans, one, Follows, Follows-pure, Follows-bind, Runs-bind,
}
use yasd.Cache.Steps.Core.{
  Follows-peek, Follows-now, Follows-if, Follows-lift, Follows-bump_version,
  Follows-assert_key_fits, Follows-resolve_ttl, remove_expired-Runs, step_rules,
}
use yasd.Cache.Steps.Writes.{
  oldest-peek, assert_value_fits-state, assert_value_fits-size, Follows-sized,
  Follows-evict_if_needed, drop_old-Runs, take_old-Runs, evict_out-Runs, Follows-clear,
}
use yasd.Cache.Steps.Atomic.{Follows-atomic}

module _ {V : Type 0} (clock : ℕ → ℕ) (o : Options) (json : Json V) {exact : Bool} where
  cas_current-Runs :
      (t : ℕ) (k : Text) (found : Option (Entry V)) (c : Cache V)
      → peek k c ≡ found
      → Runs o exact c (cas_current clock o json k t found c).1
  unfolding cas_current
  cas_current-Runs t k none c h = here
  cas_current-Runs t k (some e) c h = elim (Bool-cases (is_expired e t)) [
    | inl y ↦ rw y (
        Runs-bind o (remove_expired o k e) (λ _. pure (none, none)) c
          (remove_expired-Runs o k e c h) (λ _ _. here))
    | inr n ↦ rw n here
  ]

  clone_expected-Follows : (x : Option V) → Follows {V = V} o exact (clone_expected clock o json x)
  unfolding clone_expected
  clone_expected-Follows none = search step_rules
  clone_expected-Follows (some v) = search step_rules

  cas_default-Follows :
      (k : Text) (ttl : Option ℕ) (x : Option V)
      → Follows {V = V} o exact (cas_default clock o json k ttl x)
  unfolding cas_default
  cas_default-Follows k ttl x =
      Follows-if o (is_some ttl || is_some x) _ _ (Follows-pure o none)
        (Follows-resolve_ttl o clock k none)

  cas_deadline-Follows :
      (t : ℕ) (a b d : Option ℕ) → Follows {V = V} o exact (cas_deadline clock o json t a b d)
  unfolding cas_deadline
  cas_deadline-Follows t (some ttl) b d = search step_rules
  cas_deadline-Follows t none (some x) d = Follows-pure o (some x)
  cas_deadline-Follows t none none none = Follows-pure o none
  cas_deadline-Follows t none none (some d) = Follows-pure o (some (t + d))

  expiry_true : Follows {V = V} o exact (modify add_expiry >> pure true)
  expiry_true = record { from = λ c. one o (counted (ground arith)) }

  cas_expired-Follows : (k : Text) → Follows {V = V} o exact (cas_expired clock o json k)
  unfolding cas_expired
  cas_expired-Follows k =
      Follows-peek o k (λ live. drop_old clock o json k live >> (modify add_expiry >> pure true))
        (λ live c h.
          Runs-bind o (drop_old clock o json k live) (λ _. modify add_expiry >> pure true) c
            (drop_old-Runs clock o json k live c h) (λ _ _. expiry_true.from _))

  bump_evict_pure :
      {A : Type 0} (k : Text) (a : A)
      → Follows {V = V} o exact (bump_version o k >> (evict_if_needed clock o json >> pure a))
  bump_evict_pure k a = search (step_rules, Follows-evict_if_needed)

  cas_store-Follows :
      (k : Text) (e : Entry V)
      → e.size ≤ o.max_bytes
      → Follows {V = V} o exact (cas_store clock o json k e)
  unfolding cas_store
  cas_store-Follows k e fits = record {
    from = λ c.
        Runs-trans o (one o (replaced k e fits))
          ((bump_evict_pure k true).from (put_in k e (take_old k (peek k c) c)));
  }

  cas_end-Follows :
      (k : Text) (e : Entry V) (t : ℕ)
      → e.size ≤ o.max_bytes
      → Follows {V = V} o exact
          (if is_expired e t then cas_expired clock o json k else cas_store clock o json k e)
  cas_end-Follows k e t fits =
      Follows-if o (is_expired e t) _ _ (cas_expired-Follows k) (cas_store-Follows k e fits)

  cas_decide-Follows :
      (k : Text) (v : V) (ttl : Option ℕ) (wanted : Option V) (n t : ℕ) (p : Option V × Option ℕ)
      → n ≤ o.max_bytes
      → Follows {V = V} o exact (cas_decide clock o json k v ttl wanted n t p)
  unfolding cas_decide
  cas_decide-Follows k v ttl wanted n t (current, keep) fits =
      Follows-if o (not (values_equal clock o json current wanted)) _ _ (Follows-pure o false) (
        Follows-bind o (cas_default clock o json k ttl current) _
          (cas_default-Follows k ttl current)
          (λ resolved.
            Follows-bind o (cas_deadline clock o json t ttl keep resolved) _
              (cas_deadline-Follows t ttl keep resolved)
              (λ x. cas_end-Follows k (record { value = v; expires_at = x; size = n }) t fits)))

  cas_body-Follows :
      (k : Text) (v : V) (ttl : Option ℕ) (wanted : Option V) (n t : ℕ)
      → n ≤ o.max_bytes
      → Follows {V = V} o exact (
          gets (peek k) >>= λ found.
          cas_current clock o json k t found >>= λ p. cas_decide clock o json k v ttl wanted n t p)
  cas_body-Follows k v ttl wanted n t fits =
      Follows-peek o k
        (λ found.
          cas_current clock o json k t found >>= λ p. cas_decide clock o json k v ttl wanted n t p)
        (λ found c h.
          Runs-bind o (cas_current clock o json k t found)
            (λ p. cas_decide clock o json k v ttl wanted n t p) c (cas_current-Runs t k found c h)
            (λ p _. (cas_decide-Follows k v ttl wanted n t p fits).from _))

  pub Follows-cas :
      (k : Text) (expected : Option V) (v : V) (ttl : Option ℕ)
      → Follows {V = V} o exact (cas clock o json k expected v ttl)
  unfolding cas
  Follows-cas k expected v ttl =
      Follows-bind o (assert_key_fits o k) _ (Follows-assert_key_fits o k) (λ _.
        Follows-bind o (clone_expected clock o json expected) _ (clone_expected-Follows expected)
          (λ wanted.
            Follows-bind o (lift (json.clone v default_json_bytes)) _
              (Follows-lift o (json.clone v default_json_bytes))
              (λ owned. Follows-sized clock o json k owned _ (λ n fits.
                Follows-bind o (now clock) _ (Follows-now o clock)
                  (λ t. cas_body-Follows k owned ttl wanted n t fits)))))

  -- Snapshots.
  restore_check_one :
      (t : ℕ) (seen : List Text) (e : SnapshotEntry V) (others : Action V (List (SnapshotEntry V)))
      → Follows o exact others
      → Follows {V = V} o exact (do
        raise_if (seen_has e.key seen) duplicate_key
        raise_if (is_unsafe e.expires_at) invalid_snapshot
        value ← lift (json.clone e.value default_json_bytes)
        assert_value_fits o json e.key value
        rest ← others
        pure (if is_over_at t e.expires_at then rest else record e { value = value } ∷ rest))
  restore_check_one t seen e others h = search step_rules depth 12

  restore_check-Follows :
      (t : ℕ) (seen : List Text) (es : List (SnapshotEntry V))
      → Follows {V = V} o exact (restore_check clock o json t seen es)
  unfolding restore_check
  restore_check-Follows t seen [] = Follows-pure o []
  restore_check-Follows t seen (e ∷ es) =
      restore_check_one t seen e (restore_check clock o json t (e.key ∷ seen) es)
        (restore_check-Follows t (e.key ∷ seen) es)

  restore_put-Runs :
      (e : SnapshotEntry V) (n : ℕ) (c : Cache V)
      → n ≤ o.max_bytes
      → Runs o exact c (restore_put clock o json e n (take_old e.key (peek e.key c) c)).1
  unfolding restore_put
  restore_put-Runs e n c fits =
      let d : Entry V = record { value = e.value; expires_at = e.expires_at; size = n } in
      Runs-trans o (one o (replaced e.key d fits))
        ((Follows-bump_version o e.key).from (put_in e.key d (take_old e.key (peek e.key c) c)))

  restore_sized :
      (e : SnapshotEntry V) (c b : Cache V) (p : Result ℕ × Cache V)
      → b ≡ take_old e.key (peek e.key c) c
      → p.1 ≡ b
      → ((n : ℕ) → p.0 ≡ ok n → n ≤ o.max_bytes)
      → Runs o exact c (((λ (_ : Cache V). p) >>= restore_put clock o json e) b).1
  restore_sized e c b (ok n, d) h g fits =
      subst (λ x. Runs o exact c (restore_put clock o json e n x).1) (sym (g ∙ h))
        (restore_put-Runs e n c (fits n refl))
  restore_sized e c b (err y, d) h g fits =
      subst (λ x. Runs o exact c x) (sym (g ∙ h))
        (take_old-Runs clock o json e.key (peek e.key c) c refl)

  restore_one-Follows : (e : SnapshotEntry V) → Follows {V = V} o exact (restore_one clock o json e)
  unfolding restore_one
  restore_one-Follows e = record {
    from = λ c.
        let b = take_old e.key (peek e.key c) c in
        restore_sized e c b (assert_value_fits o json e.key e.value b) refl
          (assert_value_fits-state o json e.key e.value b)
          (λ n h. (assert_value_fits-size o json e.key e.value b h).0);
  }

  restore_write-Follows :
      (es : List (SnapshotEntry V)) (n : ℕ)
      → Follows {V = V} o exact (restore_write clock o json es n)
  unfolding restore_write
  restore_write-Follows [] n = Follows-pure o n
  restore_write-Follows (e ∷ es) n =
      Follows-bind o (restore_one clock o json e) (λ _. restore_write clock o json es (n + 1))
        (restore_one-Follows e) (λ _. restore_write-Follows es (n + 1))

  trim_rounds-Runs : (n : ℕ) (c : Cache V) → Runs o exact c (trim_rounds clock o json n c).1
  unfolding trim_rounds
  trim_rounds-Runs zero c = here
  trim_rounds-Runs (suc n) c = elim (Bool-cases (is_over o c)) [
    | inr within ↦ rw (within, trim_rounds) here
    | inl over ↦ elim (Option-cases (oldest c)) [
      | inl empty ↦ rw (over, trim_rounds) (rw (empty, trim_rounds) here)
      | inr ((k, e), first) ↦
          rw (over, trim_rounds)
            (rw (first, trim_rounds)
              (Runs-trans o (evict_out-Runs clock o json k e c (oldest-peek c k e first)) (
                Runs-bind o (bump_version o k) (λ _. trim_rounds clock o json n) (evict_out k e c)
                  ((Follows-bump_version o k).from (evict_out k e c))
                  (λ _ _. trim_rounds-Runs n _))))
    ]
  ]

  trim-Follows : Follows {V = V} o exact (trim clock o json)
  unfolding trim
  trim-Follows = record { from = λ c. trim_rounds-Runs (OrderedMap.size c.map) c }

  pub Follows-restore :
      (es : List (SnapshotEntry V)) → Follows {V = V} o exact (restore clock o json es)
  unfolding restore
  Follows-restore es =
      search (step_rules, restore_check-Follows, restore_write-Follows, trim-Follows)

  pub Follows-replace :
      (es : List (SnapshotEntry V)) → Follows {V = V} o exact (replace clock o json es)
  unfolding replace
  Follows-replace es = Follows-atomic o (clear clock o json >> restore clock o json es) (
      Follows-bind o (clear clock o json) (λ _. restore clock o json es)
        (Follows-clear clock o json) (λ _. Follows-restore es))
