-- ===== src/Cache/Steps/Core.antt =====
-- The private methods of src/cache.ts as steps.
use yasd.Prelude.{
  ℕ, suc, ◌+◌, ◌≡◌, refl, inl, inr, Bool, true, false, Option, none, some, List, [], ◌∷◌, leb, ltb,
  arith, Bool-cases, if◌then◌else◌, if_rule, ◌*◌,
}
use yasd.Text.{Text, text_discrete}
use yasd.Result.{Result, Error, generation_exhausted}
use yasd.OrderedMap
use yasd.Cache.State.{
  Entry, Options, Json, Cache, Action, raise, gets, lift, modify, raise_if, ◌>>=◌, ◌>>◌,
}
use yasd.Cache.Core.{
  max_safe_integer, peek, is_expired, take_out, add_expiry, notify_expired, next_version, prune_one,
  now, prune, bump_version, remove_expired, assert_key_fits, assert_value_fits, validate_ttl,
  resolve_ttl, deadline_after, is_past, namespace_ttl, some_ttl, default_ttl,
}
use yasd.Cache.Steps.Relation.{
  SameStore, Step, counted, removed, versioned, pruned, Runs, here, next, Runs-trans, one, Follows,
  Follows-pure, Follows-raise, Runs-bind, Follows-bind,
}

module _ {V : Type 0} (o : Options) {exact : Bool} where
  pub Follows-modify :
      (f : Cache V → Cache V) → ((c : Cache V) → SameStore c (f c)) → Follows o exact (modify f)
  Follows-modify f h = record { from = λ c. one o (counted (h c)) }

  pub Follows-lift : {A : Type 0} (r : Result A) → Follows {V = V} o exact (lift r)
  Follows-lift r = record { from = λ c. here }

  pub Follows-gets : {A : Type 0} (f : Cache V → A) → Follows o exact (gets f)
  Follows-gets f = record { from = λ c. here }

  pub Follows-raise_if : (b : Bool) (e : Error) → Follows {V = V} o exact (raise_if b e)
  Follows-raise_if b e = record { from = λ c. here }

  pub Follows-now : (clock : ℕ → ℕ) → Follows {V = V} o exact (now clock)
  unfolding now
  Follows-now clock = record {
    from = λ c. one o (
        counted (record {
          map = refl;
          key_versions = refl;
          expiring = refl;
          bytes = refl;
          generation = refl;
          absent_epoch = refl;
          outer = refl;
        }));
  }

  pub Follows-if :
      {A : Type 0} (b : Bool) (m k : Action V A)
      → Follows o exact m
      → Follows o exact k
      → Follows o exact (if b then m else k)
  Follows-if true m k h g = h
  Follows-if false m k h g = g

  pub Runs-if :
      {A : Type 0} (c : Cache V) (b : Bool) (p q : Result A × Cache V)
      → (b ≡ true → Runs o exact c p.1)
      → (b ≡ false → Runs o exact c q.1)
      → Runs o exact c (if b then p else q).1
  Runs-if c true p q f g = f refl
  Runs-if c false p q f g = g refl

  prune_try :
      (k : Text) (c : Cache V)
      → Runs o exact c (if OrderedMap.has text_discrete c.map k then c else prune_one k c)
  prune_try k c =
      if_rule (λ d. Runs o exact c d) (OrderedMap.has text_discrete c.map k) c (prune_one k c)
        (λ _. here) (λ h. one o (pruned k h))

  prune-Runs : (ks : List Text) (c : Cache V) → Runs o exact c (prune o ks c)
  unfolding prune
  prune-Runs [] c = here
  prune-Runs (k ∷ ks) c =
      let c' = if OrderedMap.has text_discrete c.map k then c else prune_one k c in
      if_rule (λ d. Runs o exact c d) (leb (OrderedMap.size c'.key_versions) (o.max_entries + 512))
        c' (prune o ks c') (λ _. prune_try k c)
        (λ _. Runs-trans o (prune_try k c) (prune-Runs ks c'))

  pub Follows-bump_version : (k : Text) → Follows {V = V} o exact (bump_version o k)
  unfolding bump_version
  Follows-bump_version k = record {
    from = λ c.
        let c' = next_version k c in
        Runs-if c (leb max_safe_integer c.generation) (raise generation_exhausted c) _ (λ _. here)
          (λ h.
            let s : Runs o exact c c' = one o (versioned k (ground arith)) in
            Runs-if c (ltb (o.max_entries * 2 + 1024) (OrderedMap.size c'.key_versions)) _ _
              (λ _. Runs-trans o s (prune-Runs (OrderedMap.keys c'.key_versions) c')) (λ _. s));
  }

  pub Follows-notify_expired : (k : Text) → Follows {V = V} o exact (modify (notify_expired k))
  unfolding notify_expired
  Follows-notify_expired k = Follows-modify _ (λ c. ground arith)

  pub ruleset follows_rules = (
    Follows-pure, Follows-raise, Follows-bind, Follows-lift, Follows-gets, Follows-raise_if,
    Follows-now, Follows-if, Follows-bump_version, Follows-notify_expired,
  )

  bump_notify : (k : Text) → Follows {V = V} o exact (bump_version o k >> modify (notify_expired k))
  bump_notify k = search follows_rules

  pub remove_expired-Runs :
      (k : Text) (e : Entry V) (c : Cache V)
      → peek k c ≡ some e
      → Runs o exact c (remove_expired o k e c).1
  unfolding remove_expired
  remove_expired-Runs k e c h =
      Runs-trans o (next (one o (removed k e h)) (counted (ground arith)))
        ((bump_notify k).from (add_expiry (take_out k e c)))

  pub Follows-assert_key_fits : (k : Text) → Follows {V = V} o exact (assert_key_fits o k)
  unfolding assert_key_fits
  Follows-assert_key_fits k = search follows_rules

  module _ (json : Json V) where
    pub Follows-assert_value_fits :
        (k : Text) (v : V) → Follows {V = V} o exact (assert_value_fits o json k v)
    unfolding assert_value_fits
    Follows-assert_value_fits k v = search (follows_rules, Follows-assert_key_fits)

  module _ (clock : ℕ → ℕ) where
    pub Follows-validate_ttl : (ttl : ℕ) → Follows {V = V} o exact (validate_ttl clock o ttl)
    unfolding validate_ttl
    Follows-validate_ttl ttl = search follows_rules

    Follows-some_ttl : (ttl : ℕ) → Follows {V = V} o exact (some_ttl clock o ttl)
    unfolding some_ttl
    Follows-some_ttl ttl = search (follows_rules, Follows-validate_ttl)

    Follows-default_ttl : (a b : Option ℕ) → Follows {V = V} o exact (default_ttl clock o a b)
    unfolding default_ttl
    Follows-default_ttl (some ttl) b = Follows-some_ttl ttl
    Follows-default_ttl none (some ttl) = Follows-some_ttl ttl
    Follows-default_ttl none none = search follows_rules

    pub Follows-resolve_ttl :
        (k : Text) (ttl : Option ℕ) → Follows {V = V} o exact (resolve_ttl clock o k ttl)
    unfolding resolve_ttl
    Follows-resolve_ttl k (some ttl) = Follows-some_ttl ttl
    Follows-resolve_ttl k none = Follows-default_ttl (namespace_ttl o k) o.default_ttl

    pub Follows-deadline_after :
        (ttl : Option ℕ) → Follows {V = V} o exact (deadline_after clock o ttl)
    unfolding deadline_after
    Follows-deadline_after (some ttl) = search follows_rules
    Follows-deadline_after none = search follows_rules

    pub Follows-is_past : (x : Option ℕ) → Follows {V = V} o exact (is_past clock o x)
    unfolding is_past
    Follows-is_past (some x) = search follows_rules
    Follows-is_past none = search follows_rules

  pub ruleset step_rules = (
    follows_rules, Follows-assert_key_fits, Follows-assert_value_fits, Follows-validate_ttl,
    Follows-resolve_ttl, Follows-deadline_after, Follows-is_past,
  )

  -- A lookup, and what is done with its result in the same state.
  pub Follows-peek :
      {A : Type 0} (k : Text) (f : Option (Entry V) → Action V A)
      → ((found : Option (Entry V)) (c : Cache V) → peek k c ≡ found → Runs o exact c (f found c).1)
      → Follows o exact (gets (peek k) >>= f)
  Follows-peek k f h = record { from = λ c. h (peek k c) c refl }

  -- The common shape of the methods on one key: an entry past its deadline is removed first.
  module _ (clock : ℕ → ℕ) (k : Text) (e : Entry V) (c : Cache V) (found : peek k c ≡ some e) where
    pub live_or_removed :
        {A : Type 0} (rest : Action V A) (live : ℕ → Action V A)
        → Follows o exact rest
        → ((t : ℕ) (d : Cache V) → peek k d ≡ some e → Runs o exact d (live t d).1)
        → Runs o exact c
            ((now clock >>= λ t. if is_expired e t then (remove_expired o k e >> rest) else live t)
              c).1
    unfolding now
    live_or_removed rest live h g =
        let t = clock c.ticks in
        let tick = record c { ticks = suc c.ticks } in
        Runs-trans o ((Follows-now clock).from c) (elim (Bool-cases (is_expired e t)) [
          | inl y ↦ rw y (
              Runs-bind o (remove_expired o k e) (λ _. rest) tick
                (remove_expired-Runs k e tick found) (λ _ _. h.from _))
          | inr n ↦ rw n (g t tick found)
        ])
