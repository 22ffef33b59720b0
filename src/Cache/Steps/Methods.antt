-- ===== src/Cache/Steps/Methods.antt =====
-- The methods of src/cache.ts on one key as steps.
use yasd.Prelude.{
  ℕ, suc, ◌+◌, ◌≡◌, refl, inl, inr, Bool, true, false, Option, none, some, List, [], ◌∷◌, leb,
  arith, Bool-cases, if◌then◌else◌,
}
use yasd.Text.{Text}
use yasd.Cache.State.{Entry, Options, Json, Cache, pure, gets, lift, modify, ◌>>=◌, ◌>>◌}
use yasd.Cache.Core.{
  put_last, peek, is_expired, take_out, add_miss, now, bump_version, remove_expired,
}
use yasd.Cache.Read.{
  missing, absent, touch, default_json_bytes, get_found, get, mget, ttl_live, ttl_found, ttl,
  expiration_found, expiration, drop_if_expired, get_version, version_of,
}
use yasd.Cache.Write.{del_found, del}
use yasd.Cache.Deadline.{
  retime, expire_at_found, expire_at, expire_found, expire, persist_found, persist, sweep_one,
  sweep_keys, sweep,
}
use yasd.Cache.Steps.Relation.{
  counted, removed, retimed, Runs, here, next, Runs-trans, one, Follows, Follows-pure, Follows-bind,
  Runs-bind,
}
use yasd.Cache.Steps.Core.{
  Follows-peek, Follows-now, Follows-modify, remove_expired-Runs, live_or_removed, step_rules,
}

module _ {V : Type 0} (clock : ℕ → ℕ) (o : Options) (json : Json V) {exact : Bool} where
  Follows-miss : Follows {V = V} o exact (modify add_miss)
  Follows-miss = Follows-modify o _ (λ c. ground arith)

  touch-Runs :
      (k : Text) (e : Entry V) (c : Cache V) → peek k c ≡ some e → Runs o exact c (touch k e c)
  unfolding touch
  touch-Runs k e c h = next (one o (retimed k e e h refl)) (counted (ground arith))

  ruleset rules = (step_rules, Follows-miss, Follows-peek)

  missed : {A : Type 0} (a : A) → Follows {V = V} o exact (modify add_miss >> pure a)
  missed a = search rules

  clone-Follows :
      (v : V)
      → Follows {V = V} o exact
          (do value ← lift (json.clone v default_json_bytes); pure (some value))
  clone-Follows v = search rules

  get_found-Runs :
      (k : Text) (found : Option (Entry V)) (c : Cache V)
      → peek k c ≡ found
      → Runs o exact c (get_found clock o json k found c).1
  unfolding get_found
  get_found-Runs k none c h = (missed {A = Option V} none).from c
  get_found-Runs k (some e) c h =
      live_or_removed o clock k e c h (modify add_miss >> pure none) _ (missed none)
        (λ t d g. Runs-trans o (touch-Runs k e d g) ((clone-Follows e.value).from (touch k e d)))

  pub Follows-get : (k : Text) → Follows {V = V} o exact (get clock o json k)
  unfolding get
  Follows-get k = search (rules, get_found-Runs)

  pub Follows-mget : (ks : List Text) → Follows {V = V} o exact (mget clock o json ks)
  unfolding mget
  Follows-mget [] = search rules
  Follows-mget (k ∷ ks) =
      Follows-bind o (get clock o json k) (λ v. mget clock o json ks >>= λ vs. pure (v ∷ vs))
        (Follows-get k)
        (λ v.
          Follows-bind o (mget clock o json ks) (λ vs. pure (v ∷ vs)) (Follows-mget ks)
            (λ vs. Follows-pure o (v ∷ vs)))

  ttl_live-Follows : (x : Option ℕ) → Follows {V = V} o exact (ttl_live clock o json x)
  unfolding ttl_live
  ttl_live-Follows none = search rules
  ttl_live-Follows (some x) = search rules

  ttl_found-Runs :
      (k : Text) (found : Option (Entry V)) (c : Cache V)
      → peek k c ≡ found
      → Runs o exact c (ttl_found clock o json k found c).1
  unfolding ttl_found
  ttl_found-Runs k none c h = (missed missing).from c
  ttl_found-Runs k (some e) c h =
      live_or_removed o clock k e c h (modify add_miss >> pure missing) _ (missed missing)
        (λ t d g. (ttl_live-Follows e.expires_at).from d)

  pub Follows-ttl : (k : Text) → Follows {V = V} o exact (ttl clock o json k)
  unfolding ttl
  Follows-ttl k = search (rules, ttl_found-Runs)

  expiration_found-Runs :
      (k : Text) (found : Option (Entry V)) (c : Cache V)
      → peek k c ≡ found
      → Runs o exact c (expiration_found clock o json k found c).1
  unfolding expiration_found
  expiration_found-Runs k none c h = here
  expiration_found-Runs k (some e) c h =
      live_or_removed o clock k e c h (pure absent) _ (search rules) (λ t d g. here)

  pub Follows-expiration : (k : Text) → Follows {V = V} o exact (expiration clock o json k)
  unfolding expiration
  Follows-expiration k = search (rules, expiration_found-Runs)

  drop_if_expired-Runs :
      (k : Text) (found : Option (Entry V)) (c : Cache V)
      → peek k c ≡ found
      → Runs o exact c (drop_if_expired clock o json k found c).1
  unfolding drop_if_expired now
  drop_if_expired-Runs k none c h = here
  drop_if_expired-Runs k (some e) c h =
      let d = record c { ticks = suc c.ticks } in
      Runs-trans o ((Follows-now o clock).from c)
        (elim (Bool-cases (is_expired e (clock c.ticks))) [
          | inl y ↦ rw y (remove_expired-Runs o k e d h)
          | inr n ↦ rw n here
        ])

  version_found :
      (k : Text)
      → Follows {V = V} o exact (
          gets (peek k) >>= λ found.
          drop_if_expired clock o json k found >> gets (version_of clock o json k))
  version_found k =
      Follows-peek o k
        (λ found. drop_if_expired clock o json k found >> gets (version_of clock o json k))
        (λ found c h.
          Runs-bind o (drop_if_expired clock o json k found) (λ _. gets (version_of clock o json k))
            c (drop_if_expired-Runs k found c h) (λ _ _. here))

  pub Follows-get_version : (k : Text) → Follows {V = V} o exact (get_version clock o json k)
  unfolding get_version
  Follows-get_version k = search (rules, version_found)

  bump_true : (k : Text) → Follows {V = V} o exact (bump_version o k >> pure true)
  bump_true k = search rules

  del_found-Runs :
      (k : Text) (found : Option (Entry V)) (c : Cache V)
      → peek k c ≡ found
      → Runs o exact c (del_found clock o json k found c).1
  unfolding del_found
  del_found-Runs k none c h = here
  del_found-Runs k (some e) c h =
      live_or_removed o clock k e c h (pure false) _ (search rules)
        (λ t d g. Runs-trans o (one o (removed k e g)) ((bump_true k).from (take_out k e d)))

  pub Follows-del : (k : Text) → Follows {V = V} o exact (del clock o json k)
  unfolding del
  Follows-del k = search (rules, del_found-Runs)

  retime-Runs :
      (k : Text) (e : Entry V) (x : Option ℕ) (c : Cache V)
      → peek k c ≡ some e
      → Runs o exact c (retime clock o json k e x c).1
  unfolding retime
  retime-Runs k e x c h =
      let e' : Entry V = record e { expires_at = x } in
      Runs-trans o (one o (retimed k e e' h refl)) ((bump_true k).from (put_last k e' c))

  persist_found-Runs :
      (k : Text) (found : Option (Entry V)) (c : Cache V)
      → peek k c ≡ found
      → Runs o exact c (persist_found clock o json k found c).1
  unfolding persist_found
  persist_found-Runs k none c h = here
  persist_found-Runs k (some e) c h =
      live_or_removed o clock k e c h (pure false) _ (search rules)
        (λ t d g. retime-Runs k e none d g)

  pub Follows-persist : (k : Text) → Follows {V = V} o exact (persist clock o json k)
  unfolding persist
  Follows-persist k = search (rules, persist_found-Runs)

  expire_found-Runs :
      (ttl : ℕ) (k : Text) (found : Option (Entry V)) (c : Cache V)
      → peek k c ≡ found
      → Runs o exact c (expire_found clock o json k ttl found c).1
  unfolding expire_found now
  expire_found-Runs ttl k none c h = here
  expire_found-Runs ttl k (some e) c h =
      live_or_removed o clock k e c h (pure false)
        (λ _. now clock >>= λ t'. retime clock o json k e (some (t' + ttl))) (search rules)
        (λ t d g.
          Runs-trans o ((Follows-now o clock).from d)
            (retime-Runs k e (some (clock d.ticks + ttl)) (record d { ticks = suc d.ticks }) g))

  pub Follows-expire : (k : Text) (ttl : ℕ) → Follows {V = V} o exact (expire clock o json k ttl)
  unfolding expire
  Follows-expire k ttl = search (rules, expire_found-Runs)

  expire_at_found-Runs :
      (x : ℕ) (k : Text) (found : Option (Entry V)) (c : Cache V)
      → peek k c ≡ found
      → Runs o exact c (expire_at_found clock o json k x found c).1
  unfolding expire_at_found now
  expire_at_found-Runs x k none c h = here
  expire_at_found-Runs x k (some e) c h =
      live_or_removed o clock k e c h (pure false)
        (λ _. now clock >>= λ t'.
          if leb x t'
          then (remove_expired o k e >> pure true)
          else retime clock o json k e (some x))
        (search rules)
        (λ t d g.
          let d' = record d { ticks = suc d.ticks } in
          Runs-trans o ((Follows-now o clock).from d) (elim (Bool-cases (leb x (clock d.ticks))) [
            | inl y ↦ rw y (
                Runs-bind o (remove_expired o k e) (λ _. pure true) d'
                  (remove_expired-Runs o k e d' g) (λ _ _. here))
            | inr n ↦ rw n (retime-Runs k e (some x) d' g)
          ]))

  pub Follows-expire_at : (k : Text) (x : ℕ) → Follows {V = V} o exact (expire_at clock o json k x)
  unfolding expire_at
  Follows-expire_at k x = search (rules, expire_at_found-Runs)

  sweep_one-Runs :
      (t : ℕ) (k : Text) (found : Option (Entry V)) (c : Cache V)
      → peek k c ≡ found
      → Runs o exact c (sweep_one clock o json t k found c).1
  unfolding sweep_one
  sweep_one-Runs t k none c h = here
  sweep_one-Runs t k (some e) c h = elim (Bool-cases (is_expired e t)) [
    | inl y ↦ rw y (
        Runs-bind o (remove_expired o k e) (λ _. pure 1) c (remove_expired-Runs o k e c h)
          (λ _ _. here))
    | inr n ↦ rw n here
  ]

  sweep_keys-Follows :
      (t : ℕ) (ks : List Text) (n : ℕ) → Follows {V = V} o exact (sweep_keys clock o json t ks n)
  unfolding sweep_keys
  sweep_keys-Follows t [] n = search rules
  sweep_keys-Follows t (k ∷ ks) n = record {
    from = λ c.
        Runs-bind o (sweep_one clock o json t k (peek k c))
          (λ m. sweep_keys clock o json t ks (n + m)) c (sweep_one-Runs t k (peek k c) c refl)
          (λ a _. (sweep_keys-Follows t ks (n + a)).from _);
  }

  pub Follows-sweep : Follows {V = V} o exact (sweep clock o json)
  unfolding sweep
  Follows-sweep = search (rules, sweep_keys-Follows)
