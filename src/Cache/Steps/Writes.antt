-- ===== src/Cache/Steps/Writes.antt =====
-- The writing methods of src/cache.ts as steps: `set`, `setAt`, `mset`, `clearPrefix`, `clear` and
-- the eviction.
use yasd.Prelude.{
  ℕ, zero, suc, ◌+◌, ◌≡◌, ◌≤◌, inl, inr, Bool, Option, none, some, List, [], ◌∷◌, arith, Bool-cases,
  Option-cases, if◌then◌else◌,
}
use yasd.Text.{Text, utf8_byte_length}
use yasd.Result.{ok}
use yasd.OrderedMap
use yasd.Cache.State.{Entry, Options, Json, Cache, Action, pure, gets, lift, modify, ◌>>=◌, ◌>>◌}
use yasd.Cache.Core.{
  peek, is_expired, take_out, put_in, add_miss, add_expiry, now, bump_version, assert_key_fits,
  assert_value_fits, is_past, resolve_ttl, deadline_after,
}
use yasd.Cache.Read.{default_json_bytes}
use yasd.Cache.Write.{
  is_over, oldest, evict_out, take_old, evict_entry, evict_rounds, evict_if_needed, drop_old,
  set_expired, set_live, set_owned, set, set_at, clear_keys, clear_prefix, bump_all, wipe, clear,
  mset_check, mset_write, mset, BatchEntry, Checked, in_namespace,
}
use yasd.Cache.Steps.Relation.{
  counted, removed, replaced, wiped, Runs, here, next, Runs-trans, one, Follows, Follows-pure,
  Follows-bind, Runs-bind,
}
use yasd.Cache.Steps.Core.{
  Follows-peek, Follows-now, Follows-modify, Follows-bump_version, Follows-is_past, Follows-if,
  Follows-assert_value_fits, remove_expired-Runs, step_rules,
}

-- The first key of the chain is found with its own entry.
pub oldest-peek :
    {V : Type 0} (c : Cache V) (k : Text) (e : Entry V) → oldest c ≡ some (k, e) → peek k c ≡ some e
unfolding oldest
oldest-peek c k e h = ground arith

-- What the checks of a value guarantee: they change nothing, and the charged size fits.
pub assert_value_fits-size :
    {V : Type 0} (o : Options) (json : Json V) (k : Text) (v : V) (c : Cache V) {n : ℕ}
    → (assert_value_fits o json k v c).0 ≡ ok n
    → (n ≤ o.max_bytes) × (n ≡ utf8_byte_length k + json.byte_length v)
unfolding assert_value_fits assert_key_fits
assert_value_fits-size o json k v c h = ground arith

pub assert_value_fits-state :
    {V : Type 0} (o : Options) (json : Json V) (k : Text) (v : V) (c : Cache V)
    → (assert_value_fits o json k v c).1 ≡ c
unfolding assert_value_fits assert_key_fits
assert_value_fits-state o json k v c = ground arith

module _ {V : Type 0} (clock : ℕ → ℕ) (o : Options) (json : Json V) {exact : Bool} where
  ruleset rules = (step_rules, Follows-peek)

  pub evict_out-Runs :
      (k : Text) (e : Entry V) (c : Cache V) → peek k c ≡ some e → Runs o exact c (evict_out k e c)
  unfolding evict_out
  evict_out-Runs k e c h = next (one o (removed k e h)) (counted (ground arith))

  pub evict_entry-Runs :
      (k : Text) (e : Entry V) (c : Cache V)
      → peek k c ≡ some e
      → Runs o exact c (evict_entry clock o json k e c).1
  unfolding evict_entry now
  evict_entry-Runs k e c h =
      let d = record c { ticks = suc c.ticks } in
      Runs-trans o ((Follows-now o clock).from c)
        (elim (Bool-cases (is_expired e (clock c.ticks))) [
          | inl y ↦ rw y (remove_expired-Runs o k e d h)
          | inr n ↦ rw n (
              Runs-trans o (evict_out-Runs k e d h)
                ((Follows-bump_version o k).from (evict_out k e d)))
        ])

  evict_rounds-Runs : (n : ℕ) (c : Cache V) → Runs o exact c (evict_rounds clock o json n c).1
  unfolding evict_rounds
  evict_rounds-Runs zero c = here
  evict_rounds-Runs (suc n) c = elim (Bool-cases (is_over o c)) [
    | inr within ↦ rw (within, evict_rounds) here
    | inl over ↦ elim (Option-cases (oldest c)) [
      | inl empty ↦ rw (over, evict_rounds) (rw (empty, evict_rounds) here)
      | inr ((k, e), first) ↦
          rw (over, evict_rounds)
            (rw (first, evict_rounds)
              (Runs-bind o (evict_entry clock o json k e) (λ _. evict_rounds clock o json n) c
                (evict_entry-Runs k e c (oldest-peek c k e first)) (λ _ _. evict_rounds-Runs n _)))
    ]
  ]

  pub Follows-evict_if_needed : Follows {V = V} o exact (evict_if_needed clock o json)
  unfolding evict_if_needed
  Follows-evict_if_needed = record { from = λ c. evict_rounds-Runs (OrderedMap.size c.map) c }

  pub drop_old-Runs :
      (k : Text) (old : Option (Entry V)) (c : Cache V)
      → peek k c ≡ old
      → Runs o exact c (drop_old clock o json k old c).1
  unfolding drop_old
  drop_old-Runs k none c h = here
  drop_old-Runs k (some e) c h =
      Runs-trans o (one o (removed k e h)) ((Follows-bump_version o k).from (take_out k e c))

  pub take_old-Runs :
      (k : Text) (old : Option (Entry V)) (c : Cache V)
      → peek k c ≡ old
      → Runs o exact c (take_old k old c)
  unfolding take_old
  take_old-Runs k none c h = here
  take_old-Runs k (some e) c h = one o (removed k e h)

  Follows-miss_expiry : Follows {V = V} o exact (modify (λ c. add_miss (add_expiry c)))
  Follows-miss_expiry = Follows-modify o _ (λ c. ground arith)

  Follows-set_expired : (k : Text) → Follows {V = V} o exact (set_expired clock o json k)
  unfolding set_expired
  Follows-set_expired k =
      Follows-peek o k (λ old. drop_old clock o json k old >> modify (λ c. add_miss (add_expiry c)))
        (λ old c h.
          Runs-bind o (drop_old clock o json k old) (λ _. modify (λ c. add_miss (add_expiry c))) c
            (drop_old-Runs k old c h) (λ _ _. Follows-miss_expiry.from _))

  bump_evict :
      (k : Text) → Follows {V = V} o exact (bump_version o k >> evict_if_needed clock o json)
  bump_evict k = search (rules, Follows-evict_if_needed)

  -- Storing under a key whose old entry has been taken out.
  pub replaced-Runs :
      (k : Text) (e : Entry V) (c : Cache V)
      → e.size ≤ o.max_bytes
      → Runs o exact c (put_in k e (take_old k (peek k c) c))
  replaced-Runs k e c fits = one o (replaced k e fits)

  set_live-Runs :
      (k : Text) (e : Entry V) (c : Cache V)
      → e.size ≤ o.max_bytes
      → Runs o exact c (set_live clock o json k e c).1
  unfolding set_live
  set_live-Runs k e c fits =
      Runs-trans o (replaced-Runs k e c fits)
        ((bump_evict k).from (put_in k e (take_old k (peek k c) c)))

  pub Follows-set_live :
      (k : Text) (e : Entry V) → e.size ≤ o.max_bytes → Follows o exact (set_live clock o json k e)
  Follows-set_live k e fits = record { from = λ c. set_live-Runs k e c fits }

  -- A value that has passed its checks, and what is done with the bytes that it is charged.
  pub Follows-sized :
      {A : Type 0} (k : Text) (v : V) (f : ℕ → Action V A)
      → ((n : ℕ) → n ≤ o.max_bytes → Follows o exact (f n))
      → Follows o exact (assert_value_fits o json k v >>= f)
  Follows-sized k v f h = record {
    from = λ c.
        Runs-bind o (assert_value_fits o json k v) f c
          ((Follows-assert_value_fits o json k v).from c)
          (λ n e. (h n (assert_value_fits-size o json k v c e).0).from _);
  }

  pub Follows-set_owned :
      (k : Text) (v : V) (x : Option ℕ) → Follows {V = V} o exact (set_owned clock o json k v x)
  unfolding set_owned
  Follows-set_owned k v x = Follows-sized k v _ (λ n fits.
      let e : Entry V = record { value = v; expires_at = x; size = n } in
      Follows-bind o (is_past clock o x)
        (λ past. if past then set_expired clock o json k else set_live clock o json k e)
        (Follows-is_past o clock x)
        (λ past. Follows-if o past _ _ (Follows-set_expired k) (Follows-set_live k e fits)))

  pub Follows-set :
      (k : Text) (v : V) (ttl : Option ℕ) → Follows {V = V} o exact (set clock o json k v ttl)
  unfolding set
  Follows-set k v ttl = search (rules, Follows-set_owned) depth 8

  pub Follows-set_at :
      (k : Text) (v : V) (x : Option ℕ) → Follows {V = V} o exact (set_at clock o json k v x)
  unfolding set_at
  Follows-set_at k v x = search (rules, Follows-set_owned) depth 8

  clear_one :
      (prefix k : Text) (ks : List Text) (n : ℕ)
      → ((m : ℕ) → Follows o exact (clear_keys clock o json prefix ks m))
      → Follows o exact (
          gets (peek k) >>= λ found.
          modify (take_old k found)
          >> (bump_version o k >> clear_keys clock o json prefix ks (n + 1)))
  clear_one prefix k ks n ih =
      Follows-peek o k
        (λ found.
          modify (take_old k found)
          >> (bump_version o k >> clear_keys clock o json prefix ks (n + 1)))
        (λ found c h. Runs-trans o (take_old-Runs k found c h) (
          Follows.from
            (Follows-bind o (bump_version o k) (λ _. clear_keys clock o json prefix ks (n + 1))
              (Follows-bump_version o k) (λ _. ih (n + 1)))
            (take_old k found c)))

  clear_keys-Follows :
      (prefix : Text) (ks : List Text) (n : ℕ)
      → Follows o exact (clear_keys clock o json prefix ks n)
  unfolding clear_keys
  clear_keys-Follows prefix [] n = Follows-pure o n
  clear_keys-Follows prefix (k ∷ ks) n =
      Follows-if o (in_namespace prefix k) _ _
        (clear_one prefix k ks n (clear_keys-Follows prefix ks)) (clear_keys-Follows prefix ks n)

  pub Follows-clear_prefix : (p : Text) → Follows {V = V} o exact (clear_prefix clock o json p)
  unfolding clear_prefix
  Follows-clear_prefix p = search (rules, clear_keys-Follows)

  bump_all-Follows : (ks : List Text) → Follows {V = V} o exact (bump_all clock o json ks)
  unfolding bump_all
  bump_all-Follows [] = Follows-pure o tt
  bump_all-Follows (k ∷ ks) =
      Follows-bind o (bump_version o k) (λ _. bump_all clock o json ks) (Follows-bump_version o k)
        (λ _. bump_all-Follows ks)

  wipe-Follows : Follows {V = V} o exact (modify wipe)
  wipe-Follows = record { from = λ c. one o wiped }

  pub Follows-clear : Follows {V = V} o exact (clear clock o json)
  unfolding clear
  Follows-clear = search (rules, bump_all-Follows, wipe-Follows)

  mset_check_one :
      (b : BatchEntry V) (others : Action V (List (Checked V)))
      → Follows o exact others
      → Follows o exact (do
        value ← lift (json.clone b.value default_json_bytes)
        resolved ← resolve_ttl clock o b.key b.ttl
        expires_at ← deadline_after clock o resolved
        assert_value_fits o json b.key value
        rest ← others
        pure (record { key = b.key; value = value; expires_at = expires_at } ∷ rest))
  mset_check_one b others h = search step_rules depth 12

  mset_check-Follows :
      (bs : List (BatchEntry V)) → Follows {V = V} o exact (mset_check clock o json bs)
  unfolding mset_check
  mset_check-Follows [] = Follows-pure o []
  mset_check-Follows (b ∷ bs) =
      mset_check_one b (mset_check clock o json bs) (mset_check-Follows bs)

  mset_write-Follows :
      (es : List (Checked V)) → Follows {V = V} o exact (mset_write clock o json es)
  unfolding mset_write
  mset_write-Follows [] = Follows-pure o tt
  mset_write-Follows (e ∷ es) =
      Follows-bind o (set_owned clock o json e.key e.value e.expires_at)
        (λ _. mset_write clock o json es) (Follows-set_owned e.key e.value e.expires_at)
        (λ _. mset_write-Follows es)

  pub Follows-mset : (bs : List (BatchEntry V)) → Follows {V = V} o exact (mset clock o json bs)
  unfolding mset
  Follows-mset bs = search (rules, mset_check-Follows, mset_write-Follows)
