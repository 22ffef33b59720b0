-- ===== src/Cache/Accounting/Recent.antt =====
-- src/cache.ts: `evictIfNeeded` of `KVCache` and the entry that was used last.
use mathlib.Core.List.{lookup}
use yasd.Prelude.{
  ℕ, zero, suc, ◌+◌, ◌≤◌, ◌≡◌, refl, sym, ap, ◌∙◌, subst, true, false, some, List, [], ◌∷◌, ◌++◌,
  length, arith, inl, inr, Bool-cases, Option-cases,
}
use yasd.Text.{Text, text_discrete}
use yasd.Result.{Result, ok, err}
use yasd.OrderedMap
use yasd.OrderedMap.Chain.{remove}
use yasd.Cache.State.{Entry, Options, Json, Cache, ◌>>◌}
use yasd.Cache.Core.{is_expired, take_out, now}
use yasd.Cache.Write.{is_over, oldest, evict_out, evict_entry, evict_rounds, evict_if_needed}
use yasd.Cache.Steps.Writes.{oldest-peek, evict_entry-Runs}
use yasd.Cache.Accounting.Sizes.{total, entries-map_delete}
use yasd.Cache.Accounting.Balance.{IsBalanced, Runs-IsBalanced}
use yasd.Cache.Accounting.Bounds.{
  map-bump_version, map-remove_expired, evict_rounds_within, evict_rounds_over, is_over_empty,
  oldest_first,
}

module _ {V : Type 0} where
  entries-take_out :
      (k : Text) (e : Entry V) (c : Cache V)
      → (take_out k e c).map.entries ≡ remove text_discrete k c.map.entries
  unfolding take_out
  entries-take_out k e c = entries-map_delete k c

  -- The entry stands last in the chain.
  pub record IsLast (k : Text) (e : Entry V) (c : Cache V) : Type 0 where
    pub before : List (Text × Entry V)
    pub entries : c.map.entries ≡ before ++ (k, e) ∷ []

  remove-oldest :
      (c : Cache V) (q k : Text) (f e : Entry V) (es : List (Text × Entry V))
      → c.map.entries ≡ (q, f) ∷ es
      → oldest c ≡ some (k, e)
      → remove text_discrete k c.map.entries ≡ es
  unfolding oldest OrderedMap.get lookup remove
  remove-oldest c q k f e es h first = ground arith

module _ {V : Type 0} (clock : ℕ → ℕ) (o : Options) (json : Json V) where
  entries-evict_entry :
      (k : Text) (e : Entry V) (c : Cache V)
      → (evict_entry clock o json k e c).1.map.entries ≡ remove text_discrete k c.map.entries
  unfolding evict_entry now evict_out
  entries-evict_entry k e c =
      let d = record c { ticks = suc c.ticks } in
      elim (Bool-cases (is_expired e (clock c.ticks))) [
        | inl y ↦ rw y (ap (λ m. m.entries) (map-remove_expired o k e d) ∙ entries-take_out k e d)
        | inr n ↦
            rw n (
              ap (λ m. m.entries) (map-bump_version o k (evict_out k e d)) ∙ entries-take_out k e d)
      ]

  module _ (k : Text) (e : Entry V) (room : 1 ≤ o.max_entries) (fits : e.size ≤ o.max_bytes) where
    alone_within :
        (c : Cache V) → c.map.entries ≡ (k, e) ∷ [] → IsBalanced o c → is_over o c ≡ false
    unfolding is_over
    alone_within c h a =
        let b : c.bytes ≡ e.size + 0 = a.counted_bytes ∙ ap total h in
        let n : length c.map.entries ≡ 1 = ap length h in ground arith

    next_round-IsLast :
        (n : ℕ) (c : Cache V) (p : Result (Unit {0}) × Cache V)
        → IsLast k e p.1
        → IsLast k e (evict_rounds clock o json n p.1).1
        → IsLast k e (((λ (_ : Cache V). p) >> evict_rounds clock o json n) c).1
    next_round-IsLast n c (ok a, d) h g = g
    next_round-IsLast n c (err x, d) h g = h

    evict_rounds-IsLast :
        (n : ℕ) (c : Cache V)
        → IsBalanced o c
        → IsLast k e c
        → IsLast k e (evict_rounds clock o json n c).1
    unfolding evict_rounds
    evict_rounds-IsLast zero c a l = l
    evict_rounds-IsLast (suc n) c a l = elim (Bool-cases (is_over o c)) [
      | inr within ↦
          subst (λ p. IsLast k e p.1) (sym (evict_rounds_within clock o json n c within)) l
      | inl over ↦ elim (Option-cases (oldest c)) [
        | inl empty ↦
            let none_left =
              is_over_empty clock o json c (oldest_first clock o json c c.map.entries refl empty) in
            cc
        | inr ((q, f), first) ↦
            let p = evict_entry clock o json q f c in
            let b : IsBalanced o p.1 =
              Runs-IsBalanced o (evict_entry-Runs clock o json q f c (oldest-peek c q f first)) a in
            let kept : IsLast k e p.1 = spared c q f over first a l in
            subst (λ r. IsLast k e r.1) (sym (evict_rounds_over clock o json n c q f over first))
              (next_round-IsLast n c p kept (evict_rounds-IsLast n p.1 b kept))
      ]
    ]
      where
        spared :
            (c : Cache V) (q : Text) (f : Entry V)
            → is_over o c ≡ true
            → oldest c ≡ some (q, f)
            → IsBalanced o c
            → IsLast k e c
            → IsLast k e (evict_entry clock o json q f c).1
        spared c q f over first a l = from_before l.before l.entries
          where
            from_before :
                (es : List (Text × Entry V))
                → c.map.entries ≡ es ++ (k, e) ∷ []
                → IsLast k e (evict_entry clock o json q f c).1
            from_before [] h = let within = alone_within c h a in cc
            from_before ((r, g) ∷ es) h = record {
              before = es;
              entries =
                  entries-evict_entry q f c ∙ remove-oldest c r q g f (es ++ (k, e) ∷ []) h first;
            }

  -- Eviction never takes the entry that was used last, whether it ends by returning or by
  -- throwing: if an entry of at most `max_bytes` stands last in a cache whose byte count is
  -- right, and the cache may hold one entry at least, it stands last afterwards.
  pub evict_if_needed-IsLast :
      (k : Text) (e : Entry V) (c : Cache V)
      → 1 ≤ o.max_entries
      → e.size ≤ o.max_bytes
      → IsBalanced o c
      → IsLast k e c
      → IsLast k e (evict_if_needed clock o json c).1
  unfolding evict_if_needed
  evict_if_needed-IsLast k e c room fits a l =
      evict_rounds-IsLast k e room fits (length c.map.entries) c a l
