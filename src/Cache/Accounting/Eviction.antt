-- ===== src/Cache/Accounting/Eviction.antt =====
-- src/cache.ts: `evictIfNeeded` of `KVCache` and the limits.
use yasd.Prelude.{
  ℕ, zero, suc, ◌+◌, ◌*◌, ◌≤◌, ◌<◌, ◌≡◌, refl, ap, ◌∙◌, subst, List, [], ◌∷◌, length, arith, inl,
  inr, Bool-cases, Option-cases, ltb, leb, if_rule, if◌then◌else◌,
}
use yasd.Text.{Text, text_discrete}
use yasd.Result.{Result, ok, err}
use yasd.OrderedMap
use yasd.Cache.State.{Entry, Options, Json, Cache, modify, ◌>>◌}
use yasd.Cache.Core.{
  max_safe_integer, is_expired, map_delete, take_out, now, prune, prune_one, next_version,
  bump_version, remove_expired, notify_expired,
}
use yasd.Cache.Write.{is_over, oldest, evict_out, evict_entry, evict_rounds, evict_if_needed}
use yasd.Cache.Steps.Writes.{Follows-evict_if_needed, oldest-peek}
use yasd.Cache.Accounting.Balance.{IsBalanced, Runs-IsBalanced}
use yasd.Cache.Accounting.Bounds.{
  evict_rounds_within, evict_rounds_over, evict_rounds-is_over, within_limits, length-evict_entry,
  is_over_empty, oldest_first,
}

module _ {V : Type 0} (o : Options) where
  generation-prune : (ks : List Text) (c : Cache V) → (prune o ks c).generation ≡ c.generation
  unfolding prune prune_one
  generation-prune [] c = refl
  generation-prune (k ∷ ks) c =
      let c' = if OrderedMap.has text_discrete c.map k then c else prune_one k c in
      let kept : c'.generation ≡ c.generation =
        if_rule (λ d. d.generation ≡ c.generation) (OrderedMap.has text_discrete c.map k) c
          (prune_one k c) (λ _. refl) (λ _. refl) in
      if_rule (λ d. d.generation ≡ c.generation)
        (leb (OrderedMap.size c'.key_versions) (o.max_entries + 512)) c' (prune o ks c') (λ _. kept)
        (λ _. generation-prune ks c' ∙ kept)

  -- A method that returned, having moved the version counter by one.
  abbrev Bumped : Cache V → Result (Unit {0}) × Cache V → Type 0
  Bumped c p = (p.0 ≡ ok tt) × (p.1.generation ≡ suc c.generation)

  bump_version-Bumped :
      (k : Text) (c : Cache V) → c.generation < max_safe_integer → Bumped c (bump_version o k c)
  unfolding bump_version next_version
  bump_version-Bumped k c lt =
      let c' = next_version k c in
      if_rule (λ p. Bumped c p) (leb max_safe_integer c.generation) _ _ (λ h. absurd (ground arith))
        (λ _.
          if_rule (λ p. Bumped c p)
            (ltb (o.max_entries * 2 + 1024) (OrderedMap.size c'.key_versions)) _ _
            (λ _. (refl, generation-prune (OrderedMap.keys c'.key_versions) c'))
            (λ _. (refl, refl)))

  generation-take_out :
      (k : Text) (e : Entry V) (c : Cache V) → (take_out k e c).generation ≡ c.generation
  unfolding take_out map_delete
  generation-take_out k e c = ground arith

  notified_Bumped :
      (k : Text) (c : Cache V) (p : Result (Unit {0}) × Cache V)
      → Bumped c p
      → Bumped c (((λ (_ : Cache V). p) >> modify (notify_expired k)) c)
  unfolding notify_expired
  notified_Bumped k c (ok a, d) h = (refl, ground arith)
  notified_Bumped k c (err x, d) h = cc

  remove_expired-Bumped :
      (k : Text) (e : Entry V) (c : Cache V)
      → c.generation < max_safe_integer
      → Bumped c (remove_expired o k e c)
  unfolding remove_expired
  remove_expired-Bumped k e c lt =
      let d = record (take_out k e c) { expiries = (take_out k e c).expiries + 1 } in
      let same = generation-take_out k e c in
      subst
        (λ g.
          ((remove_expired o k e c).0 ≡ ok tt) × ((remove_expired o k e c).1.generation ≡ suc g))
        same (notified_Bumped k d (bump_version o k d) (bump_version-Bumped k d (omega arith)))

module _ {V : Type 0} (clock : ℕ → ℕ) (o : Options) (json : Json V) where
  evict_entry-Bumped :
      (k : Text) (e : Entry V) (c : Cache V)
      → c.generation < max_safe_integer
      → Bumped o c (evict_entry clock o json k e c)
  unfolding evict_entry now evict_out
  evict_entry-Bumped k e c lt =
      let d = record c { ticks = suc c.ticks } in
      elim (Bool-cases (is_expired e (clock c.ticks))) [
        | inl y ↦ rw y (remove_expired-Bumped o k e d lt)
        | inr n ↦ rw n (
            let same = generation-take_out o k e d in
            let b = bump_version-Bumped o k (evict_out k e d) (omega arith) in
            (b.0, b.1 ∙ ap suc same))
      ]

  next_round_ok :
      (n : ℕ) (c : Cache V) (p : Result (Unit {0}) × Cache V)
      → p.0 ≡ ok tt
      → (evict_rounds clock o json n p.1).0 ≡ ok tt
      → (((λ (_ : Cache V). p) >> evict_rounds clock o json n) c).0 ≡ ok tt
  next_round_ok n c (ok a, d) h g = g
  next_round_ok n c (err x, d) h g = cc

  evict_rounds_ok :
      (n : ℕ) (c : Cache V)
      → length c.map.entries ≤ n
      → c.generation + length c.map.entries ≤ max_safe_integer
      → (evict_rounds clock o json n c).0 ≡ ok tt
  unfolding evict_rounds
  evict_rounds_ok zero c le g = refl
  evict_rounds_ok (suc n) c le g = elim (Bool-cases (is_over o c)) [
    | inr within ↦ ap (λ p. p.0) (evict_rounds_within clock o json n c within)
    | inl over ↦ elim (Option-cases (oldest c)) [
      | inl empty ↦
          let none_left =
            is_over_empty clock o json c (oldest_first clock o json c c.map.entries refl empty) in
          cc
      | inr ((k, e), first) ↦
          let shorter = length-evict_entry clock o json k e c (oldest-peek c k e first) in
          let p = evict_entry clock o json k e c in
          let b = evict_entry-Bumped k e c (omega arith) in
          let moved : p.1.generation ≡ suc c.generation = b.1 in
          ap (λ p. p.0) (evict_rounds_over clock o json n c k e over first)
          ∙ next_round_ok n c p b.0 (evict_rounds_ok n p.1 (omega arith) (omega arith))
    ]
  ]

  ok_state : (p : Result (Unit {0}) × Cache V) → p.0 ≡ ok tt → p ≡ (ok tt, p.1)
  ok_state (r, d) h = ap (λ x. (x, d)) h

  -- `evictIfNeeded` returns, and leaves the cache within both of its limits: if no key stands
  -- twice, each entry fits in `max_bytes`, `bytes` is the sum of the sizes, and the version
  -- counter can still be raised once for each entry.
  pub evict_if_needed-size :
      (c : Cache V)
      → IsBalanced o c
      → c.generation + OrderedMap.size c.map ≤ max_safe_integer
      → (d : Cache V) × (evict_if_needed clock o json c ≡ (ok tt, d))
        × (OrderedMap.size d.map ≤ o.max_entries)
        × (d.bytes ≤ o.max_bytes)
  unfolding evict_if_needed
  evict_if_needed-size c a g =
      let p = evict_if_needed clock o json c in
      let h = ok_state p (evict_rounds_ok (length c.map.entries) c (omega arith) g) in
      let over = evict_rounds-is_over clock o json (length c.map.entries) c p.1 (omega arith) h in
      let balanced = Runs-IsBalanced o ((Follows-evict_if_needed clock o json).from c) a in
      let within = within_limits clock o json p.1 over balanced in (p.1, h, within.0, within.1)
