-- ===== src/Cache/Accounting/Bounds.antt =====
-- src/cache.ts: the rounds of `evictIfNeeded` of `KVCache` and the entries that are left.
use mathlib.Core.List.{lookup}
use yasd.Prelude.{
  ℕ, zero, suc, ◌+◌, ◌*◌, if_rule, ◌≤◌, ◌≡◌, refl, sym, ap, ◌∙◌, subst, true, false, none, some,
  List, [], ◌∷◌, length, arith, inl, inr, Bool-cases, Option-cases, ltb, leb, if◌then◌else◌, ◌||◌,
  ◌&&◌,
}
use yasd.Text.{Text, text_discrete}
use yasd.Result.{Result, ok, err}
use yasd.OrderedMap
use yasd.Cache.State.{Entry, Options, Json, Cache, modify, ◌>>◌}
use yasd.Cache.Core.{
  max_safe_integer, peek, is_expired, take_out, now, prune, prune_one, next_version, bump_version,
  remove_expired, notify_expired,
}
use yasd.Cache.Write.{is_over, oldest, evict_out, evict_entry, evict_rounds}
use yasd.Cache.Steps.Writes.{oldest-peek}
use yasd.Cache.Accounting.Sizes.{length-remove, entries-map_delete, total}
use yasd.Cache.Accounting.Balance.{IsBalanced}

module _ {V : Type 0} (o : Options) where
  map-prune : (ks : List Text) (c : Cache V) → (prune o ks c).map ≡ c.map
  unfolding prune prune_one
  map-prune [] c = refl
  map-prune (k ∷ ks) c =
      let c' = if OrderedMap.has text_discrete c.map k then c else prune_one k c in
      let kept : c'.map ≡ c.map =
        if_rule (λ d. d.map ≡ c.map) (OrderedMap.has text_discrete c.map k) c (prune_one k c)
          (λ _. refl) (λ _. refl) in
      if_rule (λ d. d.map ≡ c.map) (leb (OrderedMap.size c'.key_versions) (o.max_entries + 512)) c'
        (prune o ks c') (λ _. kept) (λ _. map-prune ks c' ∙ kept)

  pub map-bump_version : (k : Text) (c : Cache V) → (bump_version o k c).1.map ≡ c.map
  unfolding bump_version next_version
  map-bump_version k c =
      let c' = next_version k c in
      if_rule (λ (p : Result (Unit {0}) × Cache V). p.1.map ≡ c.map)
        (leb max_safe_integer c.generation) _ _ (λ _. refl)
        (λ _.
          if_rule (λ (p : Result (Unit {0}) × Cache V). p.1.map ≡ c.map)
            (ltb (o.max_entries * 2 + 1024) (OrderedMap.size c'.key_versions)) _ _
            (λ _. map-prune (OrderedMap.keys c'.key_versions) c') (λ _. refl))

  map-notify_expired : (k : Text) (c : Cache V) → (notify_expired k c).map ≡ c.map
  unfolding notify_expired
  map-notify_expired k c = ground arith

  length-take_out :
      (k : Text) (e : Entry V) (c : Cache V)
      → peek k c ≡ some e
      → length (take_out k e c).map.entries + 1 ≡ length c.map.entries
  unfolding take_out OrderedMap.get
  length-take_out k e c h =
      ap (λ es. length es + 1) (entries-map_delete k c) ∙ length-remove k e c.map.entries h

  length-bump_take_out :
      (k : Text) (e : Entry V) (c : Cache V)
      → peek k c ≡ some e
      → length (bump_version o k (evict_out k e c)).1.map.entries + 1 ≡ length c.map.entries
  unfolding evict_out
  length-bump_take_out k e c h =
      ap (λ m. length m.entries + 1) (map-bump_version k (evict_out k e c))
      ∙ length-take_out k e c h

  pub map-remove_expired :
      (k : Text) (e : Entry V) (c : Cache V) → (remove_expired o k e c).1.map ≡ (take_out k e c).map
  unfolding remove_expired
  map-remove_expired k e c =
      let d = record (take_out k e c) { expiries = (take_out k e c).expiries + 1 } in
      last (bump_version o k d) ∙ map-bump_version k d
    where
      last :
          (p : Result (Unit {0}) × Cache V)
          → (((λ (_ : Cache V). p) >> modify (notify_expired k)) c).1.map ≡ p.1.map
      last (ok a, d) = map-notify_expired k d
      last (err x, d) = refl

module _ {V : Type 0} (clock : ℕ → ℕ) (o : Options) (json : Json V) where
  pub length-evict_entry :
      (k : Text) (e : Entry V) (c : Cache V)
      → peek k c ≡ some e
      → length (evict_entry clock o json k e c).1.map.entries + 1 ≡ length c.map.entries
  unfolding evict_entry now
  length-evict_entry k e c h =
      let d = record c { ticks = suc c.ticks } in
      elim (Bool-cases (is_expired e (clock c.ticks))) [
        | inl y ↦ rw y (
            ap (λ m. length m.entries + 1) (map-remove_expired o k e d) ∙ length-take_out o k e d h)
        | inr n ↦ rw n (length-bump_take_out o k e d h)
      ]

  -- No entry is left to evict from an empty map.
  pub is_over_empty : (c : Cache V) → length c.map.entries ≤ 0 → is_over o c ≡ false
  unfolding is_over
  is_over_empty c h = ground arith

  pub oldest_first :
      (c : Cache V) (es : List (Text × Entry V))
      → c.map.entries ≡ es
      → oldest c ≡ none
      → length c.map.entries ≤ 0
  unfolding oldest OrderedMap.get lookup
  oldest_first c [] p h = ground arith
  oldest_first c ((k, e) ∷ es) p h = ground arith

  pub evict_rounds_within :
      (n : ℕ) (c : Cache V) → is_over o c ≡ false → evict_rounds clock o json (suc n) c ≡ (ok tt, c)
  unfolding evict_rounds
  evict_rounds_within n c within = rw (within, evict_rounds) refl

  pub evict_rounds_over :
      (n : ℕ) (c : Cache V) (k : Text) (e : Entry V)
      → is_over o c ≡ true
      → oldest c ≡ some (k, e)
      → evict_rounds clock o json (suc n) c
        ≡ (evict_entry clock o json k e >> evict_rounds clock o json n) c
  unfolding evict_rounds
  evict_rounds_over n c k e over first = rw (over, evict_rounds) (rw (first, evict_rounds) refl)

  next_round :
      (n : ℕ) (d : Cache V) (p : Result (Unit {0}) × Cache V)
      → (((λ (_ : Cache V). p) >> evict_rounds clock o json n) d ≡ (ok tt, d))
      → evict_rounds clock o json n p.1 ≡ (ok tt, d)
  next_round n d (ok a, c) h = h
  next_round n d (err x, c) h = cc

  -- `n` rounds are enough for `n` entries: the loop that returns has made its condition false.
  pub evict_rounds-is_over :
      (n : ℕ) (c d : Cache V)
      → length c.map.entries ≤ n
      → evict_rounds clock o json n c ≡ (ok tt, d)
      → is_over o d ≡ false
  unfolding evict_rounds
  evict_rounds-is_over zero c d le h =
      subst (λ x. is_over o x ≡ false) (ap (λ p. p.1) h) (is_over_empty c le)
  evict_rounds-is_over (suc n) c d le h = elim (Bool-cases (is_over o c)) [
    | inr within ↦
        let same : c ≡ d = ap (λ p. p.1) (sym (evict_rounds_within n c within) ∙ h) in
        subst (λ x. is_over o x ≡ false) same within
    | inl over ↦ elim (Option-cases (oldest c)) [
      | inl empty ↦ let none_left = is_over_empty c (oldest_first c c.map.entries refl empty) in cc
      | inr ((k, e), first) ↦
          let shorter = length-evict_entry k e c (oldest-peek c k e first) in
          let p = evict_entry clock o json k e c in
          evict_rounds-is_over n p.1 d (omega arith)
            (next_round n d p (sym (evict_rounds_over n c k e over first) ∙ h))
    ]
  ]

  pub within_limits :
      (d : Cache V)
      → is_over o d ≡ false
      → IsBalanced o d
      → (OrderedMap.size d.map ≤ o.max_entries) × (d.bytes ≤ o.max_bytes)
  unfolding is_over
  within_limits d h a = within_entries d.map.entries d.bytes a.counted_bytes h
    where
      within_entries :
          (es : List (Text × Entry V)) (b : ℕ)
          → b ≡ total es
          → (((ltb o.max_entries (length es) || ltb o.max_bytes b) && ltb 0 (length es)) ≡ false)
          → (length es ≤ o.max_entries) × (b ≤ o.max_bytes)
      within_entries [] b p q = (omega arith, omega arith)
      within_entries (e ∷ es) b p q = (ground arith, ground arith)
