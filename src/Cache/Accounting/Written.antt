-- ===== src/Cache/Accounting/Written.antt =====
-- src/cache.ts: what `KVCache.get` reads after a write.
use mathlib.Core.List.{lookup}
use yasd.Prelude.{
  ℕ, suc, ◌≤◌, ◌≡◌, refl, sym, ap, ◌∙◌, subst, Bool, false, Option, none, some, List, [], ◌∷◌, ◌++◌,
  arith, leb, if◌then◌else◌,
}
use yasd.Text.{Text, text_discrete, utf8_byte_length}
use yasd.Result.{Result, ok, err}
use yasd.OrderedMap
use yasd.OrderedMap.Chain.{IsDistinct}
use yasd.Cache.State.{Entry, Options, Json, Cache, Action, gets, ◌>>=◌, ◌>>◌}
use yasd.Cache.Core.{
  peek, is_expired, take_out, put_in, now, bump_version, assert_key_fits, assert_value_fits,
  is_past,
}
use yasd.Cache.Read.{default_json_bytes, get, get_found}
use yasd.Cache.Steps.Atomic.{bind_ok, bind_err}
use yasd.Cache.Write.{take_old, evict_if_needed, set_live, set_expired, set_owned}
use yasd.Cache.Steps.Relation.{replaced, one}
use yasd.Cache.Steps.Core.{Follows-bump_version, Follows-is_past}
use yasd.Cache.Steps.Writes.{assert_value_fits-size, assert_value_fits-state, Follows-set_live}
use yasd.Cache.Accounting.Sizes.{entries-map_set, peek-map_delete}
use yasd.Cache.Accounting.Balance.{IsBalanced, Runs-IsBalanced}
use yasd.Cache.Accounting.Bounds.{map-bump_version}
use yasd.Cache.Accounting.Recent.{IsLast, evict_if_needed-IsLast}

module _ {V : Type 0} where
  lookup-last :
      (k : Text) (e : Entry V) (es : List (Text × Entry V))
      → IsDistinct text_discrete (es ++ (k, e) ∷ [])
      → lookup text_discrete k (es ++ (k, e) ∷ []) ≡ some e
  unfolding lookup
  lookup-last k e [] d = ground arith
  lookup-last k e ((q, f) ∷ es) d = ground (arith, lookup-last k e es d.1)

  put_in-IsLast :
      (k : Text) (e : Entry V) (c : Cache V) → peek k c ≡ none → IsLast k e (put_in k e c)
  unfolding put_in
  put_in-IsLast k e c h = record { before = c.map.entries; entries = entries-map_set k e c h }

  peek-take_old :
      (k : Text) (c : Cache V) (old : Option (Entry V))
      → IsDistinct text_discrete c.map.entries
      → peek k c ≡ old
      → peek k (take_old k old c) ≡ none
  unfolding take_old take_out
  peek-take_old k c none d h = h
  peek-take_old k c (some f) d h = peek-map_delete k c d

module _ {V : Type 0} (clock : ℕ → ℕ) (o : Options) (json : Json V) (k : Text) (e : Entry V)
    (room : 1 ≤ o.max_entries) (fits : e.size ≤ o.max_bytes) where
  then_evict :
      (c : Cache V) (p : Result (Unit {0}) × Cache V)
      → IsLast k e p.1
      → IsBalanced o p.1
      → IsLast k e (((λ (_ : Cache V). p) >> evict_if_needed clock o json) c).1
  then_evict c (ok a, d) l b = evict_if_needed-IsLast clock o json k e d room fits b l
  then_evict c (err x, d) l b = l

  set_live-IsLast : (c : Cache V) → IsBalanced o c → IsLast k e (set_live clock o json k e c).1
  unfolding set_live
  set_live-IsLast c a =
      let d = put_in k e (take_old k (peek k c) c) in
      let b : IsBalanced o d = Runs-IsBalanced o (one o (replaced k e fits)) a in
      let l : IsLast k e d =
        put_in-IsLast k e (take_old k (peek k c) c)
          (peek-take_old k c (peek k c) a.distinct refl) in
      then_evict d (bump_version o k d)
        (record {
          before = l.before;
          entries = ap (λ m. m.entries) (map-bump_version o k d) ∙ l.entries;
        })
        (Runs-IsBalanced o ((Follows-bump_version o k).from d) b)

module _ {V : Type 0} (clock : ℕ → ℕ) (o : Options) (json : Json V) where
  key_fits :
      (k : Text) (c : Cache V)
      → utf8_byte_length k ≤ o.max_key_bytes
      → assert_key_fits o k c ≡ (ok tt, c)
  unfolding assert_key_fits
  key_fits k c h = ground arith

  get_found_live :
      (k : Text) (e : Entry V) (w : V) (c : Cache V)
      → is_expired e (clock c.ticks) ≡ false
      → json.clone e.value default_json_bytes ≡ ok w
      → (get_found clock o json k (some e) c).0 ≡ ok (some w)
  unfolding get_found now
  get_found_live k e w c live copied = rw live (rw copied refl)

  get-IsLast :
      (k : Text) (e : Entry V) (w : V) (c : Cache V)
      → IsDistinct text_discrete c.map.entries
      → IsLast k e c
      → utf8_byte_length k ≤ o.max_key_bytes
      → is_expired e (clock c.ticks) ≡ false
      → json.clone e.value default_json_bytes ≡ ok w
      → (get clock o json k c).0 ≡ ok (some w)
  unfolding get OrderedMap.get
  get-IsLast k e w c a l short live copied =
      let found : peek k c ≡ some e =
        rw l.entries
          (lookup-last k e l.before (subst (λ es. IsDistinct text_discrete es) l.entries a)) in
      let f : Unit {0} → Action V (Option V) =
        λ _. gets (peek k) >>= λ found. get_found clock o json k found in
      ap (λ p. p.0)
        (bind_ok (assert_key_fits o k) f c c tt (key_fits k c short)
          ∙ ap (λ x. get_found clock o json k x c) found)
      ∙ get_found_live k e w c live copied

  -- The clock never reaches the deadline.
  abbrev pub IsAhead : Option ℕ → Type 0
  IsAhead none = Unit
  IsAhead (some x) = (n : ℕ) → suc (clock n) ≤ x

  is_past-IsAhead :
      (x : Option ℕ) (c : Cache V)
      → IsAhead x
      → is_past clock o x c ≡ (ok false, (is_past clock o x c).1)
  unfolding is_past now
  is_past-IsAhead none c h = refl
  is_past-IsAhead (some x) c h = let le = h c.ticks in ground arith

  is_expired-IsAhead : (e : Entry V) (n : ℕ) → IsAhead e.expires_at → is_expired e (clock n) ≡ false
  unfolding is_expired
  is_expired-IsAhead e n h = unexpired e.expires_at h
    where
      unexpired :
          (x : Option ℕ)
          → IsAhead x
          → elim x as (λ _. Bool) [ none ↦ false | some t ↦ leb t (clock n) ] ≡ false
      unexpired none h = refl
      unexpired (some x) h = let le = h n in ground arith

  assert_value_fits-short :
      (k : Text) (v : V) (c : Cache V) {n : ℕ}
      → (assert_value_fits o json k v c).0 ≡ ok n
      → utf8_byte_length k ≤ o.max_key_bytes
  unfolding assert_value_fits assert_key_fits
  assert_value_fits-short k v c h = ground arith

  module _ (k : Text) (v w : V) (x : Option ℕ) (room : 1 ≤ o.max_entries) (ahead : IsAhead x)
      (copied : json.clone v default_json_bytes ≡ ok w) where
    get-set_live :
        (n : ℕ) (c : Cache V)
        → n ≤ o.max_bytes
        → utf8_byte_length k ≤ o.max_key_bytes
        → IsBalanced o c
        → (get clock o json k
            (set_live clock o json k (record { value = v; expires_at = x; size = n }) c).1).0
          ≡ ok (some w)
    get-set_live n c fits short a =
        let e : Entry V = record { value = v; expires_at = x; size = n } in
        let d = (set_live clock o json k e c).1 in
        let b : IsBalanced o d =
          Runs-IsBalanced o ((Follows-set_live clock o json k e fits).from c) a in
        get-IsLast k e w d b.distinct (set_live-IsLast clock o json k e room fits c a) short
          (is_expired-IsAhead e d.ticks ahead) copied

    paired :
        {A : Type 0} (p : Result A × Cache V) (r : Result A) (d : Cache V)
        → p.0 ≡ r
        → p.1 ≡ d
        → p ≡ (r, d)
    paired (q, c) r d h g = ap (λ y. (y, c)) h ∙ ap (λ y. (r, y)) g

    -- What follows the checks of the value.
    abbrev rest : ℕ → Action V (Unit {0})
    rest size = do
      past ← is_past clock o x
      if past
          then set_expired clock o json k
          else set_live clock o json k (record { value = v; expires_at = x; size = size })

    from_checked :
        (c : Cache V) (r : Result ℕ)
        → (assert_value_fits o json k v c).0 ≡ r
        → (set_owned clock o json k v x c).0 ≡ ok tt
        → IsBalanced o c
        → (get clock o json k (set_owned clock o json k v x c).1).0 ≡ ok (some w)
    unfolding set_owned
    from_checked c (err y) h done a =
        let sized = assert_value_fits o json k v c in
        let thrown : (set_owned clock o json k v x c).0 ≡ err y =
          ap (λ p. p.0)
            (bind_err (assert_value_fits o json k v) rest c sized.1 y
              (paired sized (err y) sized.1 h refl)) in
        cc
    from_checked c (ok n) h done a =
        let sized = assert_value_fits-size o json k v c h in
        let d = (is_past clock o x c).1 in
        let b : IsBalanced o d = Runs-IsBalanced o ((Follows-is_past o clock x).from c) a in
        let same : set_owned clock o json k v x c
            ≡ set_live clock o json k (record { value = v; expires_at = x; size = n }) d =
          bind_ok (assert_value_fits o json k v) rest c c n (
            paired (assert_value_fits o json k v c) (ok n) c h
              (assert_value_fits-state o json k v c))
          ∙ bind_ok (is_past clock o x)
              (λ past.
                if past
                then set_expired clock o json k
                else set_live clock o json k (record { value = v; expires_at = x; size = n }))
              c d false (is_past-IsAhead x c ahead) in
        subst (λ p. (get clock o json k p.1).0 ≡ ok (some w)) (sym same)
          (get-set_live n d sized.0 (assert_value_fits-short k v c h) b)

  -- A write that returns is read back: `get` of the key, in the state that the write and its
  -- evictions left, gives the copy that it makes of the value written, if the limits let one entry
  -- in, the deadline is one that the clock never reaches, the value can be copied, and the cache
  -- before had distinct keys, entries that fit and the right byte count.
  pub get-set_owned :
      (k : Text) (v w : V) (x : Option ℕ) (c : Cache V)
      → 1 ≤ o.max_entries
      → IsAhead x
      → json.clone v default_json_bytes ≡ ok w
      → IsBalanced o c
      → (set_owned clock o json k v x c).0 ≡ ok tt
      → (get clock o json k (set_owned clock o json k v x c).1).0 ≡ ok (some w)
  get-set_owned k v w x c room ahead copied a done =
      from_checked k v w x room ahead copied c (assert_value_fits o json k v c).0 refl done a
