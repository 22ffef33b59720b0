-- ===== src/Cache/Accounting/Balance.antt =====
-- The byte count of `KVCache` of src/cache.ts, through the changes of its methods.
use mathlib.Core.List.{lookup}
use yasd.Prelude.{
  ℕ, ◌+◌, ◌-◌, ◌≤◌, ◌≡◌, refl, sym, ap, subst, ◌∙◌, true, Option, none, some, List, [], ◌∷◌, ◌++◌,
  arith,
}
use yasd.Text.{Text, text_discrete}
use yasd.OrderedMap
use yasd.OrderedMap.{OrderedMap}
use yasd.OrderedMap.Chain.{
  remove, IsDistinct, remove-IsDistinct, append-IsDistinct, lookup-remove_self,
}
use yasd.OrderedMap.Session.{rollback-begin, entries-commit}
use yasd.Cache.State.{Entry, Options, Cache}
use yasd.Cache.Core.{peek, map_set, map_delete, take_out, put_in, put_last, next_version, prune_one}
use yasd.Cache.Write.{take_old, wipe}
use yasd.Cache.Atomic.{begin_all, pass_expired}
use yasd.Cache.Steps.Relation.{
  Step, counted, removed, replaced, stored, retimed, versioned, pruned, wiped, Runs, here, next,
  committed, aborted,
}
use yasd.Cache.Steps.Sessions.{Runs-Sessions}
use yasd.Cache.Accounting.Sizes.{
  total, AllFit, total-remove, total-append, remove-AllFit, append-AllFit, AllFit-lookup,
  entries-map_delete, bytes-map_delete, entries-map_set, peek-map_delete, entries-map_clear,
}

module _ {V : Type 0} where
  -- Distinct keys, entries of at most `limit` bytes, and `bytes` the sum of their sizes.
  pub record Balanced (limit : ℕ) (es : List (Text × Entry V)) (bytes : ℕ) : Type 0 where
    pub distinct : IsDistinct text_discrete es
    pub counted_bytes : bytes ≡ total es
    pub fit : AllFit limit es

  abbrev pub IsBalanced : Options → Cache V → Type 0
  IsBalanced o c = Balanced o.max_bytes c.map.entries c.bytes

  removed-Balanced :
      (n : ℕ) (k : Text) (e : Entry V) (es : List (Text × Entry V)) (b : ℕ)
      → lookup text_discrete k es ≡ some e
      → Balanced n es b
      → Balanced n (remove text_discrete k es) (b - e.size)
  removed-Balanced n k e es b h a =
      let p : b ≡ total es = a.counted_bytes in
      record {
        distinct = remove-IsDistinct text_discrete k es a.distinct;
        counted_bytes = omega (arith, total-remove k e es h, p);
        fit = remove-AllFit n k es a.fit;
      }

  appended-Balanced :
      (n : ℕ) (k : Text) (e : Entry V) (es : List (Text × Entry V)) (b : ℕ)
      → lookup text_discrete k es ≡ none
      → e.size ≤ n
      → Balanced n es b
      → Balanced n (es ++ (k, e) ∷ []) (b + e.size)
  appended-Balanced n k e es b h p a =
      let q : b ≡ total es = a.counted_bytes in
      record {
        distinct = append-IsDistinct text_discrete k e es a.distinct h;
        counted_bytes = omega (arith, total-append k e es, q);
        fit = append-AllFit n k e es a.fit p;
      }

  module _ (o : Options) where
    take_out-IsBalanced :
        (k : Text) (e : Entry V) (c : Cache V)
        → peek k c ≡ some e
        → IsBalanced o c
        → IsBalanced o (take_out k e c)
    unfolding take_out OrderedMap.get
    take_out-IsBalanced k e c h a =
        subst (λ es. Balanced o.max_bytes es (c.bytes - e.size)) (sym (entries-map_delete k c))
          (removed-Balanced o.max_bytes k e c.map.entries c.bytes h a)

    peek-take_out :
        (k : Text) (e : Entry V) (c : Cache V)
        → IsDistinct text_discrete c.map.entries
        → peek k (take_out k e c) ≡ none
    unfolding take_out
    peek-take_out k e c d = peek-map_delete k c d

    put_in-IsBalanced :
        (k : Text) (e : Entry V) (c : Cache V)
        → peek k c ≡ none
        → e.size ≤ o.max_bytes
        → IsBalanced o c
        → IsBalanced o (put_in k e c)
    unfolding put_in OrderedMap.get
    put_in-IsBalanced k e c h p a =
        subst (λ es. Balanced o.max_bytes es (c.bytes + e.size)) (sym (entries-map_set k e c h))
          (appended-Balanced o.max_bytes k e c.map.entries c.bytes h p a)

    replaced-IsBalanced :
        (k : Text) (e : Entry V) (c : Cache V) (old : Option (Entry V))
        → peek k c ≡ old
        → e.size ≤ o.max_bytes
        → IsBalanced o c
        → IsBalanced o (put_in k e (take_old k old c))
    unfolding take_old
    replaced-IsBalanced k e c none h p a = put_in-IsBalanced k e c h p a
    replaced-IsBalanced k e c (some f) h p a =
        put_in-IsBalanced k e (take_out k f c) (peek-take_out k f c a.distinct) p
          (take_out-IsBalanced k f c h a)

    bytes-map_set : (k : Text) (e : Entry V) (c : Cache V) → (map_set k e c).bytes ≡ c.bytes
    unfolding map_set
    bytes-map_set k e c = refl

    put_last-IsBalanced :
        (k : Text) (e e' : Entry V) (c : Cache V)
        → peek k c ≡ some e
        → e'.size ≡ e.size
        → IsBalanced o c
        → IsBalanced o (put_last k e' c)
    unfolding put_last OrderedMap.get
    put_last-IsBalanced k e e' c h s a =
        let es = c.map.entries in
        let gone = entries-map_delete k c in
        let placed =
          entries-map_set k e' (map_delete k c) (peek-map_delete k c a.distinct)
          ∙ ap (λ xs. xs ++ (k, e') ∷ []) gone in
        let le : e.size ≤ total es = omega (arith, total-remove k e es h) in
        let b : c.bytes ≡ total es = a.counted_bytes in
        let sum : (c.bytes - e.size) + e'.size ≡ c.bytes = omega arith in
        let same : (put_last k e' c).bytes ≡ (c.bytes - e.size) + e'.size =
          bytes-map_set k e' (map_delete k c) ∙ (bytes-map_delete k c ∙ sym sum) in
        let fits : e'.size ≤ o.max_bytes =
          subst (λ n. n ≤ o.max_bytes) (sym s) (AllFit-lookup o.max_bytes k e es a.fit h) in
        let free = lookup-remove_self text_discrete k es a.distinct in
        let r =
          appended-Balanced o.max_bytes k e' (remove text_discrete k es) (c.bytes - e.size) free
            fits (removed-Balanced o.max_bytes k e es c.bytes h a) in
        subst (λ xs. Balanced o.max_bytes xs (put_last k e' c).bytes) (sym placed)
          (subst (λ n. Balanced o.max_bytes (remove text_discrete k es ++ (k, e') ∷ []) n)
            (sym same) r)

    wipe-IsBalanced : (c : Cache V) → IsBalanced o (wipe c)
    unfolding wipe
    wipe-IsBalanced c =
        subst (λ es. Balanced o.max_bytes es 0) (sym (entries-map_clear c.map.entries c refl))
          (record { distinct = tt; counted_bytes = refl; fit = tt })

    Step-IsBalanced : {c d : Cache V} → Step o true c d → IsBalanced o c → IsBalanced o d
    unfolding next_version prune_one
    Step-IsBalanced {c = c} {d = d} (counted s) a =
        subst (λ n. Balanced o.max_bytes d.map.entries n) (sym s.bytes)
          (subst (λ m. Balanced o.max_bytes m.entries c.bytes) (sym s.map) a)
    Step-IsBalanced {c = c} (removed k e h) a = take_out-IsBalanced k e c h a
    Step-IsBalanced {c = c} (replaced k e p) a = replaced-IsBalanced k e c (peek k c) refl p a
    Step-IsBalanced (stored k e h f) a = cc
    Step-IsBalanced {c = c} (retimed k e e' h f) a = put_last-IsBalanced k e e' c h f a
    Step-IsBalanced (versioned k h) a = a
    Step-IsBalanced (pruned k h) a = a
    Step-IsBalanced {c = c} wiped a = wipe-IsBalanced c

    passed-IsBalanced :
        (fs : List (List Text)) (c : Cache V) → IsBalanced o c → IsBalanced o (pass_expired fs c)
    unfolding pass_expired
    passed-IsBalanced [] c a = a
    passed-IsBalanced (ks ∷ []) c a = a
    passed-IsBalanced (ks ∷ f ∷ fs) c a = a

    -- Every run of exact changes and balanced sections, committed or aborted, from a state whose
    -- keys are distinct, whose entries fit and whose `bytes` is the sum of their sizes, ends in
    -- such a state.
    pub Runs-IsBalanced : {c d : Cache V} → Runs o true c d → IsBalanced o c → IsBalanced o d
    unfolding begin_all OrderedMap.begin
    Runs-IsBalanced here a = a
    Runs-IsBalanced (next r s) a = Step-IsBalanced s (Runs-IsBalanced r a)
    Runs-IsBalanced (committed {c = c} m v x s t p q u) a =
        let i : IsBalanced o c = Runs-IsBalanced t (Runs-IsBalanced s a) in
        passed-IsBalanced c.expired_frames _
          (subst (λ es. Balanced o.max_bytes es c.bytes) (entries-commit text_discrete c.map m p) i)
    Runs-IsBalanced (aborted {b = b} {c = c} m v x s t p q u) a =
        let i : IsBalanced o b = Runs-IsBalanced s a in
        let back = rollback-begin text_discrete (Runs-Sessions o t).map i.distinct in
        let same : b.map ≡ m = cc in subst (λ y. Balanced o.max_bytes y.entries b.bytes) same i
