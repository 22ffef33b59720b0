-- ===== src/OrderedMap/Nodes/Effects.antt =====
-- The entries of the chain of src/ordered-map.ts under `link` and `unlink`.
use mathlib.Core.List.{lookup}
use mathlib.Core.Logic.{if_neg}
use yasd.Prelude.{
  ℕ, ◌≡◌, ◌≢◌, refl, sym, ap, ◌∙◌, subst, true, false, Option, none, some, List, [], ◌∷◌, ◌++◌,
  ◌==◌, ==_iff, if◌then◌else◌, arith, Bool-cases, inl, inr,
}
use yasd.OrderedMap.Chain.{remove, insert_before, first_key, IsDistinct}
use yasd.OrderedMap.Nodes.{
  Link, Nodes, write, point_forward, point_back, with_neighbours, entries_at, unlink, link,
}
use yasd.OrderedMap.Nodes.Chained.{among, AreDistinct, Segment, IsChain, split-Segment}
use yasd.OrderedMap.Nodes.Refinement.{
  unlink-IsChain, link-Segments, last_of, first_of, Segment-last_of, Segment-first_of,
  distinct_parts, join_distinct, among-append,
}

pub append_nil : {A : Type 0} → (xs : List A) → xs ++ [] ≡ xs
append_nil [] = refl
append_nil (x ∷ xs) = ap (◌∷◌ x) (append_nil xs)

module _ {K V : Type 0} (dec : Discrete K) where
  -- The key and the value of a node.
  unfoldable pub entry : Link K V → K × V
  entry n = (n.key, n.value)

  pub entry-write :
      (p j : ℕ) (n : Link K V) (f : ℕ → Link K V)
      → entry n ≡ entry (f p)
      → entry (write p n f j) ≡ entry (f j)
  entry-write p j n f e = elim (Bool-cases (p == j)) [
    | inl h ↦
        ap (λ b. entry (if b then n else f j)) h ∙ e ∙ ap (λ k. entry (f k)) ((==_iff p j).0 h)
    | inr h ↦ ap (λ b. entry (if b then n else f j)) h
  ]

  pub entry-point_forward :
      (p to : Option ℕ) (m : Nodes K V) (j : ℕ)
      → entry ((point_forward p to m).node j) ≡ entry (m.node j)
  unfolding point_forward entry
  entry-point_forward none to m j = refl
  entry-point_forward (some p) to m j =
      entry-write p j (record (m.node p) { next = to }) m.node refl

  pub entry-point_back :
      (p to : Option ℕ) (m : Nodes K V) (j : ℕ)
      → entry ((point_back p to m).node j) ≡ entry (m.node j)
  unfolding point_back entry
  entry-point_back none to m j = refl
  entry-point_back (some p) to m j = entry-write p j (record (m.node p) { prev = to }) m.node refl

  pub entry-unlink :
      (i : ℕ) (m : Nodes K V) (j : ℕ) → entry ((unlink dec i m).node j) ≡ entry (m.node j)
  unfolding unlink
  entry-unlink i m j =
      let m1 = point_forward (m.node i).prev (m.node i).next m in
      entry-point_back (m1.node i).next (m1.node i).prev m1 j
      ∙ entry-point_forward (m.node i).prev (m.node i).next m j

  pub entry-link :
      (i : ℕ) (prev next : Option ℕ) (m : Nodes K V) (j : ℕ)
      → entry ((link dec i prev next m).node j) ≡ entry (m.node j)
  unfolding link entry
  entry-link i prev next m j =
      let m0 = with_neighbours dec i prev next m in
      entry-point_back next (some i) (point_forward prev (some i) m0) j
      ∙ entry-point_forward prev (some i) m0 j
      ∙ entry-write i j (record (m.node i) { prev = prev; next = next }) m.node refl

  pub entries_at-same :
      (m' m : Nodes K V) (is : List ℕ)
      → ((j : ℕ) → entry (m'.node j) ≡ entry (m.node j))
      → entries_at m' is ≡ entries_at m is
  unfolding entry
  entries_at-same m' m [] h = refl
  entries_at-same m' m (i ∷ is) h =
      ap (λ e. e ∷ entries_at m' is) (h i) ∙ ap (◌∷◌ (entry (m.node i))) (entries_at-same m' m is h)

  pub entries_at-append :
      (m : Nodes K V) (is js : List ℕ)
      → entries_at m (is ++ js) ≡ entries_at m is ++ entries_at m js
  entries_at-append m [] js = refl
  entries_at-append m (i ∷ is) js =
      ap (◌∷◌ ((m.node i).key, (m.node i).value)) (entries_at-append m is js)

  lookup-middle : (k : K) (v : V) (es fs : List (K × V)) → lookup dec k (es ++ (k, v) ∷ fs) ≢ none
  unfolding lookup
  lookup-middle k v [] fs h = ground arith
  lookup-middle k v (e ∷ es) fs h = ground (arith, lookup-middle k v es fs)

  remove-middle :
      (k : K) (v : V) (es fs : List (K × V))
      → IsDistinct dec (es ++ (k, v) ∷ fs)
      → remove dec k (es ++ (k, v) ∷ fs) ≡ es ++ fs
  unfolding remove
  remove-middle k v [] fs d = ground arith
  remove-middle k v (e ∷ es) fs d = elim (dec k e.0) [
    | yes p ↦
        absurd (
          lookup-middle k v es fs
            (subst (λ x. lookup dec x (es ++ (k, v) ∷ fs) ≡ none) (sym p) d.0))
    | no p ↦ rw (if_neg _ p) (ap (◌∷◌ e) (remove-middle k v es fs d.1))
  ]

  insert_end : (n : K × V) (es : List (K × V)) → insert_before dec none n (es ++ []) ≡ es ++ n ∷ []
  unfolding insert_before
  insert_end n es = ap (λ xs. xs ++ n ∷ []) (append_nil es)

  insert_before-middle :
      (n : K × V) (es fs : List (K × V))
      → IsDistinct dec (es ++ fs)
      → insert_before dec (first_key dec fs) n (es ++ fs) ≡ es ++ n ∷ fs
  unfolding insert_before
  insert_before-middle n es [] d = insert_end n es
  insert_before-middle n [] (f ∷ fs) d = ground arith
  insert_before-middle n (e ∷ es) (f ∷ fs) d = elim (dec f.0 e.0) [
    | yes p ↦
        absurd (
          lookup-middle f.0 f.1 es fs (subst (λ x. lookup dec x (es ++ f ∷ fs) ≡ none) (sym p) d.0))
    | no p ↦ rw (if_neg _ p) (ap (◌∷◌ e) (insert_before-middle n es (f ∷ fs) d.1))
  ]

  -- `unlink` of a node of the chain takes the node out of the chain and its entry out of the
  -- entries, if no two entries have one key.
  pub unlinked_entries :
      (m : Nodes K V) (is js : List ℕ) (i : ℕ)
      → IsChain m (is ++ i ∷ js)
      → IsDistinct dec (entries_at m (is ++ i ∷ js))
      → IsChain (unlink dec i m) (is ++ js)
        × (entries_at (unlink dec i m) (is ++ js)
            ≡ remove dec (m.node i).key (entries_at m (is ++ i ∷ js)))
  unlinked_entries m is js i c d =
      let parts = entries_at-append m is (i ∷ js) in
      (
        unlink-IsChain dec m is js i c,
        entries_at-same (unlink dec i m) m (is ++ js) (entry-unlink i m)
            ∙ entries_at-append m is js
            ∙ sym (
                remove-middle (m.node i).key (m.node i).value (entries_at m is) (entries_at m js)
                  (subst (IsDistinct dec) parts d))
            ∙ ap (remove dec (m.node i).key) (sym parts),
      )

  -- `link` of a node that the chain does not have, between two neighbours of the chain or at an end
  -- of it, puts the node between them, and its entry in front of that of the next one or at the end,
  -- if no two entries have one key.
  pub linked_entries :
      (m : Nodes K V) (is js : List ℕ) (i : ℕ)
      → IsChain m (is ++ js)
      → among i (is ++ js) ≡ false
      → IsDistinct dec (entries_at m (is ++ js))
      → IsChain (link dec i (last_of none is) (first_of js) m) (is ++ i ∷ js)
        × (entries_at (link dec i (last_of none is) (first_of js) m) (is ++ i ∷ js)
            ≡ insert_before dec
                (first_key dec (entries_at m js))
                ((m.node i).key, (m.node i).value)
                (entries_at m (is ++ js)))
  unfolding IsChain AreDistinct
  linked_entries m is js i (s, c) n d =
      let (di, dj, apart) = distinct_parts is js c in
      let (p, t, a, b) = split-Segment m.node none m.first is js m.last none s in
      let p_is = Segment-last_of m.node none m.first is p t a in
      let t_is = Segment-first_of m.node p t js m.last b in
      let a1 : Segment m.node none m.first is (last_of none is) (first_of js) =
        subst (λ q. Segment m.node none m.first is q (first_of js)) p_is
          (subst (λ u. Segment m.node none m.first is p u) t_is a) in
      let b1 : Segment m.node (last_of none is) (first_of js) js m.last none =
        subst (λ q. Segment m.node q (first_of js) js m.last none) p_is
          (subst (λ u. Segment m.node p u js m.last none) t_is b) in
      let apart_i : (k : ℕ) → among k is ≡ true → among k (i ∷ js) ≡ false = λ k h.
        elim (Bool-cases (i == k)) [
          | inl e ↦ absurd (
              ground (
                arith,
                n,
                among-append i is js,
                subst (λ x. among x is ≡ true) (sym ((==_iff i k).0 e)) h,
              ))
          | inr f ↦ ground (arith, apart k h)
        ] in
      let e = (m.node i).key in
      let linked = link dec i (last_of none is) (first_of js) m in
      (
        link-Segments dec m is js i (last_of none is) (first_of js)
            (join_distinct is (i ∷ js) di (ground (arith, n, among-append i is js), dj) apart_i) a1
            b1,
        entries_at-same linked m (is ++ i ∷ js) (entry-link i (last_of none is) (first_of js) m)
            ∙ entries_at-append m is (i ∷ js)
            ∙ sym (
                insert_before-middle (e, (m.node i).value) (entries_at m is) (entries_at m js)
                  (subst (IsDistinct dec) (entries_at-append m is js) d))
            ∙ ap (insert_before dec (first_key dec (entries_at m js)) (e, (m.node i).value))
                (sym (entries_at-append m is js)),
      )
