-- ===== src/OrderedMap/Nodes/Operations.antt =====
-- `set` and `delete` of src/ordered-map.ts on nodes are those on the list of pairs.
use mathlib.Core.List.{lookup}
use yasd.Prelude.{
  ℕ, ◌≡◌, ◌≢◌, sym, ap, ◌∙◌, subst, refl, true, false, Option, none, some, ◌∷◌, ◌++◌, arith,
}
use yasd.OrderedMap.{OrderedMap, set, delete}
use yasd.OrderedMap.Chain.{remove}
use yasd.OrderedMap.Nodes
use yasd.OrderedMap.Nodes.{Nodes, entries_at, unlink, link, with_value, with_added}
use yasd.OrderedMap.Nodes.Indexed.{IsIndexed, IsMap}
use yasd.OrderedMap.Nodes.Keyed.{split_at}
use yasd.OrderedMap.Nodes.Represented.{
  Represents, set_found, set_new, lookup-found, lookup-new, Represents-found, Represents-new,
}
use yasd.OrderedMap.Nodes.Journal.{unlink-remove}

module _ {K V : Type 0} (dec : Discrete K) where
  -- Where nodes represent a list of pairs, they represent what `set` makes of the list when `set` on
  -- nodes is through, if the node it may make has a number that no node of the map has.
  pub set-Represents :
      (m : Nodes K V) (o : OrderedMap K V) (k : K) (v : V) (fresh : ℕ)
      → ((q : K) → m.index q ≢ some fresh)
      → Represents m o
      → Represents (Nodes.set dec k v fresh m) (set dec o k v)
  unfolding Nodes.set
  set-Represents m o k v fresh unused r = cases (m.index k) refl
    where
      cases :
          (found : Option ℕ)
          → m.index k ≡ found
          → Represents (Nodes.set dec k v fresh m) (set dec o k v)
      cases none h =
          subst (λ n. Represents n (set dec o k v)) (sym (set_new dec m k v fresh h))
            (Represents-new dec m o k v fresh unused h r)
      cases (some i) h =
          subst (λ n. Represents n (set dec o k v)) (sym (set_found dec m k v fresh i h))
            (Represents-found dec m o k v i h r)

  delete_found :
      (o : OrderedMap K V) (k : K) (old : V)
      → lookup dec k o.entries ≡ some old
      → ((delete dec o k).0.entries ≡ remove dec k o.entries) × ((delete dec o k).1 ≡ true)
  unfolding delete
  delete_found o k old h = (ground (arith, h), ground (arith, h))

  delete_absent :
      (o : OrderedMap K V) (k : K) → lookup dec k o.entries ≡ none → delete dec o k ≡ (o, false)
  unfolding delete
  delete_absent o k h = ground (arith, h)

  unlinked-Represents :
      (m : Nodes K V) (o : OrderedMap K V) (k : K) (i : ℕ)
      → m.index k ≡ some i
      → Represents m o
      → Represents (unlink dec i m) (delete dec o k).0 × ((delete dec o k).1 ≡ true)
  unfolding Represents IsMap IsIndexed
  unlinked-Represents m o k i h (is, x, e) =
      let (there, key) = x.1.1 k i h in
      let (xs, bs, split) = split_at i is there in
      let (list, answer) = delete_found o k (m.node i).value (lookup-found dec m o k is i x e h) in
      let (y, es) = unlink-remove dec m xs bs i (subst (IsMap m) split x) in
      (
        (
          xs ++ bs,
          y,
          list
              ∙ ap (remove dec k) (e ∙ ap (entries_at m) split)
              ∙ ap (λ q. remove dec q (entries_at m (xs ++ i ∷ bs))) (sym key)
              ∙ sym es,
        ),
        answer,
      )

  -- Where nodes represent a list of pairs, they represent what `delete` makes of the list when
  -- `delete` on nodes is through, and both have the same answer.
  pub delete-Represents :
      (m : Nodes K V) (o : OrderedMap K V) (k : K)
      → Represents m o
      → Represents (Nodes.delete dec k m).0 (delete dec o k).0
        × ((Nodes.delete dec k m).1 ≡ (delete dec o k).1)
  unfolding Nodes.delete Represents
  delete-Represents m o k r = cases (m.index k) refl
    where
      cases :
          (found : Option ℕ)
          → m.index k ≡ found
          → Represents (Nodes.delete dec k m).0 (delete dec o k).0
            × ((Nodes.delete dec k m).1 ≡ (delete dec o k).1)
      cases none h =
          let new : delete dec o k ≡ (o, false) =
            delete_absent o k (lookup-new dec m o k r.0 r.1 r.2 h) in
          let same : Nodes.delete dec k m ≡ (m, false) = ground (arith, h) in
          (
            subst (λ n. Represents n.0 (delete dec o k).0) (sym same)
                (subst (λ p. Represents m p.0) (sym new) r),
            ap (λ n. n.1) same ∙ sym (ap (λ n. n.1) new),
          )
      cases (some i) h =
          let (y, answer) = unlinked-Represents m o k i h r in
          let same : Nodes.delete dec k m ≡ (unlink dec i m, true) = ground (arith, h) in
          (
            subst (λ n. Represents n.0 (delete dec o k).0) (sym same) y,
            ap (λ n. n.1) same ∙ sym answer,
          )
