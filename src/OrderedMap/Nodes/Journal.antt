-- ===== src/OrderedMap/Nodes/Journal.antt =====
-- What `link` and `unlink` of src/ordered-map.ts do to the map, and the undo of a `delete`.
use mathlib.Core.Logic.{if_pos}
use mathlib.Core.Option
use yasd.Prelude.{
  ◌≡◌, refl, sym, ap, ◌∙◌, subst, ℕ, zero, suc, leb, length, true, false, arith, Option, none, some,
  [], List, ◌∷◌, ◌++◌,
}
use yasd.OrderedMap.Chain.{remove, insert_before, first_key}
use yasd.OrderedMap.Nodes.{Nodes, entries, entries_at, unlink, link}
use yasd.OrderedMap.Nodes.Chained.{among, Segment, IsChain, split-Segment}
use yasd.OrderedMap.Nodes.Refinement.{last_of, first_of, Segment-last_of, Segment-first_of}
use yasd.OrderedMap.Nodes.Effects.{
  unlinked_entries, linked_entries, entry-unlink, entry-link, entries_at-same,
}
use yasd.OrderedMap.Nodes.Indexed.{
  IsIndexed, IsMap, IsDistinct-entries_at, among-apart, unlink-IsIndexed, link-IsIndexed,
  key-unlink, index-unlink,
}

module _ {K V : Type 0} where
  entries-Segment :
      (m : Nodes K V) (back from : Option ℕ) (is : List ℕ) (last : Option ℕ) (rounds : ℕ)
      → leb (length is) rounds ≡ true
      → Segment m.node back from is last none
      → entries rounds from m ≡ some (entries_at m is)
  unfolding Segment entries
  entries-Segment m back from [] last rounds h (a, b) =
      subst (λ p. entries rounds p m ≡ some []) (sym a) refl
  entries-Segment m back from (i ∷ is) last zero h (a, b, c) = absurd (ground arith)
  entries-Segment m back from (i ∷ is) last (suc rounds) h (a, b, c) =
      subst (λ p. entries (suc rounds) p m ≡ some (entries_at m (i ∷ is))) (sym a)
        (ap (Option.map (λ es. ((m.node i).key, (m.node i).value) ∷ es))
          (entries-Segment m (some i) (m.node i).next is last rounds (ground arith) c))

  -- `entries` of a chain ends, in as many rounds as there are nodes, and yields the key and the value
  -- of each node in the order of the chain.
  pub entries-entries_at :
      (m : Nodes K V) (is : List ℕ) (rounds : ℕ)
      → leb (length is) rounds ≡ true
      → IsChain m is
      → entries rounds m.first m ≡ some (entries_at m is)
  unfolding IsChain
  entries-entries_at m is rounds h c = entries-Segment m none m.first is m.last rounds h c.0

module _ {K V : Type 0} (dec : Discrete K) where
  -- `unlink` of a node of the map takes the node out of the chain and of the index. The keys and
  -- values along the chain are then those that were there, without the key of the node.
  pub unlink-remove :
      (m : Nodes K V) (is js : List ℕ) (i : ℕ)
      → IsMap m (is ++ i ∷ js)
      → IsMap (unlink dec i m) (is ++ js)
        × (entries_at (unlink dec i m) (is ++ js)
            ≡ remove dec (m.node i).key (entries_at m (is ++ i ∷ js)))
  unfolding IsMap IsChain IsIndexed
  unlink-remove m is js i (c, x) =
      let (c1, e) =
        unlinked_entries dec m is js i c (IsDistinct-entries_at dec m (is ++ i ∷ js) c.1 x.0) in
      ((c1, unlink-IsIndexed dec m is js i c.1 x), e)

  -- `link` of a node whose key the map does not have, between two neighbours of the chain or at an
  -- end of it, puts the node between them and into the index. The keys and values along the chain are
  -- then those that were there, with the node's own in front of those of the next node, or at the end
  -- if there is none. The node was not in the chain before.
  pub link-insert_before :
      (m : Nodes K V) (is js : List ℕ) (i : ℕ)
      → IsMap m (is ++ js)
      → among i (is ++ js) ≡ false
      → m.index (m.node i).key ≡ none
      → IsMap (link dec i (last_of none is) (first_of js) m) (is ++ i ∷ js)
        × (entries_at (link dec i (last_of none is) (first_of js) m) (is ++ i ∷ js)
            ≡ insert_before dec
                (first_key dec (entries_at m js))
                ((m.node i).key, (m.node i).value)
                (entries_at m (is ++ js)))
  unfolding IsMap IsChain IsIndexed
  link-insert_before m is js i (c, x) n free =
      let (c1, e) =
        linked_entries dec m is js i c n (IsDistinct-entries_at dec m (is ++ js) c.1 x.0) in
      ((c1, link-IsIndexed dec m is js i (last_of none is) (first_of js) n free x), e)

  -- The neighbours of a node of a chain.
  neighbours :
      (m : Nodes K V) (is js : List ℕ) (i : ℕ)
      → IsChain m (is ++ i ∷ js)
      → ((m.node i).prev ≡ last_of none is) × ((m.node i).next ≡ first_of js)
  unfolding IsChain Segment
  neighbours m is js i (s, d) =
      let (p, t, a, (b, c, e)) = split-Segment m.node none m.first is (i ∷ js) m.last none s in
      (
        c ∙ Segment-last_of m.node none m.first is p t a,
        Segment-first_of m.node (some i) (m.node i).next js m.last e,
      )

  -- The undo of a `delete`, `link` of the node between the neighbours it had, puts the node that was
  -- unlinked back into its place in the chain and into the index, and the keys and values along the
  -- chain are what they were.
  pub link-unlink :
      (m : Nodes K V) (is js : List ℕ) (i : ℕ)
      → IsMap m (is ++ i ∷ js)
      → IsMap (link dec i (m.node i).prev (m.node i).next (unlink dec i m)) (is ++ i ∷ js)
        × (entries_at (link dec i (m.node i).prev (m.node i).next (unlink dec i m)) (is ++ i ∷ js)
            ≡ entries_at m (is ++ i ∷ js))
  unfolding IsMap IsChain
  link-unlink m is js i h =
      let (p, n) = neighbours m is js i h.0 in
      let m1 = unlink dec i m in
      let prev = (m.node i).prev in
      let next = (m.node i).next in
      let free =
        index-unlink dec i m (m1.node i).key
        ∙ if_pos _ (key-unlink dec i m i) none (m.index (m1.node i).key) in
      let linked : IsMap (link dec i (last_of none is) (first_of js) m1) (is ++ i ∷ js) =
        (link-insert_before m1 is js i (unlink-remove m is js i h).0 (among-apart i is js h.0.1)
          free).0 in
      (
        subst (λ q. IsMap (link dec i q next m1) (is ++ i ∷ js)) (sym p)
            (subst (λ q. IsMap (link dec i (last_of none is) q m1) (is ++ i ∷ js)) (sym n) linked),
        entries_at-same dec (link dec i prev next m1) m (is ++ i ∷ js)
            (λ j. entry-link dec i prev next m1 j ∙ entry-unlink dec i m j),
      )
