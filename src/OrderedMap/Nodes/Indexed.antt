-- ===== src/OrderedMap/Nodes/Indexed.antt =====
-- The map `nodes` of src/ordered-map.ts, from the keys to the nodes, beside the chain.
use mathlib.Core.List.{lookup}
use mathlib.Core.Logic.{ite, if_pos, if_neg}
use yasd.Prelude.{
  ℕ, ◌≡◌, ◌≢◌, refl, sym, ap, ◌∙◌, subst, true, false, ◌||◌, Option, none, some, List, [], ◌∷◌,
  ◌++◌, ◌==◌, ==_iff, arith, some_injective, Bool-cases, inl, inr,
}
use yasd.OrderedMap.Chain.{IsDistinct}
use yasd.OrderedMap.Nodes.{
  Nodes, entries_at, unlink, link, point_forward, point_back, with_neighbours,
}
use yasd.OrderedMap.Nodes.Chained.{among, AreDistinct, IsChain}
use yasd.OrderedMap.Nodes.Effects.{
  entry, entry-unlink, entry-link, entry-write, entry-point_forward, entry-point_back,
}

-- Whether a number is in a list with one more in the middle.
pub among-middle :
    (k i : ℕ) (is js : List ℕ) → among k (is ++ i ∷ js) ≡ ((i == k) || among k (is ++ js))
among-middle k i [] js = refl
among-middle k i (l ∷ is) js = ground (arith, among-middle k i is js)

pub among-apart : (i : ℕ) (is js : List ℕ) → AreDistinct (is ++ i ∷ js) → among i (is ++ js) ≡ false
unfolding AreDistinct
among-apart i [] js (n, d) = n
among-apart i (l ∷ is) js (n, d) =
    ground (arith, among-apart i is js d, n, among-middle l i is js, ==_iff l i, ==_iff i l)

module _ {K V : Type 0} where
  -- The map has the node of every number of the list under its key, and no other node.
  unfoldable pub IsIndexed : Nodes K V → List ℕ → Type 0
  IsIndexed m is =
      ((j : ℕ) → among j is ≡ true → m.index (m.node j).key ≡ some j)
      × ((k : K) (j : ℕ) → m.index k ≡ some j → (among j is ≡ true) × ((m.node j).key ≡ k))

  -- From `first` to `last`, the nodes are the given ones, each once, and the map has just these under
  -- their keys.
  unfoldable pub IsMap : Nodes K V → List ℕ → Type 0
  IsMap m is = IsChain m is × IsIndexed m is

module _ {K V : Type 0} (dec : Discrete K) where
  pub lookup-entries_at :
      (m : Nodes K V) (k : K) (is : List ℕ)
      → ((j : ℕ) → among j is ≡ true → k ≢ (m.node j).key)
      → lookup dec k (entries_at m is) ≡ none
  unfolding lookup
  lookup-entries_at m k [] h = refl
  lookup-entries_at m k (i ∷ is) h =
      ground (arith, h i, lookup-entries_at m k is (λ j e. h j (ground arith)))

  pub IsDistinct-entries_at :
      (m : Nodes K V) (is : List ℕ)
      → AreDistinct is
      → ((j : ℕ) → among j is ≡ true → m.index (m.node j).key ≡ some j)
      → IsDistinct dec (entries_at m is)
  unfolding AreDistinct
  IsDistinct-entries_at m [] d h = tt
  IsDistinct-entries_at m (i ∷ is) (n, d) h = (
    lookup-entries_at m (m.node i).key is (λ j e p.
        let same : i ≡ j =
          some_injective (sym (h i (ground arith)) ∙ ap m.index p ∙ h j (ground arith)) in
        ground (arith, n, subst (λ x. among x is ≡ true) (sym same) e)),
    IsDistinct-entries_at m is d (λ j e. h j (ground arith)),
  )

  pub key-unlink : (i : ℕ) (m : Nodes K V) (j : ℕ) → ((unlink dec i m).node j).key ≡ (m.node j).key
  unfolding entry
  key-unlink i m j = ap (λ e. e.0) (entry-unlink dec i m j)

  key-link :
      (i : ℕ) (prev next : Option ℕ) (m : Nodes K V) (j : ℕ)
      → ((link dec i prev next m).node j).key ≡ (m.node j).key
  unfolding entry
  key-link i prev next m j = ap (λ e. e.0) (entry-link dec i prev next m j)

  index-point_forward : (p to : Option ℕ) (m : Nodes K V) → (point_forward p to m).index ≡ m.index
  unfolding point_forward
  index-point_forward none to m = refl
  index-point_forward (some p) to m = refl

  index-point_back : (p to : Option ℕ) (m : Nodes K V) → (point_back p to m).index ≡ m.index
  unfolding point_back
  index-point_back none to m = refl
  index-point_back (some p) to m = refl

  pub index-unlink :
      (i : ℕ) (m : Nodes K V) (k : K)
      → (unlink dec i m).index k ≡ ite (dec k (m.node i).key) none (m.index k)
  unfolding unlink entry
  index-unlink i m k =
      let m1 = point_forward (m.node i).prev (m.node i).next m in
      let m2 = point_back (m1.node i).next (m1.node i).prev m1 in
      ap (λ x. ite (dec k x) none (m2.index k))
        (ap (λ e. e.0)
          (entry-point_back dec (m1.node i).next (m1.node i).prev m1 i
            ∙ entry-point_forward dec (m.node i).prev (m.node i).next m i))
      ∙ ap (λ f. ite (dec k (m.node i).key) none (f k))
          (index-point_back (m1.node i).next (m1.node i).prev m1
            ∙ index-point_forward (m.node i).prev (m.node i).next m)

  index-link :
      (i : ℕ) (prev next : Option ℕ) (m : Nodes K V) (k : K)
      → (link dec i prev next m).index k ≡ ite (dec k (m.node i).key) (some i) (m.index k)
  unfolding link entry
  index-link i prev next m k =
      let m0 = with_neighbours dec i prev next m in
      let m1 = point_forward prev (some i) m0 in
      let m2 = point_back next (some i) m1 in
      ap (λ x. ite (dec k x) (some i) (m2.index k))
        (ap (λ e. e.0)
          (entry-point_back dec next (some i) m1 i
            ∙ entry-point_forward dec prev (some i) m0 i
            ∙ entry-write dec i i (record (m.node i) { prev = prev; next = next }) m.node refl))
      ∙ ap (λ f. ite (dec k (m.node i).key) (some i) (f k))
          (index-point_back next (some i) m1 ∙ index-point_forward prev (some i) m0)

  pub unlink-IsIndexed :
      (m : Nodes K V) (is js : List ℕ) (i : ℕ)
      → AreDistinct (is ++ i ∷ js)
      → IsIndexed m (is ++ i ∷ js)
      → IsIndexed (unlink dec i m) (is ++ js)
  unfolding IsIndexed
  unlink-IsIndexed m is js i d (all, only) =
      let key = (m.node i).key in
      let new = unlink dec i m in
      let index_new : (k : K) → new.index k ≡ ite (dec k key) none (m.index k) = index-unlink i m in
      (
        λ j h.
            let there : among j (is ++ i ∷ js) ≡ true = ground (arith, among-middle j i is js) in
            let other : (m.node j).key ≢ key = λ p.
              let same : j ≡ i = some_injective (
                sym (all j there)
                ∙ ap m.index p
                ∙ all i (ground (arith, among-middle i i is js, ==_iff i i))) in
              ground
                (arith, among-apart i is js d, subst (λ x. among x (is ++ js) ≡ true) same h) in
            ap new.index (key-unlink i m j)
            ∙ index_new (m.node j).key
            ∙ if_neg _ other none (m.index (m.node j).key)
            ∙ all j there,
        λ k j h. elim (dec k key) [
          | yes p ↦ absurd (ground (arith, sym h ∙ index_new k ∙ if_pos _ p none (m.index k)))
          | no p ↦
              let (there, e) =
                only k j (sym (if_neg _ p none (m.index k)) ∙ sym (index_new k) ∙ h) in
              let other : (i == j) ≡ false = elim (Bool-cases (i == j)) [
                | inl q ↦ absurd (p (sym e ∙ ap (λ x. (m.node x).key) (sym ((==_iff i j).0 q))))
                | inr f ↦ f
              ] in
              (ground (arith, among-middle j i is js), key-unlink i m j ∙ e)
        ],
      )

  pub link-IsIndexed :
      (m : Nodes K V) (is js : List ℕ) (i : ℕ) (prev next : Option ℕ)
      → among i (is ++ js) ≡ false
      → m.index (m.node i).key ≡ none
      → IsIndexed m (is ++ js)
      → IsIndexed (link dec i prev next m) (is ++ i ∷ js)
  unfolding IsIndexed
  link-IsIndexed m is js i prev next n free (all, only) =
      let key = (m.node i).key in
      let new = link dec i prev next m in
      let index_new : (k : K) → new.index k ≡ ite (dec k key) (some i) (m.index k) =
        index-link i prev next m in
      (
        λ j h. elim (Bool-cases (i == j)) [
          | inl e ↦
              let same = ap (λ x. (m.node x).key) (sym ((==_iff i j).0 e)) in
              ap new.index (key-link i prev next m j ∙ same)
              ∙ index_new key
              ∙ if_pos (dec key key) refl (some i) (m.index key)
              ∙ ap some ((==_iff i j).0 e)
          | inr f ↦
              let there : among j (is ++ js) ≡ true = ground (arith, among-middle j i is js) in
              let other : (m.node j).key ≢ key =
                λ p. ground (arith, sym (all j there) ∙ ap m.index p ∙ free) in
              ap new.index (key-link i prev next m j)
              ∙ index_new (m.node j).key
              ∙ if_neg _ other (some i) (m.index (m.node j).key)
              ∙ all j there
        ],
        λ k j h. elim (dec k key) [
          | yes p ↦
              let same : i ≡ j =
                some_injective (sym (if_pos _ p (some i) (m.index k)) ∙ sym (index_new k) ∙ h) in
              (
                ground (arith, among-middle j i is js, ==_iff i j, same),
                key-link i prev next m j ∙ ap (λ x. (m.node x).key) (sym same) ∙ sym p,
              )
          | no p ↦
              let (there, e) =
                only k j (sym (if_neg _ p (some i) (m.index k)) ∙ sym (index_new k) ∙ h) in
              (ground (arith, among-middle j i is js), key-link i prev next m j ∙ e)
        ],
      )
