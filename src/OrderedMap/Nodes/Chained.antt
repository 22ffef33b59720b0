-- ===== src/OrderedMap/Nodes/Chained.antt =====
-- The chain that the pointers of src/ordered-map.ts make, and its nodes in order.
use yasd.Prelude.{
  ℕ, ◌≡◌, refl, sym, ap, ◌∙◌, subst, Bool, true, false, ◌||◌, Option, none, some, List, [], ◌∷◌,
  ◌++◌, ◌==◌, ==_iff, if◌then◌else◌, arith, Bool-cases, inl, inr,
}
use yasd.OrderedMap.Nodes.{Link, Nodes, write, point_forward, point_back}

abbrev pub among : ℕ → List ℕ → Bool
among i [] = false
among i (j ∷ js) = (j == i) || among i js

unfoldable pub AreDistinct : List ℕ → Type 0
AreDistinct [] = Unit {0}
AreDistinct (i ∷ is) = (among i is ≡ false) × AreDistinct is

among_ne : (i l : ℕ) (js : List ℕ) → among i js ≡ false → among l js ≡ true → (l == i) ≡ false
among_ne i l js n h = elim (Bool-cases (l == i)) [
  | inl e ↦ absurd (ground (arith, n, subst (λ x. among x js ≡ true) ((==_iff l i).0 e) h))
  | inr f ↦ f
]

module _ {K V : Type 0} where
  pub write-other :
      (i j : ℕ) (n : Link K V) (f : ℕ → Link K V) → (i == j) ≡ false → write i n f j ≡ f j
  write-other i j n f h = ap (λ b. if b then n else f j) h

  -- From the pointer `from`, behind the node `back`, the nodes are the given ones up to the pointer
  -- `to`, each with its pointer to the one before, and `last` is the last of them.
  unfoldable pub Segment :
      (ℕ → Link K V) → Option ℕ → Option ℕ → List ℕ → Option ℕ → Option ℕ → Type 0
  Segment f back from [] last to = (from ≡ to) × (last ≡ back)
  Segment f back from (i ∷ is) last to =
      (from ≡ some i) × ((f i).prev ≡ back) × Segment f (some i) (f i).next is last to

  -- From `first` to `last`, the nodes are the given ones, each once.
  unfoldable pub IsChain : Nodes K V → List ℕ → Type 0
  IsChain m is = Segment m.node none m.first is m.last none × AreDistinct is

  -- Nodes that are the same make the same segment.
  pub frame :
      (f g : ℕ → Link K V) (back from : Option ℕ) (is : List ℕ) (last to : Option ℕ)
      → ((j : ℕ) → among j is ≡ true → g j ≡ f j)
      → Segment f back from is last to
      → Segment g back from is last to
  unfolding Segment
  frame f g back from [] last to same s = s
  frame f g back from (i ∷ is) last to same (a, b, c) =
      let e = same i (ground arith) in
      (
        a,
        ap (λ n. n.prev) e ∙ b,
        subst (λ t. Segment g (some i) t is last to) (ap (λ n. n.next) (sym e))
            (frame f g (some i) (f i).next is last to (λ j h. same j (ground arith)) c),
      )

  -- A segment in two parts.
  pub split-Segment :
      (f : ℕ → Link K V) (back from : Option ℕ) (is js : List ℕ) (last to : Option ℕ)
      → Segment f back from (is ++ js) last to
      → (p t : Option ℕ) × Segment f back from is p t × Segment f p t js last to
  unfolding Segment
  split-Segment f back from [] js last to s = (back, from, (refl, refl), s)
  split-Segment f back from (i ∷ is) js last to (a, b, c) =
      let (p, t, x, y) = split-Segment f (some i) (f i).next is js last to c in (p, t, (a, b, x), y)

  pub join_segments :
      (f : ℕ → Link K V) (back from : Option ℕ) (is js : List ℕ) (p t last to : Option ℕ)
      → Segment f back from is p t
      → Segment f p t js last to
      → Segment f back from (is ++ js) last to
  unfolding Segment
  join_segments f back from [] js p t last to (a, b) s =
      subst (λ u. Segment f u from js last to) b (subst (λ u. Segment f p u js last to) (sym a) s)
  join_segments f back from (i ∷ is) js p t last to (a, b, c) s =
      (a, b, join_segments f (some i) (f i).next is js p t last to c s)

  -- The last node of a segment is told another successor.
  last-Segment :
      (f : ℕ → Link K V) (back from : Option ℕ) (i : ℕ) (is : List ℕ) (last to next : Option ℕ)
      → AreDistinct (i ∷ is)
      → Segment f back from (i ∷ is) last to
      → (l : ℕ) × (last ≡ some l)
        × (among l (i ∷ is) ≡ true)
        × Segment (write l (record (f l) { next = next }) f) back from (i ∷ is) last next
  unfolding Segment AreDistinct
  last-Segment f back from i [] last to next d (a, b, (c, e)) =
      (i, e, ground arith, (a, ground arith, (ground arith, e)))
  last-Segment f back from i (j ∷ is) last to next (n, d) (a, b, c) =
      let (l, e, h, s) = last-Segment f (some i) (f i).next j is last to next d c in
      let g = write l (record (f l) { next = next }) f in
      let same : g i ≡ f i =
        write-other l i (record (f l) { next = next }) f (among_ne i l (j ∷ is) n h) in
      (
        l,
        e,
        ground arith,
        (
          a,
          ap (λ x. x.prev) same ∙ b,
          subst (λ t. Segment g (some i) t (j ∷ is) last next) (ap (λ x. x.next) (sym same)) s,
        ),
      )

  -- What a pointer that is moved forward leaves of the rest.
  unfoldable pub Spares : Nodes K V → Nodes K V → List ℕ → Type 0
  Spares m m' is = (j : ℕ) → among j is ≡ false → m'.node j ≡ m.node j

  -- The last node of the first segment has another successor, and nothing else has changed.
  abbrev pub Forward : Nodes K V → List ℕ → Option ℕ → Option ℕ → Type 0
  Forward m is p next =
      Segment (point_forward p next m).node none (point_forward p next m).first is p next
      × Spares m (point_forward p next m) is
      × ((point_forward p next m).last ≡ m.last)

  -- The first node of the last segment has another predecessor, and nothing else has changed.
  abbrev pub Back : Nodes K V → List ℕ → Option ℕ → Option ℕ → Type 0
  Back m is from prev =
      Segment (point_back from prev m).node prev from is (point_back from prev m).last none
      × Spares m (point_back from prev m) is
      × ((point_back from prev m).first ≡ m.first)

  pub Forward-Segment :
      (m : Nodes K V) (is : List ℕ) (p to next : Option ℕ)
      → AreDistinct is
      → Segment m.node none m.first is p to
      → Forward m is p next
  unfolding Segment point_forward Spares
  Forward-Segment m [] p to next d (a, b) =
      subst (λ q. Forward m [] q next) (sym b) ((refl, refl), λ j h. refl, refl)
  Forward-Segment m (i ∷ is) p to next d s =
      let (l, e, h, x) = last-Segment m.node none m.first i is p to next d s in
      subst (λ q. Forward m (i ∷ is) q next) (sym e)
        (
          subst
              (λ q.
                Segment (write l (record (m.node l) { next = next }) m.node) none m.first (i ∷ is) q
                  next)
              e x,
          λ j n.
              write-other l j (record (m.node l) { next = next }) m.node
                (among_ne j l (i ∷ is) n h),
          refl,
        )

  pub Back-Segment :
      (m : Nodes K V) (is : List ℕ) (back from prev : Option ℕ)
      → AreDistinct is
      → Segment m.node back from is m.last none
      → Back m is from prev
  unfolding Segment point_back Spares AreDistinct
  Back-Segment m [] back from prev d (a, b) =
      subst (λ q. Back m [] q prev) (sym a) ((refl, refl), λ j h. refl, refl)
  Back-Segment m (i ∷ is) back from prev (n, d) (a, b, c) =
      let new = record (m.node i) { prev = prev } in
      subst (λ q. Back m (i ∷ is) q prev) (sym a)
        (
          (
            refl,
            ground arith,
            subst (λ t. Segment (write i new m.node) (some i) t is m.last none) (ground arith)
                (frame m.node (write i new m.node) (some i) (m.node i).next is m.last none
                  (λ j h. write-other i j new m.node (ground (arith, among_ne i j is n h))) c),
          ),
          λ j h. write-other i j new m.node (ground arith),
          refl,
        )
