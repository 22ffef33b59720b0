-- ===== src/OrderedMap/Nodes/Represented.antt =====
-- The nodes of src/ordered-map.ts as a representation of the list of pairs, under `set` and `delete`.
use mathlib.Core.List.{lookup}
use yasd.Prelude.{
  ℕ, ◌≡◌, ◌≢◌, refl, sym, ap, ◌∙◌, subst, true, false, Option, none, some, List, [], ◌∷◌, ◌++◌,
  ◌==◌, ==_iff, if◌then◌else◌, arith, Bool-cases, inl, inr,
}
use yasd.OrderedMap.{OrderedMap, set}
use yasd.OrderedMap.Chain.{update, insert_before}
use yasd.OrderedMap.Nodes
use yasd.OrderedMap.Nodes.{Link, Nodes, write, entries_at, link, unlink, with_value, with_added}
use yasd.OrderedMap.Nodes.Chained.{among, Segment, IsChain, frame, write-other}
use yasd.OrderedMap.Nodes.Refinement.{apart_ne, last_of, Segment-last_of}
use yasd.OrderedMap.Nodes.Indexed.{IsIndexed, IsMap, lookup-entries_at}
use yasd.OrderedMap.Nodes.Keyed.{AreKeyed, lookup-among, update-among, entries_at-among}
use yasd.OrderedMap.Nodes.Effects.{append_nil}
use yasd.OrderedMap.Nodes.Journal.{link-insert_before}

module _ {K V : Type 0} where
  -- The nodes are a well-formed map whose chain yields the entries.
  unfoldable pub Represents : Nodes K V → OrderedMap K V → Type 0
  Represents m o = (is : List ℕ) × IsMap m is × (o.entries ≡ entries_at m is)

  -- Nodes with the same pointers make the same segment.
  same_pointers :
      (f g : ℕ → Link K V) (back from : Option ℕ) (is : List ℕ) (last to : Option ℕ)
      → ((j : ℕ) → (g j).prev ≡ (f j).prev)
      → ((j : ℕ) → (g j).next ≡ (f j).next)
      → Segment f back from is last to
      → Segment g back from is last to
  unfolding Segment
  same_pointers f g back from [] last to p n s = s
  same_pointers f g back from (i ∷ is) last to p n (a, b, c) = (
    a,
    p i ∙ b,
    subst (λ t. Segment g (some i) t is last to) (sym (n i))
        (same_pointers f g (some i) (f i).next is last to p n c),
  )

module _ {K V : Type 0} (dec : Discrete K) where
  write_projection :
      {A : Type 0} (get : Link K V → A) (i j : ℕ) (n : Link K V) (f : ℕ → Link K V)
      → get n ≡ get (f i)
      → get (write i n f j) ≡ get (f j)
  write_projection get i j n f e = elim (Bool-cases (i == j)) [
    | inl h ↦ ap (λ b. get (if b then n else f j)) h ∙ e ∙ ap (λ x. get (f x)) ((==_iff i j).0 h)
    | inr h ↦ ap (λ b. get (if b then n else f j)) h
  ]

  with_value-IsMap :
      (m : Nodes K V) (i : ℕ) (v : V) (is : List ℕ) → IsMap m is → IsMap (with_value dec i v m) is
  unfolding IsMap IsChain IsIndexed
  with_value-IsMap m i v is ((s, d), (all, only)) =
      let new : Link K V = record (m.node i) { value = v } in
      let key : (j : ℕ) → (write i new m.node j).key ≡ (m.node j).key =
        λ j. write_projection (λ n. n.key) i j new m.node refl in
      (
        (
          same_pointers m.node (write i new m.node) none m.first is m.last none
              (λ j. write_projection (λ n. n.prev) i j new m.node refl)
              (λ j. write_projection (λ n. n.next) i j new m.node refl) s,
          d,
        ),
        (
          λ j h. ap m.index (key j) ∙ all j h,
          λ k j h. let (there, e) = only k j h in (there, key j ∙ e),
        ),
      )

  with_added-IsMap :
      (m : Nodes K V) (i : ℕ) (k : K) (v : V) (is : List ℕ)
      → among i is ≡ false
      → IsMap m is
      → IsMap (with_added dec i k v m) is
  unfolding IsMap IsChain IsIndexed
  with_added-IsMap m i k v is n ((s, d), (all, only)) =
      let new : Link K V = record { key = k; value = v; prev = none; next = none } in
      let same : (j : ℕ) → among j is ≡ true → write i new m.node j ≡ m.node j =
        λ j h. write-other i j new m.node (apart_ne i j is n h) in
      (
        (frame m.node (write i new m.node) none m.first is m.last none same s, d),
        (
          λ j h. ap (λ x. m.index x.key) (same j h) ∙ all j h,
          λ q j h. let (there, e) = only q j h in (there, ap (λ x. x.key) (same j there) ∙ e),
        ),
      )

  pub set_found :
      (m : Nodes K V) (k : K) (v : V) (fresh i : ℕ)
      → m.index k ≡ some i
      → Nodes.set dec k v fresh m ≡ with_value dec i v m
  unfolding Nodes.set
  set_found m k v fresh i h = ground (arith, h)

  pub set_new :
      (m : Nodes K V) (k : K) (v : V) (fresh : ℕ)
      → m.index k ≡ none
      → Nodes.set dec k v fresh m ≡ link dec fresh m.last none (with_added dec fresh k v m)
  unfolding Nodes.set
  set_new m k v fresh h = ground (arith, h)

  list_found :
      (o : OrderedMap K V) (k : K) (v old : V)
      → lookup dec k o.entries ≡ some old
      → (set dec o k v).entries ≡ update dec k v o.entries
  unfolding set
  list_found o k v old h = ground (arith, h)

  list_new :
      (o : OrderedMap K V) (k : K) (v : V)
      → lookup dec k o.entries ≡ none
      → (set dec o k v).entries ≡ o.entries ++ (k, v) ∷ []
  unfolding set
  list_new o k v h = ground (arith, h)

  pub lookup-found :
      (m : Nodes K V) (o : OrderedMap K V) (k : K) (is : List ℕ) (i : ℕ)
      → IsMap m is
      → o.entries ≡ entries_at m is
      → m.index k ≡ some i
      → lookup dec k o.entries ≡ some (m.node i).value
  unfolding IsMap IsIndexed AreKeyed
  lookup-found m o k is i (c, (all, only)) e h =
      let (there, key) = only k i h in
      ap (lookup dec k) e
      ∙ ap (λ x. lookup dec x (entries_at m is)) (sym key)
      ∙ lookup-among dec m i is all there

  pub lookup-new :
      (m : Nodes K V) (o : OrderedMap K V) (k : K) (is : List ℕ)
      → IsMap m is
      → o.entries ≡ entries_at m is
      → m.index k ≡ none
      → lookup dec k o.entries ≡ none
  unfolding IsMap IsIndexed
  lookup-new m o k is (c, (all, only)) e h =
      ap (lookup dec k) e
      ∙ lookup-entries_at dec m k is
          (λ j a p. ground (arith, sym (all j a) ∙ ap m.index (sym p) ∙ h))

  pub Represents-found :
      (m : Nodes K V) (o : OrderedMap K V) (k : K) (v : V) (i : ℕ)
      → m.index k ≡ some i
      → Represents m o
      → Represents (with_value dec i v m) (set dec o k v)
  unfolding Represents IsMap IsIndexed IsChain AreKeyed
  Represents-found m o k v i h (is, x, e) =
      let (there, key) = x.1.1 k i h in
      (
        is,
        with_value-IsMap m i v is x,
        list_found o k v (m.node i).value (lookup-found m o k is i x e h)
            ∙ ap (update dec k v) e
            ∙ ap (λ q. update dec q v (entries_at m is)) (sym key)
            ∙ sym (update-among dec m v i is x.1.0 x.0.1 there),
      )

  pub Represents-new :
      (m : Nodes K V) (o : OrderedMap K V) (k : K) (v : V) (fresh : ℕ)
      → ((q : K) → m.index q ≢ some fresh)
      → m.index k ≡ none
      → Represents m o
      → Represents (link dec fresh m.last none (with_added dec fresh k v m)) (set dec o k v)
  unfolding Represents IsMap IsIndexed IsChain insert_before
  Represents-new m o k v fresh unused h (is, x, e) =
      let m' = with_added dec fresh k v m in
      let apart : among fresh is ≡ false = elim (Bool-cases (among fresh is)) [
        | inl a ↦ absurd (unused (m.node fresh).key (x.1.0 fresh a))
        | inr f ↦ f
      ] in
      let x' = with_added-IsMap m fresh k v is apart x in
      let added : Link K V = record { key = k; value = v; prev = none; next = none } in
      let self : (fresh == fresh) ≡ true = ground (arith, ==_iff fresh fresh) in
      let here : m'.node fresh ≡ added = ap (λ b. if b then added else m.node fresh) self in
      let same : (j : ℕ) → among j is ≡ true → m'.node j ≡ m.node j =
        λ j a. write-other fresh j added m.node (apart_ne fresh j is apart a) in
      let at_end : is ++ [] ≡ is = append_nil is in
      let (y, es) =
        link-insert_before dec m' is [] fresh (subst (IsMap m') (sym at_end) x')
          (subst (λ l. among fresh l ≡ false) (sym at_end) apart)
          (ap (λ n. m.index n.key) here ∙ h) in
      let last : last_of none is ≡ m.last =
        sym (Segment-last_of m.node none m.first is m.last none x.0.0) in
      subst (λ l. Represents (link dec fresh l none m') (set dec o k v)) last
        (
          is ++ fresh ∷ [],
          y,
          list_new o k v (lookup-new m o k is x e h)
              ∙ ap (λ l. l ++ (k, v) ∷ [])
                  (e ∙ sym (entries_at-among dec m' m is same) ∙ ap (entries_at m') (sym at_end))
              ∙ ap (λ n. entries_at m' (is ++ []) ++ (n.key, n.value) ∷ []) (sym here)
              ∙ sym es,
        )
