-- ===== src/OrderedMap/Nodes/Keyed.antt =====
-- `set` and `delete` of src/ordered-map.ts on nodes, beside those on the list of pairs.
use mathlib.Core.List.{lookup}
use mathlib.Core.Logic.{if_pos, if_neg}
use yasd.Prelude.{
  ℕ, ◌≡◌, ◌≢◌, refl, sym, ap, ◌∙◌, subst, true, false, some, List, [], ◌∷◌, ◌++◌, ◌==◌, ==_iff,
  if◌then◌else◌, arith, some_injective, Bool-cases, inl, inr,
}
use yasd.OrderedMap.Chain.{update}
use yasd.OrderedMap.Nodes.{Link, Nodes, entries_at, with_value}
use yasd.OrderedMap.Nodes.Chained.{among, AreDistinct, write-other}
use yasd.OrderedMap.Nodes.Refinement.{apart_ne}

-- A number of a list, with what is in front of it and behind it.
pub split_at : (i : ℕ) (is : List ℕ) → among i is ≡ true → (xs bs : List ℕ) × (is ≡ xs ++ i ∷ bs)
split_at i [] h = absurd (ground arith)
split_at i (j ∷ is) h = elim (Bool-cases (j == i)) [
  | inl e ↦ ([], is, ap (λ x. x ∷ is) ((==_iff j i).0 e))
  | inr f ↦ let (xs, bs, e) = split_at i is (ground arith) in (j ∷ xs, bs, ap (◌∷◌ j) e)
]

module _ {K V : Type 0} where
  -- The numbers of the list are under their keys.
  unfoldable pub AreKeyed : Nodes K V → List ℕ → Type 0
  AreKeyed m is = (j : ℕ) → among j is ≡ true → m.index (m.node j).key ≡ some j

  pub injective_keys :
      (m : Nodes K V) (i j : ℕ)
      → m.index (m.node i).key ≡ some i
      → m.index (m.node j).key ≡ some j
      → (m.node i).key ≡ (m.node j).key
      → i ≡ j
  injective_keys m i j a b p = some_injective (sym a ∙ ap m.index p ∙ b)

module _ {K V : Type 0} (dec : Discrete K) where
  pub lookup-among :
      (m : Nodes K V) (i : ℕ) (is : List ℕ)
      → AreKeyed m is
      → among i is ≡ true
      → lookup dec (m.node i).key (entries_at m is) ≡ some (m.node i).value
  unfolding lookup AreKeyed
  lookup-among m i [] h a = absurd (ground arith)
  lookup-among m i (j ∷ is) h a = elim (dec (m.node i).key (m.node j).key) [
    | yes p ↦
        if_pos _ p (some (m.node j).value) (lookup dec (m.node i).key (entries_at m is))
        ∙ ap (λ x. some (m.node x).value)
            (sym (injective_keys m i j (h i a) (h j (ground (arith, ==_iff j j))) p))
    | no p ↦
        let other : (j == i) ≡ false = elim (Bool-cases (j == i)) [
          | inl e ↦ absurd (p (ap (λ x. (m.node x).key) (sym ((==_iff j i).0 e))))
          | inr f ↦ f
        ] in
        if_neg _ p (some (m.node j).value) (lookup dec (m.node i).key (entries_at m is))
        ∙ lookup-among m i is (λ l e. h l (ground arith)) (ground arith)
  ]

  pub entries_at-among :
      (m' m : Nodes K V) (is : List ℕ)
      → ((j : ℕ) → among j is ≡ true → m'.node j ≡ m.node j)
      → entries_at m' is ≡ entries_at m is
  entries_at-among m' m [] h = refl
  entries_at-among m' m (i ∷ is) h =
      ap (λ n. (n.key, n.value) ∷ entries_at m' is) (h i (ground (arith, ==_iff i i)))
      ∙ ap (◌∷◌ ((m.node i).key, (m.node i).value))
          (entries_at-among m' m is (λ j a. h j (ground arith)))

  pub update-among :
      (m : Nodes K V) (v : V) (i : ℕ) (is : List ℕ)
      → AreKeyed m is
      → AreDistinct is
      → among i is ≡ true
      → entries_at (with_value dec i v m) is ≡ update dec (m.node i).key v (entries_at m is)
  unfolding update AreKeyed AreDistinct
  update-among m v i [] h d a = absurd (ground arith)
  update-among m v i (j ∷ is) h (n, d) a =
      let new : Link K V = record (m.node i) { value = v } in
      let m' = with_value dec i v m in
      let rest = entries_at m is in
      let changed = update dec (m.node i).key v rest in
      elim (Bool-cases (i == j)) [
        | inl e ↦
            let same : i ≡ j = (==_iff i j).0 e in
            let key : (m.node i).key ≡ (m.node j).key = ap (λ x. (m.node x).key) same in
            let absent : among i is ≡ false = subst (λ x. among x is ≡ false) (sym same) n in
            ap
              (λ b.
                ((if b then new else m.node j).key, (if b then new else m.node j).value)
                ∷ entries_at m' is)
              e
            ∙ ap (◌∷◌ ((m.node i).key, v)) (
                entries_at-among m' m is
                  (λ l b. write-other i l new m.node (apart_ne i l is absent b)))
            ∙ ap (λ k. (k, v) ∷ rest) key
            ∙ sym (
                if_pos (dec (m.node i).key (m.node j).key) key (((m.node j).key, v) ∷ rest)
                  (((m.node j).key, (m.node j).value) ∷ changed))
        | inr f ↦
            let other : (m.node i).key ≢ (m.node j).key = λ p. ground (
              arith,
              f,
              ==_iff i j,
              injective_keys m i j (h i a) (h j (ground (arith, ==_iff j j))) p,
            ) in
            ap
              (λ b.
                ((if b then new else m.node j).key, (if b then new else m.node j).value)
                ∷ entries_at m' is)
              f
            ∙ ap (◌∷◌ ((m.node j).key, (m.node j).value)) (
                update-among m v i is (λ l b. h l (ground arith)) d
                  (ground (arith, a, ==_iff i j, ==_iff j i)))
            ∙ sym (
                if_neg (dec (m.node i).key (m.node j).key) other (((m.node j).key, v) ∷ rest)
                  (((m.node j).key, (m.node j).value) ∷ changed))
      ]
