-- ===== src/OrderedMap/Nodes/Refinement.antt =====
-- `link` and `unlink` of src/ordered-map.ts on the chain that the pointers make.
use yasd.Prelude.{
  ℕ, ◌≡◌, refl, sym, ap, ◌∙◌, subst, true, false, ◌||◌, Option, none, some, List, [], ◌∷◌, ◌++◌,
  ◌==◌, ==_iff, arith, Bool-cases, inl, inr,
}
use yasd.OrderedMap.Nodes.{
  Link, Nodes, point_forward, point_back, unindexed, with_neighbours, unlink, link,
}
use yasd.OrderedMap.Nodes.Chained.{
  among, AreDistinct, Segment, IsChain, frame, split-Segment, join_segments, Spares,
  Forward-Segment, Back-Segment, write-other,
}

pub among-append : (k : ℕ) (is js : List ℕ) → among k (is ++ js) ≡ (among k is || among k js)
among-append k [] js = refl
among-append k (i ∷ is) js = ground (arith, among-append k is js)

-- The numbers of two lists that are distinct together.
pub distinct_parts :
    (is js : List ℕ)
    → AreDistinct (is ++ js)
    → AreDistinct is × AreDistinct js × ((k : ℕ) → among k is ≡ true → among k js ≡ false)
unfolding AreDistinct
distinct_parts [] js d = (tt, d, λ k h. absurd (ground arith))
distinct_parts (i ∷ is) js (n, d) =
    let (a, b, c) = distinct_parts is js d in
    (
      (ground (arith, n, among-append i is js), a),
      b,
      λ k h. elim (Bool-cases (i == k)) [
        | inl e ↦
            subst (λ x. among x js ≡ false) ((==_iff i k).0 e)
              (ground (arith, n, among-append i is js))
        | inr f ↦ c k (ground arith)
      ],
    )

pub join_distinct :
    (is js : List ℕ)
    → AreDistinct is
    → AreDistinct js
    → ((k : ℕ) → among k is ≡ true → among k js ≡ false)
    → AreDistinct (is ++ js)
unfolding AreDistinct
join_distinct [] js a b c = b
join_distinct (i ∷ is) js (n, a) b c = (
  ground (arith, n, among-append i is js, c i, ==_iff i i),
  join_distinct is js a b (λ k h. c k (ground arith)),
)

-- Apart the other way round.
apart_sym :
    (is js : List ℕ)
    → ((k : ℕ) → among k is ≡ true → among k js ≡ false)
    → (k : ℕ) → among k js ≡ true
    → among k is ≡ false
apart_sym is js c k h = elim (Bool-cases (among k is)) [
  | inl e ↦ absurd (ground (arith, c k e, h))
  | inr n ↦ n
]

-- The last of the numbers, or else the pointer in front of them; and the first of them.
abbrev pub last_of : Option ℕ → List ℕ → Option ℕ
last_of back [] = back
last_of back (i ∷ is) = last_of (some i) is

abbrev pub first_of : List ℕ → Option ℕ
first_of [] = none
first_of (i ∷ is) = some i

module _ {K V : Type 0} where
  pub Segment-last_of :
      (f : ℕ → Link K V) (back from : Option ℕ) (is : List ℕ) (last to : Option ℕ)
      → Segment f back from is last to
      → last ≡ last_of back is
  unfolding Segment
  Segment-last_of f back from [] last to s = s.1
  Segment-last_of f back from (i ∷ is) last to (a, b, c) =
      Segment-last_of f (some i) (f i).next is last to c

  pub Segment-first_of :
      (f : ℕ → Link K V) (back from : Option ℕ) (is : List ℕ) (last : Option ℕ)
      → Segment f back from is last none
      → from ≡ first_of is
  unfolding Segment
  Segment-first_of f back from [] last s = s.0
  Segment-first_of f back from (i ∷ is) last s = s.0

pub apart_ne : (i j : ℕ) (js : List ℕ) → among i js ≡ false → among j js ≡ true → (i == j) ≡ false
apart_ne i j js n h = elim (Bool-cases (i == j)) [
  | inl e ↦ absurd (ground (arith, n, subst (λ x. among x js ≡ true) (sym ((==_iff i j).0 e)) h))
  | inr f ↦ f
]

module _ {K V : Type 0} (dec : Discrete K) where
  pub unlink-IsChain :
      (m : Nodes K V) (is js : List ℕ) (i : ℕ)
      → IsChain m (is ++ i ∷ js)
      → IsChain (unlink dec i m) (is ++ js)
  unfolding unlink IsChain Segment Spares AreDistinct
  unlink-IsChain m is js i (s, d) =
      let (di, (n, dj), apart) = distinct_parts is (i ∷ js) d in
      let (p, t, a, (b, c, e)) = split-Segment m.node none m.first is (i ∷ js) m.last none s in
      let q = (m.node i).prev in
      let next = (m.node i).next in
      let (a1, s1, l1) =
        Forward-Segment m is q t next di
          (subst (λ x. Segment m.node none m.first is x t) (sym c) a) in
      let m1 = point_forward q next m in
      let back = apart_sym is (i ∷ js) apart in
      let same : m1.node i ≡ m.node i = s1 i (back i (ground arith)) in
      let e1 : Segment m1.node (some i) next js m1.last none =
        subst (λ x. Segment m1.node (some i) next js x none) (sym l1)
          (frame m.node m1.node (some i) next js m.last none (λ j h. s1 j (back j (ground arith)))
            e) in
      let (e2, s2, f2) = Back-Segment m1 js (some i) next q dj e1 in
      let m2 = point_back next q m1 in
      let a2 : Segment m2.node none m2.first is q next =
        subst (λ x. Segment m2.node none x is q next) (sym f2)
          (frame m1.node m2.node none m1.first is q next (λ j h. s2 j (ground (arith, apart j h)))
            a1) in
      let whole : IsChain m2 (is ++ js) = (
        join_segments m2.node none m2.first is js q next m2.last none a2 e2,
        join_distinct is js di dj (λ k h. ground (arith, apart k h)),
      ) in
      subst (λ x. IsChain (unindexed dec i (point_back x.next x.prev m1)) (is ++ js)) (sym same)
        whole

  pub link-Segments :
      (m : Nodes K V) (is js : List ℕ) (i : ℕ) (prev next : Option ℕ)
      → AreDistinct (is ++ i ∷ js)
      → Segment m.node none m.first is prev next
      → Segment m.node prev next js m.last none
      → IsChain (link dec i prev next m) (is ++ i ∷ js)
  unfolding link IsChain Segment Spares AreDistinct
  link-Segments m is js i prev next d a c =
      let (di, (n, dj), apart) = distinct_parts is (i ∷ js) d in
      let back = apart_sym is (i ∷ js) apart in
      let new : Link K V = record (m.node i) { prev = prev; next = next } in
      let m0 = with_neighbours dec i prev next m in
      let a0 : Segment m0.node none m0.first is prev next =
        frame m.node m0.node none m.first is prev next
          (λ j h. write-other i j new m.node (ground (arith, apart j h))) a in
      let c0 : Segment m0.node prev next js m0.last none =
        frame m.node m0.node prev next js m.last none
          (λ j h. write-other i j new m.node (apart_ne i j js n h)) c in
      let (a1, s1, l1) = Forward-Segment m0 is prev next (some i) di a0 in
      let m1 = point_forward prev (some i) m0 in
      let c1 : Segment m1.node prev next js m1.last none =
        subst (λ x. Segment m1.node prev next js x none) (sym l1)
          (frame m0.node m1.node prev next js m0.last none (λ j h. s1 j (back j (ground arith)))
            c0) in
      let (c2, s2, f2) = Back-Segment m1 js prev next (some i) dj c1 in
      let m2 = point_back next (some i) m1 in
      let a2 : Segment m2.node none m2.first is prev (some i) =
        subst (λ x. Segment m2.node none x is prev (some i)) (sym f2)
          (frame m1.node m2.node none m1.first is prev (some i)
            (λ j h. s2 j (ground (arith, apart j h))) a1) in
      let same : m2.node i ≡ new = s2 i n ∙ s1 i (back i (ground arith)) ∙ ground arith in
      let c3 : Segment m2.node (some i) (m2.node i).next js m2.last none =
        subst (λ x. Segment m2.node (some i) x.next js m2.last none) (sym same) c2 in
      (
        join_segments m2.node none m2.first is (i ∷ js) prev (some i) m2.last none a2
            (refl, ap (λ x. x.prev) same, c3),
        d,
      )
