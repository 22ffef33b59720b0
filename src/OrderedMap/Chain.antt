-- ===== src/OrderedMap/Chain.antt =====
-- The chain of nodes of src/ordered-map.ts as a list of pairs: `link` and `unlink`.
use mathlib.Core.List.{lookup}
use mathlib.Core.Logic.{ite, if_pos, if_neg}
use yasd.Prelude.{◌≡◌, refl, sym, ◌≢◌, Option, none, some, List, [], ◌∷◌, ◌++◌, arith}

module _ {K V : Type 0} (dec : Discrete K) where
  -- `node.value = v` at the node of the key.
  unfoldable pub update : K → V → List (K × V) → List (K × V)
  update k v [] = []
  update k v (e ∷ es) = ite (dec k e.0) ((e.0, v) ∷ es) (e ∷ update k v es)

  -- `unlink`
  unfoldable pub remove : K → List (K × V) → List (K × V)
  remove k [] = []
  remove k (e ∷ es) = ite (dec k e.0) es (e ∷ remove k es)

  -- `link` in front of the node `next`, or at the end.
  unfoldable pub insert_before : Option K → K × V → List (K × V) → List (K × V)
  insert_before none n es = es ++ n ∷ []
  insert_before (some q) n [] = n ∷ []
  insert_before (some q) n (e ∷ es) = ite (dec q e.0) (n ∷ e ∷ es) (e ∷ insert_before (some q) n es)

  abbrev pub first_key : List (K × V) → Option K
  first_key [] = none
  first_key (e ∷ es) = some e.0

  -- `node.next` of the node of the key.
  unfoldable pub next_key : K → List (K × V) → Option K
  next_key k [] = none
  next_key k (e ∷ es) = ite (dec k e.0) (first_key es) (next_key k es)

  -- No key has two nodes.
  abbrev pub IsDistinct : List (K × V) → Type 0
  IsDistinct [] = Unit
  IsDistinct (e ∷ es) = (lookup dec e.0 es ≡ none) × IsDistinct es

  pub update-update :
      (k : K) (v old : V) (es : List (K × V))
      → lookup dec k es ≡ some old
      → update k old (update k v es) ≡ es
  unfolding update lookup
  update-update k v old [] h = refl
  update-update k v old (e ∷ es) h = ground (arith, update-update k v old es)

  pub remove-append :
      (k : K) (v : V) (es : List (K × V))
      → lookup dec k es ≡ none
      → remove k (es ++ (k, v) ∷ []) ≡ es
  unfolding remove lookup
  remove-append k v [] h = ground arith
  remove-append k v (e ∷ es) h = ground (arith, remove-append k v es)

  pub lookup-remove_ne :
      (k q : K) (es : List (K × V)) → q ≢ k → lookup dec q (remove k es) ≡ lookup dec q es
  unfolding remove lookup
  lookup-remove_ne k q [] h = refl
  lookup-remove_ne k q (e ∷ es) h = ground (arith, lookup-remove_ne k q es)

  pub lookup-remove_self :
      (k : K) (es : List (K × V)) → IsDistinct es → lookup dec k (remove k es) ≡ none
  unfolding remove lookup
  lookup-remove_self k [] d = refl
  lookup-remove_self k (e ∷ es) d = ground (arith, lookup-remove_self k es d.1)

  pub lookup-append :
      (q k : K) (v : V) (es : List (K × V))
      → lookup dec k es ≡ none
      → lookup dec q (es ++ (k, v) ∷ []) ≡ ite (dec q k) (some v) (lookup dec q es)
  unfolding lookup
  lookup-append q k v [] h = ground arith
  lookup-append q k v (e ∷ es) h = ground (arith, lookup-append q k v es)

  pub lookup-update :
      (q k : K) (v old : V) (es : List (K × V))
      → lookup dec k es ≡ some old
      → lookup dec q (update k v es) ≡ ite (dec q k) (some v) (lookup dec q es)
  unfolding lookup update
  lookup-update q k v old [] h = ground arith
  lookup-update q k v old (e ∷ es) h = ground (arith, lookup-update q k v old es)

  -- The key of a neighbour is a key of the chain.
  next_key-ne-absent :
      (k q : K) (es : List (K × V)) → lookup dec q es ≡ none → next_key k es ≢ some q
  unfolding next_key lookup
  next_key-ne-absent k q [] h = ground arith
  next_key-ne-absent k q (e ∷ []) h = ground arith
  next_key-ne-absent k q (e ∷ f ∷ es) h = ground (arith, next_key-ne-absent k q (f ∷ es))

  insert_before_cons :
      (next : Option K) (n e : K × V) (es : List (K × V))
      → next ≢ some e.0
      → insert_before next n (e ∷ es) ≡ e ∷ insert_before next n es
  unfolding insert_before
  insert_before_cons none n e es h = refl
  insert_before_cons (some q) n e es h = ground arith

  -- In a chain of distinct keys, a node that is unlinked and linked again in front of the node that
  -- followed it, or at the end if none did, is back in its old place.
  pub insert_before-remove :
      (k : K) (v : V) (es : List (K × V))
      → IsDistinct es
      → lookup dec k es ≡ some v
      → insert_before (next_key k es) (k, v) (remove k es) ≡ es
  unfolding insert_before next_key remove lookup
  insert_before-remove k v [] d h = ground arith
  insert_before-remove k v (e ∷ []) d h = ground arith
  insert_before-remove k v (e ∷ f ∷ es) d h = elim (dec k e.0) [
    | yes p ↦ ground arith
    | no p ↦ ground (
      arith,
      insert_before-remove k v (f ∷ es) d.1,
      insert_before_cons (next_key k (f ∷ es)) (k, v) e (remove k (f ∷ es)),
      next_key-ne-absent k e.0 (f ∷ es) d.0,
    )
  ]

  pub remove-IsDistinct : (k : K) (es : List (K × V)) → IsDistinct es → IsDistinct (remove k es)
  unfolding remove
  remove-IsDistinct k [] d = tt
  remove-IsDistinct k (e ∷ es) d = elim (dec k e.0) [
    | yes p ↦ rw (if_pos _ p) d.1
    | no p ↦
        rw (if_neg _ p)
          (rw (lookup-remove_ne k e.0 es (λ q. p (sym q))) d.0, remove-IsDistinct k es d.1)
  ]

  pub append-IsDistinct :
      (k : K) (v : V) (es : List (K × V))
      → IsDistinct es
      → lookup dec k es ≡ none
      → IsDistinct (es ++ (k, v) ∷ [])
  unfolding lookup
  append-IsDistinct k v [] d h = (refl, tt)
  append-IsDistinct k v (e ∷ es) d h =
      (ground (arith, lookup-append e.0 k v es), append-IsDistinct k v es d.1 (ground arith))

  lookup-update_absent :
      (q k : K) (v : V) (es : List (K × V))
      → lookup dec q es ≡ none
      → lookup dec q (update k v es) ≡ none
  unfolding lookup update
  lookup-update_absent q k v [] h = refl
  lookup-update_absent q k v (e ∷ es) h = ground (arith, lookup-update_absent q k v es)

  pub update-IsDistinct :
      (k : K) (v : V) (es : List (K × V)) → IsDistinct es → IsDistinct (update k v es)
  unfolding update
  update-IsDistinct k v [] d = tt
  update-IsDistinct k v (e ∷ es) d = elim (dec k e.0) [
    | yes p ↦ rw (if_pos _ p) d
    | no p ↦ rw (if_neg _ p) (lookup-update_absent e.0 k v es d.0, update-IsDistinct k v es d.1)
  ]
