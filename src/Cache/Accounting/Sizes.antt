-- ===== src/Cache/Accounting/Sizes.antt =====
-- The sizes of the entries of a chain, under the changes of src/ordered-map.ts.
use mathlib.Core.List.{lookup}
use mathlib.Core.Logic.{if_pos, if_neg}
use yasd.Prelude.{
  ℕ, ◌+◌, ◌≤◌, ◌≡◌, refl, sym, ap, ◌∙◌, none, some, List, [], ◌∷◌, ◌++◌, length, arith, inl, inr,
  Option-cases,
}
use yasd.Text.{Text, text_discrete}
use yasd.OrderedMap
use yasd.OrderedMap.Chain.{remove, IsDistinct, lookup-remove_self}
use yasd.Cache.State.{Entry, Cache}
use yasd.Cache.Core.{peek, map_set, map_delete}
use yasd.Cache.Write.{map_clear}

module _ {V : Type 0} where
  abbrev pub total : List (Text × Entry V) → ℕ
  total [] = 0
  total ((k, e) ∷ es) = e.size + total es

  abbrev pub AllFit : ℕ → List (Text × Entry V) → Type 0
  AllFit n [] = Unit
  AllFit n ((k, e) ∷ es) = (e.size ≤ n) × AllFit n es

  pub total-remove :
      (k : Text) (e : Entry V) (es : List (Text × Entry V))
      → lookup text_discrete k es ≡ some e
      → total (remove text_discrete k es) + e.size ≡ total es
  unfolding remove lookup
  total-remove k e [] h = ground arith
  total-remove k e ((q, f) ∷ es) h = ground (arith, total-remove k e es)

  pub length-remove :
      (k : Text) (e : Entry V) (es : List (Text × Entry V))
      → lookup text_discrete k es ≡ some e
      → length (remove text_discrete k es) + 1 ≡ length es
  unfolding remove lookup
  length-remove k e [] h = ground arith
  length-remove k e ((q, f) ∷ es) h = ground (arith, length-remove k e es)

  pub total-append :
      (k : Text) (e : Entry V) (es : List (Text × Entry V))
      → total (es ++ (k, e) ∷ []) ≡ total es + e.size
  total-append k e [] = omega arith
  total-append k e ((q, f) ∷ es) = omega (arith, total-append k e es)

  pub remove-AllFit :
      (n : ℕ) (k : Text) (es : List (Text × Entry V))
      → AllFit n es
      → AllFit n (remove text_discrete k es)
  unfolding remove
  remove-AllFit n k [] h = tt
  remove-AllFit n k ((q, f) ∷ es) h = elim (text_discrete k q) [
    | yes p ↦ rw (if_pos _ p) h.1
    | no p ↦ rw (if_neg _ p) (h.0, remove-AllFit n k es h.1)
  ]

  pub append-AllFit :
      (n : ℕ) (k : Text) (e : Entry V) (es : List (Text × Entry V))
      → AllFit n es
      → e.size ≤ n
      → AllFit n (es ++ (k, e) ∷ [])
  append-AllFit n k e [] h p = (p, tt)
  append-AllFit n k e ((q, f) ∷ es) h p = (h.0, append-AllFit n k e es h.1 p)

  pub AllFit-lookup :
      (n : ℕ) (k : Text) (e : Entry V) (es : List (Text × Entry V))
      → AllFit n es
      → lookup text_discrete k es ≡ some e
      → e.size ≤ n
  unfolding lookup
  AllFit-lookup n k e [] h p = ground arith
  AllFit-lookup n k e ((q, f) ∷ es) h p = ground (arith, AllFit-lookup n k e es h.1)

  remove_absent :
      (k : Text) (es : List (Text × Entry V))
      → lookup text_discrete k es ≡ none
      → remove text_discrete k es ≡ es
  unfolding remove lookup
  remove_absent k [] h = refl
  remove_absent k (e ∷ es) h = ground (arith, remove_absent k es)

  map-map_delete :
      (k : Text) (c : Cache V) → (map_delete k c).map ≡ (OrderedMap.delete text_discrete c.map k).0
  unfolding map_delete OrderedMap.delete
  map-map_delete k c = elim (Option-cases (lookup text_discrete k c.map.entries)) [
    | inl absent ↦ rw (absent, map_delete, OrderedMap.delete) refl
    | inr (e, found) ↦ rw (found, map_delete, OrderedMap.delete) refl
  ]

  entries-delete :
      (k : Text) (m : OrderedMap.OrderedMap Text (Entry V))
      → (OrderedMap.delete text_discrete m k).0.entries ≡ remove text_discrete k m.entries
  unfolding OrderedMap.delete
  entries-delete k m = elim (Option-cases (lookup text_discrete k m.entries)) [
    | inl absent ↦ rw (absent, OrderedMap.delete) (sym (remove_absent k m.entries absent))
    | inr (e, found) ↦ rw (found, OrderedMap.delete) refl
  ]

  pub entries-map_delete :
      (k : Text) (c : Cache V) → (map_delete k c).map.entries ≡ remove text_discrete k c.map.entries
  entries-map_delete k c = ap (λ m. m.entries) (map-map_delete k c) ∙ entries-delete k c.map

  pub bytes-map_delete : (k : Text) (c : Cache V) → (map_delete k c).bytes ≡ c.bytes
  unfolding map_delete
  bytes-map_delete k c = ground arith

  pub entries-map_set :
      (k : Text) (e : Entry V) (c : Cache V)
      → peek k c ≡ none
      → (map_set k e c).map.entries ≡ c.map.entries ++ (k, e) ∷ []
  unfolding map_set OrderedMap.set OrderedMap.get
  entries-map_set k e c h = rw (h, OrderedMap.set)

  -- After a delete the key is free.
  pub peek-map_delete :
      (k : Text) (c : Cache V)
      → IsDistinct text_discrete c.map.entries
      → peek k (map_delete k c) ≡ none
  unfolding OrderedMap.get
  peek-map_delete k c d =
      rw (entries-map_delete k c) (lookup-remove_self text_discrete k c.map.entries d)

  remove_first :
      (k : Text) (e : Entry V) (es : List (Text × Entry V))
      → remove text_discrete k ((k, e) ∷ es) ≡ es
  unfolding remove
  remove_first k e es = ground arith

  pub entries-map_clear :
      (es : List (Text × Entry V)) (c : Cache V)
      → c.map.entries ≡ es
      → (map_clear (mathlib.Core.List.map (λ e. e.0) es) c).map.entries ≡ []
  unfolding map_clear
  entries-map_clear [] c h = h
  entries-map_clear ((k, e) ∷ es) c h =
      entries-map_clear es (map_delete k c)
        (entries-map_delete k c ∙ (ap (remove text_discrete k) h ∙ remove_first k e es))
