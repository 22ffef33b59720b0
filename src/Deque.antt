-- ===== src/Deque.antt =====
-- src/deque.ts: the queue over a map from positions to items.
pub mod Calls
pub mod Refinement
use mathlib.Core.List.{lookup, map as map_list}
use native.Mathlib.Decide.{ℕ_discrete}
use yasd.Prelude.{
  ℕ, suc, ◌+◌, ◌-◌, Bool, Option, none, some, List, [], ◌∷◌, ◌++◌, length, ◌==◌, if◌then◌else◌,
}
use yasd.OrderedMap.Chain.{update, remove}

-- `items` is a JavaScript map: its pairs in the order in which their keys were first set.
pub record Deque (T : Type 0) : Type 0 where
  pub items : List (ℕ × T)
  pub head : ℕ
  pub tail : ℕ

module _ {T : Type 0} where
  abbrev pub empty : Deque T
  empty = record { items = []; head = 0; tail = 0 }

  abbrev pub size : Deque T → ℕ
  size d = length d.items

  -- `Map.set`
  unfoldable pub put : ℕ → T → List (ℕ × T) → List (ℕ × T)
  unfolding update
  put k v items = elim (lookup ℕ_discrete k items) [
    | some old ↦ update ℕ_discrete k v items
    | none ↦ items ++ (k, v) ∷ []
  ]

  unfoldable pub clear : Deque T → Deque T
  clear d = empty

  -- `if (!this.length) this.clear()`
  unfoldable pub clear_if_empty : Deque T → Deque T
  unfolding clear
  clear_if_empty d = if size d == 0 then clear d else d

  unfoldable pub push : T → Deque T → ℕ × Deque T
  unfolding put
  push value d =
      let d' = record d { items = put d.tail value d.items; tail = suc d.tail } in (size d', d')

  unfoldable pub shift : Deque T → Option T × Deque T
  unfolding clear_if_empty remove
  shift d = if size d == 0 then (none, d) else (
    lookup ℕ_discrete d.head d.items,
    clear_if_empty (record d { items = remove ℕ_discrete d.head d.items; head = suc d.head }),
  )

  unfoldable pub pop : Deque T → Option T × Deque T
  unfolding clear_if_empty remove
  pop d = if size d == 0 then (none, d) else (
    lookup ℕ_discrete (d.tail - 1) d.items,
    clear_if_empty (record d { items = remove ℕ_discrete (d.tail - 1) d.items; tail = d.tail - 1 }),
  )

  abbrev pub values : Deque T → List T
  values d = map_list (λ e. e.1) d.items

  -- `splice(0)`
  unfoldable pub drain : Deque T → List T × Deque T
  unfolding clear
  drain d = (values d, clear d)

  -- `indexOf`: `none` is the answer -1.
  unfoldable pub index_in : (T → T → Bool) → T → ℕ → List T → Option ℕ
  index_in same value i [] = none
  index_in same value i (x ∷ xs) =
      let rest = index_in same value (suc i) xs in if same x value then some i else rest

  unfoldable pub index_of : (T → T → Bool) → T → Deque T → Option ℕ
  unfolding index_in
  index_of same value d = index_in same value 0 (values d)
