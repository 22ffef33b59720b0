-- ===== src/OrderedMap/Nodes.antt =====
-- The nodes of src/ordered-map.ts, with their pointers. A node is named by a number, its identity.
pub mod Chained
pub mod Refinement
pub mod Effects
pub mod Indexed
pub mod Journal
pub mod Keyed
pub mod Represented
pub mod Operations
use mathlib.Core.Logic.{ite}
use mathlib.Core.Option
use yasd.Prelude.{
  Bool, true, false, ℕ, zero, suc, Option, none, some, List, [], ◌∷◌, map, ◌==◌, if◌then◌else◌,
}

-- `Link`
pub record Link (K V : Type 0) : Type 0 where
  pub key : K
  pub value : V
  pub prev : Option ℕ
  pub next : Option ℕ

-- `nodes`, `first` and `last`, and the nodes themselves.
pub record Nodes (K V : Type 0) : Type 0 where
  pub node : ℕ → Link K V
  pub first : Option ℕ
  pub last : Option ℕ
  pub index : K → Option ℕ

module _ {K V : Type 0} where
  abbrev pub write : ℕ → Link K V → (ℕ → Link K V) → ℕ → Link K V
  write i n f j = if i == j then n else f j

  -- `if (p) p.next = to; else this.first = to`
  unfoldable pub point_forward : Option ℕ → Option ℕ → Nodes K V → Nodes K V
  point_forward none to m = record m { first = to }
  point_forward (some p) to m = record m { node = write p (record (m.node p) { next = to }) m.node }

  -- `if (n) n.prev = to; else this.last = to`
  unfoldable pub point_back : Option ℕ → Option ℕ → Nodes K V → Nodes K V
  point_back none to m = record m { last = to }
  point_back (some n) to m = record m { node = write n (record (m.node n) { prev = to }) m.node }

  -- The keys and values of the nodes, in the order of the list.
  abbrev pub entries_at : Nodes K V → List ℕ → List (K × V)
  entries_at m is = map (λ i. ((m.node i).key, (m.node i).value)) is

  -- `entries`, in at most so many rounds of its loop: `none` where they are not enough.
  unfoldable pub entries : ℕ → Option ℕ → Nodes K V → Option (List (K × V))
  entries rounds none m = some []
  entries zero (some i) m = none
  entries (suc rounds) (some i) m =
      Option.map (λ es. ((m.node i).key, (m.node i).value) ∷ es) (entries rounds (m.node i).next m)

module _ {K : Type 0} (dec : Discrete K) where
  abbrev pub forget : K → (K → Option ℕ) → K → Option ℕ
  forget k index j = ite (dec j k) none (index j)

  abbrev pub enter : K → ℕ → (K → Option ℕ) → K → Option ℕ
  enter k i index j = ite (dec j k) (some i) (index j)

module _ {K V : Type 0} (dec : Discrete K) where
  abbrev unindexed : ℕ → Nodes K V → Nodes K V
  unindexed i m = record m { index = forget dec (m.node i).key m.index }

  abbrev past : ℕ → Nodes K V → Nodes K V
  past i m = point_back (m.node i).next (m.node i).prev m

  -- `unlink`
  unfoldable pub unlink : ℕ → Nodes K V → Nodes K V
  unfolding point_forward point_back
  unlink i m = unindexed i (past i (point_forward (m.node i).prev (m.node i).next m))

  abbrev indexed : ℕ → Nodes K V → Nodes K V
  indexed i m = record m { index = enter dec (m.node i).key i m.index }

  abbrev pub with_neighbours : ℕ → Option ℕ → Option ℕ → Nodes K V → Nodes K V
  with_neighbours i prev next m = record m {
    node = write i (record (m.node i) { prev = prev; next = next }) m.node;
  }

  -- `link`
  unfoldable pub link : ℕ → Option ℕ → Option ℕ → Nodes K V → Nodes K V
  unfolding point_forward point_back
  link i prev next m =
      indexed i
        (point_back next (some i) (point_forward prev (some i) (with_neighbours i prev next m)))

  abbrev pub with_value : ℕ → V → Nodes K V → Nodes K V
  with_value i v m = record m { node = write i (record (m.node i) { value = v }) m.node }

  abbrev pub with_added : ℕ → K → V → Nodes K V → Nodes K V
  with_added i k v m = record m {
    node = write i (record { key = k; value = v; prev = none; next = none }) m.node;
  }

  -- `set`, without its journal. The number is the identity of the node that is made.
  unfoldable pub set : K → V → ℕ → Nodes K V → Nodes K V
  set k v fresh m = elim (m.index k) [
    | some i ↦ with_value i v m
    | none ↦ link fresh m.last none (with_added fresh k v m)
  ]

  -- `delete`, without its journal.
  unfoldable pub delete : K → Nodes K V → Nodes K V × Bool
  delete k m = elim (m.index k) [ some i ↦ (unlink i m, true) | none ↦ (m, false) ]
