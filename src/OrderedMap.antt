-- ===== src/OrderedMap.antt =====
-- The ordered map of src/ordered-map.ts: an insertion-ordered map with nested undo journals.
pub mod Chain
pub mod Session
pub mod Nodes
use mathlib.Core.List.{lookup, foldl}
use yasd.Prelude.{
  ℕ, ◌-◌, Bool, true, false, Option, none, some, List, [], ◌∷◌, ◌++◌, map, length, take, drop,
  is_some,
}
use Chain.{update, remove, insert_before, next_key}

-- One entry of the array of undo closures. A closure names its node; the node is named here by
-- its key, since a key has one live node at a time.
pub data Undo (K V : Type 0) : Type 0 where
  restore : K → V → Undo K V
  unlink : K → Undo K V
  link : K → V → Option K → Undo K V

-- `entries` is the chain from `first` to `last`; `undo` and `frames` have their newest entry first.
pub record OrderedMap (K V : Type 0) : Type 0 where
  pub entries : List (K × V)
  pub undo : List (Undo K V)
  pub frames : List ℕ

abbrev pub empty : {K V : Type 0} → OrderedMap K V
empty = record { entries = []; undo = []; frames = [] }

module _ {K V : Type 0} where
  abbrev pub size : OrderedMap K V → ℕ
  size m = length m.entries

  abbrev pub journal_size : OrderedMap K V → ℕ
  journal_size m = length m.undo

  abbrev pub keys : OrderedMap K V → List K
  keys m = map (λ e. e.0) m.entries

  unfoldable pub begin : OrderedMap K V → OrderedMap K V
  begin m = record m { frames = length m.undo ∷ m.frames }

  -- The journal is dropped with the outermost frame.
  unfoldable pub kept : List ℕ → List (Undo K V) → List (Undo K V)
  kept [] undo = []
  kept (f ∷ fs) undo = undo

  -- `none` is the exception that no frame is open.
  unfoldable pub commit : OrderedMap K V → Option (OrderedMap K V)
  unfolding kept
  commit m = elim m.frames [
    | [] ↦ none
    | _ ∷ fs ↦ some (record m { frames = fs; undo = kept fs m.undo })
  ]

  unfoldable pub record_undo : Undo K V → List ℕ → List (Undo K V) → List (Undo K V)
  record_undo u [] undo = undo
  record_undo u (f ∷ fs) undo = u ∷ undo

module _ {K V : Type 0} (dec : Discrete K) where
  unfoldable pub undo_one : Undo K V → List (K × V) → List (K × V)
  unfolding update remove insert_before
  undo_one (restore k old) es = update dec k old es
  undo_one (unlink k) es = remove dec k es
  undo_one (link k v next) es = insert_before dec next (k, v) es

  unfoldable pub undo_all : List (Undo K V) → List (K × V) → List (K × V)
  unfolding undo_one
  undo_all us es = foldl (λ acc u. undo_one u acc) es us

  unfoldable pub rollback : OrderedMap K V → Option (OrderedMap K V)
  unfolding undo_all
  rollback m = elim m.frames [
    | [] ↦ none
    | start ∷ fs ↦
        let n = length m.undo - start in
        some (record {
          entries = undo_all (take n m.undo) m.entries;
          undo = drop n m.undo;
          frames = fs;
        })
  ]

  unfoldable pub get : OrderedMap K V → K → Option V
  get m k = lookup dec k m.entries

  unfoldable pub has : OrderedMap K V → K → Bool
  unfolding get
  has m k = is_some (get m k)

  unfoldable pub set : OrderedMap K V → K → V → OrderedMap K V
  unfolding update record_undo
  set m k v = elim (lookup dec k m.entries) [
    | some old ↦ record m {
      entries = update dec k v m.entries;
      undo = record_undo (restore k old) m.frames m.undo;
    }
    | none ↦ record m {
      entries = m.entries ++ (k, v) ∷ [];
      undo = record_undo (unlink k) m.frames m.undo;
    }
  ]

  unfoldable pub delete : OrderedMap K V → K → OrderedMap K V × Bool
  unfolding remove next_key record_undo
  delete m k = elim (lookup dec k m.entries) [
    | some v ↦ (
      record m {
        entries = remove dec k m.entries;
        undo = record_undo (link k v (next_key dec k m.entries)) m.frames m.undo;
      },
      true,
    )
    | none ↦ (m, false)
  ]

  -- `clear`: the keys are deleted one by one, in order.
  unfoldable pub delete_all : List K → OrderedMap K V → OrderedMap K V
  unfolding delete
  delete_all [] m = m
  delete_all (k ∷ ks) m = delete_all ks (delete m k).0

  unfoldable pub clear : OrderedMap K V → OrderedMap K V
  unfolding delete_all
  clear m = delete_all (keys m) m
