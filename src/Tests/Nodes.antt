-- ===== src/Tests/Nodes.antt =====
-- Runs of `link`, `unlink` and `entries` of src/ordered-map.ts on nodes.
use yasd.Prelude.{ℕ, ◌≢◌, ◌≡◌, refl, none, some, [], ◌∷◌, ◌==◌, if◌then◌else◌, arith}
use yasd.Text.{Text, text_discrete}
use yasd.OrderedMap.{OrderedMap, set, delete}
use yasd.OrderedMap.Nodes
use yasd.OrderedMap.Nodes.Represented.{Represents}
use yasd.OrderedMap.Nodes.Operations.{set-Represents, delete-Represents}
use yasd.OrderedMap.Chain.{remove, insert_before, first_key}
use yasd.OrderedMap.Nodes.{
  Link, Nodes, point_forward, point_back, entries, entries_at, unlink, link,
}
use yasd.OrderedMap.Nodes.Chained.{AreDistinct, Segment, IsChain}
use yasd.OrderedMap.Nodes.Indexed.{IsIndexed, IsMap}
use yasd.OrderedMap.Nodes.Journal.{
  entries-entries_at, unlink-remove, link-insert_before, link-unlink,
}

abbrev a_key : Text
a_key = b'a' ∷ []

abbrev b_key : Text
b_key = b'b' ∷ []

abbrev c_key : Text
c_key = b'c' ∷ []

abbrev apart_nodes : ℕ → Link Text ℕ
apart_nodes i =
    if i == 0
    then record { key = a_key; value = 1; prev = none; next = none }
    else if i == 1
    then record { key = b_key; value = 2; prev = none; next = none }
    else record { key = c_key; value = 3; prev = none; next = none }

abbrev empty_map : Nodes Text ℕ
empty_map = record { node = apart_nodes; first = none; last = none; index = λ k. none }

abbrev map_of_a : Nodes Text ℕ
map_of_a = link text_discrete 0 none none empty_map

abbrev map_of_ab : Nodes Text ℕ
map_of_ab = link text_discrete 1 (some 0) none map_of_a

abbrev map_of_acb : Nodes Text ℕ
map_of_acb = link text_discrete 2 (some 0) (some 1) map_of_ab

empty_map-IsMap : IsMap empty_map []
unfolding IsMap IsChain IsIndexed Segment AreDistinct
empty_map-IsMap =
    (((refl, refl), tt), (λ j h. absurd (ground arith), λ k j h. absurd (ground arith)))

map_of_a-IsMap : IsMap map_of_a (0 ∷ [])
map_of_a-IsMap = (link-insert_before text_discrete empty_map [] [] 0 empty_map-IsMap refl refl).0

index_b : map_of_a.index (map_of_a.node 1).key ≡ none
unfolding link point_forward point_back text_discrete
index_b = refl

map_of_ab-IsMap : IsMap map_of_ab (0 ∷ 1 ∷ [])
map_of_ab-IsMap =
    (link-insert_before text_discrete map_of_a (0 ∷ []) [] 1 map_of_a-IsMap refl index_b).0

index_c : map_of_ab.index (map_of_ab.node 2).key ≡ none
unfolding link point_forward point_back text_discrete
index_c = refl

link-insert_before_example :
    IsMap map_of_acb (0 ∷ 2 ∷ 1 ∷ [])
    × (entries_at map_of_acb (0 ∷ 2 ∷ 1 ∷ [])
        ≡ insert_before text_discrete
            (first_key text_discrete (entries_at map_of_ab (1 ∷ [])))
            ((map_of_ab.node 2).key, (map_of_ab.node 2).value)
            (entries_at map_of_ab (0 ∷ 1 ∷ [])))
link-insert_before_example =
    link-insert_before text_discrete map_of_ab (0 ∷ []) (1 ∷ []) 2 map_of_ab-IsMap refl index_c

map_of_acb-IsMap : IsMap map_of_acb (0 ∷ 2 ∷ 1 ∷ [])
map_of_acb-IsMap =
    (link-insert_before text_discrete map_of_ab (0 ∷ []) (1 ∷ []) 2 map_of_ab-IsMap refl index_c).0

map_of_acb-IsChain : IsChain map_of_acb (0 ∷ 2 ∷ 1 ∷ [])
unfolding IsMap
map_of_acb-IsChain = map_of_acb-IsMap.0

entries-entries_at_example :
    entries 3 map_of_acb.first map_of_acb ≡ some (entries_at map_of_acb (0 ∷ 2 ∷ 1 ∷ []))
entries-entries_at_example =
    entries-entries_at map_of_acb (0 ∷ 2 ∷ 1 ∷ []) 3 refl map_of_acb-IsChain

unlink-remove_example :
    IsMap (unlink text_discrete 2 map_of_acb) (0 ∷ 1 ∷ [])
    × (entries_at (unlink text_discrete 2 map_of_acb) (0 ∷ 1 ∷ [])
        ≡ remove text_discrete (map_of_acb.node 2).key (entries_at map_of_acb (0 ∷ 2 ∷ 1 ∷ [])))
unlink-remove_example = unlink-remove text_discrete map_of_acb (0 ∷ []) (1 ∷ []) 2 map_of_acb-IsMap

abbrev back_again : Nodes Text ℕ
back_again =
    link text_discrete 2 (map_of_acb.node 2).prev (map_of_acb.node 2).next
      (unlink text_discrete 2 map_of_acb)

link-unlink_example :
    IsMap back_again (0 ∷ 2 ∷ 1 ∷ [])
    × (entries_at back_again (0 ∷ 2 ∷ 1 ∷ []) ≡ entries_at map_of_acb (0 ∷ 2 ∷ 1 ∷ []))
link-unlink_example = link-unlink text_discrete map_of_acb (0 ∷ []) (1 ∷ []) 2 map_of_acb-IsMap

-- The chain in the middle of which a node was linked, as `entries` yields it.
acb_in_order :
    entries 3 map_of_acb.first map_of_acb ≡ some ((a_key, 1) ∷ (c_key, 3) ∷ (b_key, 2) ∷ [])
unfolding entries link point_forward point_back text_discrete
acb_in_order = refl

abbrev listed_ab : OrderedMap Text ℕ
listed_ab = record { entries = entries_at map_of_ab (0 ∷ 1 ∷ []); undo = []; frames = [] }

map_of_ab-Represents : Represents map_of_ab listed_ab
unfolding Represents
map_of_ab-Represents = (0 ∷ 1 ∷ [], map_of_ab-IsMap, refl)

unused_2 : (q : Text) → map_of_ab.index q ≢ some 2
unfolding link point_forward point_back
unused_2 q = ground arith

set-Represents_example :
    Represents (Nodes.set text_discrete c_key 9 2 map_of_ab) (set text_discrete listed_ab c_key 9)
set-Represents_example =
    set-Represents text_discrete map_of_ab listed_ab c_key 9 2 unused_2 map_of_ab-Represents

delete-Represents_example :
    Represents
      (Nodes.delete text_discrete a_key map_of_ab).0
      (delete text_discrete listed_ab a_key).0
    × ((Nodes.delete text_discrete a_key map_of_ab).1 ≡ (delete text_discrete listed_ab a_key).1)
delete-Represents_example =
    delete-Represents text_discrete map_of_ab listed_ab a_key map_of_ab-Represents
