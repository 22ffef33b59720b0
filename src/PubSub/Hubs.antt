-- ===== src/PubSub/Hubs.antt =====
-- src/pubsub.ts: the well-formed hubs, under `unsubscribe`.
use mathlib.Core.List.{lookup}
use mathlib.Core.Logic.{if_pos, if_neg}
use native.Mathlib.Decide.{ℕ_discrete}
use yasd.Prelude.{
  ℕ, ◌≡◌, refl, sym, ◌≢◌, subst, true, false, Option, none, some, List, [], ◌∷◌, arith,
}
use yasd.Text.{Text, text_discrete}
use yasd.OrderedMap.Chain.{update, remove, update-IsDistinct, remove-IsDistinct}
use yasd.PubSub.{Channels, drop_listener, put_back, drop_from, unsubscribe}
use yasd.PubSub.Subscriptions.{listens, IsOnce, AllOnce, IsHub, AllOnce-lookup}

listens-drop_absent :
    (l x : ℕ) (xs : List ℕ) → listens x xs ≡ false → listens x (drop_listener l xs).0 ≡ false
unfolding listens drop_listener
listens-drop_absent l x [] h = refl
listens-drop_absent l x (y ∷ ys) h = ground (arith, listens-drop_absent l x ys)

drop_listener-IsOnce : (l : ℕ) (ls : List ℕ) → IsOnce ls → IsOnce (drop_listener l ls).0
unfolding drop_listener
drop_listener-IsOnce l [] h = tt
drop_listener-IsOnce l (x ∷ xs) h =
    let left = drop_listener l xs in
    elim (ℕ_discrete l x) [
      | yes p ↦
          let e : drop_listener l (x ∷ xs) ≡ (xs, true) =
            if_pos _ p (xs, true) (x ∷ left.0, left.1) in
          subst (λ r. IsOnce r.0) (sym e) h.1
      | no p ↦
          let e : drop_listener l (x ∷ xs) ≡ (x ∷ left.0, left.1) =
            if_neg _ p (xs, true) (x ∷ left.0, left.1) in
          subst (λ r. IsOnce r.0) (sym e)
            (listens-drop_absent l x xs h.0, drop_listener-IsOnce l xs h.1)
    ]

update-AllOnce :
    (c : Text) (ls : List ℕ) (cs : Channels)
    → AllOnce cs
    → IsOnce ls
    → ls ≢ []
    → AllOnce (update text_discrete c ls cs)
unfolding update
update-AllOnce c ls [] a h ne = tt
update-AllOnce c ls ((d, ms) ∷ cs) a h ne = elim (text_discrete c d) [
  | yes p ↦ rw (if_pos _ p) (h, ne, a.2)
  | no p ↦ rw (if_neg _ p) (a.0, a.1, update-AllOnce c ls cs a.2 h ne)
]

remove-AllOnce : (c : Text) (cs : Channels) → AllOnce cs → AllOnce (remove text_discrete c cs)
unfolding remove
remove-AllOnce c [] a = tt
remove-AllOnce c ((d, ms) ∷ cs) a = elim (text_discrete c d) [
  | yes p ↦ rw (if_pos _ p) a.2
  | no p ↦ rw (if_neg _ p) (a.0, a.1, remove-AllOnce c cs a.2)
]

put_back-IsHub :
    (c : Text) (left : List ℕ) (cs : Channels) → IsHub cs → IsOnce left → IsHub (put_back c left cs)
unfolding put_back
put_back-IsHub c [] cs a h = (remove-IsDistinct text_discrete c cs a.0, remove-AllOnce c cs a.1)
put_back-IsHub c (x ∷ xs) cs a h = (
  update-IsDistinct text_discrete c (x ∷ xs) cs a.0,
  update-AllOnce c (x ∷ xs) cs a.1 h (λ e. cc),
)

drop_from-IsHub :
    (c : Text) (l : ℕ) (found : Option (List ℕ)) (cs : Channels)
    → lookup text_discrete c cs ≡ found
    → IsHub cs
    → IsHub (drop_from c l found cs).1
unfolding drop_from
drop_from-IsHub c l none cs h a = a
drop_from-IsHub c l (some ls) cs h a =
    put_back-IsHub c (drop_listener l ls).0 cs a
      (drop_listener-IsOnce l ls (AllOnce-lookup c ls cs a.1 h))

-- `unsubscribe` keeps every channel once in the hub, with at least one listener, and each listener
-- once in a channel: with its last listener a channel leaves.
pub unsubscribe-IsHub : (c : Text) (l : ℕ) (cs : Channels) → IsHub cs → IsHub (unsubscribe c l cs).1
unfolding unsubscribe
unsubscribe-IsHub c l cs a = drop_from-IsHub c l (lookup text_discrete c cs) cs refl a
