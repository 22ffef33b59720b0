-- ===== src/PubSub/Subscriptions.antt =====
-- src/pubsub.ts: who is subscribed to what after a call.
use mathlib.Core.List.{lookup}
use native.Mathlib.Decide.{ℕ_discrete}
use yasd.Prelude.{
  ℕ, ◌≡◌, refl, ap, ◌≢◌, subst, Bool, true, false, Option, none, some, List, [], ◌∷◌, ◌++◌, arith,
}
use yasd.Text.{Text, text_discrete}
use yasd.OrderedMap.Chain.{update, IsDistinct, lookup-remove_self, lookup-remove_ne}
use yasd.PubSub.{Channels, add_listener, drop_listener, put_back}

-- Is the listener in the list?
unfoldable pub listens : ℕ → List ℕ → Bool
listens l [] = false
listens l (x ∷ xs) = elim (ℕ_discrete l x) [ yes _ ↦ true | no _ ↦ listens l xs ]

unfoldable pub listens_in : ℕ → Option (List ℕ) → Bool
listens_in l none = false
listens_in l (some ls) = listens l ls

-- Is the listener subscribed to the channel?
abbrev pub subscribed : Text → ℕ → Channels → Bool
subscribed channel l cs = listens_in l (lookup text_discrete channel cs)

pub listens-add_self : (l : ℕ) (ls : List ℕ) → listens l (add_listener l ls) ≡ true
unfolding listens add_listener
listens-add_self l [] = ground arith
listens-add_self l (x ∷ xs) = ground (arith, listens-add_self l xs)

pub listens-add_ne : (l q : ℕ) (ls : List ℕ) → q ≢ l → listens q (add_listener l ls) ≡ listens q ls
unfolding listens add_listener
listens-add_ne l q [] h = ground arith
listens-add_ne l q (x ∷ xs) h = ground (arith, listens-add_ne l q xs)

pub lookup-append_self :
    (c : Text) (ls : List ℕ) (cs : Channels)
    → lookup text_discrete c cs ≡ none
    → lookup text_discrete c (cs ++ (c, ls) ∷ []) ≡ some ls
unfolding lookup
lookup-append_self c ls [] h = ground arith
lookup-append_self c ls (e ∷ cs) h = ground (arith, lookup-append_self c ls cs)

pub lookup-append_ne :
    (c d : Text) (ls : List ℕ) (cs : Channels)
    → d ≢ c
    → lookup text_discrete d (cs ++ (c, ls) ∷ []) ≡ lookup text_discrete d cs
unfolding lookup
lookup-append_ne c d ls [] h = ground arith
lookup-append_ne c d ls (e ∷ cs) h = ground (arith, lookup-append_ne c d ls cs)

pub lookup-update_self :
    (c : Text) (ls old : List ℕ) (cs : Channels)
    → lookup text_discrete c cs ≡ some old
    → lookup text_discrete c (update text_discrete c ls cs) ≡ some ls
unfolding lookup update
lookup-update_self c ls old [] h = ground arith
lookup-update_self c ls old (e ∷ cs) h = ground (arith, lookup-update_self c ls old cs)

pub lookup-update_ne :
    (c d : Text) (ls : List ℕ) (cs : Channels)
    → d ≢ c
    → lookup text_discrete d (update text_discrete c ls cs) ≡ lookup text_discrete d cs
unfolding lookup update
lookup-update_ne c d ls [] h = ground arith
lookup-update_ne c d ls (e ∷ cs) h = ground (arith, lookup-update_ne c d ls cs)

-- No listener stands twice.
abbrev pub IsOnce : List ℕ → Type 0
IsOnce [] = Unit
IsOnce (x ∷ xs) = (listens x xs ≡ false) × IsOnce xs

-- Every channel has listeners, each of them once.
abbrev pub AllOnce : Channels → Type 0
AllOnce [] = Unit
AllOnce ((c, ls) ∷ cs) = IsOnce ls × (ls ≢ []) × AllOnce cs

-- What the hub keeps: no channel stands twice, and every channel has listeners, each once.
abbrev pub IsHub : Channels → Type 0
IsHub cs = IsDistinct text_discrete cs × AllOnce cs

pub listens-drop_self : (l : ℕ) (ls : List ℕ) → IsOnce ls → listens l (drop_listener l ls).0 ≡ false
unfolding listens drop_listener
listens-drop_self l [] h = refl
listens-drop_self l (x ∷ xs) h = ground (arith, listens-drop_self l xs h.1)

pub listens-drop_ne :
    (l q : ℕ) (ls : List ℕ) → q ≢ l → listens q (drop_listener l ls).0 ≡ listens q ls
unfolding listens drop_listener
listens-drop_ne l q [] h = refl
listens-drop_ne l q (x ∷ xs) h = ground (arith, listens-drop_ne l q xs)

pub drop_listener-found : (l : ℕ) (ls : List ℕ) → (drop_listener l ls).1 ≡ listens l ls
unfolding listens drop_listener
drop_listener-found l [] = refl
drop_listener-found l (x ∷ xs) = ground (arith, drop_listener-found l xs)

pub AllOnce-lookup :
    (c : Text) (ls : List ℕ) (cs : Channels)
    → AllOnce cs
    → lookup text_discrete c cs ≡ some ls
    → IsOnce ls
unfolding lookup
AllOnce-lookup c ls [] a h = ground arith
AllOnce-lookup c ls ((d, ms) ∷ cs) a h = elim (text_discrete c d) [
  | yes p ↦ let same : ms ≡ ls = ground arith in subst (λ xs. IsOnce xs) same a.0
  | no p ↦ AllOnce-lookup c ls cs a.2 (ground arith)
]

pub put_back_self :
    (c : Text) (left old : List ℕ) (l : ℕ) (cs : Channels)
    → IsDistinct text_discrete cs
    → lookup text_discrete c cs ≡ some old
    → subscribed c l (put_back c left cs) ≡ listens l left
unfolding put_back listens listens_in
put_back_self c [] old l cs d h = ap (listens_in l) (lookup-remove_self text_discrete c cs d)
put_back_self c (x ∷ xs) old l cs d h = ap (listens_in l) (lookup-update_self c (x ∷ xs) old cs h)

pub put_back_ne :
    (c d : Text) (left : List ℕ) (l : ℕ) (cs : Channels)
    → d ≢ c
    → subscribed d l (put_back c left cs) ≡ subscribed d l cs
unfolding put_back
put_back_ne c d [] l cs h = ap (listens_in l) (lookup-remove_ne text_discrete c d cs h)
put_back_ne c d (x ∷ xs) l cs h = ap (listens_in l) (lookup-update_ne c d (x ∷ xs) cs h)
