-- ===== src/PubSub/Effects.antt =====
-- src/pubsub.ts: what `subscribe` and `unsubscribe` do to the subscriptions.
use mathlib.Core.List.{lookup}
use native.Mathlib.Decide.{ℕ_discrete}
use yasd.Prelude.{
  ℕ, ◌≡◌, refl, sym, ap, ◌∙◌, ◌≢◌, subst, Bool, true, false, Option, none, some, List, [], ◌∷◌,
  ◌||◌, ◌&&◌, not, ◌⊎◌, arith, inl, inr,
}
use yasd.Text.{Text, text_discrete}
use yasd.Result.{ok}
use yasd.PubSub.{Channels, add_listener, drop_listener, add_to, subscribe, drop_from, unsubscribe}
use yasd.PubSub.Subscriptions.{
  listens, listens_in, subscribed, listens-add_self, listens-add_ne, lookup-append_self,
  lookup-append_ne, lookup-update_self, lookup-update_ne, IsHub, listens-drop_self, listens-drop_ne,
  drop_listener-found, AllOnce-lookup, put_back_self, put_back_ne,
}

-- The subscriptions of `ds` are those of `cs`, but for the listener on the channel.
record Elsewhere (c : Text) (l : ℕ) (cs ds : Channels) : Type 0 where
  pub channels : (d : Text) (q : ℕ) → d ≢ c → subscribed d q ds ≡ subscribed d q cs
  pub listeners : (q : ℕ) → q ≢ l → subscribed c q ds ≡ subscribed c q cs

add_to-subscribed :
    (c : Text) (l : ℕ) (found : Option (List ℕ)) (cs : Channels)
    → lookup text_discrete c cs ≡ found
    → (subscribed c l (add_to c l found cs) ≡ true) × Elsewhere c l cs (add_to c l found cs)
unfolding add_to listens_in listens
add_to-subscribed c l none cs h = (
  ap (listens_in l) (lookup-append_self c (add_listener l []) cs h) ∙ listens-add_self l [],
  record {
    channels = λ d q ne. ap (listens_in q) (lookup-append_ne c d (add_listener l []) cs ne);
    listeners = λ q ne.
        (ap (listens_in q) (lookup-append_self c (add_listener l []) cs h)
          ∙ listens-add_ne l q [] ne)
        ∙ sym (ap (listens_in q) h);
  },
)
add_to-subscribed c l (some ls) cs h = (
  ap (listens_in l) (lookup-update_self c (add_listener l ls) ls cs h) ∙ listens-add_self l ls,
  record {
    channels = λ d q ne. ap (listens_in q) (lookup-update_ne c d (add_listener l ls) cs ne);
    listeners = λ q ne.
        (ap (listens_in q) (lookup-update_self c (add_listener l ls) ls cs h)
          ∙ listens-add_ne l q ls ne)
        ∙ sym (ap (listens_in q) h);
  },
)

-- Is it this listener on this channel?
unfoldable pub same_pair : Text → ℕ → Text → ℕ → Bool
same_pair d q c l = elim (text_discrete d c) [
  | yes _ ↦ elim (ℕ_discrete q l) [ yes _ ↦ true | no _ ↦ false ]
  | no _ ↦ false
]

same_pair_cases :
    (d : Text) (q : ℕ) (c : Text) (l : ℕ)
    → ((same_pair d q c l ≡ true) × (d ≡ c) × (q ≡ l))
      ⊎ ((same_pair d q c l ≡ false) × ((d ≢ c) ⊎ ((d ≡ c) × (q ≢ l))))
unfolding same_pair
same_pair_cases d q c l =
    elim (text_discrete d c)
      as (λ x.
        (((elim x [ yes _ ↦ elim (ℕ_discrete q l) [ yes _ ↦ true | no _ ↦ false ] | no _ ↦ false ])
            ≡ true)
          × (d ≡ c)
          × (q ≡ l))
        ⊎ (((elim x [
          | yes _ ↦ elim (ℕ_discrete q l) [ yes _ ↦ true | no _ ↦ false ]
          | no _ ↦ false
        ])
              ≡ false)
            × ((d ≢ c) ⊎ ((d ≡ c) × (q ≢ l))))) [ yes p ↦ ground arith | no p ↦ inr (refl, inl p) ]

added :
    (d : Text) (q : ℕ) (c : Text) (l : ℕ) (cs ds : Channels)
    → (subscribed c l ds ≡ true) × Elsewhere c l cs ds
    → subscribed d q ds ≡ (same_pair d q c l || subscribed d q cs)
added d q c l cs ds h = elim (same_pair_cases d q c l) [
  | inl (same, p, r) ↦ rw same (
      subst (λ x. subscribed x q ds ≡ true) (sym p)
        (subst (λ x. subscribed c x ds ≡ true) (sym r) h.0))
  | inr (other, inl ne) ↦ rw other (h.1.channels d q ne)
  | inr (other, inr (p, ne)) ↦
      rw other (subst (λ x. subscribed x q ds ≡ subscribed x q cs) (sym p) (h.1.listeners q ne))
]

dropped :
    (d : Text) (q : ℕ) (c : Text) (l : ℕ) (cs ds : Channels)
    → (subscribed c l ds ≡ false) × Elsewhere c l cs ds
    → subscribed d q ds ≡ (not (same_pair d q c l) && subscribed d q cs)
dropped d q c l cs ds h = elim (same_pair_cases d q c l) [
  | inl (same, p, r) ↦ rw same (
      subst (λ x. subscribed x q ds ≡ false) (sym p)
        (subst (λ x. subscribed c x ds ≡ false) (sym r) h.0))
  | inr (other, inl ne) ↦ rw other (h.1.channels d q ne)
  | inr (other, inr (p, ne)) ↦
      rw other (subst (λ x. subscribed x q ds ≡ subscribed x q cs) (sym p) (h.1.listeners q ne))
]

-- After `subscribe` a listener is subscribed to a channel if it is the one that was just subscribed
-- to it, or if it was subscribed before, and not otherwise.
pub subscribe-subscribed :
    (c : Text) (l : ℕ) (cs ds : Channels) (d : Text) (q : ℕ)
    → subscribe c l cs ≡ ok ds
    → subscribed d q ds ≡ (same_pair d q c l || subscribed d q cs)
unfolding subscribe
subscribe-subscribed [] l cs ds d q h = cc
subscribe-subscribed (x ∷ name) l cs ds d q h =
    let c = x ∷ name in
    let same : add_to c l (lookup text_discrete c cs) cs ≡ ds = cc in
    subst (λ es. subscribed d q es ≡ (same_pair d q c l || subscribed d q cs)) same
      (added d q c l cs _ (add_to-subscribed c l (lookup text_discrete c cs) cs refl))

drop_from-subscribed :
    (c : Text) (l : ℕ) (found : Option (List ℕ)) (cs : Channels)
    → lookup text_discrete c cs ≡ found
    → IsHub cs
    → ((drop_from c l found cs).0 ≡ subscribed c l cs)
      × (subscribed c l (drop_from c l found cs).1 ≡ false)
      × Elsewhere c l cs (drop_from c l found cs).1
unfolding drop_from listens_in
drop_from-subscribed c l none cs h a = (
  sym (ap (listens_in l) h),
  ap (listens_in l) h,
  record { channels = λ d q ne. refl; listeners = λ q ne. refl },
)
drop_from-subscribed c l (some ls) cs h a =
    let left = (drop_listener l ls).0 in
    (
      drop_listener-found l ls ∙ sym (ap (listens_in l) h),
      put_back_self c left ls l cs a.0 h ∙ listens-drop_self l ls (AllOnce-lookup c ls cs a.1 h),
      record {
        channels = λ d q ne. put_back_ne c d left q cs ne;
        listeners = λ q ne.
            (put_back_self c left ls q cs a.0 h ∙ listens-drop_ne l q ls ne)
            ∙ sym (ap (listens_in q) h);
      },
    )

-- `unsubscribe` answers whether the listener was subscribed to the channel; afterwards a listener is
-- subscribed to a channel if it was before and is not the one that was taken off it, if no
-- channel stood twice and no listener twice in a channel.
pub unsubscribe-subscribed :
    (c : Text) (l : ℕ) (cs : Channels) (d : Text) (q : ℕ)
    → IsHub cs
    → ((unsubscribe c l cs).0 ≡ subscribed c l cs)
      × (subscribed d q (unsubscribe c l cs).1 ≡ (not (same_pair d q c l) && subscribed d q cs))
unfolding unsubscribe
unsubscribe-subscribed c l cs d q a =
    let r = drop_from-subscribed c l (lookup text_discrete c cs) cs refl a in
    (r.0, dropped d q c l cs _ (r.1, r.2))
