-- ===== src/Tests/Hubs.antt =====
-- Runs of src/pubsub.ts.
use native.Mathlib.Decide.{ℕ_discrete}
use mathlib.Core.List.{lookup}
use yasd.Prelude.{◌≡◌, refl, [], ◌∷◌, ◌||◌, ◌&&◌, not}
use yasd.Text.{Text, text_discrete}
use yasd.Result.{ok}
use yasd.OrderedMap.Chain.{update}
use yasd.PubSub.{Channels, subscribe, unsubscribe, add_to, add_listener}
use yasd.PubSub.Subscriptions.{listens, subscribed, IsHub}
use yasd.PubSub.Effects.{same_pair, subscribe-subscribed, unsubscribe-subscribed}
use yasd.PubSub.Hubs.{unsubscribe-IsHub}

abbrev news : Text
news = b'n' ∷ []

-- Listeners 1 and 2 on one channel.
abbrev two : Channels
two = (news, 1 ∷ 2 ∷ []) ∷ []

abbrev three : Channels
three = (news, 1 ∷ 2 ∷ 3 ∷ []) ∷ []

two-IsHub : IsHub two
unfolding listens lookup ℕ_discrete
two-IsHub = ((refl, tt), ((refl, (refl, tt)), (λ h. cc), tt))

joined : subscribe news 3 two ≡ ok three
unfolding subscribe add_to add_listener update lookup text_discrete ℕ_discrete
joined = refl

subscribe-subscribed_example :
    subscribed news 1 three ≡ (same_pair news 1 news 3 || subscribed news 1 two)
subscribe-subscribed_example = subscribe-subscribed news 3 two three news 1 joined

unsubscribe-subscribed_example :
    ((unsubscribe news 1 two).0 ≡ subscribed news 1 two)
    × (subscribed news 2 (unsubscribe news 1 two).1
        ≡ (not (same_pair news 2 news 1) && subscribed news 2 two))
unsubscribe-subscribed_example = unsubscribe-subscribed news 1 two news 2 two-IsHub

unsubscribe-IsHub_example : IsHub (unsubscribe news 1 two).1
unsubscribe-IsHub_example = unsubscribe-IsHub news 1 two two-IsHub
