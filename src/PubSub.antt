-- ===== src/PubSub.antt =====
-- src/pubsub.ts: the hub of channels and listeners.
pub mod Subscriptions
pub mod Effects
pub mod Hubs
use mathlib.Core.List.{lookup, map as map_list, foldl}
use mathlib.Core.Logic.{ite}
use native.Mathlib.Decide.{ℕ_discrete}
use yasd.Prelude.{ℕ, ◌+◌, Bool, true, false, Option, none, some, List, [], ◌∷◌, ◌++◌, length}
use yasd.Text.{Text, text_discrete}
use yasd.Result.{Result, ok, err, empty_channel}
use yasd.OrderedMap.Chain.{update, remove}

-- A listener is named by a number, its identity. `channels` is a JavaScript map of sets.
abbrev pub Channels : Type 0
Channels = List (Text × List ℕ)

-- `set.add(listener)`
unfoldable pub add_listener : ℕ → List ℕ → List ℕ
add_listener l [] = l ∷ []
add_listener l (x ∷ xs) = ite (ℕ_discrete l x) (x ∷ xs) (x ∷ add_listener l xs)

-- `set.delete(listener)`, and whether it was there.
unfoldable pub drop_listener : ℕ → List ℕ → List ℕ × Bool
drop_listener l [] = ([], false)
drop_listener l (x ∷ xs) =
    let (ys, found) = drop_listener l xs in ite (ℕ_discrete l x) (xs, true) (x ∷ ys, found)

unfoldable pub add_to : Text → ℕ → Option (List ℕ) → Channels → Channels
unfolding add_listener update
add_to channel l none cs = cs ++ (channel, add_listener l []) ∷ []
add_to channel l (some ls) cs = update text_discrete channel (add_listener l ls) cs

-- `subscribe`. What it returns is `unsubscribe` of the same channel and listener.
unfoldable pub subscribe : Text → ℕ → Channels → Result Channels
unfolding add_to
subscribe [] l cs = err empty_channel
subscribe (c ∷ name) l cs =
    let channel = c ∷ name in ok (add_to channel l (lookup text_discrete channel cs) cs)

-- The listeners that are left, or no channel if there are none.
unfoldable pub put_back : Text → List ℕ → Channels → Channels
unfolding update remove
put_back channel [] cs = remove text_discrete channel cs
put_back channel (l ∷ ls) cs = update text_discrete channel (l ∷ ls) cs

unfoldable pub drop_from : Text → ℕ → Option (List ℕ) → Channels → Bool × Channels
unfolding drop_listener put_back
drop_from channel l none cs = (false, cs)
drop_from channel l (some ls) cs =
    let (left, removed) = drop_listener l ls in (removed, put_back channel left cs)

unfoldable pub unsubscribe : Text → ℕ → Channels → Bool × Channels
unfolding drop_from
unsubscribe channel l cs = drop_from channel l (lookup text_discrete channel cs) cs

unfoldable pub count_all : Channels → ℕ
count_all [] = 0
count_all ((c, ls) ∷ cs) = length ls + count_all cs

unfoldable pub unsubscribe_channel : Text → Option (List ℕ) → Channels → ℕ × Channels
unfolding remove
unsubscribe_channel channel none cs = (0, cs)
unsubscribe_channel channel (some ls) cs = (length ls, remove text_discrete channel cs)

unfoldable pub unsubscribe_all : Option Text → Channels → ℕ × Channels
unfolding unsubscribe_channel count_all
unsubscribe_all (some channel) cs = unsubscribe_channel channel (lookup text_discrete channel cs) cs
unsubscribe_all none cs = (count_all cs, [])

unfoldable pub count_of : Option (List ℕ) → ℕ
count_of none = 0
count_of (some ls) = length ls

unfoldable pub subscriber_count : Option Text → Channels → ℕ
unfolding count_of count_all
subscriber_count (some channel) cs = count_of (lookup text_discrete channel cs)
subscriber_count none cs = count_all cs

unfoldable pub channel_names : Channels → List Text
channel_names cs = map_list (λ e. e.0) cs

-- `publish`. A listener may itself use the hub, and what it throws is caught: `call` is what one
-- call of a listener does to the channels.
module _ (call : ℕ → Text → Text → Channels → Channels) where
  unfoldable pub deliver : List ℕ → Text → Text → Channels → Channels
  deliver [] channel message cs = cs
  deliver (l ∷ ls) channel message cs = deliver ls channel message (call l channel message cs)

  unfoldable pub publish_to : Option (List ℕ) → Text → Text → Channels → ℕ × Channels
  unfolding deliver
  publish_to none channel message cs = (0, cs)
  publish_to (some ls) channel message cs = (length ls, deliver ls channel message cs)

  unfoldable pub publish : Text → Text → Channels → ℕ × Channels
  unfolding publish_to
  publish channel message cs = publish_to (lookup text_discrete channel cs) channel message cs
