-- ===== src/EventBus.antt =====
-- internal/service/eventbus.go: who hears of the events of a media. The methods hold a mutex, so that
-- each is one step.
pub mod Subscribers
pub mod Wiring
pub mod Leaving
pub mod Delivery
mod Tests
use sharm.Common.{
  ℕ, zero, suc, ◌+◌, ◌≡◌, Bool, true, false, Option, none, some, List, [], ◌∷◌, ◌++◌, Text, ◌==◌,
  nat_eq, text_eq, if◌then◌else◌, Map, update, delete, any, length, ltb,
}
use sharm.World.{Event}

-- A channel with a buffer: what was sent and not yet received.
pub record Channel : Type 0 where
  pub buffer : List Event
  pub closed : Bool

-- The bus, and the channels that have been made, by number.
pub record EventBus : Type 0 where
  pub subscribers : Map Text (List ℕ)
  pub channels : Map ℕ Channel
  pub next_channel : ℕ

unfoldable pub new_event_bus : EventBus
new_event_bus = record { subscribers = λ media_id. none; channels = λ ch. none; next_channel = 0 }

abbrev pub buffer_size : ℕ
buffer_size = 16

-- A missing key reads as nil.
abbrev pub or_nil : Option (List ℕ) → List ℕ
or_nil none = []
or_nil (some subs) = subs

-- Subscribe: the bus afterwards, and the new channel.
unfoldable pub subscribe : EventBus → Text → EventBus × ℕ
subscribe eb media_id =
    let ch = eb.next_channel in
    (
      record {
        subscribers =
            update eb.subscribers media_id (or_nil (eb.subscribers media_id) ++ (ch ∷ []));
        channels = update eb.channels ch (record { buffer = []; closed = false });
        next_channel = ch + 1;
      },
      ch,
    )

abbrev pub mem : ℕ → List ℕ → Bool
mem ch subs = any (λ s. s == ch) subs

-- append(subs[:i], subs[i+1:]...), for the first i with subs[i] == ch.
unfoldable pub remove_first : ℕ → List ℕ → List ℕ
remove_first ch [] = []
remove_first ch (s ∷ subs) = let rest = remove_first ch subs in if s == ch then subs else s ∷ rest

-- close(ch): none is the panic on a channel that is nil or closed.
unfoldable pub close_channel : EventBus → ℕ → Option Channel → Option EventBus
close_channel eb ch none = none
close_channel eb ch (some c) =
    if c.closed
    then none
    else some (record eb { channels = update eb.channels ch (record c { closed = true }) })

-- if len(eb.subscribers[mediaID]) == 0
unfoldable pub drop_if_empty : Text → List ℕ → EventBus → EventBus
drop_if_empty media_id [] eb = record eb { subscribers = delete eb.subscribers media_id }
drop_if_empty media_id (s ∷ subs) eb = eb

-- Unsubscribe: none is a panic.
unfoldable pub unsubscribe : EventBus → Text → ℕ → Option EventBus
unfolding remove_first close_channel drop_if_empty
unsubscribe eb media_id ch =
    let subs = or_nil (eb.subscribers media_id) in
    if mem ch subs
    then (let rest = remove_first ch subs in
        let eb' = record eb { subscribers = update eb.subscribers media_id rest } in
        elim (close_channel eb' ch (eb.channels ch)) [
          | none ↦ none
          | some eb'' ↦ some (drop_if_empty media_id rest eb'')
        ])
    else some (drop_if_empty media_id subs eb)

-- select { case ch <- event: default: }: none is the panic on a channel that is closed; a channel
-- that is nil is never ready.
unfoldable pub send : EventBus → Event → ℕ → Option Channel → Option EventBus
send eb event ch none = some eb
send eb event ch (some c) =
    if c.closed
    then none
    else if ltb (length c.buffer) buffer_size
    then some (record eb {
      channels = update eb.channels ch (record c { buffer = c.buffer ++ (event ∷ []) });
    })
    else some eb

unfoldable pub send_all : EventBus → Event → List ℕ → Option EventBus
unfolding send
send_all eb event [] = some eb
send_all eb event (ch ∷ subs) = elim (send eb event ch (eb.channels ch)) [
  | none ↦ none
  | some eb' ↦ send_all eb' event subs
]

-- Publish
unfoldable pub publish : EventBus → Text → Event → Option EventBus
unfolding send_all
publish eb media_id event = send_all eb event (or_nil (eb.subscribers media_id))

-- A receive by the holder of the channel, which waits where there is nothing to receive.
abbrev pub rest_of : List Event → List Event
rest_of [] = []
rest_of (e ∷ es) = es

unfoldable pub receive : EventBus → ℕ → Option Channel → EventBus
receive eb ch none = eb
receive eb ch (some c) = record eb {
  channels = update eb.channels ch (record c { buffer = rest_of c.buffer });
}

-- What happens to a bus, in the order in which the mutex is taken.
pub data Step : Type 0 where
  subscribes : Text → Step
  unsubscribes : Text → ℕ → Step
  publishes : Text → Event → Step
  receives : ℕ → Step

unfoldable pub step : EventBus → Step → Option EventBus
unfolding subscribe unsubscribe publish receive
step eb (subscribes media_id) = some (subscribe eb media_id).0
step eb (unsubscribes media_id ch) = unsubscribe eb media_id ch
step eb (publishes media_id event) = publish eb media_id event
step eb (receives ch) = some (receive eb ch (eb.channels ch))

unfoldable pub run : EventBus → List Step → Option EventBus
unfolding step
run eb [] = some eb
run eb (s ∷ ss) = elim (step eb s) [ none ↦ none | some eb' ↦ run eb' ss ]
