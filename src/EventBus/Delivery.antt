-- ===== src/EventBus/Delivery.antt =====
-- What the steps of a bus lead to.
use sharm.Common.{
  update, ℕ, ◌≡◌, refl, sym, ◌∙◌, ap, subst, inl, inr, Bool, true, false, ◌||◌, ◌&&◌, none, some,
  List, [], ◌∷◌, ◌++◌, Text, ◌==◌, nat_eq, nat_beq_iff, if◌then◌else◌, length, ltb, arith,
  Bool-cases, Option-cases,
}
use sharm.World.{Event}
use sharm.EventBus.{
  Channel, EventBus, new_event_bus, buffer_size, subscribe, mem, send, send_all, publish, receive,
  Step, subscribes, unsubscribes, publishes, receives, step, run,
}
use sharm.EventBus.Subscribers.{IsDistinct}
use sharm.EventBus.Wiring.{listed, IsWired, publish_lem, receive-IsWired}
use sharm.EventBus.Leaving.{subscribe-IsWired, unsubscribe_lem}

step-IsWired :
    (eb : EventBus) (s : Step)
    → IsWired eb
    → (eb' : EventBus) × (step eb s ≡ some eb') × IsWired eb'
unfolding step
step-IsWired eb (subscribes m) wired = ((subscribe eb m).0, refl, subscribe-IsWired eb wired m)
step-IsWired eb (unsubscribes m ch) wired = unsubscribe_lem eb m ch wired
step-IsWired eb (publishes m event) wired = publish_lem eb m event wired
step-IsWired eb (receives ch) wired =
    (receive eb ch (eb.channels ch), refl, receive-IsWired eb wired ch)

run-then :
    (eb eb1 eb2 : EventBus) (s : Step) (ss : List Step)
    → step eb s ≡ some eb1
    → run eb1 ss ≡ some eb2
    → run eb (s ∷ ss) ≡ some eb2
unfolding run
run-then eb eb1 eb2 s ss h k = rw (h, run) k

run_from :
    (eb : EventBus) (ss : List Step)
    → IsWired eb
    → (eb' : EventBus) × (run eb ss ≡ some eb') × IsWired eb'
unfolding run
run_from eb [] wired = (eb, refl, wired)
run_from eb (s ∷ ss) wired =
    let (eb1, h, wired1) = step-IsWired eb s wired in
    let (eb2, k, wired2) = run_from eb1 ss wired1 in (eb2, run-then eb eb1 eb2 s ss h k, wired2)

new_event_bus-IsWired : IsWired new_event_bus
unfolding new_event_bus
new_event_bus-IsWired = record {
  open_ch = λ m ch h. absurd (cc h);
  only = λ m n ch h k. absurd (cc h);
  distinct = λ m. tt;
  numbered = λ ch c h. absurd (cc h);
  room = λ ch c h. absurd (cc h);
}

-- From a new bus on, whatever is subscribed, unsubscribed, published and received, in any order and
-- by anyone, no step panics: nothing is sent on a closed channel, and no channel is closed twice.
-- Afterwards the channels of the map are open, each stands there once and for one media, and no
-- buffer holds more than 16 events.
pub run-IsWired : (ss : List Step) → (eb : EventBus) × (run new_event_bus ss ≡ some eb) × IsWired eb
run-IsWired ss = run_from new_event_bus ss new_event_bus-IsWired

module _ (event : Event) where
  -- A channel after an event, which it gets if it is due and has room.
  abbrev pub delivered : Bool → Channel → Channel
  delivered due c =
      if due && ltb (length c.buffer) buffer_size
      then record c { buffer = c.buffer ++ (event ∷ []) }
      else c

  module _ (eb : EventBus) (ch d : ℕ) (c : Channel) (made : eb.channels d ≡ some c) where
    stays : eb.channels d ≡ some (delivered false c)
    stays = made

    of_one : (c0 : Channel) → eb.channels ch ≡ some c0 → (ch == d) ≡ true → c0 ≡ c
    of_one c0 there is = cc (made, there, (nat_beq_iff ch d).0 is)

    -- A channel that is full keeps what it has.
    full_lem :
        (c0 : Channel)
        → eb.channels ch ≡ some c0
        → ltb (length c0.buffer) buffer_size ≡ false
        → eb.channels d ≡ some (delivered (ch == d) c)
    full_lem c0 there full = elim (Bool-cases (ch == d)) [
      | inr other ↦ rw other made
      | inl is ↦
          let full' =
            subst (λ k. ltb (length k.buffer) buffer_size ≡ false) (of_one c0 there is) full in
          rw (is, full') made
    ]

    free_lem :
        (c0 : Channel)
        → eb.channels ch ≡ some c0
        → ltb (length c0.buffer) buffer_size ≡ true
        → update eb.channels ch (record c0 { buffer = c0.buffer ++ (event ∷ []) }) d
          ≡ some (delivered (ch == d) c)
    free_lem c0 there free = elim (Bool-cases (ch == d)) [
      | inr other ↦ let other' : (d == ch) ≡ false = ground arith in rw (other, other') made
      | inl is ↦
          let is' : (d == ch) ≡ true = ground arith in
          let one = of_one c0 there is in
          let free' = subst (λ k. ltb (length k.buffer) buffer_size ≡ true) one free in
          rw (is, is', free')
            (ap {A = Channel} (λ k. some (record k { buffer = k.buffer ++ (event ∷ []) })) one)
    ]

    nobody_lem : eb.channels ch ≡ none → eb.channels d ≡ some (delivered (ch == d) c)
    nobody_lem nobody = elim (Bool-cases (ch == d)) [
      | inl is ↦ absurd (cc (made, nobody, (nat_beq_iff ch d).0 is))
      | inr other ↦ rw other made
    ]

    send-channel :
        (eb' : EventBus)
        → send eb event ch (eb.channels ch) ≡ some eb'
        → eb'.channels d ≡ some (delivered (ch == d) c)
    unfolding send
    send-channel eb' h =
        let ends =
          λ (b : EventBus) (sent : send eb event ch (eb.channels ch) ≡ some b)
              (k : b.channels d ≡ some (delivered (ch == d) c)).
            let same : b ≡ eb' = cc (h, sent) in
            subst (λ b. b.channels d ≡ some (delivered (ch == d) c)) same k in
        elim (Option-cases (eb.channels ch)) [
          | inl nobody ↦ ends eb (rw nobody refl) (nobody_lem nobody)
          | inr (c0, there) ↦ elim (Bool-cases c0.closed) [
            | inl closed ↦
                let panics : send eb event ch (eb.channels ch) ≡ none = rw (there, closed) refl in
                absurd (cc (h, panics))
            | inr is_open ↦ elim (Bool-cases (ltb (length c0.buffer) buffer_size)) [
              | inr full ↦ ends eb (rw (there, is_open, full) refl) (full_lem c0 there full)
              | inl free ↦
                  let c1 = record c0 { buffer = c0.buffer ++ (event ∷ []) } in
                  ends (record eb { channels = update eb.channels ch c1 })
                    (rw (there, is_open, free) refl) (free_lem c0 there free)
            ]
          ]
        ]

  delivered_twice :
      (a b : Bool) (c : Channel)
      → (a ≡ true → b ≡ false)
      → delivered b (delivered a c) ≡ delivered (a || b) c
  delivered_twice false b c h = refl
  delivered_twice true true c h = absurd (cc (h refl))
  delivered_twice true false c h = refl

  unsent : (eb eb' : EventBus) → send_all eb event [] ≡ some eb' → eb ≡ eb'
  unfolding send_all
  unsent eb eb' h = cc h

  send_all-channel :
      (eb eb' : EventBus) (subs : List ℕ) (d : ℕ) (c : Channel)
      → IsDistinct subs
      → send_all eb event subs ≡ some eb'
      → eb.channels d ≡ some c
      → eb'.channels d ≡ some (delivered (mem d subs) c)
  unfolding send_all
  send_all-channel eb eb' [] d c distinct h made =
      subst (λ b. b.channels d ≡ some c) (unsent eb eb' h) made
  send_all-channel eb eb' (ch ∷ subs) d c distinct h made =
      elim (Option-cases (send eb event ch (eb.channels ch))) [
        | inl panics ↦
            let all_panics : send_all eb event (ch ∷ subs) ≡ none = rw (panics, send_all) refl in
            absurd (cc (h, all_panics))
        | inr (eb1, sent) ↦
            let rest : send_all eb event (ch ∷ subs) ≡ send_all eb1 event subs =
              rw (sent, send_all) refl in
            send_all-channel eb1 eb' subs d (delivered (ch == d) c) distinct.1 (sym rest ∙ h)
              (send-channel eb ch d c made eb1 sent)
            ∙ ap {A = Channel} (λ k. some k)
                (delivered_twice (ch == d) (mem d subs) c
                  (λ is. subst (λ k. mem k subs ≡ false) ((nat_beq_iff ch d).0 is) distinct.0))
      ]

  -- On a wired bus, Publish succeeds, and gives the event to each channel of its media that has room,
  -- once and after what the channel holds; every other channel stays as it is.
  pub publish-delivered :
      (eb : EventBus) (m : Text)
      → IsWired eb
      → (eb' : EventBus) × (publish eb m event ≡ some eb')
        × ((d : ℕ) (c : Channel)
            → eb.channels d ≡ some c
            → eb'.channels d ≡ some (delivered (mem d (listed eb m)) c))
  unfolding publish
  publish-delivered eb m wired =
      let (eb', sent, wired') = publish_lem eb m event wired in
      (
        eb',
        sent,
        λ d c made. send_all-channel eb eb' (listed eb m) d c (wired.distinct m) sent made,
      )
