-- ===== src/EventBus/Tests.antt =====
-- A viewer that comes and goes, and examples for the properties.
use sharm.Common.{
  ℕ, ◌≡◌, refl, false, Option, none, some, List, [], ◌∷◌, text, nat_eq, text_eq, text_beq,
}
use sharm.World.{Event}
use sharm.EventBus.{
  Channel, EventBus, new_event_bus, mem, publish, Step, subscribes, unsubscribes, publishes, run,
}
use sharm.EventBus.Wiring.{listed, IsWired}
use sharm.EventBus.Delivery.{delivered, run-IsWired, publish-delivered}

abbrev done : Event
done = record { type = text "status"; status = text "done"; message = [] }

-- One viewer leaves and another stays; the first leaves twice.
abbrev visit : List Step
visit =
    subscribes (text "a")
    ∷ subscribes (text "a")
    ∷ unsubscribes (text "a") 0
    ∷ publishes (text "a") done
    ∷ unsubscribes (text "a") 0
    ∷ []

abbrev held : Option EventBus → ℕ → Option Channel
held none ch = none
held (some eb) ch = eb.channels ch

visit_lem : held (run new_event_bus visit) 1 ≡ some (record { buffer = done ∷ []; closed = false })
unfolding run new_event_bus text_beq
visit_lem = refl

run-IsWired_example : (eb : EventBus) × (run new_event_bus visit ≡ some eb) × IsWired eb
run-IsWired_example = run-IsWired visit

publish-delivered_example :
    let eb = (run-IsWired visit).0 in
    (eb' : EventBus) × (publish eb (text "a") done ≡ some eb')
    × ((d : ℕ) (c : Channel)
        → eb.channels d ≡ some c
        → eb'.channels d ≡ some (delivered done (mem d (listed eb (text "a"))) c))
publish-delivered_example =
    publish-delivered done (run-IsWired visit).0 (text "a") (run-IsWired visit).2
