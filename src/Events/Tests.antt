-- ===== src/Events/Tests.antt =====
-- A hub whose clients may leave two events waiting.
use trader_joe.Base.{ℕ, ◌≡◌, refl, true, false, some, List, [], ◌∷◌}
use trader_joe.Events.{
  event, dropped_item, Subscription, EventHub, event_hub, offer, publish_to, publish, subscribe,
  unsubscribe, find, get, subscriber_count,
}
use trader_joe.Events.Served.{
  Step, publishes, subscribes, gets, step, Run, start, stepped, IsServed,
}
use trader_joe.Events.Delivery.{run-IsServed}

program : Unit {0}
unfolding offer publish_to publish subscribe unsubscribe get subscriber_count step
program = tt

abbrev run : List (Step ℕ) → EventHub ℕ → EventHub ℕ
run [] hub = hub
run (s ∷ ss) hub = run ss (step s hub)

-- Two clients, of which the second reads one of three events.
abbrev hub : EventHub ℕ
hub =
    run (subscribes ∷ subscribes ∷ publishes 7 ∷ publishes 8 ∷ gets 1 ∷ publishes 9 ∷ [])
      (event_hub 2)

slow_is_dropped :
    find 0 hub.subscriptions
    ≡ some (record { id = 0; queue = dropped_item ∷ []; dropped = true; subscribed = false })
unfolding program
slow_is_dropped = refl

abbrev other : Subscription ℕ
other = record { id = 1; queue = event 8 ∷ event 9 ∷ []; dropped = false; subscribed = true }

other_is_not : find 1 hub.subscriptions ≡ some other
unfolding program
other_is_not = refl

one_is_left : subscriber_count hub ≡ 1
unfolding program
one_is_left = refl

hub_run : Run 2 1 hub (7 ∷ 8 ∷ 9 ∷ []) (7 ∷ [])
unfolding program
hub_run = stepped _ _ _ (publishes 9) (
    stepped _ _ _ (gets 1) (
      stepped _ _ _ (publishes 8)
        (stepped _ _ _ (publishes 7) (stepped _ _ _ subscribes (stepped _ _ _ subscribes start)))))

run-IsServed_example : IsServed 2 other (7 ∷ 8 ∷ 9 ∷ []) (7 ∷ [])
run-IsServed_example = run-IsServed 2 1 hub (7 ∷ 8 ∷ 9 ∷ []) (7 ∷ []) other hub_run other_is_not
