-- ===== src/SingleFlight/Tests.antt =====
-- Two calls for one key, and the end of the execution that they share.
use trader_joe.Base.{◌≡◌, refl, false, [], ◌∷◌, All}
use trader_joe.SingleFlight.{
  value, SingleFlight, single_flight, follower, leader, attach_or_lead, run, release, settle, Holds,
  Reachable, begin, calls, is_settled,
}
use trader_joe.SingleFlight.Sharing.{Distinct, one_leader_each, run-follower}

program : Unit {0}
unfolding run attach_or_lead settle release
program = tt

abbrev called : SingleFlight
called = record { in_flight = (7, 0) ∷ []; executing = (7, 0) ∷ []; settled = []; next = 1 }

called_reached : Reachable called
unfolding program
called_reached = calls single_flight 7 begin

second_attaches : (run called 7).1 ≡ follower 0
unfolding program
second_attaches = refl

-- After the end a call leads again.
third_leads : (run (settle called 7 0 (value 5)) 7).1 ≡ leader 1
unfolding program
third_leads = refl

one_leader_each_example :
    (called.executing ≡ called.in_flight)
    × Distinct called.in_flight
    × All (λ e. is_settled e.1 [] ≡ false) called.in_flight
one_leader_each_example = one_leader_each called called_reached

run-follower_example : Holds 7 0 called.executing × (is_settled 0 [] ≡ false)
run-follower_example = run-follower called 7 0 called_reached second_attaches
