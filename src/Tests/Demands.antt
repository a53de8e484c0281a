-- ===== src/Tests/Demands.antt =====
-- The demand behind the observer of the run of Tests/Watches.antt, and one that is left.
use xemu_cartographer.Base.{◌≡◌, refl, true, false, Bool, List, [], ◌∷◌}
use xemu_cartographer.Text.{Text, codes, elem}
use xemu_cartographer.Hub.{room_has_members, registers, joins}
use xemu_cartographer.Hub.Observer.{
  Action, hub_handles, posts, observer_swaps, observer_receives, observer_asks, observer_fires,
  run_actions,
}
use xemu_cartographer.Xcclient.Demand.{
  Input, observes, releases, run_inputs, lingering, joins_room, leaves_room, drops_frame,
}
use xemu_cartographer.Xcclient.Demand.Follows.{demand-Follows}
use xemu_cartographer.Tests.{evaluated}

abbrev tick : Text
tick = codes "host:box1:tick"

abbrev all_rooms : Text → Bool
all_rooms room = true

abbrev viewer_joins : List Action
viewer_joins =
    observer_fires
    ∷ observer_asks
    ∷ observer_receives
    ∷ observer_swaps
    ∷ posts tick
    ∷ hub_handles (joins 1 tick)
    ∷ hub_handles (registers 1 [])
    ∷ []

-- A release that comes late.
abbrev seen : List Input
seen = releases tick false ∷ observes tick true ∷ []

demand-Follows_example :
    (room_has_members tick (run_actions viewer_joins).hub ≡ true
      → (elem tick (run_inputs all_rooms seen).joined ≡ true)
        × (elem tick (run_inputs all_rooms seen).pending ≡ false))
    × (room_has_members tick (run_actions viewer_joins).hub ≡ false
        → elem tick (run_inputs all_rooms seen).joined
          ≡ elem tick (run_inputs all_rooms seen).pending)
unfolding evaluated
demand-Follows_example = demand-Follows all_rooms viewer_joins seen tick refl refl refl

leaves_late :
    (run_inputs all_rooms
      (releases tick false ∷ observes tick false ∷ observes tick true ∷ [])).calls
    ≡ drops_frame tick ∷ leaves_room tick ∷ joins_room tick ∷ []
unfolding evaluated
leaves_late = refl

lingers :
    lingering tick (run_inputs all_rooms (observes tick false ∷ observes tick true ∷ [])) ≡ true
unfolding evaluated
lingers = refl

-- The timer of the first vacancy was stopped, but its callback runs after the second.
leaves_early :
    (run_inputs all_rooms (
      releases tick false
      ∷ observes tick false
      ∷ observes tick true
      ∷ observes tick false
      ∷ observes tick true
      ∷ [])).joined
    ≡ []
unfolding evaluated
leaves_early = refl
