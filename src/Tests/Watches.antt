-- ===== src/Tests/Watches.antt =====
-- The observer of rooms on a short run: a join and what follows it.
use xemu_cartographer.Base.{All, false, ◌≡◌, refl, true, List, [], ◌∷◌}
use xemu_cartographer.Text.{Text, codes}
use xemu_cartographer.Hub.{registers, joins, room_has_members}
use xemu_cartographer.Hub.Observer.{
  Watch, new_watch, selecting, observer_collects, Action, hub_handles, posts, observer_swaps,
  observer_receives, observer_asks, observer_fires, run_actions,
}
use xemu_cartographer.Hub.Observer.Calls.{latest, Mirrors, run_actions-Mirrors}
use xemu_cartographer.Hub.Observer.Settled.{run_actions-seen}
use xemu_cartographer.Hub.Observer.Pending.{pending}
use xemu_cartographer.Hub.Observer.Reaches.{own, run_from}
use xemu_cartographer.Hub.Observer.Drains.{run_actions-drains}
use xemu_cartographer.Tests.{evaluated}

-- A join is posted, received and checked; the latest action is the first.
abbrev a_join : List Action
a_join =
    observer_fires
    ∷ observer_asks
    ∷ observer_receives
    ∷ observer_swaps
    ∷ posts (codes "public")
    ∷ hub_handles (joins 1 (codes "public"))
    ∷ hub_handles (registers 1 (codes "u1"))
    ∷ []

one_call : (run_actions a_join).fired ≡ (codes "public", true) ∷ []
unfolding evaluated
one_call = refl

run_actions-seen_example :
    latest (codes "public") (run_actions a_join).fired
    ≡ room_has_members (codes "public") (run_actions a_join).hub
unfolding evaluated
run_actions-seen_example = run_actions-seen a_join (codes "public") refl

run_actions-Mirrors_example : Mirrors (run_actions a_join)
run_actions-Mirrors_example = run_actions-Mirrors a_join

-- The join has happened, and nothing else yet.
abbrev unseen : List Action
unseen = hub_handles (joins 1 (codes "public")) ∷ hub_handles (registers 1 (codes "u1")) ∷ []

run_actions-drains_example :
    (later : List Action) × All (λ a. own a ≡ true) later
    × ((run_from later (run_actions unseen)).hub ≡ (run_actions unseen).hub)
    × ((r : Text) → pending r (run_from later (run_actions unseen)) ≡ false)
unfolding evaluated
run_actions-drains_example = run_actions-drains unseen refl

-- The observer is in its select with its flag set: a caller whose send had failed came to set the flag
-- after the observer had emptied the queue.
abbrev stuck : Watch
stuck = record new_watch { hub = (run_actions unseen).hub; dirty = true; phase = selecting }

-- The next post that gets through wakes it, and the join is seen.
woken :
    (run_from
      (observer_fires
        ∷ observer_asks
        ∷ observer_fires
        ∷ observer_asks
        ∷ observer_collects
        ∷ observer_swaps
        ∷ observer_fires
        ∷ observer_asks
        ∷ observer_receives
        ∷ posts (codes "host:box1")
        ∷ hub_handles (joins 1 (codes "host:box1"))
        ∷ [])
      stuck).fired
    ≡ (codes "public", true) ∷ (codes "host:box1", true) ∷ []
unfolding evaluated
woken = refl
