-- ===== src/Tests/Hubs.antt =====
-- The hub's membership on short runs.
use xemu_cartographer.Base.{true, some, ◌≡◌, ◌≢◌, refl, ◌↔◌, false, List, [], ◌∷◌, ◌++◌}
use xemu_cartographer.Text.{codes, Text}
use xemu_cartographer.Hub.{
  Event, registers, unregisters, joins, holds, members, add_to_room, room_has_members, run_events,
  handle,
}
use xemu_cartographer.Hub.Consistent.{
  IsConsistent, run_events-IsConsistent, unregister-gone, add_to_room-posts,
}
use xemu_cartographer.Hub.{recheck_rooms, still_admitted}
use xemu_cartographer.Hub.Recheck.{recheck_rooms_iff}
use xemu_cartographer.Tests.{evaluated}
use xemu_cartographer.Tests.Data.{two_admins, viewer}

-- Two connections of one user; the first has joined.
abbrev two_tabs : List Event
two_tabs = joins 1 (codes "public") ∷ registers 2 (codes "u1") ∷ registers 1 (codes "u1") ∷ []

last_leaves : (handle (unregisters 1 (codes "u1")) (run_events two_tabs)).1 ≡ codes "public" ∷ []
unfolding evaluated
last_leaves = refl

second_tab_stays :
    (run_events (unregisters 1 (codes "u1") ∷ two_tabs)).users ≡ (codes "u1", 2 ∷ []) ∷ []
unfolding evaluated
second_tab_stays = refl

run_events-IsConsistent_example : IsConsistent (run_events two_tabs)
run_events-IsConsistent_example = run_events-IsConsistent two_tabs

another_event : (uid : Text) → joins 1 (codes "public") ≢ registers 1 uid
another_event uid e = cc e

-- A join queued behind the disconnect.
unregister-gone_example :
    holds 1 (
      members
        (codes "public")
        (run_events
          ((joins 1 (codes "public") ∷ []) ++ unregisters 1 (codes "u1") ∷ two_tabs)).rooms)
    ≡ false
unregister-gone_example =
    unregister-gone 1 (codes "u1") (codes "public") (joins 1 (codes "public") ∷ []) two_tabs
      (another_event, tt)

second_join :
    ((add_to_room 2 (codes "public") (run_events two_tabs)).1 ≡ codes "public" ∷ [])
    ↔ (room_has_members (codes "public") (run_events two_tabs) ≡ false)
unfolding evaluated
second_join = add_to_room-posts 2 (codes "public") two_tabs refl

-- An admin's tab whose role was stripped: the admin room is left, the public one is not.
stripped :
    (recheck_rooms (some two_admins) viewer 1 (run_events (joins 1 (codes "admin") ∷ two_tabs))).1
    ≡ codes "admin" ∷ []
unfolding evaluated
stripped = refl

recheck_rooms_iff_example :
    (holds 1 (
        members
          (codes "public")
          (recheck_rooms (some two_admins) viewer 1 (run_events two_tabs)).0.rooms)
      ≡ true)
    ↔ ((holds 1 (members (codes "public") (run_events two_tabs).rooms) ≡ true)
        × (still_admitted (some two_admins) viewer (codes "public") ≡ true))
recheck_rooms_iff_example =
    recheck_rooms_iff (some two_admins) viewer 1 (run_events two_tabs) (codes "public")
