-- ===== src/Hub/Observer.antt =====
-- internal/websocket/hub.go: the observer of rooms. The goroutines that change rooms post
-- them to a bounded queue, and the observer's goroutine drains it; an action touches what they share
-- once, and a run is a sequence of actions in any order. The hook is installed before the hub runs,
-- and is neither replaced nor taken out; Stop is not modelled. The posts that are owed are kept
-- together and go out in any order, so that the runs are those of the goroutines and more.
pub mod Posts
pub mod Calls
pub mod Pending
pub mod Looks
pub mod Settled
pub mod Reaches
pub mod Posted
pub mod Drains
use xemu_cartographer.Base.{
  ℕ, Bool, true, false, not, ◌||◌, List, [], ◌∷◌, ◌++◌, map, length, ltb, if◌then◌else◌,
}
use xemu_cartographer.Text.{Text, text_eq, elem}
use xemu_cartographer.Hub.{Client, Index, Hub, new_hub, Event, handle, room_has_members}

abbrev room_event_buf : ℕ
room_event_buf = 1024

-- Where the observer's goroutine goes when it has no room left to check: to its select after
-- rewalkRooms, and to the top of its loop after a receive.
pub data Next : Type 0 where
  to_select to_top : Next

-- Where it is: at the top of its loop, behind a Swap that found the flag set, in its select, about to
-- ask for a room's occupancy, or with the answer of RoomHasMembers, on which it has not acted yet.
pub data Phase : Type 0 where
  at_top swapped selecting : Phase
  checking : (room : Text) (rooms : List Text) (next : Next) → Phase
  answered : (room : Text) (occupied : Bool) (rooms : List Text) (next : Next) → Phase

-- `posting` has the rooms of the calls of noteRoomEdge that have not come to their send, and
-- `overflowed` those whose send has failed, but who have not set the flag. Many goroutines call it:
-- the hub's, and the one of each client that rechecks its rooms. `fired` has the calls of the hook,
-- the latest first.
pub record Watch : Type 0 where
  pub hub : Hub
  pub posting : List Text
  pub overflowed : List Text
  pub room_events : List Text
  pub dirty : Bool
  pub phase : Phase
  pub observed : List Text
  pub fired : List (Text × Bool)

abbrev pub new_watch : Watch
new_watch = record {
  hub = new_hub;
  posting = [];
  overflowed = [];
  room_events = [];
  dirty = false;
  phase = at_top;
  observed = [];
  fired = [];
}

-- One room less: a call that is at this room goes on.
unfoldable pub take_one : Text → List Text → List Text
take_one room [] = []
take_one room (r ∷ rs) = let rest = take_one room rs in if text_eq room r then rs else r ∷ rest

-- noteRoomEdge: the send that does not block, and the Store behind one that failed.
unfoldable pub note_room_edge : Text → Watch → Watch
note_room_edge room w =
    if ltb (length w.room_events) room_event_buf
    then record w { room_events = w.room_events ++ room ∷ [] }
    else record w { overflowed = room ∷ w.overflowed }

abbrev set_dirty : Watch → Watch
set_dirty w = record w { dirty = true }

abbrev pub same : Bool → Bool → Bool
same true b = b
same false b = not b

-- delete(h.observed, room)
unfoldable pub forget : Text → List Text → List Text
forget room [] = []
forget room (r ∷ rs) = let rest = forget room rs in if text_eq room r then rest else r ∷ rest

abbrev pub observe : Text → Bool → List Text → List Text
observe room true observed = room ∷ observed
observe room false observed = forget room observed

-- checkRoom, from the answer of RoomHasMembers on
unfoldable pub check_room : Text → Bool → Watch → Watch
check_room room occupied w = if same (elem room w.observed) occupied then w else record w {
  observed = observe room occupied w.observed;
  fired = (room, occupied) ∷ w.fired;
}

abbrev go_on : Next → Phase
go_on to_select = selecting
go_on to_top = at_top

abbrev pub check_all : List Text → Next → Phase
check_all [] next = go_on next
check_all (r ∷ rs) next = checking r rs next

unfoldable pub room_names : Index → List Text
room_names [] = []
room_names ((n, cs) ∷ index) = n ∷ room_names index

pub data Action : Type 0 where
  -- The critical section of addToRoom, removeFromRoom or removeClient, in any goroutine, and then the
  -- two steps of noteRoomEdge. A goroutine that owes posts may be overtaken by others.
  hub_handles : (e : Event) → Action
  posts stores : (room : Text) → Action
  -- The observer's: Swap, the rooms that rewalkRooms collects, a receive, and checkRoom's two parts.
  observer_swaps observer_collects observer_receives observer_asks observer_fires : Action

abbrev hub_step : Event → Watch → Watch
hub_step e w = record w { hub = (handle e w.hub).0; posting = w.posting ++ (handle e w.hub).1 }

abbrev post_step : Text → Watch → Watch
post_step room w =
    if elem room w.posting
    then note_room_edge room (record w { posting = take_one room w.posting })
    else w

abbrev store_step : Text → Watch → Watch
store_step room w =
    if elem room w.overflowed
    then set_dirty (record w { overflowed = take_one room w.overflowed })
    else w

abbrev swap_step : Phase → Watch → Watch
swap_step at_top w = record w { dirty = false; phase = if w.dirty then swapped else selecting }
swap_step _ w = w

-- A room that is both reported and held is checked twice here, and once in the source.
abbrev collect_step : Phase → Watch → Watch
collect_step swapped w = record w {
  phase = check_all (w.observed ++ room_names w.hub.rooms) to_select;
}
collect_step _ w = w

abbrev receive_step : Phase → List Text → Watch → Watch
receive_step selecting (r ∷ rs) w = record w { room_events = rs; phase = checking r [] to_top }
receive_step _ _ w = w

abbrev ask_step : Phase → Watch → Watch
ask_step (checking r rs next) w = record w { phase = answered r (room_has_members r w.hub) rs next }
ask_step _ w = w

abbrev fire_step : Phase → Watch → Watch
fire_step (answered r occupied rs next) w =
    check_room r occupied (record w { phase = check_all rs next })
fire_step _ w = w

-- One action; where it cannot happen, nothing does.
unfoldable pub act : Action → Watch → Watch
act (hub_handles e) w = hub_step e w
act (posts room) w = post_step room w
act (stores room) w = store_step room w
act observer_swaps w = swap_step w.phase w
act observer_collects w = collect_step w.phase w
act observer_receives w = receive_step w.phase w.room_events w
act observer_asks w = ask_step w.phase w
act observer_fires w = fire_step w.phase w

-- A run, its latest action first.
unfoldable pub run_actions : List Action → Watch
run_actions [] = new_watch
run_actions (a ∷ earlier) = act a (run_actions earlier)
