-- ===== src/Xcclient/Demand.antt =====
-- internal/xcclient/demand.go: which rooms are joined upstream. The parser of room names is in another
-- repository: whether a name is a demand room is a function argument. The callback of a timer may run
-- late, after its timer was stopped: here a release may happen at any time. A map from rooms to timers
-- is the list of its rooms.
pub mod Sides
pub mod Follows
use xemu_cartographer.Base.{Bool, true, false, not, ◌&&◌, ◌||◌, List, [], ◌∷◌, if◌then◌else◌}
use xemu_cartographer.Text.{Text, text_eq, elem}

-- The calls of the client and of its mirror.
pub data Upstream : Type 0 where
  joins_room leaves_room drops_frame : (room : Text) → Upstream

-- `calls` are those made so far, the latest first.
pub record Demand : Type 0 where
  pub joined : List Text
  pub pending : List Text
  pub closed : Bool
  pub calls : List Upstream

abbrev pub new_demand : Demand
new_demand = record { joined = []; pending = []; closed = false; calls = [] }

-- delete(set, room)
unfoldable pub delete_room : Text → List Text → List Text
delete_room room [] = []
delete_room room (r ∷ rs) =
    let rest = delete_room room rs in if text_eq room r then rest else r ∷ rest

-- Observe with occupied == true, on a demand room of an open demand.
unfoldable pub occupy : Text → Demand → Demand
occupy room d =
    if elem room d.joined then record d { pending = delete_room room d.pending } else record d {
      pending = delete_room room d.pending;
      joined = room ∷ d.joined;
      calls = joins_room room ∷ d.calls;
    }

-- Observe with occupied == false
unfoldable pub arm : Text → Demand → Demand
arm room d =
    if not (elem room d.joined) || elem room d.pending
    then d
    else record d { pending = room ∷ d.pending }

-- Observe
unfoldable pub observe : (Text → Bool) → Text → Bool → Demand → Demand
observe is_demand room occupied d =
    if not (is_demand room) || d.closed then d else if occupied then occupy room d else arm room d

abbrev left_calls : Bool → Text → List Upstream → List Upstream
left_calls true room calls = leaves_room room ∷ calls
left_calls false room calls = drops_frame room ∷ leaves_room room ∷ calls

-- release, with the client's answer whether another owner wants the room
unfoldable pub release : Text → Bool → Demand → Demand
release room wanted d =
    if d.closed || not (elem room d.pending)
    then d
    else if not (elem room d.joined)
    then record d { pending = delete_room room d.pending }
    else record d {
      pending = delete_room room d.pending;
      joined = delete_room room d.joined;
      calls = left_calls wanted room d.calls;
    }

-- Lingering
unfoldable pub lingering : Text → Demand → Bool
lingering room d = elem room d.joined && elem room d.pending

-- Close
unfoldable pub close : Demand → Demand
close d = record d { closed = true; pending = [] }

pub data Input : Type 0 where
  observes : (room : Text) (occupied : Bool) → Input
  releases : (room : Text) (wanted : Bool) → Input

unfoldable pub take_input : (Text → Bool) → Input → Demand → Demand
take_input is_demand (observes room occupied) d = observe is_demand room occupied d
take_input is_demand (releases room wanted) d = release room wanted d

-- What a demand has seen, the latest first.
unfoldable pub run_inputs : (Text → Bool) → List Input → Demand
run_inputs is_demand [] = new_demand
run_inputs is_demand (i ∷ earlier) = take_input is_demand i (run_inputs is_demand earlier)
