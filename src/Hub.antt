-- ===== src/Hub.antt =====
-- internal/websocket/hub.go: who is connected and who is in which room. A connection is a number, as
-- its pointer is in the source; a Go map from names to sets is an association list of lists.
pub mod Indices
pub mod Consistent
pub mod Recheck
pub mod Observer
use xemu_cartographer.Base.{
  ℕ, Bool, true, false, not, ◌&&◌, Option, none, some, List, [], ◌∷◌, ◌++◌, any, is_empty,
  if◌then◌else◌, ◌==◌,
}
use xemu_cartographer.Text.{Text, text_eq}
use xemu_cartographer.Authz.Errors.{ok, err}
use xemu_cartographer.Authz.Action.{action_text, room_join}
use xemu_cartographer.Authz.Deps.{Deps}
use xemu_cartographer.Authz.Principal.{Principal}
use xemu_cartographer.Authz.Resource.{room_res}
use xemu_cartographer.Authz.Ws.{parse_room}
use xemu_cartographer.Authz.Decision.{can}

abbrev pub Client : Type 0
Client = ℕ

abbrev pub Index : Type 0
Index = List (Text × List Client)

pub record Hub : Type 0 where
  pub clients : List Client
  pub users : Index
  pub rooms : Index

abbrev pub new_hub : Hub
new_hub = record { clients = []; users = []; rooms = [] }

unfoldable pub holds : Client → List Client → Bool
holds c cs = any (λ d. d == c) cs

-- set[c] = true
unfoldable pub add_client : Client → List Client → List Client
add_client c cs = if holds c cs then cs else c ∷ cs

-- delete(set, c)
unfoldable pub drop_client : Client → List Client → List Client
drop_client c [] = []
drop_client c (d ∷ cs) = let rest = drop_client c cs in if d == c then rest else d ∷ rest

unfoldable pub members : Text → Index → List Client
members name [] = []
members name ((n, cs) ∷ index) = if text_eq n name then cs else members name index

unfoldable pub has_entry : Text → Index → Bool
has_entry name index = any (λ (e : Text × List Client). text_eq e.0 name) index

-- The member joins the set of the name, which is made if there is none.
unfoldable pub join_set : Client → Text → Index → Index
join_set c name [] = (name, c ∷ []) ∷ []
join_set c name ((n, cs) ∷ index) =
    let rest = join_set c name index in
    if text_eq n name then (n, add_client c cs) ∷ index else (n, cs) ∷ rest

-- An entry goes when its set is empty.
unfoldable pub keep_entry : Text → List Client → Index → Index
keep_entry n [] rest = rest
keep_entry n (c ∷ cs) rest = (n, c ∷ cs) ∷ rest

unfoldable pub leave_set : Client → Text → Index → Index
leave_set c name [] = []
leave_set c name ((n, cs) ∷ index) =
    let rest = leave_set c name index in
    if text_eq n name then keep_entry n (drop_client c cs) rest else (n, cs) ∷ rest

-- The loop of removeClient over the rooms.
unfoldable pub leave_all : Client → Index → Index
leave_all c [] = []
leave_all c ((n, cs) ∷ index) =
    let rest = leave_all c index in
    if holds c cs then keep_entry n (drop_client c cs) rest else (n, cs) ∷ rest

unfoldable pub emptied_by : Client → Index → List Text
emptied_by c [] = []
emptied_by c ((n, cs) ∷ index) =
    let rest = emptied_by c index in
    if holds c cs then (if is_empty (drop_client c cs) then n ∷ rest else rest) else rest

-- The case of Run's select for a new client, with its UserID.
unfoldable pub register : Client → Text → Hub → Hub
register c uid h = record {
  clients = add_client c h.clients;
  users = if is_empty uid then h.users else join_set c uid h.users;
  rooms = h.rooms;
}

unfoldable pub room_has_members : Text → Hub → Bool
room_has_members room h = not (is_empty (members room h.rooms))

-- addToRoom, removeFromRoom and removeClient: the hub after, and the rooms posted to the observer.
unfoldable pub add_to_room : Client → Text → Hub → Hub × List Text
add_to_room c room h = if not (holds c h.clients) then (h, []) else (
  record h { rooms = join_set c room h.rooms },
  if has_entry room h.rooms then [] else room ∷ [],
)

unfoldable pub remove_from_room : Client → Text → Hub → Hub × List Text
remove_from_room c room h =
    let left = record h { rooms = leave_set c room h.rooms } in
    (left, if has_entry room h.rooms && not (has_entry room left.rooms) then room ∷ [] else [])

unfoldable pub remove_client : Client → Text → Hub → Hub × List Text
remove_client c uid h = if not (holds c h.clients) then (h, []) else (
  record {
    clients = drop_client c h.clients;
    users = if is_empty uid then h.users else leave_set c uid h.users;
    rooms = leave_all c h.rooms;
  },
  emptied_by c h.rooms,
)

-- What Run's select receives that changes who is where.
pub data Event : Type 0 where
  registers unregisters : (c : Client) (uid : Text) → Event
  joins leaves : (c : Client) (room : Text) → Event

unfoldable pub handle : Event → Hub → Hub × List Text
handle (registers c uid) h = (register c uid h, [])
handle (unregisters c uid) h = remove_client c uid h
handle (joins c room) h = add_to_room c room h
handle (leaves c room) h = remove_from_room c room h

-- The events of a run, the latest first.
unfoldable pub run_events : List Event → Hub
run_events [] = new_hub
run_events (e ∷ earlier) = (handle e (run_events earlier)).0

-- clientRooms
unfoldable pub client_rooms : Client → Index → List Text
client_rooms c [] = []
client_rooms c ((n, cs) ∷ index) =
    let rest = client_rooms c index in if holds c cs then n ∷ rest else rest

-- The test of recheckRooms on one room.
unfoldable pub still_admitted : Option Deps → Principal → Text → Bool
still_admitted deps p name = elim (parse_room name) [
  | err e ↦ false
  | ok rm ↦ can deps p (action_text room_join) (room_res rm)
]

unfoldable pub leave_each : (Text → Bool) → Client → List Text → Hub → Hub × List Text
leave_each admitted c [] h = (h, [])
leave_each admitted c (n ∷ names) h = elim (admitted n) [
  | true ↦ leave_each admitted c names h
  | false ↦
      let (final, left) = leave_each admitted c names (remove_from_room c n h).0 in
      (final, n ∷ left)
]

-- recheckRooms: the hub after, and the rooms left; the frames are not modelled.
unfoldable pub recheck_rooms : Option Deps → Principal → Client → Hub → Hub × List Text
recheck_rooms deps p c h = leave_each (still_admitted deps p) c (client_rooms c h.rooms) h
