-- ===== src/Authz/Ws.antt =====
-- internal/authz/ws.go: room names, and what each kind may send and see over the WebSocket.
pub mod Rooms
pub mod Joinable
use xemu_cartographer.Base.{
  Bool, true, false, ◌||◌, ◌&&◌, not, Option, none, some, List, [], ◌∷◌, if◌then◌else◌, is_empty,
  any,
}
use xemu_cartographer.Text.{Text, codes, text_eq, is_space, cut, split, elem}
use xemu_cartographer.Authz.Errors.{Result, ok, err, room_syntax, ◌>>◌, require}
use xemu_cartographer.Authz.Scope.{colon, host_room_type, host_aggregate_instances, canon_segment}
use xemu_cartographer.Authz.Principal.{
  Kind, pb_user, superuser, machine, spectator, device, anonymous, discord, internal, other_kind,
  Principal, bound_instance,
}
use xemu_cartographer.Authz.Resource.{Room}

abbrev pub scraper_classes : List Text
scraper_classes =
    codes "xbox"
    ∷ codes "scenario"
    ∷ codes "game"
    ∷ codes "game_filtered"
    ∷ codes "tick"
    ∷ codes "objects"
    ∷ codes "debug"
    ∷ codes "previous_game"
    ∷ codes "event"
    ∷ codes "event_filtered"
    ∷ []

unfoldable pub has_space : Text → Bool
has_space s = any is_space s

abbrev pub typed_room : Text → Text → Text → Text → Room
typed_room name typ inst class = record {
  room_type = typ;
  instance_name = inst;
  class = class;
  raw = name;
}

-- The segments behind "host:".
host_room : Text → List Text → Result Room
host_room name (inst ∷ []) = do
  require (not (is_empty inst)) room_syntax
  require (not (has_space inst)) room_syntax
  ok (typed_room name host_room_type inst [])
host_room name (inst ∷ class ∷ []) = do
  require (not (is_empty inst)) room_syntax
  require (not (has_space inst)) room_syntax
  require (not (elem inst host_aggregate_instances)) room_syntax
  require (not (is_empty class || not (elem class scraper_classes))) room_syntax
  ok (typed_room name host_room_type inst class)
host_room name _ = err room_syntax

host_rest : Text → Option Text → Result Room
unfolding host_room
host_rest name none = err room_syntax
host_rest name (some rest) =
    if is_empty rest then err room_syntax else host_room name (split colon rest)

room_parts : Text → Text × Option Text → Result Room
unfolding host_rest
room_parts name (typ, rest) =
    if is_empty typ
    then err room_syntax
    else if not (text_eq typ host_room_type)
    then ok (typed_room name typ [] [])
    else host_rest name rest

unfoldable pub parse_room : Text → Result Room
unfolding room_parts
parse_room name = if is_empty name then err room_syntax else room_parts name (cut colon name)

abbrev pub ws_send_read_only : List Text
ws_send_read_only =
    codes "join_room" ∷ codes "leave_room" ∷ codes "request_state" ∷ codes "request_events" ∷ []

abbrev pub ws_send_anonymous : List Text
ws_send_anonymous = codes "join_room" ∷ codes "leave_room" ∷ []

send_allowed : Kind → Text → Bool
send_allowed pb_user t = true
send_allowed superuser t = true
send_allowed internal t = true
send_allowed machine t = true
send_allowed spectator t = elem t ws_send_read_only
send_allowed device t = elem t ws_send_read_only
send_allowed anonymous t = elem t ws_send_anonymous
send_allowed discord t = false
send_allowed other_kind t = false

unfoldable pub ws_send_allowed : Kind → Text → Bool
unfolding send_allowed
ws_send_allowed k t = if is_empty t then false else send_allowed k t

-- rules.go, sameInstance
unfoldable pub same_instance : Text → Text → Bool
same_instance a b =
    not (is_empty (canon_segment a))
    && not (is_empty (canon_segment b))
    && text_eq (canon_segment a) (canon_segment b)

-- The loop over the live names.
unfoldable pub first_same : Text → List Text → List Text
first_same bound_to [] = []
first_same bound_to (name ∷ names) =
    if same_instance name bound_to then name ∷ [] else first_same bound_to names

joinable_bound : Text → List Text → List Text
joinable_bound bound_to live = if is_empty bound_to then [] else first_same bound_to live

joinable : Kind → Principal → List Text → List Text
unfolding joinable_bound
joinable pb_user p live = live
joinable superuser p live = live
joinable machine p live = live
joinable internal p live = live
joinable spectator p live = joinable_bound (bound_instance p) live
joinable device p live = joinable_bound (bound_instance p) live
joinable anonymous p live = joinable_bound (bound_instance p) live
joinable _ p live = []

unfoldable pub joinable_instances : Principal → List Text → List Text
unfolding joinable
joinable_instances p live = joinable p.kind p live
