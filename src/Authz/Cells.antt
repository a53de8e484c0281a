-- ===== src/Authz/Cells.antt =====
-- internal/authz/rules.go: the cells, rows and room shapes of the rule table. A Go map from kinds to cells is a function into Option.
use xemu_cartographer.Base.{
  Bool, true, false, not, ◌&&◌, Option, none, some, List, [], ◌∷◌, ◌++◌, if◌then◌else◌, is_empty,
}
use xemu_cartographer.Text.{Text, codes, text_eq, attr}
use xemu_cartographer.Authz.Action.{Action, action_text, overlay_mint, admin_admin}
use xemu_cartographer.Authz.Scope.{colon}
use xemu_cartographer.Authz.Principal.{
  Kind, pb_user, machine, spectator, device, anonymous, discord,
}
use xemu_cartographer.Authz.Resource.{
  ResourceKind, Room, is_host, is_host_aggregate, Resource, selector,
}
use xemu_cartographer.Authz.Predicates.{
  Predicate, pred_always, pred_authed, pred_rostered, pred_box_owner, pred_bound, pred_level_ok,
  pred_team_authority, pred_station_file, any_of,
}

-- How a kind passes a rule; `mode_unset` is any other value of the type.
pub data Mode : Type 0 where
  mode_scope mode_scope_or_pred mode_scope_and_pred mode_pred mode_unset : Mode

pub record KindRule : Type 0 where
  pub mode : Mode
  pub pred : Option Predicate

abbrev pub KindTable : Type 0
KindTable = Kind → Option KindRule

-- A nil `Accept` or `Wants` is `none`; an empty collection is any.
pub record Rule : Type 0 where
  pub resources : List ResourceKind
  pub collection : Text
  pub kinds : KindTable
  pub denials : List Predicate
  pub accept : Option (Resource → Bool)
  pub wants : Option (Action → Resource → List Text)

abbrev pub cell_s : KindRule
cell_s = record { mode = mode_scope; pred = none }

abbrev pub cell_always : KindRule
cell_always = record { mode = mode_pred; pred = some pred_always }

abbrev pub cell_bound : KindRule
cell_bound = record { mode = mode_scope_and_pred; pred = some pred_bound }

abbrev pub cell_rostered : KindRule
cell_rostered = record {
  mode = mode_scope_or_pred;
  pred = some (any_of (pred_rostered ∷ pred_box_owner ∷ []));
}

abbrev pub cell_box_owner : KindRule
cell_box_owner = record { mode = mode_scope_or_pred; pred = some pred_box_owner }

abbrev cell_pred : Predicate → KindRule
cell_pred pred = record { mode = mode_pred; pred = some pred }

pub data RoomShape : Type 0 where
  host_bare host_class host_aggregate admin_room public_room : RoomShape

unfoldable pub room_join_rules : RoomShape → KindTable
room_join_rules host_bare pb_user = some cell_rostered
room_join_rules host_class pb_user = some cell_rostered
room_join_rules host_class machine = some cell_s
room_join_rules host_class spectator = some cell_bound
room_join_rules host_class device = some cell_bound
room_join_rules host_class anonymous = some cell_bound
room_join_rules host_aggregate pb_user = some cell_s
room_join_rules host_aggregate machine = some cell_s
room_join_rules admin_room pb_user = some cell_s
room_join_rules public_room pb_user = some cell_always
room_join_rules public_room machine = some cell_always
room_join_rules public_room spectator = some cell_always
room_join_rules public_room device = some cell_always
room_join_rules public_room anonymous = some cell_always
room_join_rules _ _ = none

unfoldable pub room_shape : Room → RoomShape
room_shape rm =
    if not (is_host rm)
    then if text_eq rm.room_type (codes "admin") then admin_room else public_room
    else if is_host_aggregate rm
    then host_aggregate
    else if is_empty rm.class
    then host_bare
    else host_class

-- scope.go, ScopeFor
unfoldable pub scope_for : Action → Resource → Text
scope_for a r =
    if not (is_empty (selector r)) then action_text a ++ (colon ∷ selector r) else action_text a

unfoldable pub room_join_wants : Action → Resource → List Text
room_join_wants a r =
    if not (is_host r.room) && text_eq r.room.room_type (codes "admin")
    then action_text admin_admin ∷ []
    else scope_for a r ∷ []

-- token.go, tokenKinds
unfoldable pub token_kinds : Text → Option Kind
token_kinds t =
    if text_eq t (codes "machine")
    then some machine
    else if text_eq t (codes "spectator")
    then some spectator
    else if text_eq t (codes "device")
    then some device
    else none

abbrev is_kind : Option Kind → Bool
is_kind none = false
is_kind (some k) = true

unfoldable pub token_mint_resource : Resource → Bool
token_mint_resource r = is_kind (token_kinds (attr (codes "kind") r.extra))

unfoldable pub token_mint_wants : Action → Resource → List Text
token_mint_wants a r =
    let kind = attr (codes "kind") r.extra in
    action_text a
    ∷ (action_text a ++ (colon ∷ kind))
    ∷ (if text_eq kind (codes "spectator") then action_text overlay_mint ∷ [] else [])

abbrev pub none_admitted : KindTable
none_admitted k = none

unfoldable pub row_scope_user : KindTable
row_scope_user pb_user = some cell_s
row_scope_user _ = none

unfoldable pub row_scope_user_machine : KindTable
row_scope_user_machine pb_user = some cell_s
row_scope_user_machine machine = some cell_s
row_scope_user_machine _ = none

unfoldable pub row_box_access : KindTable
row_box_access pb_user = some cell_rostered
row_box_access device = some cell_bound
row_box_access _ = none

unfoldable pub row_box_owner : KindTable
row_box_owner pb_user = some cell_box_owner
row_box_owner _ = none

unfoldable pub row_role : KindTable
row_role pb_user = some (record { mode = mode_scope_and_pred; pred = some pred_level_ok })
row_role _ = none

unfoldable pub row_team : KindTable
row_team pb_user = some (record { mode = mode_scope_or_pred; pred = some pred_team_authority })
row_team _ = none

-- scraper.events and scraper.state
unfoldable pub row_scraper : KindTable
row_scraper pb_user = some cell_rostered
row_scraper machine = some cell_s
row_scraper spectator = some cell_bound
row_scraper device = some cell_bound
row_scraper _ = none

unfoldable pub row_overlay_state : KindTable
row_overlay_state pb_user = some cell_s
row_overlay_state machine = some cell_s
row_overlay_state spectator = some cell_bound
row_overlay_state device = some cell_bound
row_overlay_state anonymous = some cell_bound
row_overlay_state _ = none

unfoldable pub row_provision : KindTable
row_provision pb_user = some (cell_pred pred_authed)
row_provision _ = none

unfoldable pub row_lan_file : KindTable
row_lan_file pb_user = some cell_s
row_lan_file machine = some (record { mode = mode_scope_and_pred; pred = some pred_station_file })
row_lan_file _ = none

unfoldable pub row_guild : Predicate → KindTable
row_guild pred discord = some (cell_pred pred)
row_guild pred _ = none
