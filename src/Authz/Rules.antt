-- ===== src/Authz/Rules.antt =====
-- internal/authz/rules.go: the rule table. A Go map from kinds to cells is a function into Option.
use xemu_cartographer.Base.{
  ◌==◌, Bool, true, false, not, ◌&&◌, Option, none, some, List, [], ◌∷◌, if◌then◌else◌, is_empty,
  any,
}
use xemu_cartographer.Text.{Text, codes, text_eq}
use xemu_cartographer.Authz.Errors.{ok, err}
use xemu_cartographer.Authz.Action.{
  Action, room_join, ws_send, scraper_probe, scraper_events, scraper_state, scraper_ingest,
  overlay_read_state, overlay_list_consoles, overlay_mint, box_view, box_drive, box_read,
  box_control, box_teardown, box_provision, box_provision_named, container_manage, admin_admin,
  admin_users, admin_containers, admin_scraper, admin_xemu, admin_pod, library_manage,
  iso_set_policy, role_grant, role_revoke, user_moderate, user_soft_delete, gamertag_moderate,
  team_moderate, notif_admin_edit, team_invite, team_remove, team_decide, lan_saves_identity,
  lan_saves_file, lan_saves_build, lan_saves_download, lan_saves_manifest, lan_saves_meta,
  lan_sync_manifest, lan_sync_dl_game, lan_sync_dl_app, token_mint, token_revoke, token_list,
  discord_config, discord_bind_channel, discord_stats_read, discord_box, discord_post,
}
use xemu_cartographer.Authz.Resource.{
  ResourceKind, res_global, res_instance, res_container, res_room, res_user, res_role, res_team,
  res_record, res_iso, res_lan_file, res_token, res_guild, kind_index, Room, room_selector,
  Resource,
}
use xemu_cartographer.Authz.Ws.{parse_room}
use xemu_cartographer.Authz.Predicates.{
  pred_always, pred_linked, pred_manage_guild, deny_last_admin,
}
use xemu_cartographer.Authz.Cells.{
  KindTable, Rule, room_join_rules, room_shape, scope_for, room_join_wants, token_mint_resource,
  token_mint_wants, none_admitted, row_scope_user, row_scope_user_machine, row_box_access,
  row_box_owner, row_role, row_team, row_scraper, row_overlay_state, row_provision, row_lan_file,
  row_guild,
}

-- A row that gives resources and kinds only.
abbrev row : List ResourceKind → KindTable → Rule
row res kinds = record {
  resources = res;
  collection = [];
  kinds = kinds;
  denials = [];
  accept = none;
  wants = none;
}

abbrev record_row : Text → Rule
record_row collection = record (row (res_record ∷ []) row_scope_user) { collection = collection }

-- One row for each action.
unfoldable pub rules : Action → Rule
rules room_join = record (row (res_room ∷ []) none_admitted) { wants = some room_join_wants }
rules ws_send = row (res_global ∷ []) none_admitted
rules scraper_probe = row (res_instance ∷ []) row_scope_user_machine
rules scraper_events = row (res_instance ∷ []) row_scraper
rules scraper_state = row (res_instance ∷ []) row_scraper
rules scraper_ingest = row (res_global ∷ []) row_scope_user_machine
rules overlay_read_state = row (res_instance ∷ []) row_overlay_state
rules overlay_list_consoles = row (res_global ∷ []) row_scope_user_machine
rules overlay_mint = row (res_global ∷ []) row_scope_user_machine
rules box_view = row (res_container ∷ []) row_box_access
rules box_drive = row (res_container ∷ []) row_box_access
rules box_read = row (res_container ∷ []) row_box_access
rules box_control = row (res_container ∷ []) row_box_owner
rules box_teardown = row (res_container ∷ []) row_box_owner
rules box_provision = row (res_iso ∷ []) row_provision
rules box_provision_named = row (res_iso ∷ []) row_scope_user
rules container_manage = row (res_container ∷ res_global ∷ []) row_scope_user
rules admin_admin = row (res_global ∷ []) row_scope_user
rules admin_users = row (res_global ∷ []) row_scope_user
rules admin_containers = row (res_global ∷ []) row_scope_user
rules admin_scraper = row (res_global ∷ []) row_scope_user_machine
rules admin_xemu = row (res_global ∷ []) row_scope_user
rules admin_pod = row (res_global ∷ []) row_scope_user
rules library_manage = row (res_global ∷ res_iso ∷ []) row_scope_user
rules iso_set_policy = row (res_iso ∷ []) row_scope_user
rules role_grant = row (res_role ∷ []) row_role
rules role_revoke = record (row (res_role ∷ []) row_role) { denials = deny_last_admin ∷ [] }
rules user_moderate = row (res_user ∷ []) row_scope_user
rules user_soft_delete = row (res_user ∷ []) row_scope_user
rules gamertag_moderate = record_row (codes "gamertags")
rules team_moderate = record_row (codes "teams")
rules notif_admin_edit = record_row (codes "notifications")
rules team_invite = row (res_team ∷ []) row_team
rules team_remove = row (res_team ∷ []) row_team
rules team_decide = row (res_team ∷ []) row_team
rules lan_saves_identity = row (res_global ∷ []) row_scope_user_machine
rules lan_saves_file = row (res_lan_file ∷ []) row_lan_file
rules lan_saves_build = row (res_global ∷ []) row_scope_user_machine
rules lan_saves_download = row (res_global ∷ []) row_scope_user_machine
rules lan_saves_manifest = row (res_global ∷ []) row_scope_user_machine
rules lan_saves_meta = row (res_global ∷ []) row_scope_user_machine
rules lan_sync_manifest = row (res_global ∷ []) row_scope_user_machine
rules lan_sync_dl_game = row (res_iso ∷ []) row_scope_user_machine
rules lan_sync_dl_app = row (res_global ∷ []) row_scope_user_machine
rules token_mint = record (row (res_global ∷ []) row_scope_user_machine) {
  accept = some token_mint_resource;
  wants = some token_mint_wants;
}
rules token_revoke = row (res_token ∷ []) row_scope_user_machine
rules token_list = row (res_global ∷ []) row_scope_user_machine
rules discord_config = row (res_guild ∷ []) (row_guild pred_manage_guild)
rules discord_bind_channel = row (res_guild ∷ []) (row_guild pred_manage_guild)
rules discord_stats_read = row (res_guild ∷ []) (row_guild pred_always)
rules discord_box = row (res_container ∷ res_global ∷ []) (row_guild pred_linked)
rules discord_post = row [] none_admitted

-- parseRoom of the room's own selector gives the room back.
unfoldable pub same_room : Room → Room → Bool
same_room parsed rm =
    text_eq parsed.room_type rm.room_type
    && text_eq parsed.instance_name rm.instance_name
    && text_eq parsed.class rm.class

unfoldable pub room_canonical : Room → Bool
room_canonical rm = elim (parse_room (room_selector rm)) [
  | err e ↦ false
  | ok parsed ↦ same_room parsed rm
]

abbrev kind_eq : ResourceKind → ResourceKind → Bool
kind_eq j k = kind_index j == kind_index k

abbrev is_record : ResourceKind → Bool
is_record res_record = true
is_record _ = false

abbrev pub is_room : ResourceKind → Bool
is_room res_room = true
is_room _ = false

abbrev accepted_by : Option (Resource → Bool) → Resource → Bool
accepted_by none r = true
accepted_by (some accept) r = accept r

unfoldable pub accepts : Rule → Resource → Bool
accepts rl r =
    if not (is_empty rl.resources) && not (any (λ k. kind_eq k r.kind) rl.resources)
    then false
    else if is_record r.kind
        && (not (is_empty rl.collection) && not (text_eq r.collection rl.collection))
    then false
    else if is_room r.kind && not (room_canonical r.room)
    then false
    else accepted_by rl.accept r

unfoldable pub kinds_for : Rule → Resource → KindTable
kinds_for rl r k = if is_room r.kind then room_join_rules (room_shape r.room) k else rl.kinds k

abbrev wants_by : Option (Action → Resource → List Text) → Action → Resource → List Text
wants_by none a r = scope_for a r ∷ []
wants_by (some wants) a r = wants a r

unfoldable pub wants_for : Rule → Action → Resource → List Text
wants_for rl a r = wants_by rl.wants a r
