-- ===== src/Authz/Action.antt =====
-- internal/authz/action.go: the closed vocabulary of actions. An action of the source is a string;
-- here a known one is a constructor, and `action_of` takes any text to the action it spells.
pub mod Names
use xemu_cartographer.Base.{
  ℕ, Bool, ◌==◌, ◌&&◌, Option, none, some, List, [], ◌∷◌, ◌++◌, if◌then◌else◌, any, is_empty, not,
}
use xemu_cartographer.Text.{Text, codes, text_eq, has_prefix}

pub data Action : Type 0 where
  room_join ws_send scraper_probe scraper_events scraper_state scraper_ingest overlay_read_state
        overlay_list_consoles overlay_mint box_view box_drive box_read box_control box_teardown
        box_provision box_provision_named container_manage admin_admin admin_users admin_containers
        admin_scraper admin_xemu admin_pod library_manage iso_set_policy role_grant role_revoke
        user_moderate user_soft_delete gamertag_moderate team_moderate notif_admin_edit team_invite
        team_remove team_decide lan_saves_identity lan_saves_file lan_saves_build lan_saves_download
        lan_saves_manifest lan_saves_meta lan_sync_manifest lan_sync_dl_game lan_sync_dl_app
        token_mint token_revoke token_list discord_config discord_bind_channel discord_stats_read
        discord_box discord_post :
      Action

-- string(a)
unfoldable pub action_text : Action → Text
action_text room_join = codes "room.join"
action_text ws_send = codes "ws.send"
action_text scraper_probe = codes "scraper.probe"
action_text scraper_events = codes "scraper.events"
action_text scraper_state = codes "scraper.state"
action_text scraper_ingest = codes "scraper.ingest"
action_text overlay_read_state = codes "overlay.read_state"
action_text overlay_list_consoles = codes "overlay.list_consoles"
action_text overlay_mint = codes "overlay.mint"
action_text box_view = codes "box.view"
action_text box_drive = codes "box.drive"
action_text box_read = codes "box.read"
action_text box_control = codes "box.control"
action_text box_teardown = codes "box.teardown"
action_text box_provision = codes "box.provision"
action_text box_provision_named = codes "box.provision_named"
action_text container_manage = codes "container.manage"
action_text admin_admin = codes "admin.admin"
action_text admin_users = codes "admin.users"
action_text admin_containers = codes "admin.containers"
action_text admin_scraper = codes "admin.scraper"
action_text admin_xemu = codes "admin.xemu"
action_text admin_pod = codes "admin.pod"
action_text library_manage = codes "library.manage"
action_text iso_set_policy = codes "iso.set_policy"
action_text role_grant = codes "role.grant"
action_text role_revoke = codes "role.revoke"
action_text user_moderate = codes "user.moderate"
action_text user_soft_delete = codes "user.soft_delete"
action_text gamertag_moderate = codes "gamertag.moderate"
action_text team_moderate = codes "team.moderate"
action_text notif_admin_edit = codes "notification.admin_edit"
action_text team_invite = codes "team.invite"
action_text team_remove = codes "team.remove"
action_text team_decide = codes "team.decide"
action_text lan_saves_identity = codes "lan.saves.identity"
action_text lan_saves_file = codes "lan.saves.file"
action_text lan_saves_build = codes "lan.saves.build"
action_text lan_saves_download = codes "lan.saves.download"
action_text lan_saves_manifest = codes "lan.saves.manifest"
action_text lan_saves_meta = codes "lan.saves.meta"
action_text lan_sync_manifest = codes "lan.sync.manifest"
action_text lan_sync_dl_game = codes "lan.sync.download_game"
action_text lan_sync_dl_app = codes "lan.sync.download_app"
action_text token_mint = codes "token.mint"
action_text token_revoke = codes "token.revoke"
action_text token_list = codes "token.list"
action_text discord_config = codes "discord.config"
action_text discord_bind_channel = codes "discord.bind_channel"
action_text discord_stats_read = codes "discord.stats.read"
action_text discord_box = codes "discord.box"
action_text discord_post = codes "discord.post"

unfoldable pub all_actions : List Action
all_actions =
    room_join ∷ ws_send ∷ scraper_probe ∷ scraper_events ∷ scraper_state ∷ scraper_ingest
    ∷ overlay_read_state ∷ overlay_list_consoles ∷ overlay_mint ∷ box_view ∷ box_drive ∷ box_read
    ∷ box_control ∷ box_teardown ∷ box_provision ∷ box_provision_named ∷ container_manage
    ∷ admin_admin ∷ admin_users ∷ admin_containers ∷ admin_scraper ∷ admin_xemu ∷ admin_pod
    ∷ library_manage ∷ iso_set_policy ∷ role_grant ∷ role_revoke ∷ user_moderate ∷ user_soft_delete
    ∷ gamertag_moderate ∷ team_moderate ∷ notif_admin_edit ∷ team_invite ∷ team_remove ∷ team_decide
    ∷ lan_saves_identity ∷ lan_saves_file ∷ lan_saves_build ∷ lan_saves_download
    ∷ lan_saves_manifest ∷ lan_saves_meta ∷ lan_sync_manifest ∷ lan_sync_dl_game ∷ lan_sync_dl_app
    ∷ token_mint ∷ token_revoke ∷ token_list ∷ discord_config ∷ discord_bind_channel
    ∷ discord_stats_read ∷ discord_box ∷ discord_post ∷ []

find_action : Text → List Action → Option Action
find_action t [] = none
find_action t (a ∷ as') = if text_eq (action_text a) t then some a else find_action t as'

-- The constant that a text spells; `none` is an unknown action (Known answers false).
unfoldable pub action_of : Text → Option Action
unfolding find_action
action_of t = find_action t all_actions

abbrev or_empty : Option Text → Text
or_empty none = []
or_empty (some t) = t

-- Action.Family: everything before the last dot, and "" without a dot.
abbrev before_dot : ℕ → Text → Option Text → Option Text
before_dot c s (some fam) = some (c ∷ fam)
before_dot c s none = if c == b'.' then some [] else none

family_of : Text → Option Text
family_of [] = none
family_of (c ∷ s) = before_dot c s (family_of s)

unfoldable pub family : Action → Text
unfolding family_of
family a = or_empty (family_of (action_text a))

-- isActionFamily: a dotted prefix of some known action
unfoldable pub is_action_family : Text → Bool
is_action_family fam =
    not (is_empty fam) && any (λ a. has_prefix (fam ++ codes ".") (action_text a)) all_actions
