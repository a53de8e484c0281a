-- ===== src/Authz/Resource.antt =====
-- internal/authz/resource.go: what an action is applied to.
use xemu_cartographer.Base.{ℕ, Bool, ◌&&◌, not, [], ◌∷◌, ◌++◌, if◌then◌else◌, is_empty}
use xemu_cartographer.Text.{Text, codes, text_eq, elem, Attrs}
use xemu_cartographer.Authz.Scope.{colon, host_room_type, host_aggregate_instances}

-- `other_resource` stands for any string that is no constant, the zero value among them.
pub data ResourceKind : Type 0 where
  res_global res_instance res_container res_room res_user res_role res_team res_record res_iso
        res_lan_file res_token res_guild other_resource :
      ResourceKind

-- Two kinds are the same string exactly when these agree.
abbrev pub kind_index : ResourceKind → ℕ
kind_index res_global = 0
kind_index res_instance = 1
kind_index res_container = 2
kind_index res_room = 3
kind_index res_user = 4
kind_index res_role = 5
kind_index res_team = 6
kind_index res_record = 7
kind_index res_iso = 8
kind_index res_lan_file = 9
kind_index res_token = 10
kind_index res_guild = 11
kind_index other_resource = 12

-- Field `class` is "" for the bare room; `raw` is the text that the client sent.
pub record Room : Type 0 where
  pub room_type : Text
  pub instance_name : Text
  pub class : Text
  pub raw : Text

unfoldable pub is_host : Room → Bool
is_host rm = text_eq rm.room_type host_room_type

unfoldable pub is_host_aggregate : Room → Bool
is_host_aggregate rm = is_host rm && elem rm.instance_name host_aggregate_instances

-- Room.Selector
unfoldable pub room_selector : Room → Text
room_selector rm =
    if not (is_host rm)
    then rm.room_type
    else if is_empty rm.class
    then host_room_type ++ (colon ∷ rm.instance_name)
    else host_room_type ++ (colon ∷ (rm.instance_name ++ (colon ∷ rm.class)))

pub record Resource : Type 0 where
  pub kind : ResourceKind
  pub id : Text
  pub collection : Text
  pub owner : Text
  pub room : Room
  pub extra : Attrs

abbrev pub no_room : Room
no_room = record { room_type = []; instance_name = []; class = []; raw = [] }

-- A resource of a kind that has an id and nothing else.
abbrev pub plain : ResourceKind → Text → Resource
plain k id = record { kind = k; id = id; collection = []; owner = []; room = no_room; extra = [] }

abbrev pub global : Resource
global = plain res_global []

abbrev pub instance_res : Text → Resource
instance_res name = plain res_instance name

abbrev pub container : Text → Resource
container name = plain res_container name

abbrev pub room_res : Room → Resource
room_res rm = record (plain res_room []) { room = rm }

abbrev pub token_res : Text → Resource
token_res kid = plain res_token kid

abbrev pub role : Text → Text → Resource
role slug target = record (plain res_role slug) { extra = (codes "target_user", target) ∷ [] }

abbrev pub lan_file : Text → Text → Text → Resource
lan_file file_kind id owner = record (plain res_lan_file (file_kind ++ b'/' ∷ id)) {
  owner = owner;
  extra = (codes "kind", file_kind) ∷ [];
}

select : ResourceKind → Resource → Text
select res_global r = []
select res_room r = room_selector r.room
select _ r = r.id

-- Resource.Selector
unfoldable pub selector : Resource → Text
unfolding select
selector r = select r.kind r

instance_by : ResourceKind → Resource → Text
instance_by res_room r = if is_host_aggregate r.room then [] else r.room.instance_name
instance_by res_instance r = r.id
instance_by res_container r = r.id
instance_by _ r = []

-- Resource.instance: what a binding is compared with
unfoldable pub instance_of : Resource → Text
unfolding instance_by
instance_of r = instance_by r.kind r
