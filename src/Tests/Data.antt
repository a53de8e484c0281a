-- ===== src/Tests/Data.antt =====
-- Inputs that the tests share.
use xemu_cartographer.Base.{true, false, some, [], ◌∷◌}
use xemu_cartographer.Text.{Text, codes}
use xemu_cartographer.Authz.Deps.{Deps, TokenRow}
use xemu_cartographer.Authz.Principal.{
  Principal, empty_principal, pb_user, spectator, bind_instance,
}
use xemu_cartographer.Authz.Resource.{Room}

-- Two admins; u1 is in the roster of box1 and owns no box.
abbrev pub two_admins : Deps
two_admins = record {
  rostered_in = λ u i. true;
  owned_box = λ u. [];
  team_authority = λ u t. false;
  role_level = λ slug. some 50;
  admin_count = 2;
  holds_role = λ u slug. some true;
}

-- A user with level 50 and two scopes.
abbrev pub organizer : Principal
organizer = record (empty_principal pb_user) {
  user_id = codes "u1";
  level = 50;
  scopes = codes "lan.*" ∷ codes "role.*" ∷ [];
}

abbrev pub overlay_scope : Text
overlay_scope = codes "overlay.read_state:box1"

abbrev pub tick_scope : Text
tick_scope = codes "room.join:host:box1:tick"

-- A spectator key for box1.
abbrev pub viewer : Principal
viewer = record (empty_principal spectator) {
  scopes = overlay_scope ∷ tick_scope ∷ [];
  bound = bind_instance (codes "box1");
}

abbrev pub public_name : Room
public_name = record {
  room_type = codes "public";
  instance_name = [];
  class = [];
  raw = codes "public";
}

abbrev pub spectator_row : TokenRow
spectator_row = record {
  kid = codes "sp_1";
  key_hash = codes "abc";
  kind = codes "spectator";
  label = [];
  user_id = [];
  container = [];
  station_id = [];
  scopes = overlay_scope ∷ tick_scope ∷ [];
  gamertags = [];
  expires_at = some 10;
  revoked = false;
}
