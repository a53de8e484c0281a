-- ===== src/Authz/Seed.antt =====
-- internal/authz/seed.go: the built-in roles.
pub mod Delegated
pub mod Lookup
use xemu_cartographer.Base.{ℕ, Option, none, some, List, [], ◌∷◌, if◌then◌else◌}
use xemu_cartographer.Text.{Text, codes, text_eq}

pub record RoleSeed : Type 0 where
  pub slug : Text
  pub label : Text
  pub level : ℕ
  pub scopes : List Text

abbrev pub seed_admin : RoleSeed
seed_admin = record {
  slug = codes "admin";
  label = codes "Admin";
  level = 100;
  scopes =
      codes "admin.*"
      ∷ codes "library.manage:*"
      ∷ codes "iso.set_policy:*"
      ∷ codes "role.*"
      ∷ codes "user.*"
      ∷ codes "gamertag.moderate:*"
      ∷ codes "team.*"
      ∷ codes "notification.admin_edit:*"
      ∷ codes "container.manage:*"
      ∷ codes "box.*"
      ∷ codes "lan.*"
      ∷ codes "room.join:*"
      ∷ codes "scraper.*"
      ∷ codes "overlay.*"
      ∷ codes "token.*"
      ∷ [];
}

abbrev pub seed_organizer : RoleSeed
seed_organizer = record {
  slug = codes "organizer";
  label = codes "Organizer";
  level = 50;
  scopes =
      codes "library.manage:*"
      ∷ codes "iso.set_policy:*"
      ∷ codes "lan.saves.meta"
      ∷ codes "lan.saves.build"
      ∷ codes "lan.saves.download"
      ∷ [];
}

abbrev pub seed_member : RoleSeed
seed_member = record {
  slug = codes "member";
  label = codes "Member";
  level = 10;
  scopes = codes "lan.saves.meta" ∷ [];
}

abbrev pub seed_overlay_manager : RoleSeed
seed_overlay_manager = record {
  slug = codes "overlay_manager";
  label = codes "Overlay manager";
  level = 40;
  scopes = codes "overlay.mint" ∷ codes "overlay.list_consoles" ∷ codes "overlay.read_state:*" ∷ [];
}

abbrev pub seed_anonymous : RoleSeed
seed_anonymous = record {
  slug = codes "anonymous";
  label = codes "Anonymous";
  level = 0;
  scopes =
      codes "room.join:host:*:game_filtered"
      ∷ codes "room.join:host:*:tick"
      ∷ codes "room.join:host:*:scenario"
      ∷ codes "room.join:host:*:event_filtered"
      ∷ codes "overlay.read_state:*"
      ∷ [];
}

abbrev pub seed_roles : List RoleSeed
seed_roles = seed_admin ∷ seed_organizer ∷ seed_member ∷ seed_overlay_manager ∷ seed_anonymous ∷ []

unfoldable pub find_seed : Text → List RoleSeed → Option RoleSeed
find_seed slug [] = none
find_seed slug (r ∷ rs) = if text_eq r.slug slug then some r else find_seed slug rs

-- SeedRole
unfoldable pub seed_role : Text → Option RoleSeed
seed_role slug = find_seed slug seed_roles
