-- ===== src/Authz/Deps.antt =====
-- internal/authz/deps.go: what the rules ask of the outside world. The answers are arguments of the
-- model; only the methods that a rule calls are here.
use xemu_cartographer.Base.{ℕ, Bool, Option, List}
use xemu_cartographer.Text.{Text}

-- `role_level` answers `none` for an unknown slug, and `holds_role` for a lookup that failed.
pub record Deps : Type 0 where
  pub rostered_in : Text → Text → Bool
  pub owned_box : Text → Text
  pub team_authority : Text → Text → Bool
  pub role_level : Text → Option ℕ
  pub admin_count : ℕ
  pub holds_role : Text → Text → Option Bool

-- Times are numbers on one clock; `expires_at` is `none` for the zero time.
pub record TokenRow : Type 0 where
  pub kid : Text
  pub key_hash : Text
  pub kind : Text
  pub label : Text
  pub user_id : Text
  pub container : Text
  pub station_id : Text
  pub scopes : List Text
  pub gamertags : List Text
  pub expires_at : Option ℕ
  pub revoked : Bool
