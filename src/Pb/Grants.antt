-- ===== src/Pb/Grants.antt =====
-- internal/authz/pb/grant.go, and what it needs of deps.go and holds_role.go: granting and revoking
-- roles. The PocketBase app is a record of the calls that the code makes of it, on a state of its own.
pub mod Counts
pub mod Laws
pub mod Revokes
pub mod Granted
use xemu_cartographer.Base.{
  ℕ, suc, ◌-◌, ltb, Bool, true, false, not, ◌&&◌, ◌||◌, Option, none, some, List, [], ◌∷◌, ◌++◌,
  is_empty, if◌then◌else◌,
}
use xemu_cartographer.Text.{Text, codes, text_eq, trim_space, elem}
use xemu_cartographer.Authz.Action.{action_text, role_grant, role_revoke}
use xemu_cartographer.Authz.Deps.{Deps}
use xemu_cartographer.Authz.Principal.{
  Kind, superuser, internal, machine, spectator, device, discord, Principal,
}
use xemu_cartographer.Authz.Resource.{role}
use xemu_cartographer.Authz.Decision.{Decision, can_with}

-- A lookup finds a value, finds nothing (sql.ErrNoRows), or fails.
pub data Lookup {κ} (A : Type κ) : Type κ where
  found : (value : A) → Lookup A
  missing broken : Lookup A

pub record AuditEntry : Type 0 where
  pub revokes : Bool
  pub role_slug : Text
  pub target : Text
  pub reason : Text
  pub by_migration : Bool
  pub by_superuser : Bool
  pub actor : Text

-- The calls of core.App; a write answers `none` when it fails.
pub record App (S : Type 0) : Type 0 where
  pub role_by_slug : Text → S → Lookup Text
  pub user_role_row : Text → Text → S → Lookup Text
  pub admin_role_users : S → Option (List Text)
  pub has_deleted_at : S → Bool
  pub user_deleted : Text → S → Lookup Bool
  pub all_roles : S → Option (List (Text × ℕ))
  pub save_user_role : Text → Text → Text → S → Option S
  pub delete_user_role : Text → S → Option S
  pub write_audit : AuditEntry → S → Option S

pub data GrantError : Type 0 where
  no_user no_slug not_grantable unknown_role level_too_low last_admin forbidden lookup_failed
        write_failed :
      GrantError

pub data Reply : Type 0 where
  done : Reply
  refused : (e : GrantError) → Reply

-- The test of adminCount's loop on a user that was found.
abbrev is_live : Bool → Lookup Bool → Bool
is_live has_field (found deleted) = not (has_field && deleted)
is_live has_field missing = false
is_live has_field broken = false

-- The loop of adminCount over the users of the rows, with those it has counted.
unfoldable pub count_live : (Text → Bool) → List Text → List Text → ℕ
count_live live seen [] = 0
count_live live seen (u ∷ users) =
    let rest = count_live live seen users in
    let counted = count_live live (u ∷ seen) users in
    if is_empty u || elem u seen then rest else if live u then suc counted else rest

-- loadRoles and RoleLevel: a later row of the same slug wins, and an empty slug is skipped.
unfoldable pub level_in : Text → List (Text × ℕ) → Option ℕ
level_in slug [] = none
level_in slug ((name, level) ∷ rows) = elim (level_in slug rows) [
  | some l ↦ some l
  | none ↦ if not (is_empty name) && text_eq name slug then some level else none
]

-- A failed read gives no rows.
abbrev rows_of : Option (List (Text × ℕ)) → List (Text × ℕ)
rows_of none = []
rows_of (some rows) = rows

abbrev pub roles_cache_ttl : ℕ
roles_cache_ttl = 60000000000

-- The roles that an adapter has read, and when, in nanoseconds.
pub record RolesCache : Type 0 where
  pub roles : List (Text × ℕ)
  pub roles_at : ℕ

abbrev holds_row : Lookup Text → Option Bool
holds_row (found row) = some true
holds_row missing = some false
holds_row broken = none

-- decisionError
unfoldable pub decision_error : Text → GrantError
decision_error reason =
    if text_eq reason (codes "pred:unknown_role")
    then unknown_role
    else if text_eq reason (codes "pred:level_ok")
    then level_too_low
    else if text_eq reason (codes "deny:last_admin")
    then last_admin
    else forbidden

label_with : Text → Text → Text
label_with prefix id = if is_empty id then [] else prefix ++ id

-- auditActorLabel
unfoldable pub audit_actor_label : Kind → Text → Text
unfolding label_with
audit_actor_label discord id = label_with (codes "discord:") id
audit_actor_label internal id = label_with (codes "internal:") id
audit_actor_label machine id = label_with (codes "machine:") id
audit_actor_label spectator id = label_with (codes "spectator:") id
audit_actor_label device id = label_with (codes "device:") id
audit_actor_label _ id = []

abbrev is_superuser : Kind → Bool
is_superuser superuser = true
is_superuser _ = false

abbrev is_internal : Kind → Bool
is_internal internal = true
is_internal _ = false

abbrev entry : Bool → Principal → Text → Text → Text → AuditEntry
entry revokes actor user slug reason = record {
  revokes = revokes;
  role_slug = slug;
  target = user;
  reason = reason;
  by_migration = not revokes && is_internal actor.kind;
  by_superuser = is_superuser actor.kind;
  actor = audit_actor_label actor.kind actor.id;
}

-- RunInTransaction keeps the state of before if the body answers an error.
abbrev in_transaction {κ} : {S : Type κ} → S → Reply × S → Reply × S
in_transaction s (done, s1) = (done, s1)
in_transaction s (refused e, s1) = (refused e, s)

-- `granted_by` of a new row
abbrev granted_by : Principal → Text
granted_by actor = if text_eq actor.collection (codes "users") then actor.user_id else []

module _ {S : Type 0} (app : App S) where
  abbrev live_user : S → Text → Bool
  live_user s u = is_live (app.has_deleted_at s) (app.user_deleted u s)

  abbrev count_rows : S → Option (List Text) → ℕ
  count_rows s none = 0
  count_rows s (some users) = count_live (live_user s) [] users

  -- adminCount
  unfoldable pub admin_count : S → ℕ
  admin_count s = count_rows s (app.admin_role_users s)

  abbrev pub stored_roles : S → List (Text × ℕ)
  stored_roles s = rows_of (app.all_roles s)

  -- rolesTable: the rows that the adapter has, while they are younger than the TTL.
  unfoldable pub roles_table : Option RolesCache → ℕ → S → List (Text × ℕ)
  roles_table none now s = stored_roles s
  roles_table (some cache) now s =
      if ltb (now - cache.roles_at) roles_cache_ttl then cache.roles else stored_roles s

  -- RoleLevel
  unfoldable pub role_level : Option RolesCache → ℕ → Text → S → Option ℕ
  role_level cache now slug s = level_in slug (roles_table cache now s)

  abbrev holds_of_role : Text → S → Lookup Text → Option Bool
  holds_of_role user s (found id) = holds_row (app.user_role_row user id s)
  holds_of_role user s missing = some false
  holds_of_role user s broken = none

  -- HoldsRole
  unfoldable pub holds_role : Text → Text → S → Option Bool
  holds_role user slug s =
      let u = trim_space user in
      let name = trim_space slug in
      if is_empty u || is_empty name then none else holds_of_role u s (app.role_by_slug name s)

  -- The adapter over the app, with the roles that it has read; `base` has the answers that no role
  -- changes.
  unfoldable pub deps_at : Option RolesCache → ℕ → Deps → S → Deps
  deps_at cache now base s = record base {
    role_level = λ slug. role_level cache now slug s;
    admin_count = admin_count s;
    holds_role = λ user slug. holds_role user slug s;
  }

  -- withApp: an adapter that has read nothing yet, as Revoke makes for its transaction.
  unfoldable pub pb_deps : Deps → S → Deps
  pb_deps base s = deps_at none 0 base s

  abbrev audit_reply : S → Option S → Reply × S
  audit_reply s1 none = (refused write_failed, s1)
  audit_reply s1 (some s2) = (done, s2)

  -- The audit row, after a write; `none` is a failed write.
  unfoldable pub audited : AuditEntry → S → Option S → Reply × S
  audited e s none = (refused write_failed, s)
  audited e s (some s1) = audit_reply s1 (app.write_audit e s1)

  unfoldable pub delete_row : AuditEntry → S → Lookup Text → Reply × S
  delete_row e s (found row) = audited e s (app.delete_user_role row s)
  delete_row e s missing = (done, s)
  delete_row e s broken = (done, s)

  unfoldable pub revoke_role : AuditEntry → Text → S → Lookup Text → Reply × S
  revoke_role e user s (found id) = delete_row e s (app.user_role_row user id s)
  revoke_role e user s missing = (refused unknown_role, s)
  revoke_role e user s broken = (refused unknown_role, s)

  -- revokeTx; the warning in the log is left out.
  unfoldable pub revoke_tx : Deps → Principal → Text → Text → Text → S → Reply × S
  revoke_tx base actor user slug reason s =
      let dec = can_with (some (pb_deps base s)) actor (action_text role_revoke) (role slug user) in
      if not dec.allow
      then (refused (decision_error dec.reason), s)
      else revoke_role (entry true actor user slug reason) user s (app.role_by_slug slug s)

  -- Revoke
  unfoldable pub revoke : Deps → Principal → Text → Text → Text → S → Reply × S
  revoke base actor user slug reason s =
      let u = trim_space user in
      let name = trim_space slug in
      if is_empty u
      then (refused no_user, s)
      else if is_empty name
      then (refused no_slug, s)
      else in_transaction s (revoke_tx base actor u name reason s)

  unfoldable pub save_row : AuditEntry → Principal → Text → Text → S → Lookup Bool → Reply × S
  save_row e actor user id s (found deleted) =
      audited e s (app.save_user_role user id (granted_by actor) s)
  save_row e actor user id s missing = (refused lookup_failed, s)
  save_row e actor user id s broken = (refused lookup_failed, s)

  -- An existing row is left as it is; a failed lookup counts as no row.
  unfoldable pub add_row : AuditEntry → Principal → Text → Text → S → Lookup Text → Reply × S
  add_row e actor user id s (found row) = (done, s)
  add_row e actor user id s missing = save_row e actor user id s (app.user_deleted user s)
  add_row e actor user id s broken = save_row e actor user id s (app.user_deleted user s)

  unfoldable pub grant_role : AuditEntry → Principal → Text → S → Lookup Text → Reply × S
  grant_role e actor user s (found id) = add_row e actor user id s (app.user_role_row user id s)
  grant_role e actor user s missing = (refused unknown_role, s)
  grant_role e actor user s broken = (refused unknown_role, s)

  -- Grant from its decision on. The decision is the caller's adapter's, with the roles that it has
  -- read; an adapter that depsOr makes has read none.
  unfoldable pub grant_decided :
      Option RolesCache → ℕ → Deps → Principal → Text → Text → Text → S → Reply × S
  grant_decided cache now base actor user slug reason s =
      let dec =
        can_with (some (deps_at cache now base s)) actor (action_text role_grant)
          (role slug user) in
      if not dec.allow
      then (refused (decision_error dec.reason), s)
      else grant_role (entry false actor user slug reason) actor user s (app.role_by_slug slug s)

  -- Grant; its rows are not written in a transaction. What the adapter has read afterwards is not
  -- modelled.
  unfoldable pub grant :
      Option RolesCache → ℕ → Deps → Principal → Text → Text → Text → S → Reply × S
  grant cache now base actor user slug reason s =
      let u = trim_space user in
      let name = trim_space slug in
      if is_empty u
      then (refused no_user, s)
      else if is_empty name
      then (refused no_slug, s)
      else if text_eq name (codes "anonymous")
      then (refused not_grantable, s)
      else grant_decided cache now base actor u name reason s
