-- ===== src/Authz/Decision/Admins.antt =====
-- Granting and revoking roles: nobody reaches above their own level, and an admin remains.
use xemu_cartographer.Base.{
  here, there, is_empty, ◌≡◌, ◌≢◌, ◌<◌, ◌≤◌, ℕ, refl, ◌⊎◌, inl, inr, Bool, true, false, Option,
  none, some, List, [], ◌∷◌, arith, Option-cases, In, Any, ap,
}
use xemu_cartographer.Text.{Text, codes, attr}
use xemu_cartographer.Text.Laws.{text_eq_refl}
use xemu_cartographer.Authz.Action.{Action, action_text, role_grant, role_revoke}
use xemu_cartographer.Authz.Action.Names.{action_of-action_text}
use xemu_cartographer.Authz.Deps.{Deps}
use xemu_cartographer.Authz.Scope.{match}
use xemu_cartographer.Authz.Principal.{Kind, pb_user, superuser, internal, Principal}
use xemu_cartographer.Authz.Resource.{Resource}
use xemu_cartographer.Authz.Predicates.{deny_last_admin, pred_level_ok}
use xemu_cartographer.Authz.Cells.{KindTable, row_role, scope_for}
use xemu_cartographer.Authz.Rules.{rules, accepts, kinds_for, wants_for, is_room}
use xemu_cartographer.Authz.Decision.{
  by_kind, by_cell, by_mode, verdict, first_match, can, denied_by,
}
use xemu_cartographer.Authz.Decision.Inversion.{Admitted, can-Admitted}
use xemu_cartographer.Authz.Decision.Matching.{first_match_sound}

-- The request was decided under the rule of the action that it spells.
act-of-text :
    (deps : Option Deps) (p : Principal) (a : Action) (r : Resource)
    (adm : Admitted deps p (action_text a) r)
    → adm.act ≡ a
act-of-text deps p a r adm = cc (adm.names, action_of-action_text a)

nonempty : (t : Text) → is_empty t ≡ false → t ≢ []
nonempty [] h e = cc
nonempty (x ∷ t) h e = cc

-- Somebody else is an admin, or the target is known not to be one.
abbrev pub AdminRemains : Deps → Text → Type 0
AdminRemains ds target =
    (1 < ds.admin_count) ⊎ ((target ≢ []) × (ds.holds_role target (codes "admin") ≡ some false))

denied-AdminRemains :
    (ds : Deps) (p : Principal) (r : Resource)
    → p.kind ≢ internal
    → r.id ≡ codes "admin"
    → denied_by (rules role_revoke).denials ds p r ≡ none
    → AdminRemains ds (attr (codes "target_user") r.extra)
unfolding rules denied_by deny_last_admin
denied-AdminRemains ds p r k e h =
    ground (arith, text_eq_refl (codes "admin"), nonempty (attr (codes "target_user") r.extra))

-- Whoever revokes the admin role, a superuser too, leaves an admin; in-process callers are exempt.
pub role_revoke-AdminRemains :
    (ds : Deps) (p : Principal) (r : Resource)
    → p.kind ≢ internal
    → r.id ≡ codes "admin"
    → can (some ds) p (codes "role.revoke") r ≡ true
    → AdminRemains ds (attr (codes "target_user") r.extra)
unfolding action_text
role_revoke-AdminRemains ds p r k e h =
    let adm = can-Admitted (some ds) p (codes "role.revoke") r h in
    let revokes = act-of-text (some ds) p role_revoke r adm in
    let same : adm.ds ≡ ds = cc (adm.answers) in
    denied-AdminRemains ds p r k e (rw (revokes, same) at adm.not_denied)

-- A user who may grant or revoke this role.
pub record OutRanks (ds : Deps) (p : Principal) (a : Action) (r : Resource) : Type 0 where
  pub user : p.kind ≡ pb_user
  pub level : ℕ
  pub known : ds.role_level r.id ≡ some level
  pub reached : level ≤ p.level
  pub scope : Text
  pub held : In scope p.scopes
  pub grants : match scope (scope_for a r) ≡ true

abbrev pub is_allow_all : Kind → Bool
is_allow_all superuser = true
is_allow_all internal = true
is_allow_all _ = false

role-table :
    (a : Action)
    → (a ≡ role_grant) ⊎ (a ≡ role_revoke)
    → ((r : Resource) → accepts (rules a) r ≡ true → is_room r.kind ≡ false)
      × ((rules a).kinds ≡ row_role)
      × ((r : Resource) → wants_for (rules a) a r ≡ scope_for a r ∷ [])
unfolding rules accepts wants_for
role-table role_grant e = (λ r h. ground arith, refl, λ r. refl)
role-table role_revoke e = (λ r h. ground arith, refl, λ r. refl)
role-table _ e = absurd (ground arith)

role-cell :
    (k : Kind) (wants : List Text) (ds : Deps) (p : Principal) (r : Resource)
    → (by_cell (row_role k) wants ds p r).allow ≡ true
    → (k ≡ pb_user)
      × ((level : ℕ) × (ds.role_level r.id ≡ some level) × (level ≤ p.level))
      × ((s : Text) × (first_match p.scopes wants ≡ some s))
unfolding by_cell row_role by_mode verdict pred_level_ok
role-cell pb_user wants ds p r h = elim (Option-cases (first_match p.scopes wants)) [
  | inl e ↦ absurd (ground arith)
  | inr (s, e) ↦ elim (Option-cases (ds.role_level r.id)) [
    | inl u ↦ absurd (ground arith)
    | inr (level, l) ↦ (refl, (level, l, ground arith), (s, e))
  ]
]
role-cell _ wants ds p r h = absurd (ground arith)

role-kind :
    (a : Action) (ds : Deps) (p : Principal) (r : Resource)
    → (a ≡ role_grant) ⊎ (a ≡ role_revoke)
    → is_allow_all p.kind ≡ false
    → accepts (rules a) r ≡ true
    → by_kind p.kind (rules a) a ds p r ≡ by_cell (row_role p.kind) (scope_for a r ∷ []) ds p r
role-kind a ds p r e k acc =
    let (roomless, kinds, wants) = role-table a e in
    unfold by_kind kinds_for in
    ground (arith, roomless r acc, ap (λ (t : KindTable). t p.kind) kinds, wants r)

any-one : {A : Type 0} {P : A → Type 0} {x : A} → Any P (x ∷ []) → P x
any-one (here h) = h
any-one (there h) = elim h [ ]

-- Whoever grants or revokes a role, superusers and in-process callers apart, is a user, holds a
-- scope for that role, and has a level that reaches the role's.
pub role_change-OutRanks :
    (a : Action) (ds : Deps) (p : Principal) (r : Resource)
    → (a ≡ role_grant) ⊎ (a ≡ role_revoke)
    → is_allow_all p.kind ≡ false
    → can (some ds) p (action_text a) r ≡ true
    → OutRanks ds p a r
role_change-OutRanks a ds p r e k h =
    let adm = can-Admitted (some ds) p (action_text a) r h in
    let same : adm.ds ≡ ds = cc (adm.answers) in
    let acts = act-of-text (some ds) p a r adm in
    let accepted : accepts (rules a) r ≡ true = rw acts at adm.accepted in
    let passes : (by_kind p.kind (rules a) a ds p r).allow ≡ true = rw (acts, same) at adm.passes in
    let (user, ranks, found) =
      role-cell p.kind (scope_for a r ∷ []) ds p r
        (rw (role-kind a ds p r e k accepted) at passes) in
    let (level, known, reached) = ranks in
    let (s, first) = found in
    let (held, grants) = first_match_sound p.scopes (scope_for a r ∷ []) s first in
    record {
      user = user;
      level = level;
      known = known;
      reached = reached;
      scope = s;
      held = held;
      grants = any-one grants;
    }
