-- ===== src/Authz/Decision/Confined.antt =====
-- The kinds that are bound to one instance: spectator and device keys, and the console door.
use xemu_cartographer.Base.{
  In, Any, ◌≡◌, refl, sym, ap, ◌∙◌, ◌⊎◌, inl, inr, Bool, true, false, Option, none, some, List,
  arith, Option-cases,
}
use xemu_cartographer.Text.{Text, codes}
use xemu_cartographer.Authz.Action.{Action, room_join, discord_post, action_text, action_of}
use xemu_cartographer.Authz.Action.Names.{action_text-action_of}
use xemu_cartographer.Authz.Scope.{match}
use xemu_cartographer.Authz.Decision.Matching.{first_match_sound}
use xemu_cartographer.Authz.Deps.{Deps}
use xemu_cartographer.Authz.Principal.{
  Kind, spectator, device, anonymous, Principal, bound_instance,
}
use xemu_cartographer.Authz.Resource.{Resource, res_room, instance_of}
use xemu_cartographer.Authz.Ws.{same_instance}
use xemu_cartographer.Authz.Predicates.{pred_bound}
use xemu_cartographer.Authz.Cells.{
  RoomShape, host_bare, public_room, cell_bound, cell_always, room_join_rules, room_shape,
  row_scope_user, row_scope_user_machine, row_box_access, row_box_owner, row_role, row_team,
  row_scraper, row_overlay_state, row_provision, row_lan_file, row_guild,
}
use xemu_cartographer.Authz.Rules.{accepts, room_canonical, rules, kinds_for, wants_for}
use xemu_cartographer.Authz.Decision.{by_kind, by_cell, by_mode, verdict, first_match, can}
use xemu_cartographer.Authz.Decision.Inversion.{can-Admitted}

abbrev pub is_bound_kind : Kind → Bool
is_bound_kind spectator = true
is_bound_kind device = true
is_bound_kind anonymous = true
is_bound_kind _ = false

-- A room of a registered type other than host and admin.
abbrev pub IsPublicRoom : Resource → Type 0
IsPublicRoom r = (r.kind ≡ res_room) × (room_shape r.room ≡ public_room)

-- To join a public room of canonical form, or to ask for discord.post at one.
abbrev pub IsOpenRequest : Text → Resource → Type 0
IsOpenRequest t r =
    ((t ≡ codes "room.join") ⊎ (t ≡ codes "discord.post"))
    × IsPublicRoom r
    × (room_canonical r.room ≡ true)

-- The actions whose rules take rooms: room.join, and discord.post, which takes any resource.
accepts-room :
    (a : Action) (r : Resource)
    → r.kind ≡ res_room
    → accepts (rules a) r ≡ true
    → ((a ≡ room_join) ⊎ (a ≡ discord_post)) × (room_canonical r.room ≡ true)
unfolding rules accepts
accepts-room room_join r k h = ground arith
accepts-room _ r k h = ground arith

-- Outside rooms the table gives a bound kind no cell but the binding's.
table-bound :
    (a : Action) (k : Kind)
    → is_bound_kind k ≡ true
    → ((rules a).kinds k ≡ none) ⊎ ((rules a).kinds k ≡ some cell_bound)
unfolding rules row_scope_user row_scope_user_machine row_box_access row_box_owner row_role row_team
    row_scraper row_overlay_state row_provision row_lan_file row_guild
table-bound room_join k b = inl refl
table-bound _ k b = ground arith

room-bound :
    (shape : RoomShape) (k : Kind)
    → is_bound_kind k ≡ true
    → (room_join_rules shape k ≡ none)
      ⊎ (room_join_rules shape k ≡ some cell_bound)
      ⊎ ((shape ≡ public_room) × (room_join_rules shape k ≡ some cell_always))
unfolding room_join_rules
room-bound host_bare k b = ground arith
room-bound _ k b = ground arith

-- The cells of a bound kind: none, the binding's, or the open one of a public room.
cells-bound :
    (a : Action) (r : Resource) (k : Kind)
    → is_bound_kind k ≡ true
    → (kinds_for (rules a) r k ≡ none)
      ⊎ (kinds_for (rules a) r k ≡ some cell_bound)
      ⊎ (IsPublicRoom r × (kinds_for (rules a) r k ≡ some cell_always))
unfolding kinds_for
cells-bound a r k b = ground (arith, table-bound a k b, room-bound (room_shape r.room) k b)

by_cell-bound :
    (wants : List Text) (ds : Deps) (p : Principal) (r : Resource)
    → (by_cell (some cell_bound) wants ds p r).allow ≡ true
    → (same_instance (bound_instance p) (instance_of r) ≡ true)
      × ((s : Text) × (first_match p.scopes wants ≡ some s))
unfolding by_cell by_mode verdict pred_bound
by_cell-bound wants ds p r h = elim (Option-cases (first_match p.scopes wants)) [
  | inl e ↦ absurd (ground arith)
  | inr (s, e) ↦ (ground arith, (s, e))
]

by_kind-bound :
    (k : Kind) (a : Action) (ds : Deps) (p : Principal) (r : Resource)
    → is_bound_kind k ≡ true
    → by_kind k (rules a) a ds p r
      ≡ by_cell (kinds_for (rules a) r k) (wants_for (rules a) a r) ds p r
unfolding by_kind
by_kind-bound k a ds p r b = ground arith

-- A request at the instance that the principal is bound to, which one of its scopes matches.
pub record Confined (p : Principal) (t : Text) (r : Resource) : Type 0 where
  pub act : Action
  pub names : action_of t ≡ some act
  pub scope : Text
  pub held : In scope p.scopes
  pub grants : Any (λ w. match scope w ≡ true) (wants_for (rules act) act r)
  pub own_instance : same_instance (bound_instance p) (instance_of r) ≡ true

cell_bound-Confined :
    (a : Action) (ds : Deps) (p : Principal) (t : Text) (r : Resource)
    → action_of t ≡ some a
    → (by_cell (some cell_bound) (wants_for (rules a) a r) ds p r).allow ≡ true
    → Confined p t r
cell_bound-Confined a ds p t r n h =
    let (own, found) = by_cell-bound (wants_for (rules a) a r) ds p r h in
    let (s, e) = found in
    let (held, grants) = first_match_sound p.scopes (wants_for (rules a) a r) s e in
    record { act = a; names = n; scope = s; held = held; grants = grants; own_instance = own }

by_cell-none :
    (wants : List Text) (ds : Deps) (p : Principal) (r : Resource)
    → (by_cell none wants ds p r).allow ≡ false
unfolding by_cell
by_cell-none wants ds p r = refl

-- Spectator and device keys and the console door are allowed two things only: room.join or
-- discord.post at a public room of canonical form, and what one of their scopes matches at the
-- instance that they are bound to.
pub can-Confined :
    (deps : Option Deps) (p : Principal) (t : Text) (r : Resource)
    → is_bound_kind p.kind ≡ true
    → can deps p t r ≡ true
    → IsOpenRequest t r ⊎ Confined p t r
unfolding action_text
can-Confined deps p t r b h =
    let adm = can-Admitted deps p t r h in
    let a = adm.act in
    let pass = rw (by_kind-bound p.kind a adm.ds p r b) at adm.passes in
    let spelt = action_text-action_of t a adm.names in
    elim (cells-bound a r p.kind b) [
      | inl e ↦ cc (by_cell-none (wants_for (rules a) a r) adm.ds p r)
      | inr (inl e) ↦ inr (cell_bound-Confined a adm.ds p t r adm.names (rw e at pass))
      | inr (inr e) ↦
          let (either, canonical) = accepts-room a r e.0.0 adm.accepted in
          inl (
            elim either [
              | inl q ↦ inl (sym spelt ∙ ap action_text q)
              | inr q ↦ inr (sym spelt ∙ ap action_text q)
            ],
            e.0,
            canonical,
          )
    ]
