-- ===== src/Authz/Decision/Monotone.antt =====
-- A principal with more scopes may do at least as much.
use xemu_cartographer.Base.{
  ◌≡◌, refl, inl, inr, true, Option, none, some, List, arith, Option-cases, Bool-cases, In, ◌∙◌,
}
use xemu_cartographer.Text.{Text}
use xemu_cartographer.Authz.Action.{Action, room_join}
use xemu_cartographer.Authz.Deps.{Deps}
use xemu_cartographer.Authz.Principal.{
  Kind, pb_user, superuser, machine, spectator, device, anonymous, discord, internal, other_kind,
  Principal, bound_instance,
}
use xemu_cartographer.Authz.Resource.{Resource}
use xemu_cartographer.Authz.Predicates.{
  Predicate, pred_always, pred_authed, pred_linked, pred_rostered, pred_box_owner, pred_bound,
  pred_level_ok, pred_team_authority, pred_station_file, pred_manage_guild, deny_last_admin, any_of,
}
use xemu_cartographer.Authz.Cells.{
  KindRule, KindTable, Mode, mode_scope, mode_scope_or_pred, mode_scope_and_pred, mode_pred,
  mode_unset, RoomShape, host_bare, room_join_rules, room_shape, row_scope_user,
  row_scope_user_machine, row_box_access, row_box_owner, row_role, row_team, row_scraper,
  row_overlay_state, row_provision, row_lan_file, row_guild,
}
use xemu_cartographer.Authz.Rules.{is_room, rules, wants_for, kinds_for}
use xemu_cartographer.Authz.Decision.{
  verdict, by_mode, by_cell, by_kind, can, first_match, denied_by,
}
use xemu_cartographer.Authz.Decision.Matching.{first_match_sound, first_match_complete}
use xemu_cartographer.Authz.Decision.Inversion.{can-Admitted, Admitted-can}

abbrev pub with_scopes : Principal → List Text → Principal
with_scopes p more = record p { scopes = more }

-- The predicate of a cell.
abbrev pred_of : Option KindRule → Option Predicate
pred_of none = none
pred_of (some cell) = cell.pred

-- The predicates of the table do not look at scopes.
abbrev BlindVerdict : KindTable → Kind → Deps → Principal → List Text → Resource → Type 0
BlindVerdict table k ds p more r =
    verdict (pred_of (table k)) ds (with_scopes p more) r ≡ verdict (pred_of (table k)) ds p r

module _ (ds : Deps) (p : Principal) (more : List Text) (r : Resource) where
  table-blind : (k : Kind) (a : Action) → BlindVerdict (rules a).kinds k ds p more r
  unfolding verdict rules row_scope_user row_scope_user_machine row_box_access row_box_owner
      row_role row_team row_scraper row_overlay_state row_provision row_lan_file row_guild
      pred_always pred_authed pred_linked pred_rostered pred_box_owner pred_bound pred_level_ok
      pred_team_authority pred_station_file pred_manage_guild any_of bound_instance
  table-blind pb_user room_join = refl
  table-blind superuser room_join = refl
  table-blind machine room_join = refl
  table-blind spectator room_join = refl
  table-blind device room_join = refl
  table-blind anonymous room_join = refl
  table-blind discord room_join = refl
  table-blind internal room_join = refl
  table-blind other_kind room_join = refl
  table-blind _ _ = refl

  room-blind : (k : Kind) (shape : RoomShape) → BlindVerdict (room_join_rules shape) k ds p more r
  unfolding verdict room_join_rules pred_always pred_rostered pred_box_owner pred_bound any_of
      bound_instance
  room-blind pb_user host_bare = refl
  room-blind superuser host_bare = refl
  room-blind machine host_bare = refl
  room-blind spectator host_bare = refl
  room-blind device host_bare = refl
  room-blind anonymous host_bare = refl
  room-blind discord host_bare = refl
  room-blind internal host_bare = refl
  room-blind other_kind host_bare = refl
  room-blind _ _ = refl

  cell-blind : (a : Action) (k : Kind) → BlindVerdict (kinds_for (rules a) r) k ds p more r
  unfolding kinds_for
  cell-blind a k = elim (Bool-cases (is_room r.kind)) [
    | inl e ↦ rw (e, kinds_for) (room-blind k (room_shape r.room))
    | inr e ↦ rw (e, kinds_for) (table-blind k a)
  ]

  denials-blind :
      (a : Action)
      → denied_by (rules a).denials ds (with_scopes p more) r ≡ denied_by (rules a).denials ds p r
  unfolding denied_by rules deny_last_admin
  denials-blind room_join = refl
  denials-blind _ = refl

  by_mode-none :
      (m : Mode) (new : Option Text) (pred : Option Predicate)
      → verdict pred ds (with_scopes p more) r ≡ verdict pred ds p r
      → (by_mode m none pred ds p r).allow ≡ true
      → (by_mode m new pred ds (with_scopes p more) r).allow ≡ true
  unfolding by_mode
  by_mode-none mode_scope new pred blind h = cc
  by_mode-none mode_scope_or_pred none pred blind h = rw blind h
  by_mode-none mode_scope_or_pred (some s) pred blind h = refl
  by_mode-none mode_scope_and_pred new pred blind h = cc
  by_mode-none mode_pred new pred blind h = rw blind h
  by_mode-none mode_unset new pred blind h = cc

  by_mode-some :
      (m : Mode) (s s' : Text) (pred : Option Predicate)
      → verdict pred ds (with_scopes p more) r ≡ verdict pred ds p r
      → (by_mode m (some s) pred ds p r).allow ≡ true
      → (by_mode m (some s') pred ds (with_scopes p more) r).allow ≡ true
  unfolding by_mode
  by_mode-some mode_scope s s' pred blind h = refl
  by_mode-some mode_scope_or_pred s s' pred blind h = refl
  by_mode-some mode_scope_and_pred s s' pred blind h = rw blind h
  by_mode-some mode_pred s s' pred blind h = rw blind h
  by_mode-some mode_unset s s' pred blind h = cc

  -- Whatever the cell, if it allowed on the scopes found before, it allows on those found now.
  by_mode_mono :
      (m : Mode) (old new : Option Text) (pred : Option Predicate)
      → verdict pred ds (with_scopes p more) r ≡ verdict pred ds p r
      → ((s : Text) → old ≡ some s → (s' : Text) × (new ≡ some s'))
      → (by_mode m old pred ds p r).allow ≡ true
      → (by_mode m new pred ds (with_scopes p more) r).allow ≡ true
  unfolding by_mode
  by_mode_mono m none new pred blind found h = by_mode-none m new pred blind h
  by_mode_mono m (some s) new pred blind found h =
      let (s', e) = found s refl in rw e (by_mode-some m s s' pred blind h)

  cell_mono :
      (a : Action) (k : Kind) (wants : List Text)
      → ((s : Text) → In s p.scopes → In s more)
      → (by_cell (kinds_for (rules a) r k) wants ds p r).allow ≡ true
      → (by_cell (kinds_for (rules a) r k) wants ds (with_scopes p more) r).allow ≡ true
  unfolding by_cell
  cell_mono a k wants sub h = elim (Option-cases (kinds_for (rules a) r k)) [
    | inl e ↦ absurd (ground arith)
    | inr (cell, e) ↦
        rw (e, by_cell)
          (by_mode_mono cell.mode (first_match p.scopes wants) (first_match more wants) cell.pred
            (rw e at (cell-blind a k))
            (λ s found.
              let (held, grants) = first_match_sound p.scopes wants s found in
              first_match_complete more wants s (sub s held) grants)
            (rw (e, by_cell) at h))
  ]

  by_kind_mono :
      (k : Kind) (a : Action)
      → ((s : Text) → In s p.scopes → In s more)
      → (by_kind k (rules a) a ds p r).allow ≡ true
      → (by_kind k (rules a) a ds (with_scopes p more) r).allow ≡ true
  unfolding by_kind
  by_kind_mono superuser a sub h = refl
  by_kind_mono internal a sub h = refl
  by_kind_mono k a sub h = cell_mono a k (wants_for (rules a) a r) sub h

-- More scopes never lose a permission: whatever a principal may do, the same principal may do with
-- any scopes that include those it had, in any order.
pub can_mono :
    (deps : Option Deps) (p : Principal) (more : List Text) (t : Text) (r : Resource)
    → ((s : Text) → In s p.scopes → In s more)
    → can deps p t r ≡ true
    → can deps (with_scopes p more) t r ≡ true
can_mono deps p more t r sub h =
    let adm = can-Admitted deps p t r h in
    Admitted-can deps (with_scopes p more) t r (record {
      act = adm.act;
      ds = adm.ds;
      names = adm.names;
      answers = adm.answers;
      accepted = adm.accepted;
      not_denied = denials-blind adm.ds p more r adm.act ∙ adm.not_denied;
      passes = by_kind_mono adm.ds p more r p.kind adm.act sub adm.passes;
    })
