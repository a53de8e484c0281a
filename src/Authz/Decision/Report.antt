-- ===== src/Authz/Decision/Report.antt =====
-- The decision's report: which scope let the request through.
use xemu_cartographer.Base.{
  subst, ◌≡◌, ◌≢◌, refl, sym, ◌⊎◌, inl, inr, true, Option, none, some, List, [], arith,
  Option-cases, Bool-cases, In, Any, ap, ◌∙◌,
}
use xemu_cartographer.Text.{Text}
use xemu_cartographer.Authz.Action.{Action, action_of}
use xemu_cartographer.Authz.Deps.{Deps}
use xemu_cartographer.Authz.Scope.{match}
use xemu_cartographer.Authz.Principal.{Kind, superuser, internal, Principal}
use xemu_cartographer.Authz.Resource.{Resource}
use xemu_cartographer.Authz.Predicates.{Predicate}
use xemu_cartographer.Authz.Cells.{
  Rule, KindRule, Mode, mode_scope, mode_scope_or_pred, mode_scope_and_pred, mode_pred, mode_unset,
}
use xemu_cartographer.Authz.Rules.{accepts, rules, wants_for, kinds_for}
use xemu_cartographer.Authz.Decision.{
  Decision, allow_scope, verdict, by_mode, by_cell, by_kind, by_rule, can_with, first_match,
  denied_by,
}
use xemu_cartographer.Authz.Decision.Matching.{first_match_sound}

-- No scope is reported, or the decision is to allow by the scope `found`.
abbrev Reports : Option Text → Decision → Type 0
Reports found d = (d.matched ≡ []) ⊎ ((s : Text) × (found ≡ some s) × (d ≡ allow_scope s))

verdict-matched :
    (pred : Option Predicate) (ds : Deps) (p : Principal) (r : Resource)
    → (verdict pred ds p r).matched ≡ []
unfolding verdict
verdict-matched none ds p r = refl
verdict-matched (some pred) ds p r = ground arith

by_mode-Reports :
    (m : Mode) (found : Option Text) (pred : Option Predicate) (ds : Deps) (p : Principal)
    (r : Resource)
    → Reports found (by_mode m found pred ds p r)
unfolding by_mode
by_mode-Reports mode_scope (some s) pred ds p r = inr (s, refl, refl)
by_mode-Reports mode_scope none pred ds p r = inl refl
by_mode-Reports mode_scope_or_pred (some s) pred ds p r = inr (s, refl, refl)
by_mode-Reports mode_scope_or_pred none pred ds p r = inl (verdict-matched pred ds p r)
by_mode-Reports mode_scope_and_pred (some s) pred ds p r = inl (verdict-matched pred ds p r)
by_mode-Reports mode_scope_and_pred none pred ds p r = inl refl
by_mode-Reports mode_pred found pred ds p r = inl (verdict-matched pred ds p r)
by_mode-Reports mode_unset found pred ds p r = inl refl

by_cell-Reports :
    (cell : Option KindRule) (wants : List Text) (ds : Deps) (p : Principal) (r : Resource)
    → Reports (first_match p.scopes wants) (by_cell cell wants ds p r)
unfolding by_cell
by_cell-Reports none wants ds p r = inl refl
by_cell-Reports (some cell) wants ds p r =
    by_mode-Reports cell.mode (first_match p.scopes wants) cell.pred ds p r

by_kind-Reports :
    (k : Kind) (rl : Rule) (a : Action) (ds : Deps) (p : Principal) (r : Resource)
    → Reports (first_match p.scopes (wants_for rl a r)) (by_kind k rl a ds p r)
unfolding by_kind
by_kind-Reports superuser rl a ds p r = inl refl
by_kind-Reports internal rl a ds p r = inl refl
by_kind-Reports k rl a ds p r = by_cell-Reports (kinds_for rl r k) (wants_for rl a r) ds p r

by_rule-cases :
    (rl : Rule) (deps : Option Deps) (p : Principal) (a : Action) (r : Resource)
    → ((by_rule rl deps p a r).matched ≡ [])
      ⊎ ((ds : Deps) × (by_rule rl deps p a r ≡ by_kind p.kind rl a ds p r))
unfolding by_rule
by_rule-cases rl none p a r = inl (ground arith)
by_rule-cases rl (some ds) p a r = elim (Bool-cases (accepts rl r)) [
  | inl acc ↦ elim (Option-cases (denied_by rl.denials ds p r)) [
    | inl e ↦ inr (ds, ground arith)
    | inr (name, e) ↦ inl (ground arith)
  ]
  | inr e ↦ inl (ground arith)
]

by_rule-Reports :
    (rl : Rule) (deps : Option Deps) (p : Principal) (a : Action) (r : Resource)
    → Reports (first_match p.scopes (wants_for rl a r)) (by_rule rl deps p a r)
by_rule-Reports rl deps p a r = elim (by_rule-cases rl deps p a r) [
  | inl e ↦ inl e
  | inr (ds, e) ↦ rw e (by_kind-Reports p.kind rl a ds p r)
]

-- A decision that names a scope: it allows, says so, and the scope is held and matches.
pub record ByScope (d : Decision) (p : Principal) (t : Text) (r : Resource) : Type 0 where
  pub allows : d ≡ allow_scope d.matched
  pub act : Action
  pub names : action_of t ≡ some act
  pub held : In d.matched p.scopes
  pub grants : Any (λ w. match d.matched w ≡ true) (wants_for (rules act) act r)

scope-ByScope :
    (d : Decision) (p : Principal) (t : Text) (r : Resource) (a : Action) (s : Text)
    → action_of t ≡ some a
    → first_match p.scopes (wants_for (rules a) a r) ≡ some s
    → d ≡ allow_scope s
    → ByScope d p t r
scope-ByScope d p t r a s n found e =
    let (held, grants) = first_match_sound p.scopes (wants_for (rules a) a r) s found in
    subst (λ d'. ByScope d' p t r) (sym e)
      (record { allows = refl; act = a; names = n; held = held; grants = grants })

-- Whenever a decision names a matched scope, it allows the request with the reason "scope:" and
-- that scope, and the principal holds the scope and the scope matches what the rule wants.
pub can_with-ByScope :
    (deps : Option Deps) (p : Principal) (t : Text) (r : Resource)
    → (can_with deps p t r).matched ≢ []
    → ByScope (can_with deps p t r) p t r
can_with-ByScope deps p t r h = elim (Option-cases (action_of t)) [
  | inl e ↦ absurd (h (unfold can_with in ground arith))
  | inr (a, n) ↦
      let decided : can_with deps p t r ≡ by_rule (rules a) deps p a r =
        unfold can_with in ground arith in
      elim (by_rule-Reports (rules a) deps p a r) [
        | inl e ↦ absurd (h (ap (λ (d : Decision). d.matched) decided ∙ e))
        | inr (s, found, e) ↦ scope-ByScope (can_with deps p t r) p t r a s n found (decided ∙ e)
      ]
]
