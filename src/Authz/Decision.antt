-- ===== src/Authz/Decision.antt =====
-- internal/authz/decision.go: Can and CanWith.
pub mod Inversion
pub mod Matching
pub mod Confined
pub mod Nobody
pub mod Admins
pub mod Report
pub mod Monotone
use xemu_cartographer.Base.{
  Bool, true, false, Option, none, some, List, [], ◌∷◌, ◌++◌, if◌then◌else◌, not, is_empty,
}
use xemu_cartographer.Text.{Text, codes}
use xemu_cartographer.Authz.Action.{Action, action_of}
use xemu_cartographer.Authz.Scope.{match_any}
use xemu_cartographer.Authz.Deps.{Deps}
use xemu_cartographer.Authz.Principal.{Kind, superuser, internal, Principal}
use xemu_cartographer.Authz.Resource.{Resource}
use xemu_cartographer.Authz.Predicates.{Predicate}
use xemu_cartographer.Authz.Cells.{
  Rule, KindRule, Mode, mode_scope, mode_scope_or_pred, mode_scope_and_pred, mode_pred, mode_unset,
}
use xemu_cartographer.Authz.Rules.{rules, accepts, kinds_for, wants_for}

pub record Decision : Type 0 where
  pub allow : Bool
  pub reason : Text
  pub matched : Text

abbrev pub deny : Text → Decision
deny reason = record { allow = false; reason = reason; matched = [] }

abbrev pub allow : Text → Decision
allow reason = record { allow = true; reason = reason; matched = [] }

abbrev pub allow_scope : Text → Decision
allow_scope s = record { allow = true; reason = codes "scope:" ++ s; matched = s }

abbrev named_verdict : Bool × Text → Decision
named_verdict (holds, name) =
    if is_empty name
    then deny (codes "no_pred")
    else if holds
    then allow (codes "pred:" ++ name)
    else deny (codes "pred:" ++ name)

unfoldable pub verdict : Option Predicate → Deps → Principal → Resource → Decision
verdict none deps p r = deny (codes "no_pred")
verdict (some pred) deps p r = named_verdict (pred deps p r)

-- The loop over the wants: the first scope that matches the first want that any scope matches.
abbrev pub or_else : Option Text → Option Text → Option Text
or_else none rest = rest
or_else (some s) rest = some s

unfoldable pub first_match : List Text → List Text → Option Text
first_match scopes [] = none
first_match scopes (want ∷ wants) = or_else (match_any scopes want) (first_match scopes wants)

-- the switch on the cell's mode, given the scope that matched
unfoldable pub by_mode :
    Mode → Option Text → Option Predicate → Deps → Principal → Resource → Decision
by_mode mode_scope (some s) pred deps p r = allow_scope s
by_mode mode_scope none pred deps p r = deny (codes "no_scope")
by_mode mode_scope_or_pred (some s) pred deps p r = allow_scope s
by_mode mode_scope_or_pred none pred deps p r = verdict pred deps p r
by_mode mode_scope_and_pred (some s) pred deps p r = verdict pred deps p r
by_mode mode_scope_and_pred none pred deps p r = deny (codes "no_scope")
by_mode mode_pred matched pred deps p r = verdict pred deps p r
by_mode mode_unset matched pred deps p r = deny (codes "no_scope")

-- Under mode_pred the scopes are not looked at; `by_mode` ignores what they would give.
unfoldable pub by_cell : Option KindRule → List Text → Deps → Principal → Resource → Decision
by_cell none wants deps p r = deny (codes "kind")
by_cell (some cell) wants deps p r =
    by_mode cell.mode (first_match p.scopes wants) cell.pred deps p r

-- superuser and internal are allowed, every other kind goes to its cell
unfoldable pub by_kind : Kind → Rule → Action → Deps → Principal → Resource → Decision
by_kind superuser rl a deps p r = allow (codes "superuser")
by_kind internal rl a deps p r = allow (codes "internal")
by_kind k rl a deps p r = by_cell (kinds_for rl r k) (wants_for rl a r) deps p r

-- The loop over the rule's Deny predicates: the name of the first that fires.
abbrev fired : Bool × Text → Option Text → Option Text
fired (true, name) rest = some name
fired (false, name) rest = rest

unfoldable pub denied_by : List Predicate → Deps → Principal → Resource → Option Text
denied_by [] deps p r = none
denied_by (d ∷ ds) deps p r = fired (d deps p r) (denied_by ds deps p r)

abbrev unless_denied : Option Text → Decision → Decision
unless_denied none d = d
unless_denied (some name) d = deny (codes "deny:" ++ name)

abbrev with_deps : Option Deps → (Deps → Decision) → Decision
with_deps none f = deny (codes "no_deps")
with_deps (some deps) f = f deps

unfoldable pub by_rule : Rule → Option Deps → Principal → Action → Resource → Decision
by_rule rl deps p a r =
    if not (accepts rl r)
    then deny (codes "resource")
    else with_deps deps
        λ ds. unless_denied (denied_by rl.denials ds p r) (by_kind p.kind rl a ds p r)

abbrev for_action : Option Action → (Action → Decision) → Decision
for_action none f = deny (codes "unknown_action")
for_action (some a) f = f a

-- CanWith; the action is any text, and nil deps are `none`.
unfoldable pub can_with : Option Deps → Principal → Text → Resource → Decision
can_with deps p action r = for_action (action_of action) λ a. by_rule (rules a) deps p a r

-- Can
unfoldable pub can : Option Deps → Principal → Text → Resource → Bool
can deps p action r = (can_with deps p action r).allow
