-- ===== src/Authz/Decision/Inversion.antt =====
-- What an allowed request went through, step by step, and back.
use xemu_cartographer.Base.{◌≡◌, refl, inl, inr, true, Option, none, some, arith, Option-cases}
use xemu_cartographer.Text.{Text}
use xemu_cartographer.Authz.Action.{Action, action_of}
use xemu_cartographer.Authz.Deps.{Deps}
use xemu_cartographer.Authz.Principal.{Principal}
use xemu_cartographer.Authz.Resource.{Resource}
use xemu_cartographer.Authz.Rules.{rules, accepts}
use xemu_cartographer.Authz.Decision.{denied_by, by_kind, by_rule, can_with, can}

-- A request that reaches its rule's kinds.
pub record Admitted (deps : Option Deps) (p : Principal) (t : Text) (r : Resource) : Type 0 where
  pub act : Action
  pub ds : Deps
  pub names : action_of t ≡ some act
  pub answers : deps ≡ some ds
  pub accepted : accepts (rules act) r ≡ true
  pub not_denied : denied_by (rules act).denials ds p r ≡ none
  pub passes : (by_kind p.kind (rules act) act ds p r).allow ≡ true

-- `by_rule` of an allowed request, for given deps.
by_rule-some :
    (deps : Option Deps) (p : Principal) (t : Text) (r : Resource) (a : Action) (ds : Deps)
    → action_of t ≡ some a
    → deps ≡ some ds
    → (by_rule (rules a) (some ds) p a r).allow ≡ true
    → Admitted deps p t r
unfolding by_rule
by_rule-some deps p t r a ds n e h = record {
  act = a;
  ds = ds;
  names = n;
  answers = e;
  accepted = ground arith;
  not_denied = ground arith;
  passes = ground arith;
}

by_rule-any :
    (deps : Option Deps) (p : Principal) (t : Text) (r : Resource) (a : Action)
    → action_of t ≡ some a
    → (by_rule (rules a) deps p a r).allow ≡ true
    → Admitted deps p t r
by_rule-any (some ds) p t r a n h = by_rule-some (some ds) p t r a ds n refl h
by_rule-any none p t r a n h = absurd (unfold by_rule in ground arith)

pub can-Admitted :
    (deps : Option Deps) (p : Principal) (t : Text) (r : Resource)
    → can deps p t r ≡ true
    → Admitted deps p t r
unfolding can can_with
can-Admitted deps p t r h = elim (Option-cases (action_of t)) [
  | inl e ↦ absurd (ground arith)
  | inr (a, e) ↦ by_rule-any deps p t r a e (ground arith)
]

pub Admitted-can :
    (deps : Option Deps) (p : Principal) (t : Text) (r : Resource)
    → Admitted deps p t r
    → can deps p t r ≡ true
unfolding can can_with by_rule
Admitted-can deps p t r h = ground arith
