-- ===== src/Authz/Ws/Joinable.antt =====
-- What each kind may see and send over the WebSocket.
use xemu_cartographer.Base.{
  ◌≡◌, refl, ◌⊎◌, inl, inr, true, false, List, [], ◌∷◌, arith, Bool-cases, All, In, here, there,
}
use xemu_cartographer.Text.{Text, to_lower, words, fields, join}
use xemu_cartographer.Authz.Scope.{canon_segment}
use xemu_cartographer.Authz.Principal.{
  Kind, spectator, device, anonymous, Principal, bound_instance,
}
use xemu_cartographer.Authz.Ws.{
  same_instance, first_same, joinable_bound, joinable, joinable_instances,
}
use xemu_cartographer.Authz.Decision.Confined.{is_bound_kind}

-- Nothing to see, since no live name is the bound instance; or the one live name that is.
abbrev pub SeesOwn : Text → List Text → List Text → Type 0
SeesOwn bound_to live seen =
    ((seen ≡ []) × All (λ name. same_instance name bound_to ≡ false) live)
    ⊎ ((name : Text) × (seen ≡ name ∷ []) × In name live × (same_instance name bound_to ≡ true))

first_same-SeesOwn :
    (bound_to : Text) (live : List Text) → SeesOwn bound_to live (first_same bound_to live)
unfolding first_same
first_same-SeesOwn bound_to [] = inl (refl, tt)
first_same-SeesOwn bound_to (name ∷ live) = elim (Bool-cases (same_instance name bound_to)) [
  | inl e ↦ inr (name, rw e, here refl, e)
  | inr e ↦ elim (first_same-SeesOwn bound_to live) [
    | inl h ↦ inl (rw e h.0, (e, h.1))
    | inr (found, seen, held, same) ↦ inr (found, rw e seen, there held, same)
  ]
]

same_instance-empty : (name : Text) → same_instance name [] ≡ false
unfolding same_instance canon_segment to_lower fields words join
same_instance-empty name = ground arith

none_same : (live : List Text) → All (λ name. same_instance name [] ≡ false) live
none_same [] = tt
none_same (name ∷ live) = (same_instance-empty name, none_same live)

joinable_bound-SeesOwn :
    (bound_to : Text) (live : List Text) → SeesOwn bound_to live (joinable_bound bound_to live)
unfolding joinable_bound
joinable_bound-SeesOwn [] live = inl (refl, none_same live)
joinable_bound-SeesOwn (c ∷ bound_to) live = first_same-SeesOwn (c ∷ bound_to) live

joinable-SeesOwn :
    (k : Kind) (p : Principal) (live : List Text)
    → is_bound_kind k ≡ true
    → SeesOwn (bound_instance p) live (joinable k p live)
unfolding joinable
joinable-SeesOwn spectator p live h = joinable_bound-SeesOwn (bound_instance p) live
joinable-SeesOwn device p live h = joinable_bound-SeesOwn (bound_instance p) live
joinable-SeesOwn anonymous p live h = joinable_bound-SeesOwn (bound_instance p) live
joinable-SeesOwn _ p live h = cc

-- A bound principal sees nothing exactly when no live instance is its own, and otherwise the one
-- live name that is.
pub joinable_instances-SeesOwn :
    (p : Principal) (live : List Text)
    → is_bound_kind p.kind ≡ true
    → SeesOwn (bound_instance p) live (joinable_instances p live)
unfolding joinable_instances
joinable_instances-SeesOwn p live h = joinable-SeesOwn p.kind p live h
