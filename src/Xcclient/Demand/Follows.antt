-- ===== src/Xcclient/Demand/Follows.antt =====
-- The rooms joined upstream follow the occupancy that the demand is told of, and so the hub's.
use xemu_cartographer.Base.{
  ◌≡◌, refl, sym, ap, ◌∙◌, inl, inr, Bool, true, false, not, ◌||◌, List, [], ◌∷◌, arith, Bool-cases,
}
use xemu_cartographer.Text.{Text, text_eq, elem}
use xemu_cartographer.Text.Laws.{text_eq→≡}
use xemu_cartographer.Hub.{room_has_members}
use xemu_cartographer.Hub.Observer.{Action, run_actions}
use xemu_cartographer.Hub.Observer.Calls.{latest}
use xemu_cartographer.Hub.Observer.Pending.{pending}
use xemu_cartographer.Hub.Observer.Settled.{run_actions-seen}
use xemu_cartographer.Xcclient.Demand.{
  Demand, observe, release, Input, observes, releases, take_input, run_inputs,
}
use xemu_cartographer.Xcclient.Demand.Sides.{
  Follows, Sides, occupy-at, occupy-other, arm-at, arm-other, release-other, release-at,
  occupy-closed, arm-closed, release-closed, Follows-Sides,
}

-- The calls of Observe among what a demand has seen.
abbrev pub told : List Input → List (Text × Bool)
told [] = []
told (observes room occupied ∷ earlier) = (room, occupied) ∷ told earlier
told (releases room wanted ∷ earlier) = told earlier

module _ (is_demand : Text → Bool) where
  observe-closed : (x : Text) (o : Bool) (d : Demand) → (observe is_demand x o d).closed ≡ d.closed
  unfolding observe
  observe-closed x o d = ground (arith, occupy-closed x d, arm-closed x d)

  run_inputs-open : (inputs : List Input) → (run_inputs is_demand inputs).closed ≡ false
  unfolding run_inputs take_input
  run_inputs-open [] = refl
  run_inputs-open (observes x o ∷ earlier) =
      observe-closed x o (run_inputs is_demand earlier) ∙ run_inputs-open earlier
  run_inputs-open (releases x wanted ∷ earlier) =
      release-closed x wanted (run_inputs is_demand earlier) ∙ run_inputs-open earlier

  observe-other :
      (r x : Text) (o : Bool) (d : Demand)
      → text_eq r x ≡ false
      → Sides r d (observe is_demand x o d)
  unfolding observe
  observe-other r x o d ne = elim (Bool-cases (not (is_demand x) || d.closed)) [
    | inl e ↦ rw e (refl, refl)
    | inr e ↦ elim (Bool-cases o) [
      | inl t ↦ rw (e, t) (occupy-other r x d ne)
      | inr t ↦ rw (e, t) (arm-other r x d ne)
    ]
  ]

  listens :
      (r : Text) (d : Demand)
      → is_demand r ≡ true
      → d.closed ≡ false
      → (not (is_demand r) || d.closed) ≡ false
  listens r d k c = ground (arith, k, c)

  observe-at :
      (before o : Bool) (r : Text) (d : Demand)
      → is_demand r ≡ true
      → d.closed ≡ false
      → Follows before (elem r d.joined) (elem r d.pending)
      → Follows o
          (elem r (observe is_demand r o d).joined)
          (elem r (observe is_demand r o d).pending)
  unfolding observe
  observe-at before true r d k c f = rw (listens r d k c) (occupy-at r d)
  observe-at before false r d k c f = rw (listens r d k c) (arm-at before r d f)

  run_inputs-Follows :
      (inputs : List Input) (r : Text)
      → is_demand r ≡ true
      → Follows
          (latest r (told inputs))
          (elem r (run_inputs is_demand inputs).joined)
          (elem r (run_inputs is_demand inputs).pending)
  unfolding run_inputs take_input
  run_inputs-Follows [] r k = refl
  run_inputs-Follows (observes x o ∷ earlier) r k = elim (Bool-cases (text_eq r x)) [
    | inl e ↦
        rw (e, sym (text_eq→≡ r x e))
          (observe-at (latest r (told earlier)) o r (run_inputs is_demand earlier) k
            (run_inputs-open earlier) (run_inputs-Follows earlier r k))
    | inr e ↦ rw e (
        Follows-Sides (latest r (told earlier)) r (run_inputs is_demand earlier)
          (observe is_demand x o (run_inputs is_demand earlier))
          (observe-other r x o (run_inputs is_demand earlier) e) (run_inputs-Follows earlier r k))
  ]
  run_inputs-Follows (releases x wanted ∷ earlier) r k = elim (Bool-cases (text_eq r x)) [
    | inl e ↦ rw (sym (text_eq→≡ r x e)) (
        release-at (latest r (told earlier)) r wanted (run_inputs is_demand earlier)
          (run_inputs-open earlier) (run_inputs-Follows earlier r k))
    | inr e ↦
        Follows-Sides (latest r (told earlier)) r (run_inputs is_demand earlier)
          (release x wanted (run_inputs is_demand earlier))
          (release-other r x wanted (run_inputs is_demand earlier) e)
          (run_inputs-Follows earlier r k)
  ]

  told-Follows :
      (o o1 joined pends : Bool)
      → o ≡ o1
      → Follows o joined pends
      → (o1 ≡ true → (joined ≡ true) × (pends ≡ false)) × (o1 ≡ false → joined ≡ pends)
  told-Follows true true joined pends e f = (λ q. f, λ q. absurd cc)
  told-Follows false false joined pends e f = (λ q. absurd cc, λ q. f)
  told-Follows true false joined pends e f = absurd cc
  told-Follows false true joined pends e f = absurd cc

  -- A demand that is not closed is told what the hub's observer fires, with releases at any time in
  -- between. Whenever no news of a demand room is pending at the observer, then if somebody is in the
  -- room, it is joined upstream and no timer runs that would leave it, and if nobody is, it is joined
  -- only while a timer is pending.
  pub demand-Follows :
      (actions : List Action) (inputs : List Input) (r : Text)
      → is_demand r ≡ true
      → told inputs ≡ (run_actions actions).fired
      → pending r (run_actions actions) ≡ false
      → (room_has_members r (run_actions actions).hub ≡ true
          → (elem r (run_inputs is_demand inputs).joined ≡ true)
            × (elem r (run_inputs is_demand inputs).pending ≡ false))
        × (room_has_members r (run_actions actions).hub ≡ false
            → elem r (run_inputs is_demand inputs).joined
              ≡ elem r (run_inputs is_demand inputs).pending)
  demand-Follows actions inputs r k t quiet =
      told-Follows (latest r (told inputs)) (room_has_members r (run_actions actions).hub)
        (elem r (run_inputs is_demand inputs).joined) (elem r (run_inputs is_demand inputs).pending)
        (ap (latest r) t ∙ run_actions-seen actions r quiet) (run_inputs-Follows inputs r k)
