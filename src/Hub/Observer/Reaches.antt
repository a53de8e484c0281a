-- ===== src/Hub/Observer/Reaches.antt =====
-- Continuations of a run by posts and by actions of the observer, with no event of the hub.
use xemu_cartographer.Base.{◌≡◌, refl, ap, ◌∙◌, Bool, true, false, List, [], ◌∷◌, ◌++◌, All}
use xemu_cartographer.Hub.Observer.{Watch, Action, hub_handles, act}

-- No event of the hub.
abbrev pub own : Action → Bool
own (hub_handles e) = false
own _ = true

-- Actions after a state, the latest first.
abbrev pub run_from : List Action → Watch → Watch
run_from [] w = w
run_from (a ∷ earlier) w = act a (run_from earlier w)

-- Own actions lead to a state with the same hub and with P.
abbrev pub Reach : (Watch → Type 0) → Watch → Type 0
Reach P w =
    (actions : List Action) × All (λ a. own a ≡ true) actions
    × ((run_from actions w).hub ≡ w.hub)
    × P (run_from actions w)

pub Reach-here : (P : Watch → Type 0) (w : Watch) → P w → Reach P w
Reach-here P w p = ([], tt, refl, p)

pub run_from-append :
    (later earlier : List Action) (w : Watch)
    → run_from (later ++ earlier) w ≡ run_from later (run_from earlier w)
run_from-append [] earlier w = refl
run_from-append (a ∷ later) earlier w = ap (act a) (run_from-append later earlier w)

pub own-append :
    (later earlier : List Action)
    → All (λ a. own a ≡ true) later
    → All (λ a. own a ≡ true) earlier
    → All (λ a. own a ≡ true) (later ++ earlier)
own-append [] earlier l e = e
own-append (a ∷ later) earlier l e = (l.0, own-append later earlier l.1 e)

pub Reach-then :
    (P Q : Watch → Type 0) (w : Watch) → Reach P w → ((v : Watch) → P v → Reach Q v) → Reach Q w
Reach-then P Q w (first, own1, hub1, p) next =
    let (later, own2, hub2, q) = next (run_from first w) p in
    (
      later ++ first,
      own-append later first own2 own1,
      rw (run_from-append later first w) (hub2 ∙ hub1),
      rw (run_from-append later first w) q,
    )

pub Reach-step :
    (P : Watch → Type 0) (a : Action) (w : Watch)
    → own a ≡ true
    → (act a w).hub ≡ w.hub
    → Reach P (act a w)
    → Reach P w
Reach-step P a w o h r =
    Reach-then (λ v. v ≡ act a w) P w ((a ∷ []), (o, tt), h, refl) (λ v e. rw e r)

pub Reach-map :
    (P Q : Watch → Type 0) (w : Watch) → Reach P w → ((v : Watch) → P v → Q v) → Reach Q w
Reach-map P Q w r f = Reach-then P Q w r (λ v p. Reach-here Q v (f v p))

-- An own action that leads to `v`, and what follows there.
pub Reach-act :
    (P : Watch → Type 0) (a : Action) (w v : Watch)
    → own a ≡ true
    → act a w ≡ v
    → v.hub ≡ w.hub
    → Reach P v
    → Reach P w
Reach-act P a w v o e h r = Reach-step P a w o (ap (λ (x : Watch). x.hub) e ∙ h) (rw e r)
