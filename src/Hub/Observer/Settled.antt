-- ===== src/Hub/Observer/Settled.antt =====
-- No edge is lost: a room that the observer sees wrongly is still to be looked at.
use xemu_cartographer.Base.{
  ◌≡◌, refl, sym, ◌∙◌, inl, inr, Bool, true, false, ◌||◌, List, [], ◌∷◌, arith, Bool-cases, ltb,
  length,
}
use xemu_cartographer.Text.{Text, elem}
use xemu_cartographer.Hub.{members, room_has_members, run_events}
use xemu_cartographer.Hub.Consistent.{IsConsistent, handle-IsConsistent, run_events-IsConsistent}
use xemu_cartographer.Hub.Observer.{
  Watch, new_watch, Phase, at_top, swapped, selecting, checking, answered, Action, hub_handles,
  posts, stores, observer_swaps, observer_collects, observer_receives, observer_asks,
  observer_fires, post_step, store_step, swap_step, collect_step, receive_step, ask_step, fire_step,
  check_all, note_room_edge, same, act, run_actions, room_event_buf,
}
use xemu_cartographer.Hub.Observer.Calls.{latest, run_actions-Mirrors}
use xemu_cartographer.Hub.Observer.Pending.{
  IsSettled, known, ahead, ahead-known, pending, hub_step-IsSettled, post_step-IsSettled,
  store_step-IsSettled,
}
use xemu_cartographer.Hub.Observer.Looks.{
  ask_step-IsSettled, fire_step-IsSettled, swap_step-IsSettled, collect_step-IsSettled,
  receive_step-IsSettled, check_room-keeps,
}

abbrev AllSettled : Watch → Type 0
AllSettled w = IsConsistent w.hub × ((r : Text) → IsSettled r w)

post_step-hub : (room : Text) (w : Watch) → (post_step room w).hub ≡ w.hub
unfolding note_room_edge
post_step-hub room w = elim (Bool-cases (elem room w.posting)) [
  | inl k ↦ elim (Bool-cases (ltb (length w.room_events) room_event_buf)) [
    | inl e ↦ rw (k, e) refl
    | inr e ↦ rw (k, e) refl
  ]
  | inr k ↦ rw k refl
]

store_step-hub : (room : Text) (w : Watch) → (store_step room w).hub ≡ w.hub
store_step-hub room w = elim (Bool-cases (elem room w.overflowed)) [
  | inl k ↦ rw k refl
  | inr k ↦ rw k refl
]

observer-hub :
    (p : Phase) (rs : List Text) (w : Watch)
    → ((swap_step p w).hub ≡ w.hub)
      × ((collect_step p w).hub ≡ w.hub)
      × ((receive_step p rs w).hub ≡ w.hub)
      × ((ask_step p w).hub ≡ w.hub)
      × ((fire_step p w).hub ≡ w.hub)
observer-hub at_top rs w = (refl, refl, refl, refl, refl)
observer-hub swapped rs w = (refl, refl, refl, refl, refl)
observer-hub selecting [] w = (refl, refl, refl, refl, refl)
observer-hub selecting (r ∷ rs) w = (refl, refl, refl, refl, refl)
observer-hub (checking q qs next) rs w = (refl, refl, refl, refl, refl)
observer-hub (answered q o qs next) rs w =
    (refl, refl, refl, refl, (check_room-keeps q o (record w { phase = check_all qs next })).5)

act-AllSettled : (a : Action) (w : Watch) → AllSettled w → AllSettled (act a w)
unfolding act
act-AllSettled (hub_handles e) w (v, s) =
    (handle-IsConsistent e w.hub v, λ r. hub_step-IsSettled e w r v (s r))
act-AllSettled (posts room) w (v, s) =
    (rw (post_step-hub room w) v, λ r. post_step-IsSettled room w r (s r))
act-AllSettled (stores room) w (v, s) =
    (rw (store_step-hub room w) v, λ r. store_step-IsSettled room w r (s r))
act-AllSettled observer_swaps w (v, s) =
    (rw (observer-hub w.phase w.room_events w).0 v, λ r. swap_step-IsSettled w.phase w r refl (s r))
act-AllSettled observer_collects w (v, s) = (
  rw (observer-hub w.phase w.room_events w).1 v,
  λ r. collect_step-IsSettled w.phase w r refl (s r),
)
act-AllSettled observer_receives w (v, s) = (
  rw (observer-hub w.phase w.room_events w).2 v,
  λ r. receive_step-IsSettled w.phase w.room_events w r refl refl (s r),
)
act-AllSettled observer_asks w (v, s) =
    (rw (observer-hub w.phase w.room_events w).3 v, λ r. ask_step-IsSettled w.phase w r refl (s r))
act-AllSettled observer_fires w (v, s) =
    (rw (observer-hub w.phase w.room_events w).4 v, λ r. fire_step-IsSettled w.phase w r refl (s r))

start-IsSettled : (r : Text) → IsSettled r new_watch
unfolding elem room_has_members members
start-IsSettled r = refl

run_actions-AllSettled : (actions : List Action) → AllSettled (run_actions actions)
unfolding run_actions run_events
run_actions-AllSettled [] = (run_events-IsConsistent [], λ r. start-IsSettled r)
run_actions-AllSettled (a ∷ earlier) =
    act-AllSettled a (run_actions earlier) (run_actions-AllSettled earlier)

settled-eq : (a b p : Bool) → (same a b || p) ≡ true → p ≡ false → a ≡ b
settled-eq a b p e h = ground (arith, e, h)

calm :
    (d p v e f : Bool)
    → (d || p || v || e || f) ≡ false
    → (d ≡ false) × (p ≡ false) × (v ≡ false) × (e ≡ false) × (f ≡ false)
calm d p v e f h = ground (arith, h)

settled-seen :
    (r : Text) (w : Watch)
    → IsSettled r w
    → pending r w ≡ false
    → elem r w.observed ≡ room_has_members r w.hub
settled-seen r w s e =
    let (d, p, v, q, f) =
      calm w.dirty (elem r w.posting) (elem r w.overflowed) (elem r w.room_events) (ahead r w.phase)
        e in
    let (eq, none_asked) = ahead-known r w.phase w.observed f in
    sym eq
    ∙ settled-eq (known r w.phase w.observed) (room_has_members r w.hub) false
        (rw (d, p, v, q, none_asked) at s) refl

-- In every run, whatever the goroutines do in which order, a room that is not pending is one of which
-- the hook was last told what is so: that it is occupied, or that it is not. It is pending while the
-- flag is set, the room is in the queue, a call of noteRoomEdge for it has not ended, or the observer
-- is to check it, or has begun to.
pub run_actions-seen :
    (actions : List Action) (r : Text)
    → pending r (run_actions actions) ≡ false
    → latest r (run_actions actions).fired ≡ room_has_members r (run_actions actions).hub
run_actions-seen actions r e =
    (run_actions-Mirrors actions).0 r
    ∙ settled-seen r (run_actions actions) ((run_actions-AllSettled actions).1 r) e
