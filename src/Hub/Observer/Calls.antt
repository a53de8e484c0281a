-- ===== src/Hub/Observer/Calls.antt =====
-- The calls of the hook: they agree with the observer's own record of the rooms, and alternate.
use xemu_cartographer.Base.{
  ◌≡◌, refl, sym, ◌∙◌, inl, inr, Bool, true, false, not, List, [], ◌∷◌, Bool-cases, if◌then◌else◌,
  ltb, length,
}
use xemu_cartographer.Text.{Text, text_eq, elem}
use xemu_cartographer.Text.Laws.{text_eq→≡, text_eq_refl}
use xemu_cartographer.Hub.Observer.{
  Watch, Phase, at_top, swapped, selecting, checking, answered, Action, hub_handles, posts, stores,
  observer_swaps, observer_collects, observer_receives, observer_asks, observer_fires, post_step,
  store_step, swap_step, collect_step, receive_step, ask_step, fire_step, check_all, note_room_edge,
  take_one, same, forget, observe, check_room, act, run_actions, room_event_buf,
}

-- What the hook was last told of a room; a room that it was told nothing of is empty.
abbrev pub latest : Text → List (Text × Bool) → Bool
latest r [] = false
latest r ((room, occupied) ∷ earlier) = if text_eq r room then occupied else latest r earlier

-- Each call tells the hook something new of its room.
abbrev pub Alternates : List (Text × Bool) → Type 0
Alternates [] = Unit
Alternates ((room, occupied) ∷ earlier) = (latest room earlier ≡ not occupied) × Alternates earlier

pub elem-forget : (r : Text) (rs : List Text) → elem r (forget r rs) ≡ false
unfolding elem forget
elem-forget r [] = refl
elem-forget r (x ∷ rs) = elim (Bool-cases (text_eq r x)) [
  | inl e ↦ rw e (elem-forget r rs)
  | inr e ↦ rw e (rw e (elem-forget r rs))
]

elem-forget_other :
    (r x : Text) (rs : List Text) → text_eq r x ≡ false → elem r (forget x rs) ≡ elem r rs
unfolding elem forget
elem-forget_other r x [] ne = refl
elem-forget_other r x (y ∷ rs) ne = elim (Bool-cases (text_eq x y)) [
  | inl e ↦
      let apart : text_eq r y ≡ false = rw (sym (text_eq→≡ x y e)) ne in
      rw (e, apart) (elem-forget_other r x rs ne)
  | inr e ↦ rw (e, elem-forget_other r x rs ne) refl
]

-- After an observation the record has the room exactly if it is occupied.
pub elem-observe :
    (r : Text) (occupied : Bool) (rs : List Text) → elem r (observe r occupied rs) ≡ occupied
unfolding elem
elem-observe r true rs = rw (text_eq_refl r) refl
elem-observe r false rs = unfold elem in elem-forget r rs

pub elem-observe_other :
    (r x : Text) (occupied : Bool) (rs : List Text)
    → text_eq r x ≡ false
    → elem r (observe x occupied rs) ≡ elem r rs
unfolding elem
elem-observe_other r x true rs ne = rw ne refl
elem-observe_other r x false rs ne = elem-forget_other r x rs ne

-- The record of the observer is what the hook was last told, and the calls alternate.
abbrev pub Mirrors : Watch → Type 0
Mirrors w = ((r : Text) → latest r w.fired ≡ elem r w.observed) × Alternates w.fired

different : (a b : Bool) → same a b ≡ false → a ≡ not b
different true true e = cc
different true false e = refl
different false true e = refl
different false false e = cc

check_room-Mirrors :
    (room : Text) (o : Bool) (w : Watch) → Mirrors w → Mirrors (check_room room o w)
unfolding check_room
check_room-Mirrors room o w (m, a) = elim (Bool-cases (same (elem room w.observed) o)) [
  | inl e ↦ rw e (m, a)
  | inr e ↦ rw e (
    λ r. elim (Bool-cases (text_eq r room)) [
      | inl q ↦ rw (q, text_eq→≡ r room q) (sym (elem-observe room o w.observed))
      | inr q ↦ rw (q, elem-observe_other r room o w.observed q) (m r)
    ],
    (m room ∙ different (elem room w.observed) o e, a),
  )
]

note_room_edge-Mirrors : (room : Text) (w : Watch) → Mirrors w → Mirrors (note_room_edge room w)
unfolding note_room_edge
note_room_edge-Mirrors room w m = elim (Bool-cases (ltb (length w.room_events) room_event_buf)) [
  | inl e ↦ rw e m
  | inr e ↦ rw e m
]

post_step-Mirrors : (room : Text) (w : Watch) → Mirrors w → Mirrors (post_step room w)
post_step-Mirrors room w m = elim (Bool-cases (elem room w.posting)) [
  | inl e ↦ rw e (note_room_edge-Mirrors room (record w { posting = take_one room w.posting }) m)
  | inr e ↦ rw e m
]

store_step-Mirrors : (room : Text) (w : Watch) → Mirrors w → Mirrors (store_step room w)
store_step-Mirrors room w m = elim (Bool-cases (elem room w.overflowed)) [
  | inl e ↦ rw e m
  | inr e ↦ rw e m
]

observer-Mirrors :
    (p : Phase) (rs : List Text) (w : Watch)
    → Mirrors w
    → Mirrors (swap_step p w)
      × Mirrors (collect_step p w)
      × Mirrors (receive_step p rs w)
      × Mirrors (ask_step p w)
      × Mirrors (fire_step p w)
observer-Mirrors at_top rs w m = (m, m, m, m, m)
observer-Mirrors swapped rs w m = (m, m, m, m, m)
observer-Mirrors selecting [] w m = (m, m, m, m, m)
observer-Mirrors selecting (r ∷ rs) w m = (m, m, m, m, m)
observer-Mirrors (checking r qs next) rs w m = (m, m, m, m, m)
observer-Mirrors (answered r o qs next) rs w m =
    (m, m, m, m, check_room-Mirrors r o (record w { phase = check_all qs next }) m)

act-Mirrors : (a : Action) (w : Watch) → Mirrors w → Mirrors (act a w)
unfolding act
act-Mirrors (hub_handles e) w m = m
act-Mirrors (posts room) w m = post_step-Mirrors room w m
act-Mirrors (stores room) w m = store_step-Mirrors room w m
act-Mirrors observer_swaps w m = (observer-Mirrors w.phase w.room_events w m).0
act-Mirrors observer_collects w m = (observer-Mirrors w.phase w.room_events w m).1
act-Mirrors observer_receives w m = (observer-Mirrors w.phase w.room_events w m).2
act-Mirrors observer_asks w m = (observer-Mirrors w.phase w.room_events w m).3
act-Mirrors observer_fires w m = (observer-Mirrors w.phase w.room_events w m).4

-- In every run the observer's record is what the hook was last told of each room, and no call tells
-- the hook what it was last told of the room; the first call about a room is that it is occupied.
pub run_actions-Mirrors : (actions : List Action) → Mirrors (run_actions actions)
unfolding run_actions
run_actions-Mirrors [] = (λ r. unfold elem in refl, tt)
run_actions-Mirrors (a ∷ earlier) =
    act-Mirrors a (run_actions earlier) (run_actions-Mirrors earlier)
