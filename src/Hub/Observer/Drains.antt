-- ===== src/Hub/Observer/Drains.antt =====
-- The observer's goroutine gets to see everything, if there is a room for it to receive.
use xemu_cartographer.Base.{
  ◌≡◌, refl, ap, ◌∙◌, inl, inr, Bool, true, false, ◌&&◌, List, [], ◌∷◌, ◌++◌, All, Bool-cases,
  is_empty, if◌then◌else◌,
}
use xemu_cartographer.Text.{Text, elem}
use xemu_cartographer.Hub.{room_has_members}
use xemu_cartographer.Hub.Observer.{
  Watch, Next, to_select, to_top, go_on, Phase, at_top, swapped, selecting, checking, answered,
  Action, observer_swaps, observer_collects, observer_receives, observer_asks, observer_fires,
  swap_step, collect_step, receive_step, ask_step, fire_step, check_all, check_room, room_names,
  act, run_actions,
}
use xemu_cartographer.Hub.Observer.Pending.{pending}
use xemu_cartographer.Hub.Observer.Looks.{check_room-keeps}
use xemu_cartographer.Hub.Observer.Reaches.{
  own, run_from, Reach, Reach-here, Reach-then, Reach-map, Reach-act,
}
use xemu_cartographer.Hub.Observer.Posted.{Queued, all-Queued}

-- What the observer's checks keep.
abbrev Still : Watch → Watch → Type 0
Still w v =
    (v.posting ≡ w.posting)
    × (v.overflowed ≡ w.overflowed)
    × (v.room_events ≡ w.room_events)
    × (v.dirty ≡ w.dirty)

Still-trans : (u v w : Watch) → Still u v → Still v w → Still u w
Still-trans u v w (a, b, c, d) (e, f, g, h) = (e ∙ a, f ∙ b, g ∙ c, h ∙ d)

-- Out of its checks the observer goes on as it should.
abbrev Checked : Next → Watch → Watch → Type 0
Checked next w v = (v.phase ≡ go_on next) × Still w v

fires_all :
    (q : Text) (o : Bool) (qs : List Text) (next : Next) (w : Watch)
    → w.phase ≡ answered q o qs next
    → ((v : Watch) → v.phase ≡ check_all qs next → Reach (Checked next v) v)
    → Reach (Checked next w) w
unfolding act
fires_all q o qs next w e rest =
    let v : Watch = record w { phase = check_all qs next } in
    let (posting, overflowed, events, dirty, phase, hub) = check_room-keeps q o v in
    Reach-act (Checked next w) observer_fires w (check_room q o v) refl (ap (λ p. fire_step p w) e)
      hub
      (Reach-map (Checked next (check_room q o v)) (Checked next w) (check_room q o v)
        (rest (check_room q o v) phase)
        (λ u (there_now, still). (
          there_now,
          Still-trans w (check_room q o v) u (posting, overflowed, events, dirty) still,
        )))

checks_all :
    (qs : List Text) (next : Next) (w : Watch)
    → w.phase ≡ check_all qs next
    → Reach (Checked next w) w
unfolding act
checks_all [] next w e = Reach-here (Checked next w) w (e, (refl, refl, refl, refl))
checks_all (q ∷ qs) next w e =
    let v : Watch = record w { phase = answered q (room_has_members q w.hub) qs next } in
    Reach-act (Checked next w) observer_asks w v refl (ap (λ p. ask_step p w) e) refl
      (fires_all q (room_has_members q w.hub) qs next v refl (λ u f. checks_all qs next u f))

collects_all : (w : Watch) → w.phase ≡ swapped → Reach (Checked to_select w) w
unfolding act
collects_all w e =
    let rooms = w.observed ++ room_names w.hub.rooms in
    let v : Watch = record w { phase = check_all rooms to_select } in
    Reach-act (Checked to_select w) observer_collects w v refl (ap (λ p. collect_step p w) e) refl
      (checks_all rooms to_select v refl)

-- The observer is in its select, with the flag clear and nobody inside noteRoomEdge.
abbrev Selects : List Text → Watch → Type 0
Selects rs v =
    (v.phase ≡ selecting)
    × (v.dirty ≡ false)
    × (v.posting ≡ [])
    × (v.overflowed ≡ [])
    × (v.room_events ≡ rs)

swaps_one :
    (b : Bool) (w : Watch)
    → w.phase ≡ at_top
    → w.dirty ≡ b
    → act observer_swaps w ≡ record w { dirty = false; phase = if b then swapped else selecting }
unfolding act
swaps_one b w e d =
    ap (λ p. swap_step p w) e
    ∙ ap (λ (c : Bool). record w { dirty = false; phase = if c then swapped else selecting }) d

top-Selects :
    (w : Watch)
    → w.phase ≡ at_top
    → w.posting ≡ []
    → w.overflowed ≡ []
    → Reach (Selects w.room_events) w
top-Selects w e p o = elim (Bool-cases w.dirty) [
  | inl d ↦
      let v : Watch = record w { dirty = false; phase = swapped } in
      Reach-act (Selects w.room_events) observer_swaps w v refl (swaps_one true w e d) refl (
        Reach-map (Checked to_select v) (Selects w.room_events) v (collects_all v refl)
          (λ u (ph, (posting, overflowed, events, dirty)).
            (ph, dirty, posting ∙ p, overflowed ∙ o, events)))
  | inr d ↦
      let v : Watch = record w { dirty = false; phase = selecting } in
      Reach-act (Selects w.room_events) observer_swaps w v refl (swaps_one false w e d) refl
        (Reach-here (Selects w.room_events) v (refl, refl, p, o, refl))
]

Checked-Selects :
    (w : Watch)
    → w.posting ≡ []
    → w.overflowed ≡ []
    → Reach (Checked to_top w) w
    → Reach (Selects w.room_events) w
Checked-Selects w p o r =
    Reach-then (Checked to_top w) (Selects w.room_events) w r
      (λ v (ph, (posting, overflowed, events, dirty)).
        Reach-map (Selects v.room_events) (Selects w.room_events) v
          (top-Selects v ph (posting ∙ p) (overflowed ∙ o))
          (λ u (a, b, c, d, f). (a, b, c, d, f ∙ events)))

-- One room is received and checked.
receives_one :
    (r : Text) (rs : List Text) (w : Watch)
    → w.phase ≡ selecting
    → w.posting ≡ []
    → w.overflowed ≡ []
    → w.room_events ≡ r ∷ rs
    → Reach (Selects rs) w
unfolding act
receives_one r rs w e p o q =
    let v : Watch = record w { room_events = rs; phase = checking r [] to_top } in
    Reach-act (Selects rs) observer_receives w v refl
      (ap (λ x. receive_step x w.room_events w) e ∙ ap (λ es. receive_step selecting es w) q) refl
      (Checked-Selects v p o (checks_all (r ∷ []) to_top v refl))

receives_all : (rs : List Text) (w : Watch) → Selects rs w → Reach (Selects []) w
receives_all [] w s = Reach-here (Selects []) w s
receives_all (r ∷ rs) w (e, d, p, o, q) =
    Reach-then (Selects rs) (Selects []) w (receives_one r rs w e p o q)
      (λ v s. receives_all rs v s)

-- In its select the observer has a room to receive.
wakes :
    (es : List Text) (w : Watch)
    → w.phase ≡ selecting
    → w.posting ≡ []
    → w.overflowed ≡ []
    → w.room_events ≡ es
    → is_empty es ≡ false
    → Reach (Selects []) w
wakes [] w e p o q n = absurd cc
wakes (r ∷ rs) w e p o q n =
    Reach-then (Selects rs) (Selects []) w (receives_one r rs w e p o q)
      (λ v s. receives_all rs v s)

sees_all : (next : Next) (w : Watch) → Queued w → Reach (Checked next w) w → Reach (Selects []) w
sees_all to_top w (p, o, n) r =
    Reach-then (Selects w.room_events) (Selects []) w (Checked-Selects w p o r)
      (λ v s. receives_all w.room_events v s)
sees_all to_select w (p, o, n) r =
    Reach-then (Checked to_select w) (Selects []) w r
      (λ v (ph, (posting, overflowed, events, dirty)).
        wakes w.room_events v ph (posting ∙ p) (overflowed ∙ o) events n)

drains : (ph : Phase) (w : Watch) → w.phase ≡ ph → Queued w → Reach (Selects []) w
drains at_top w e q =
    sees_all to_top w q (Reach-here (Checked to_top w) w (e, (refl, refl, refl, refl)))
drains selecting w e q =
    sees_all to_select w q (Reach-here (Checked to_select w) w (e, (refl, refl, refl, refl)))
drains swapped w e q = sees_all to_select w q (collects_all w e)
drains (checking r rs next) w e q = sees_all next w q (checks_all (r ∷ rs) next w e)
drains (answered r a rs next) w e q =
    sees_all next w q (fires_all r a rs next w e (λ v f. checks_all rs next v f))

abbrev Quiet : Watch → Type 0
Quiet v = (r : Text) → pending r v ≡ false

Selects-Quiet : (v : Watch) → Selects [] v → Quiet v
unfolding elem
Selects-Quiet v (a, b, c, d, e) r = rw (a, b, c, d, e) refl

-- At every point of every run at which a room is in the queue, or is still to be sent to it, there are
-- actions of the callers of noteRoomEdge and of the observer, with no event of the hub among them,
-- after which nothing is pending of any room: the flag is clear then too.
pub run_actions-drains :
    (actions : List Action)
    → (is_empty (run_actions actions).posting && is_empty (run_actions actions).room_events) ≡ false
    → (later : List Action) × All (λ a. own a ≡ true) later
      × ((run_from later (run_actions actions)).hub ≡ (run_actions actions).hub)
      × ((r : Text) → pending r (run_from later (run_actions actions)) ≡ false)
run_actions-drains actions n =
    Reach-then Queued Quiet (run_actions actions) (all-Queued (run_actions actions) n)
      (λ v q. Reach-map (Selects []) Quiet v (drains v.phase v refl q) (λ u s. Selects-Quiet u s))
