-- ===== src/Hub/Observer/Looks.antt =====
-- The actions of the observer keep it so that a room that it sees wrongly is still to be looked at.
use xemu_cartographer.Base.{
  ◌≡◌, refl, sym, ap, ◌∙◌, inl, if◌then◌else◌, inr, Bool, true, false, not, ◌||◌, List, [], ◌∷◌,
  ◌++◌, arith, Bool-cases, is_empty,
}
use xemu_cartographer.Text.{Text, text_eq, elem}
use xemu_cartographer.Text.Laws.{text_eq→≡, text_eq_refl}
use xemu_cartographer.Hub.{Index, members, room_has_members}
use xemu_cartographer.Hub.Observer.{
  Watch, to_select, Phase, at_top, swapped, selecting, checking, answered, swap_step, collect_step,
  receive_step, ask_step, fire_step, check_all, same, check_room, room_names,
}
use xemu_cartographer.Hub.Observer.Posts.{same_refl}
use xemu_cartographer.Hub.Observer.Calls.{elem-observe, elem-observe_other}
use xemu_cartographer.Hub.Observer.Pending.{
  IsSettled, elem-append, elem-cons, check_all-asks, check_all-known, or_end,
}

flagged : (s p v e : Bool) → (s || (false || p || v || e || true)) ≡ true
flagged s p v e = ground arith

collected :
    (o a n d p v e : Bool)
    → (a ≡ true → n ≡ true)
    → (same o a || (d || p || v || e || (o || n))) ≡ true
collected o a n d p v e h = ground (arith, h)

received :
    (s d p v e es x n : Bool)
    → (s || (d || p || v || e || false)) ≡ true
    → e ≡ (x || es)
    → (s || (d || p || v || es || (x || n))) ≡ true
received s d p v e es x n h k = ground (arith, h, k)

pub ask_step-IsSettled :
    (p : Phase) (w : Watch) (r : Text) → w.phase ≡ p → IsSettled r w → IsSettled r (ask_step p w)
ask_step-IsSettled at_top w r e s = s
ask_step-IsSettled swapped w r e s = s
ask_step-IsSettled selecting w r e s = s
ask_step-IsSettled (answered q o qs next) w r e s = s
ask_step-IsSettled (checking q qs next) w r e s = elim (Bool-cases (text_eq r q)) [
  | inl h ↦ rw (text_eq→≡ r q h, text_eq_refl q, same_refl (room_has_members q w.hub)) refl
  | inr h ↦ rw h (rw (e, h) at s)
]

-- After checkRoom the record is what was known, of the room and of the others.
check_room-elem :
    (r q : Text) (o : Bool) (w : Watch)
    → elem r (check_room q o w).observed ≡ (if text_eq r q then o else elem r w.observed)
unfolding check_room
check_room-elem r q o w = elim (Bool-cases (text_eq r q)) [
  | inl h ↦
      rw (text_eq→≡ r q h, text_eq_refl q)
        (elim (Bool-cases (same (elem q w.observed) o)) [
          | inl e ↦ rw e (same-eq (elem q w.observed) o e)
          | inr e ↦ rw e (elem-observe q o w.observed)
        ])
  | inr h ↦ rw h (elim (Bool-cases (same (elem q w.observed) o)) [
    | inl e ↦ rw e refl
    | inr e ↦ rw e (elem-observe_other r q o w.observed h)
  ])
]
  where
    same-eq : (a b : Bool) → same a b ≡ true → a ≡ b
    same-eq a b e = ground (arith, e)

pub check_room-keeps :
    (q : Text) (o : Bool) (w : Watch)
    → ((check_room q o w).posting ≡ w.posting)
      × ((check_room q o w).overflowed ≡ w.overflowed)
      × ((check_room q o w).room_events ≡ w.room_events)
      × ((check_room q o w).dirty ≡ w.dirty)
      × ((check_room q o w).phase ≡ w.phase)
      × ((check_room q o w).hub ≡ w.hub)
unfolding check_room
check_room-keeps q o w = elim (Bool-cases (same (elem q w.observed) o)) [
  | inl e ↦ rw e (refl, refl, refl, refl, refl, refl)
  | inr e ↦ rw e (refl, refl, refl, refl, refl, refl)
]

pub fire_step-IsSettled :
    (p : Phase) (w : Watch) (r : Text) → w.phase ≡ p → IsSettled r w → IsSettled r (fire_step p w)
fire_step-IsSettled at_top w r e s = s
fire_step-IsSettled swapped w r e s = s
fire_step-IsSettled selecting w r e s = s
fire_step-IsSettled (checking q qs next) w r e s = s
fire_step-IsSettled (answered q o qs next) w r e s =
    let v : Watch = record w { phase = check_all qs next } in
    let (posting, overflowed, events, dirty, phase, hub) = check_room-keeps q o v in
    rw
      (
        posting,
        overflowed,
        events,
        dirty,
        phase,
        hub,
        check_all-known r qs next (check_room q o v).observed,
        check_all-asks r qs next,
        check_room-elem r q o v,
      )
      (rw e at s)

pub swap_step-IsSettled :
    (p : Phase) (w : Watch) (r : Text) → w.phase ≡ p → IsSettled r w → IsSettled r (swap_step p w)
swap_step-IsSettled swapped w r e s = s
swap_step-IsSettled selecting w r e s = s
swap_step-IsSettled (checking q qs next) w r e s = s
swap_step-IsSettled (answered q o qs next) w r e s = s
swap_step-IsSettled at_top w r e s = elim (Bool-cases w.dirty) [
  | inl d ↦ rw d (
      flagged (same (elem r w.observed) (room_has_members r w.hub)) (elem r w.posting)
        (elem r w.overflowed) (elem r w.room_events))
  | inr d ↦ rw d (rw (e, d) at s)
]

-- A room that somebody is in is among the hub's rooms.
pub occupied-names :
    (r : Text) (index : Index)
    → not (is_empty (members r index)) ≡ true
    → elem r (room_names index) ≡ true
unfolding members room_names elem
occupied-names r [] h = absurd cc
occupied-names r ((n, cs) ∷ index) h = elim (Bool-cases (text_eq n r)) [
  | inl e ↦ rw (sym (text_eq→≡ n r e), text_eq_refl n) refl
  | inr e ↦ rw (occupied-names r index (rw e at h)) (or_end (text_eq r n))
]

pub collect_step-IsSettled :
    (p : Phase) (w : Watch) (r : Text)
    → w.phase ≡ p
    → IsSettled r w
    → IsSettled r (collect_step p w)
unfolding room_has_members
collect_step-IsSettled at_top w r e s = s
collect_step-IsSettled selecting w r e s = s
collect_step-IsSettled (checking q qs next) w r e s = s
collect_step-IsSettled (answered q o qs next) w r e s = s
collect_step-IsSettled swapped w r e s =
    let rooms = w.observed ++ room_names w.hub.rooms in
    rw
      (
        check_all-asks r rooms to_select,
        check_all-known r rooms to_select w.observed,
        elem-append r w.observed (room_names w.hub.rooms),
      )
      (collected (elem r w.observed) (not (is_empty (members r w.hub.rooms)))
        (elem r (room_names w.hub.rooms)) w.dirty (elem r w.posting) (elem r w.overflowed)
        (elem r w.room_events) (occupied-names r w.hub.rooms))

pub receive_step-IsSettled :
    (p : Phase) (rs : List Text) (w : Watch) (r : Text)
    → w.phase ≡ p
    → w.room_events ≡ rs
    → IsSettled r w
    → IsSettled r (receive_step p rs w)
receive_step-IsSettled at_top rs w r e q s = s
receive_step-IsSettled swapped rs w r e q s = s
receive_step-IsSettled (checking x xs next) rs w r e q s = s
receive_step-IsSettled (answered x o xs next) rs w r e q s = s
receive_step-IsSettled selecting [] w r e q s = s
receive_step-IsSettled selecting (x ∷ rs) w r e q s =
    received (same (elem r w.observed) (room_has_members r w.hub)) w.dirty (elem r w.posting)
      (elem r w.overflowed) (elem r w.room_events) (elem r rs) (text_eq r x) (elem r []) (rw e at s)
      (ap (elem r) q ∙ elem-cons r x rs)
