-- ===== src/Hub/Observer/Posts.antt =====
-- The hub posts each room whose occupancy an event changes.
use xemu_cartographer.Base.{
  ◌≡◌, ◌≢◌, refl, sym, ◌∙◌, inl, inr, Bool, true, false, not, ◌||◌, ◌&&◌, is_empty, List, [], ◌∷◌,
  arith, Bool-cases, if◌then◌else◌,
}
use xemu_cartographer.Text.{Text, text_eq, elem}
use xemu_cartographer.Text.Laws.{text_eq_iff, text_eq→≡, text_eq_refl}
use xemu_cartographer.Hub.{
  Client, Index, Hub, Event, registers, unregisters, joins, leaves, holds, add_client, drop_client,
  members, join_set, keep_entry, leave_set, leave_all, emptied_by, has_entry, register, add_to_room,
  remove_from_room, remove_client, room_has_members, handle,
}
use xemu_cartographer.Hub.Indices.{IsIndex, has_entry-members, leave_set-IsIndex}
use xemu_cartographer.Hub.Consistent.{IsConsistent}
use xemu_cartographer.Hub.Recheck.{leave_set-other}
use xemu_cartographer.Hub.Observer.{same}

abbrev occupied : Text → Index → Bool
occupied r index = not (is_empty (members r index))

pub same_refl : (b : Bool) → same b b ≡ true
same_refl true = refl
same_refl false = refl

true≢false : true ≢ false
true≢false e = cc

unchanged : (b rest : Bool) → (same b b || rest) ≡ true
unchanged b rest = rw (same_refl b) refl

join_set-other :
    (c : Client) (r room : Text) (index : Index)
    → text_eq room r ≡ false
    → members r (join_set c room index) ≡ members r index
unfolding join_set members
join_set-other c r room [] ne = rw ne refl
join_set-other c r room ((n, cs) ∷ index) ne = elim (Bool-cases (text_eq n room)) [
  | inl e ↦
      let apart : text_eq n r ≡ false =
        ground (arith, e, ne, text_eq_iff n room, text_eq_iff n r, text_eq_iff room r) in
      rw (e, apart) refl
  | inr e ↦ rw e (ground (arith, join_set-other c r room index ne))
]

add_client-nonempty :
    (c : Client) (cs : List Client) → is_empty cs ≡ false → is_empty (add_client c cs) ≡ false
unfolding add_client
add_client-nonempty c cs h = ground (arith, h)

join_set-occupied :
    (c : Client) (room : Text) (index : Index)
    → occupied room index ≡ true
    → occupied room (join_set c room index) ≡ true
unfolding join_set members
join_set-occupied c room [] h = absurd cc
join_set-occupied c room ((n, cs) ∷ index) h = elim (Bool-cases (text_eq n room)) [
  | inl e ↦ rw e (ground (arith, e, h, add_client-nonempty c cs))
  | inr e ↦ rw e (rw e (join_set-occupied c room index (rw e at h)))
]

text_eq_comm : (s t : Text) → text_eq s t ≡ text_eq t s
text_eq_comm s t = ground (arith, text_eq_iff s t, text_eq_iff t s)

-- An entry with a client taken out: `left` is what is left of it, `posts` what the others post.
entry-emptied :
    (r n : Text) (cs left : List Client) (index after : Index) (posts : List Text)
    → is_empty cs ≡ false
    → (same (occupied r index) (occupied r after) || elem r posts) ≡ true
    → (same (occupied r ((n, cs) ∷ index)) (occupied r (keep_entry n left after))
        || elem r (if is_empty left then n ∷ posts else posts))
      ≡ true
unfolding members keep_entry elem
entry-emptied r n cs [] index after posts h rest = elim (Bool-cases (text_eq n r)) [
  | inl e ↦ rw (text_eq_comm r n, e) (ground (arith, h))
  | inr e ↦ rw (text_eq_comm r n, e) rest
]
entry-emptied r n cs (d ∷ left) index after posts h rest = elim (Bool-cases (text_eq n r)) [
  | inl e ↦ rw e (rw h refl)
  | inr e ↦ rw e rest
]

holds-nonempty : (c : Client) (cs : List Client) → holds c cs ≡ true → is_empty cs ≡ false
unfolding holds
holds-nonempty c [] h = absurd cc
holds-nonempty c (d ∷ cs) h = refl

-- removeClient: a room is as it was, or posted.
leave_all-emptied :
    (c : Client) (r : Text) (index : Index)
    → (same (occupied r index) (occupied r (leave_all c index)) || elem r (emptied_by c index))
      ≡ true
unfolding leave_all emptied_by members
leave_all-emptied c r [] = refl
leave_all-emptied c r ((n, cs) ∷ index) = elim (Bool-cases (holds c cs)) [
  | inl e ↦ rw e (
      entry-emptied r n cs (drop_client c cs) index (leave_all c index) (emptied_by c index)
        (holds-nonempty c cs e) (leave_all-emptied c r index))
  | inr e ↦ rw e (elim (Bool-cases (text_eq n r)) [
    | inl q ↦ rw q (unchanged (not (is_empty cs)) (elem r (emptied_by c index)))
    | inr q ↦ rw q (leave_all-emptied c r index)
  ])
]

or_end : (b : Bool) → (b || true) ≡ true
or_end true = refl
or_end false = refl

same-join :
    (c : Client) (room : Text) (h : Hub)
    → IsConsistent h
    → (same (occupied room h.rooms) (occupied room (join_set c room h.rooms))
        || elem room (if has_entry room h.rooms then [] else room ∷ []))
      ≡ true
unfolding elem
same-join c room h v = elim (Bool-cases (has_entry room h.rooms)) [
  | inl e ↦
      let before : occupied room h.rooms ≡ true =
        sym (has_entry-members h.clients room h.rooms v) ∙ e in
      rw (e, before) (ground (arith, join_set-occupied c room h.rooms before))
  | inr e ↦
      rw (e, text_eq_refl room)
        (or_end (same (occupied room h.rooms) (occupied room (join_set c room h.rooms))))
]

-- Nobody leaves a room that is empty.
leave_set-empty :
    (clients : List Client) (c : Client) (room : Text) (index : Index)
    → IsIndex clients index
    → is_empty (members room index) ≡ true
    → is_empty (members room (leave_set c room index)) ≡ true
unfolding IsIndex leave_set members
leave_set-empty clients c room [] v h = refl
leave_set-empty clients c room ((n, []) ∷ index) v h = absurd (v.0.0 refl)
leave_set-empty clients c room ((n, d ∷ cs) ∷ index) v h = elim (Bool-cases (text_eq n room)) [
  | inl e ↦ absurd (true≢false (sym (rw e at h)))
  | inr e ↦ rw e (rw e (leave_set-empty clients c room index v.1 (rw e at h)))
]

-- What removeFromRoom posts, on the emptiness of the room before and after.
emptied-posts :
    (room : Text) (before after : Bool)
    → (before ≡ true → after ≡ true)
    → (same (not before) (not after)
        || elem room (if not before && not (not after) then room ∷ [] else []))
      ≡ true
unfolding elem
emptied-posts room true true h = refl
emptied-posts room true false h = absurd (true≢false (sym (h refl)))
emptied-posts room false true h = rw (text_eq_refl room) refl
emptied-posts room false false h = refl

same-leave :
    (c : Client) (room : Text) (h : Hub)
    → IsConsistent h
    → (same (occupied room h.rooms) (occupied room (leave_set c room h.rooms))
        || elem room (remove_from_room c room h).1)
      ≡ true
unfolding remove_from_room
same-leave c room h v =
    rw
      (
        has_entry-members h.clients room h.rooms v,
        has_entry-members h.clients room (leave_set c room h.rooms)
            (leave_set-IsIndex h.clients c room h.rooms v),
      )
      (emptied-posts room (is_empty (members room h.rooms))
        (is_empty (members room (leave_set c room h.rooms)))
        (leave_set-empty h.clients c room h.rooms v))

apart : (room r : Text) → text_eq room r ≡ false → r ≢ room
apart room r q p = ground (arith, q, text_eq_iff room r, p)

-- An event leaves the occupancy of a room as it was, or posts the room.
pub handle-posts :
    (e : Event) (h : Hub) (r : Text)
    → IsConsistent h
    → (same (room_has_members r h) (room_has_members r (handle e h).0) || elem r (handle e h).1)
      ≡ true
unfolding handle room_has_members register add_to_room remove_from_room remove_client
handle-posts (registers c uid) h r v = unchanged (occupied r h.rooms) (elem r [])
handle-posts (unregisters c uid) h r v = elim (Bool-cases (holds c h.clients)) [
  | inl e ↦ rw e (leave_all-emptied c r h.rooms)
  | inr e ↦ rw e (unchanged (occupied r h.rooms) (elem r []))
]
handle-posts (joins c room) h r v = elim (Bool-cases (holds c h.clients)) [
  | inl e ↦ rw e (elim (Bool-cases (text_eq room r)) [
    | inl q ↦ rw (sym (text_eq→≡ room r q)) (same-join c room h v)
    | inr q ↦
        rw (join_set-other c r room h.rooms q) (
          unchanged (occupied r h.rooms)
            (elem r (if has_entry room h.rooms then [] else room ∷ [])))
  ])
  | inr e ↦ rw e (unchanged (occupied r h.rooms) (elem r []))
]
handle-posts (leaves c room) h r v = elim (Bool-cases (text_eq room r)) [
  | inl q ↦ rw (sym (text_eq→≡ room r q)) (same-leave c room h v)
  | inr q ↦
      rw (leave_set-other c r room h.rooms (λ p. apart room r q p))
        (unchanged (occupied r h.rooms) (elem r (remove_from_room c room h).1))
]
