-- ===== src/Hub/Consistent.antt =====
-- The states of the hub that events lead to.
use xemu_cartographer.Base.{
  ◌≡◌, ◌≢◌, refl, ap, ◌↔◌, inl, inr, true, false, List, [], ◌∷◌, ◌++◌, arith, Bool-cases, All,
}
use xemu_cartographer.Text.{Text}
use xemu_cartographer.Hub.{
  Client, Hub, Event, registers, unregisters, joins, leaves, holds, add_client, drop_client,
  members, register, add_to_room, remove_from_room, remove_client, room_has_members, handle,
  run_events,
}
use xemu_cartographer.Hub.Indices.{
  IsIndex, drop_client-gone, add_client-IsIndex, join_set-IsIndex, leave_set-IsIndex,
  leave_all-IsIndex, members-clients, has_entry-members,
}

-- Every room has a member, and all members are connected.
abbrev pub IsConsistent : Hub → Type 0
IsConsistent h = IsIndex h.clients h.rooms

pub handle-IsConsistent : (e : Event) (h : Hub) → IsConsistent h → IsConsistent (handle e h).0
unfolding handle register add_to_room remove_from_room remove_client
handle-IsConsistent (registers c uid) h v = add_client-IsIndex c h.clients h.rooms v
handle-IsConsistent (unregisters c uid) h v = elim (Bool-cases (holds c h.clients)) [
  | inl e ↦ rw e (leave_all-IsIndex h.clients c h.rooms v)
  | inr e ↦ rw e v
]
handle-IsConsistent (joins c room) h v = elim (Bool-cases (holds c h.clients)) [
  | inl e ↦ rw e (join_set-IsIndex h.clients c room h.rooms e v)
  | inr e ↦ rw e v
]
handle-IsConsistent (leaves c room) h v = leave_set-IsIndex h.clients c room h.rooms v

-- Whatever the events, in the state that they lead to every room has a member, and all members of
-- rooms are connected clients.
pub run_events-IsConsistent : (events : List Event) → IsConsistent (run_events events)
unfolding run_events
run_events-IsConsistent [] = unfold IsIndex in tt
run_events-IsConsistent (e ∷ earlier) =
    handle-IsConsistent e (run_events earlier) (run_events-IsConsistent earlier)

drop_client-out :
    (c d : Client) (cs : List Client) → holds c cs ≡ false → holds c (drop_client d cs) ≡ false
unfolding holds drop_client
drop_client-out c d [] out = refl
drop_client-out c d (e ∷ cs) out = ground (arith, drop_client-out c d cs)

add_client-out :
    (c d : Client) (cs : List Client)
    → d ≢ c
    → holds c cs ≡ false
    → holds c (add_client d cs) ≡ false
unfolding holds add_client
add_client-out c d cs ne out = ground (arith, out)

-- Only to register puts a client among the connected ones.
stays_out :
    (e : Event) (c : Client) (h : Hub)
    → ((uid : Text) → e ≢ registers c uid)
    → holds c h.clients ≡ false
    → holds c (handle e h).0.clients ≡ false
unfolding handle register add_to_room remove_from_room remove_client
stays_out (registers d uid) c h ne out =
    add_client-out c d h.clients (λ e. ne uid (ap (λ x. registers x uid) e)) out
stays_out (unregisters d uid) c h ne out = elim (Bool-cases (holds d h.clients)) [
  | inl e ↦ rw e (drop_client-out c d h.clients out)
  | inr e ↦ rw e out
]
stays_out (joins d room) c h ne out = elim (Bool-cases (holds d h.clients)) [
  | inl e ↦ rw e out
  | inr e ↦ rw e out
]
stays_out (leaves d room) c h ne out = out

removed : (c : Client) (uid : Text) (h : Hub) → holds c (remove_client c uid h).0.clients ≡ false
unfolding remove_client
removed c uid h = elim (Bool-cases (holds c h.clients)) [
  | inl e ↦ rw e (drop_client-gone c h.clients)
  | inr e ↦ rw e e
]

stays_removed :
    (c : Client) (uid : Text) (later earlier : List Event)
    → All (λ e. (uid' : Text) → e ≢ registers c uid') later
    → holds c (run_events (later ++ unregisters c uid ∷ earlier)).clients ≡ false
unfolding run_events
stays_removed c uid [] earlier h = unfold handle in removed c uid (run_events earlier)
stays_removed c uid (e ∷ later) earlier h =
    stays_out e c (run_events (later ++ unregisters c uid ∷ earlier)) h.0
      (stays_removed c uid later earlier h.1)

-- Once a client is unregistered it is in no room, whatever came before and whatever events come
-- after, a join of its own too, unless it registers again.
pub unregister-gone :
    (c : Client) (uid room : Text) (later earlier : List Event)
    → All (λ e. (uid' : Text) → e ≢ registers c uid') later
    → holds c (members room (run_events (later ++ unregisters c uid ∷ earlier)).rooms) ≡ false
unregister-gone c uid room later earlier h =
    let events = later ++ unregisters c uid ∷ earlier in
    let state = run_events events in
    elim (Bool-cases (holds c (members room state.rooms))) [
      | inl e ↦ absurd (
          cc (
            members-clients state.clients c room state.rooms (run_events-IsConsistent events) e,
            stays_removed c uid later earlier h,
          ))
      | inr e ↦ e
    ]

-- After any events, the join of a connected client posts the room to the observer exactly if the
-- room had no members.
pub add_to_room-posts :
    (c : Client) (room : Text) (events : List Event)
    → holds c (run_events events).clients ≡ true
    → ((add_to_room c room (run_events events)).1 ≡ room ∷ [])
      ↔ (room_has_members room (run_events events) ≡ false)
unfolding add_to_room room_has_members
add_to_room-posts c room events k =
    let state = run_events events in
    let entry = has_entry-members state.clients room state.rooms (run_events-IsConsistent events) in
    (λ h. ground (arith, k, entry, h), λ h. ground (arith, k, entry, h))
