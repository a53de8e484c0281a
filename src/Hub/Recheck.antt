-- ===== src/Hub/Recheck.antt =====
-- recheckRooms: a connection stays in the rooms that its principal may join, and in no others.
use xemu_cartographer.Base.{
  ◌≡◌, ◌≢◌, ◌↔◌, refl, sym, ap, ◌∙◌, inl, inr, Bool, true, false, Option, List, [], ◌∷◌, arith,
  Bool-cases, In, here, there,
}
use xemu_cartographer.Text.{Text, text_eq}
use xemu_cartographer.Text.Laws.{text_eq_iff, text_eq→≡}
use xemu_cartographer.Authz.Deps.{Deps}
use xemu_cartographer.Authz.Principal.{Principal}
use xemu_cartographer.Hub.{
  Client, Index, Hub, holds, drop_client, members, keep_entry, leave_set, remove_from_room,
  client_rooms, still_admitted, leave_each, recheck_rooms,
}
use xemu_cartographer.Hub.Indices.{drop_client-gone}

keep_entry-other :
    (room n : Text) (cs : List Client) (index : Index)
    → text_eq n room ≡ false
    → members room (keep_entry n cs index) ≡ members room index
unfolding keep_entry members
keep_entry-other room n [] index e = refl
keep_entry-other room n (c ∷ cs) index e = rw e refl

pub leave_set-other :
    (c : Client) (room name : Text) (index : Index)
    → room ≢ name
    → members room (leave_set c name index) ≡ members room index
unfolding leave_set members
leave_set-other c room name [] ne = refl
leave_set-other c room name ((n, cs) ∷ index) ne = elim (Bool-cases (text_eq n name)) [
  | inl e ↦
      let apart : text_eq n room ≡ false =
        ground (arith, e, text_eq_iff n name, text_eq_iff n room) in
      rw (e, apart)
        (keep_entry-other room n (drop_client c cs) (leave_set c name index) apart
          ∙ leave_set-other c room name index ne)
  | inr e ↦ rw e (ground (arith, leave_set-other c room name index ne))
]

kept-gone :
    (c : Client) (n name : Text) (cs : List Client) (index : Index)
    → holds c cs ≡ false
    → holds c (members name index) ≡ false
    → holds c (members name (keep_entry n cs index)) ≡ false
unfolding keep_entry members
kept-gone c n name [] index h k = k
kept-gone c n name (d ∷ cs) index h k = elim (Bool-cases (text_eq n name)) [
  | inl e ↦ rw e h
  | inr e ↦ rw e k
]

members-skip :
    (name n : Text) (cs : List Client) (index : Index)
    → text_eq n name ≡ false
    → members name ((n, cs) ∷ index) ≡ members name index
unfolding members
members-skip name n cs index e = rw e refl

leave_set-gone :
    (c : Client) (name : Text) (index : Index)
    → holds c (members name (leave_set c name index)) ≡ false
unfolding leave_set
leave_set-gone c name [] = unfold members holds in refl
leave_set-gone c name ((n, cs) ∷ index) = elim (Bool-cases (text_eq n name)) [
  | inl e ↦ rw e (
      kept-gone c n name (drop_client c cs) (leave_set c name index) (drop_client-gone c cs)
        (leave_set-gone c name index))
  | inr e ↦ rw e (
      ap (holds c) (members-skip name n cs (leave_set c name index) e)
      ∙ leave_set-gone c name index)
]

left-members :
    (c : Client) (room n : Text) (h : Hub)
    → members room (remove_from_room c n h).0.rooms ≡ members room (leave_set c n h.rooms)
unfolding remove_from_room
left-members c room n h = refl

looked_at :
    (admitted : Text → Bool) (room n : Text) (names : List Text)
    → In room (n ∷ names)
    → admitted n ≡ true
    → (In room names → admitted room ≡ true)
    → admitted room ≡ true
looked_at admitted room n names (here e) a passed = ap admitted e ∙ a
looked_at admitted room n names (there held) a passed = passed held

not_first : (room n : Text) (names : List Text) → room ≢ n → In room (n ∷ names) → In room names
not_first room n names ne (here e) = absurd (ne e)
not_first room n names ne (there held) = held

-- Who is still in a room was there before, and the room passed if it was looked at.
leave_each-stays :
    (admitted : Text → Bool) (c : Client) (room : Text) (names : List Text) (h : Hub)
    → holds c (members room (leave_each admitted c names h).0.rooms) ≡ true
    → (holds c (members room h.rooms) ≡ true) × (In room names → admitted room ≡ true)
unfolding leave_each
leave_each-stays admitted c room [] h e = (e, λ held. elim held [ ])
leave_each-stays admitted c room (n ∷ names) h e = elim (Bool-cases (admitted n)) [
  | inl a ↦
      let (before, passed) = leave_each-stays admitted c room names h (rw (leave_each, a) at e) in
      (before, λ held. looked_at admitted room n names held a passed)
  | inr a ↦
      let (after, passed) =
        leave_each-stays admitted c room names (remove_from_room c n h).0
          (rw (leave_each, a) at e) in
      let stays : holds c (members room (leave_set c n h.rooms)) ≡ true =
        ap (holds c) (sym (left-members c room n h)) ∙ after in
      elim (Bool-cases (text_eq n room)) [
        | inl same ↦
            let gone = leave_set-gone c n h.rooms in
            absurd (
              cc (
                ap (λ x. holds c (members x (leave_set c n h.rooms))) (text_eq→≡ n room same),
                gone,
                stays,
              ))
        | inr other ↦
            let ne : room ≢ n = ground (arith, other, text_eq_iff n room) in
            (
              ap (holds c) (sym (leave_set-other c room n h.rooms ne)) ∙ stays,
              λ held. passed (not_first room n names ne held),
            )
      ]
]

joined-client_rooms :
    (c : Client) (room : Text) (index : Index)
    → holds c (members room index) ≡ true
    → In room (client_rooms c index)
unfolding members client_rooms
joined-client_rooms c room [] h = unfold holds in cc h
joined-client_rooms c room ((n, cs) ∷ index) h = elim (Bool-cases (text_eq n room)) [
  | inl e ↦ let held : holds c cs ≡ true = rw e at h in rw held (here (sym (text_eq→≡ n room e)))
  | inr e ↦
      let later = joined-client_rooms c room index (rw e at h) in
      elim (Bool-cases (holds c cs)) [ inl k ↦ rw k (there later) | inr k ↦ rw k later ]
]

leave_each-keeps :
    (admitted : Text → Bool) (c : Client) (room : Text) (names : List Text) (h : Hub)
    → admitted room ≡ true
    → holds c (members room h.rooms) ≡ true
    → holds c (members room (leave_each admitted c names h).0.rooms) ≡ true
unfolding leave_each
leave_each-keeps admitted c room [] h k e = e
leave_each-keeps admitted c room (n ∷ names) h k e = elim (Bool-cases (admitted n)) [
  | inl a ↦ rw (leave_each, a) (leave_each-keeps admitted c room names h k e)
  | inr a ↦
      let ne : room ≢ n = λ q. cc (ap admitted q, k, a) in
      let same = ap (holds c) (left-members c room n h ∙ leave_set-other c room n h.rooms ne) in
      rw (leave_each, a)
        (leave_each-keeps admitted c room names (remove_from_room c n h).0 k (same ∙ e))
]

-- After recheckRooms a connection is in exactly those rooms that it was in before, whose names parse
-- and which its principal may join.
pub recheck_rooms_iff :
    (deps : Option Deps) (p : Principal) (c : Client) (h : Hub) (room : Text)
    → (holds c (members room (recheck_rooms deps p c h).0.rooms) ≡ true)
      ↔ ((holds c (members room h.rooms) ≡ true) × (still_admitted deps p room ≡ true))
unfolding recheck_rooms
recheck_rooms_iff deps p c h room = (
  λ e.
      let (before, passed) =
        leave_each-stays (still_admitted deps p) c room (client_rooms c h.rooms) h e in
      (before, passed (joined-client_rooms c room h.rooms before)),
  λ k. leave_each-keeps (still_admitted deps p) c room (client_rooms c h.rooms) h k.1 k.0,
)
