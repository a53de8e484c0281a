-- ===== src/Hub/Observer/Pending.antt =====
-- What is pending of a room. The actions of those who change and post rooms keep it so that a room that
-- the observer sees wrongly is still to be looked at.
use xemu_cartographer.Base.{
  ◌≡◌, refl, sym, inl, if◌then◌else◌, inr, Bool, true, false, ◌||◌, List, [], ◌∷◌, ◌++◌, arith,
  Bool-cases, ltb, length,
}
use xemu_cartographer.Text.{Text, text_eq, elem}
use xemu_cartographer.Text.Laws.{text_eq→≡, text_eq_refl}
use xemu_cartographer.Hub.{Event, handle, room_has_members}
use xemu_cartographer.Hub.Consistent.{IsConsistent}
use xemu_cartographer.Hub.Observer.{
  Watch, Next, to_select, to_top, Phase, at_top, swapped, selecting, checking, answered, hub_step,
  post_step, store_step, check_all, note_room_edge, take_one, same, room_event_buf,
}
use xemu_cartographer.Hub.Observer.Posts.{handle-posts}

-- The observer is to ask for the room's occupancy.
abbrev pub to_ask : Text → Phase → Bool
to_ask r at_top = false
to_ask r swapped = true
to_ask r selecting = false
to_ask r (checking q qs next) = text_eq r q || elem r qs
to_ask r (answered q o qs next) = elem r qs

-- The observer is to ask for it, or has the answer and is to fire.
abbrev pub ahead : Text → Phase → Bool
ahead r (answered q o qs next) = text_eq r q || elem r qs
ahead r p = to_ask r p

-- What the observer's record will say of the room when an answer that it has is in.
abbrev pub known : Text → Phase → List Text → Bool
known r (answered q o qs next) observed = if text_eq r q then o else elem r observed
known r _ observed = elem r observed

abbrev pub pending : Text → Watch → Bool
pending r w =
    w.dirty || elem r w.posting || elem r w.overflowed || elem r w.room_events || ahead r w.phase

abbrev pub IsSettled : Text → Watch → Type 0
IsSettled r w =
    (same (known r w.phase w.observed) (room_has_members r w.hub)
      || (w.dirty
          || elem r w.posting
          || elem r w.overflowed
          || elem r w.room_events
          || to_ask r w.phase))
    ≡ true

-- Where nothing is pending of the room, the record is what is known.
pub ahead-known :
    (r : Text) (p : Phase) (observed : List Text)
    → ahead r p ≡ false
    → (known r p observed ≡ elem r observed) × (to_ask r p ≡ false)
ahead-known r at_top observed h = (refl, h)
ahead-known r swapped observed h = (refl, h)
ahead-known r selecting observed h = (refl, h)
ahead-known r (checking q qs next) observed h = (refl, h)
ahead-known r (answered q o qs next) observed h = elim (Bool-cases (text_eq r q)) [
  | inl e ↦ absurd (ground (arith, h, e))
  | inr e ↦ (rw e refl, ground (arith, h, e))
]

pub elem-append : (r : Text) (xs ys : List Text) → elem r (xs ++ ys) ≡ (elem r xs || elem r ys)
unfolding elem
elem-append r [] ys = refl
elem-append r (x ∷ xs) ys = elim (Bool-cases (text_eq r x)) [
  | inl e ↦ rw e refl
  | inr e ↦ rw e (elem-append r xs ys)
]

pub elem-nil : (r : Text) → elem r [] ≡ false
unfolding elem
elem-nil r = refl

pub elem-cons : (r q : Text) (qs : List Text) → elem r (q ∷ qs) ≡ (text_eq r q || elem r qs)
unfolding elem
elem-cons r q qs = refl

pub elem-one : (r q : Text) → elem r (q ∷ []) ≡ text_eq r q
unfolding elem
elem-one r q = ground arith

pub check_all-asks :
    (r : Text) (qs : List Text) (next : Next) → to_ask r (check_all qs next) ≡ elem r qs
unfolding elem
check_all-asks r [] to_select = refl
check_all-asks r [] to_top = refl
check_all-asks r (q ∷ qs) next = refl

pub check_all-known :
    (r : Text) (qs : List Text) (next : Next) (observed : List Text)
    → known r (check_all qs next) observed ≡ elem r observed
check_all-known r [] to_select observed = refl
check_all-known r [] to_top observed = refl
check_all-known r (q ∷ qs) next observed = refl

take_one-elem :
    (r room : Text) (rs : List Text)
    → elem room rs ≡ true
    → elem r rs ≡ (text_eq r room || elem r (take_one room rs))
unfolding elem take_one
take_one-elem r room [] h = absurd cc
take_one-elem r room (x ∷ rs) h = elim (Bool-cases (text_eq room x)) [
  | inl e ↦ rw (sym (text_eq→≡ room x e)) (rw (text_eq_refl room) (ground arith))
  | inr e ↦ rw e (ground (arith, take_one-elem r room rs (rw e at h)))
]

-- The Boolean sides of the steps: `o` is what is known, `a` and `b` the occupancy before and after.
handled :
    (o a b d p q v e f : Bool)
    → (same o a || (d || p || v || e || f)) ≡ true
    → (same a b || q) ≡ true
    → (same o b || (d || (p || q) || v || e || f)) ≡ true
handled o a b d p q v e f x y = ground (arith, x, y)

queued :
    (s d p q v e x f : Bool)
    → (s || (d || p || v || e || f)) ≡ true
    → p ≡ (x || q)
    → (s || (d || q || v || (e || x) || f)) ≡ true
queued s d p q v e x f h k = ground (arith, h, k)

overflows :
    (s d p q v x e f : Bool)
    → (s || (d || p || v || e || f)) ≡ true
    → p ≡ (x || q)
    → (s || (d || q || (x || v) || e || f)) ≡ true
overflows s d p q v x e f h k = ground (arith, h, k)

pub or_end : (b : Bool) → (b || true) ≡ true
or_end b = ground arith

pub hub_step-IsSettled :
    (e : Event) (w : Watch) (r : Text)
    → IsConsistent w.hub
    → IsSettled r w
    → IsSettled r (hub_step e w)
hub_step-IsSettled e w r v s = rw (elem-append r w.posting (handle e w.hub).1) (
    handled (known r w.phase w.observed) (room_has_members r w.hub)
      (room_has_members r (handle e w.hub).0) w.dirty (elem r w.posting) (elem r (handle e w.hub).1)
      (elem r w.overflowed) (elem r w.room_events) (to_ask r w.phase) s (handle-posts e w.hub r v))

pub post_step-IsSettled :
    (room : Text) (w : Watch) (r : Text) → IsSettled r w → IsSettled r (post_step room w)
unfolding note_room_edge
post_step-IsSettled room w r s = elim (Bool-cases (elem room w.posting)) [
  | inr k ↦ rw k s
  | inl k ↦
      let seen = same (known r w.phase w.observed) (room_has_members r w.hub) in
      let left = take_one room w.posting in
      elim (Bool-cases (ltb (length w.room_events) room_event_buf)) [
        | inl e ↦
            rw (k, e, elem-append r w.room_events (room ∷ []), elem-one r room)
              (queued seen w.dirty (elem r w.posting) (elem r left) (elem r w.overflowed)
                (elem r w.room_events) (text_eq r room) (to_ask r w.phase) s
                (take_one-elem r room w.posting k))
        | inr e ↦
            rw (k, e, elem-cons r room w.overflowed)
              (overflows seen w.dirty (elem r w.posting) (elem r left) (elem r w.overflowed)
                (text_eq r room) (elem r w.room_events) (to_ask r w.phase) s
                (take_one-elem r room w.posting k))
      ]
]

pub store_step-IsSettled :
    (room : Text) (w : Watch) (r : Text) → IsSettled r w → IsSettled r (store_step room w)
store_step-IsSettled room w r s = elim (Bool-cases (elem room w.overflowed)) [
  | inl k ↦ rw k (or_end (same (known r w.phase w.observed) (room_has_members r w.hub)))
  | inr k ↦ rw k s
]
