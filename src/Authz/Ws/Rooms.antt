-- ===== src/Authz/Ws/Rooms.antt =====
-- Room names: what ParseRoom accepts is what its selector addresses.
use xemu_cartographer.Base.{
  ◌≡◌, ◌≢◌, refl, sym, ap, ◌∙◌, ◌⊎◌, inl, inr, true, false, Option, none, some, List, [], ◌∷◌, ◌++◌,
  arith, Bool-cases, subst,
}
use xemu_cartographer.Text.{Text, cut, split, join, text_eq}
use xemu_cartographer.Text.Laws.{text_eq_refl, text_eq→≡, uncut, uncut-cut, join-split}
use xemu_cartographer.Text.Separators.{IsFree, cut-free, cut-IsFree}
use xemu_cartographer.Authz.Errors.{ok}
use xemu_cartographer.Authz.Scope.{colon, host_room_type}
use xemu_cartographer.Authz.Resource.{Room, room_selector, is_host}
use xemu_cartographer.Authz.Ws.{parse_room, room_parts, host_rest, host_room, typed_room}
use xemu_cartographer.Authz.Rules.{room_canonical, same_room}

-- What a room parsed from a name is: a host room whose selector is the name, or a type alone.
abbrev Parsed : Text → Room → Type 0
Parsed name rm =
    ((is_host rm ≡ true) × (room_selector rm ≡ name))
    ⊎ ((is_host rm ≡ false)
        × (rm.room_type ≡ (cut colon name).0)
        × (rm.room_type ≢ [])
        × (rm.instance_name ≡ [])
        × (rm.class ≡ []))

host_room-selector :
    (name : Text) (segs : List Text) (rm : Room)
    → host_room name segs ≡ ok rm
    → (is_host rm ≡ true) × (room_selector rm ≡ host_room_type ++ colon ∷ join colon segs)
unfolding host_room is_host room_selector
host_room-selector name [] rm h = absurd (ground arith)
host_room-selector name (inst ∷ []) rm h = (
  ground (arith, text_eq_refl host_room_type),
  unfold join in ground (arith, text_eq_refl host_room_type),
)
host_room-selector name (inst ∷ class ∷ []) rm h = (
  ground (arith, text_eq_refl host_room_type),
  unfold join in ground (arith, text_eq_refl host_room_type),
)
host_room-selector name (inst ∷ class ∷ x ∷ segs) rm h = absurd (ground arith)

host_rest-selector :
    (name : Text) (rest : Option Text) (rm : Room)
    → host_rest name rest ≡ ok rm
    → (is_host rm ≡ true) × (room_selector rm ≡ uncut colon (host_room_type, rest))
unfolding host_rest
host_rest-selector name none rm h = absurd (ground arith)
host_rest-selector name (some rest) rm h =
    let (host, sel) = host_room-selector name (split colon rest) rm (ground arith) in
    (host, sel ∙ ap (λ t. host_room_type ++ colon ∷ t) (join-split colon rest))

room_parts-Parsed :
    (name : Text) (parts : Text × Option Text) (rm : Room)
    → room_parts name parts ≡ ok rm
    → ((is_host rm ≡ true) × (room_selector rm ≡ uncut colon parts))
      ⊎ ((is_host rm ≡ false)
          × (rm.room_type ≡ parts.0)
          × (rm.room_type ≢ [])
          × (rm.instance_name ≡ [])
          × (rm.class ≡ []))
unfolding room_parts
room_parts-Parsed name (typ, rest) rm h = elim (Bool-cases (text_eq typ host_room_type)) [
  | inl e ↦
      let (host, sel) = host_rest-selector name rest rm (ground arith) in
      inl (host, sel ∙ ap (λ t. uncut colon (t, rest)) (sym (text_eq→≡ typ host_room_type e)))
  | inr e ↦ inr (unfold is_host in ground arith)
]

parse_room-Parsed : (name : Text) (rm : Room) → parse_room name ≡ ok rm → Parsed name rm
unfolding parse_room
parse_room-Parsed name rm h = elim (room_parts-Parsed name (cut colon name) rm (ground arith)) [
  | inl e ↦ inl (e.0, e.1 ∙ uncut-cut colon name)
  | inr e ↦ inr e
]

-- The selector of a parsed host room is the name that was parsed.
pub room_selector-parse_room :
    (name : Text) (rm : Room)
    → parse_room name ≡ ok rm
    → is_host rm ≡ true
    → room_selector rm ≡ name
room_selector-parse_room name rm h host = elim (parse_room-Parsed name rm h) [
  | inl e ↦ e.1
  | inr e ↦ absurd (ground arith)
]

same_room_refl : (rm : Room) → same_room rm rm ≡ true
unfolding same_room
same_room_refl rm =
    rw (text_eq_refl rm.room_type, text_eq_refl rm.instance_name, text_eq_refl rm.class)

-- A room type alone parses to itself.
parse_room-type :
    (typ : Text)
    → typ ≢ []
    → text_eq typ host_room_type ≡ false
    → IsFree colon typ
    → parse_room typ ≡ ok (typed_room typ typ [] [])
unfolding parse_room
parse_room-type [] n h free = absurd (n refl)
parse_room-type (c ∷ typ) n h free = rw (cut-free colon (c ∷ typ) free) (unfold room_parts in rw h)

same_room-typed :
    (raw : Text) (rm : Room)
    → rm.instance_name ≡ []
    → rm.class ≡ []
    → same_room (typed_room raw rm.room_type [] []) rm ≡ true
unfolding same_room
same_room-typed raw rm i c = rw (text_eq_refl rm.room_type, i, c) (unfold text_eq in refl)

canonical-by :
    (rm parsed : Room)
    → parse_room (room_selector rm) ≡ ok parsed
    → same_room parsed rm ≡ true
    → room_canonical rm ≡ true
unfolding room_canonical
canonical-by rm parsed h e = rw (h, room_canonical) e

type-selector : (rm : Room) → is_host rm ≡ false → room_selector rm ≡ rm.room_type
unfolding room_selector
type-selector rm h = ground arith

-- Whatever name a client sends, the room that it parses to is canonical: its selector parses to
-- the same type, instance and class, so the rules judge the room that the selector addresses.
pub parse_room-canonical :
    (name : Text) (rm : Room) → parse_room name ≡ ok rm → room_canonical rm ≡ true
parse_room-canonical name rm h = elim (parse_room-Parsed name rm h) [
  | inl e ↦ canonical-by rm rm (ap parse_room e.1 ∙ h) (same_room_refl rm)
  | inr e ↦
      canonical-by rm (typed_room rm.room_type rm.room_type [] [])
        (ap parse_room (type-selector rm e.0)
          ∙ parse_room-type rm.room_type e.2 (unfold is_host in e.0)
              (subst (IsFree colon) (sym e.1) (cut-IsFree colon name)))
        (same_room-typed rm.room_type rm e.3 e.4)
]
