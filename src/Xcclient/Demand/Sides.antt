-- ===== src/Xcclient/Demand/Sides.antt =====
-- What each step of a demand does to the two sides of a room: that it is joined, and that a timer is
-- pending for it.
use xemu_cartographer.Base.{
  ◌≡◌, refl, sym, ◌∙◌, inl, inr, Bool, true, false, not, ◌||◌, List, [], ◌∷◌, arith, Bool-cases,
}
use xemu_cartographer.Text.{Text, text_eq, elem}
use xemu_cartographer.Text.Laws.{text_eq_refl, text_eq→≡}
use xemu_cartographer.Xcclient.Demand.{Demand, delete_room, occupy, arm, release}

pub elem-delete : (r : Text) (rs : List Text) → elem r (delete_room r rs) ≡ false
unfolding elem delete_room
elem-delete r [] = refl
elem-delete r (x ∷ rs) = elim (Bool-cases (text_eq r x)) [
  | inl e ↦ rw e (elem-delete r rs)
  | inr e ↦ rw e (rw e (elem-delete r rs))
]

pub elem-delete_other :
    (r x : Text) (rs : List Text) → text_eq r x ≡ false → elem r (delete_room x rs) ≡ elem r rs
unfolding elem delete_room
elem-delete_other r x [] ne = refl
elem-delete_other r x (y ∷ rs) ne = elim (Bool-cases (text_eq x y)) [
  | inl e ↦
      let apart : text_eq r y ≡ false = rw (sym (text_eq→≡ x y e)) ne in
      rw (e, apart) (elem-delete_other r x rs ne)
  | inr e ↦ rw (e, elem-delete_other r x rs ne) refl
]

-- What is so of a demand room: if it was last told to be occupied, it is joined and not lingering, and
-- if not, it is joined only while a timer is pending.
abbrev pub Follows : Bool → Bool → Bool → Type 0
Follows true joined pends = (joined ≡ true) × (pends ≡ false)
Follows false joined pends = joined ≡ pends

-- The sides of a room: whether it is joined, and whether a timer is pending.
abbrev pub Sides : Text → Demand → Demand → Type 0
Sides r d e = (elem r e.joined ≡ elem r d.joined) × (elem r e.pending ≡ elem r d.pending)

pub elem-head : (r : Text) (rs : List Text) → elem r (r ∷ rs) ≡ true
unfolding elem
elem-head r rs = rw (text_eq_refl r) refl

pub elem-tail : (r x : Text) (rs : List Text) → text_eq r x ≡ false → elem r (x ∷ rs) ≡ elem r rs
unfolding elem
elem-tail r x rs ne = rw ne refl

pub occupy-at :
    (r : Text) (d : Demand)
    → (elem r (occupy r d).joined ≡ true) × (elem r (occupy r d).pending ≡ false)
unfolding occupy
occupy-at r d = elim (Bool-cases (elem r d.joined)) [
  | inl e ↦ rw e (e, elem-delete r d.pending)
  | inr e ↦ rw e (elem-head r d.joined, elem-delete r d.pending)
]

pub occupy-other : (r x : Text) (d : Demand) → text_eq r x ≡ false → Sides r d (occupy x d)
unfolding occupy
occupy-other r x d ne = elim (Bool-cases (elem x d.joined)) [
  | inl e ↦ rw e (refl, elem-delete_other r x d.pending ne)
  | inr e ↦ rw e (elem-tail r x d.joined ne, elem-delete_other r x d.pending ne)
]

pub arm-at :
    (o : Bool) (r : Text) (d : Demand)
    → Follows o (elem r d.joined) (elem r d.pending)
    → Follows false (elem r (arm r d).joined) (elem r (arm r d).pending)
unfolding arm
arm-at true r d (j, p) = rw (j, p) (j ∙ sym (elem-head r d.pending))
arm-at false r d f = elim (Bool-cases (elem r d.joined)) [
  | inl j ↦ rw (sym f, j) f
  | inr j ↦ rw j f
]

pub arm-other : (r x : Text) (d : Demand) → text_eq r x ≡ false → Sides r d (arm x d)
unfolding arm
arm-other r x d ne = elim (Bool-cases (not (elem x d.joined) || elem x d.pending)) [
  | inl e ↦ rw e (refl, refl)
  | inr e ↦ rw e (refl, elem-tail r x d.pending ne)
]

pub release-other :
    (r x : Text) (wanted : Bool) (d : Demand) → text_eq r x ≡ false → Sides r d (release x wanted d)
unfolding release
release-other r x wanted d ne = elim (Bool-cases (d.closed || not (elem x d.pending))) [
  | inl e ↦ rw e (refl, refl)
  | inr e ↦ elim (Bool-cases (elem x d.joined)) [
    | inl j ↦ rw (e, j) (elem-delete_other r x d.joined ne, elem-delete_other r x d.pending ne)
    | inr j ↦ rw (e, j) (refl, elem-delete_other r x d.pending ne)
  ]
]

pub release-at :
    (o : Bool) (r : Text) (wanted : Bool) (d : Demand)
    → d.closed ≡ false
    → Follows o (elem r d.joined) (elem r d.pending)
    → Follows o (elem r (release r wanted d).joined) (elem r (release r wanted d).pending)
unfolding release
release-at true r wanted d c (j, p) = rw (c, p) (j, p)
release-at false r wanted d c f = elim (Bool-cases (elem r d.pending)) [
  | inr p ↦ rw (c, p) f
  | inl p ↦ rw (c, p, f) (rw p (elem-delete r d.joined ∙ sym (elem-delete r d.pending)))
]

pub occupy-closed : (x : Text) (d : Demand) → (occupy x d).closed ≡ d.closed
unfolding occupy
occupy-closed x d = ground arith

pub arm-closed : (x : Text) (d : Demand) → (arm x d).closed ≡ d.closed
unfolding arm
arm-closed x d = ground arith

pub release-closed :
    (x : Text) (wanted : Bool) (d : Demand) → (release x wanted d).closed ≡ d.closed
unfolding release
release-closed x wanted d = ground arith

pub Follows-Sides :
    (o : Bool) (r : Text) (d e : Demand)
    → Sides r d e
    → Follows o (elem r d.joined) (elem r d.pending)
    → Follows o (elem r e.joined) (elem r e.pending)
Follows-Sides o r d e (j, p) f = rw (j, p) f
