-- ===== src/Pb/Ceiling/Wider.antt =====
-- scopeCovers: a pattern that covers another matches whatever the other matches.
use xemu_cartographer.Base.{
  ◌≡◌, ◌≢◌, refl, sym, ap, ◌∙◌, inl, inr, true, false, List, [], ◌∷◌, ◌++◌, arith, Bool-cases,
  is_empty,
}
use mathlib.Core.List.{append_assoc}
use xemu_cartographer.Text.{Text, codes, text_eq, has_prefix}
use xemu_cartographer.Text.Laws.{text_eq→≡}
use xemu_cartographer.Authz.Action.{Action, action_text}
use xemu_cartographer.Authz.Scope.{ScopePat, wildcard_segment, only_wildcard}
use xemu_cartographer.Authz.Scope.Covers.{
  Segments, done, star, same, ActionCovers, every, in_family, exact, SelectorCovers, unselected,
  empty_only, whole, by_segment, match_segments-Segments, only_wildcard-eq, is_empty-eq,
  is_empty-ne, prefix_rest,
}
use xemu_cartographer.Pb.Ceiling.{action_covers, selector_covers, scope_covers}

-- An action in a family that lies in another family lies in that too.
family_in_family :
    (outer inner rest rest' t : Text)
    → inner ≡ (outer ++ codes ".") ++ rest
    → t ≡ (inner ++ codes ".") ++ rest'
    → t ≡ (outer ++ codes ".") ++ (rest ++ (codes "." ++ rest'))
family_in_family outer inner rest rest' t e f =
    f
    ∙ ap (λ u. (u ++ codes ".") ++ rest') e
    ∙ append_assoc ((outer ++ codes ".") ++ rest) (codes ".") rest'
    ∙ append_assoc (outer ++ codes ".") rest (codes "." ++ rest')

wider-action :
    (held want : ScopePat) (a : Action)
    → held.any ≡ false
    → action_covers held want ≡ true
    → ActionCovers want a
    → ActionCovers held a
unfolding action_covers
wider-action held want a n h (every e) = absurd (ground arith)
wider-action held want a n h (in_family rest e f k) = elim (Bool-cases held.family) [
  | inr g ↦ absurd (ground arith)
  | inl g ↦ elim (Bool-cases (has_prefix (held.action ++ codes ".") want.action)) [
    | inl q ↦
        let (mid, m) = prefix_rest (held.action ++ codes ".") want.action q in
        in_family (mid ++ (codes "." ++ rest)) n g
          (family_in_family held.action want.action mid rest (action_text a) m k)
    | inr q ↦
        let same_family : want.action ≡ held.action =
          ground (arith, text_eq→≡ want.action held.action) in
        in_family rest n g (k ∙ ap (λ t. (t ++ codes ".") ++ rest) same_family)
  ]
]
wider-action held want a n h (exact e f k) = elim (Bool-cases held.family) [
  | inr g ↦ exact n g (k ∙ ground (arith, text_eq→≡ want.action held.action))
  | inl g ↦
      let (rest, m) = prefix_rest (held.action ++ codes ".") want.action (ground arith) in
      in_family rest n g (k ∙ m)
]

-- A wildcard in the middle pattern has a wildcard in the outer one.
Segments-trans : {hs ws sel : List Text} → Segments hs ws → Segments ws sel → Segments hs sel
Segments-trans done done = done
Segments-trans (star e rest) (star e' rest') = star e (Segments-trans rest rest')
Segments-trans (star e rest) (same e' rest') = star e (Segments-trans rest rest')
Segments-trans (same e rest) (star e' rest') = star (e ∙ e') (Segments-trans rest rest')
Segments-trans (same e rest) (same e' rest') = same (e ∙ e') (Segments-trans rest rest')

Segments-one :
    {h : Text} {hs : List Text}
    → Segments (h ∷ hs) (wildcard_segment ∷ [])
    → (h ≡ wildcard_segment) × (hs ≡ [])
Segments-one (star e done) = (e, refl)
Segments-one (same e done) = (e, refl)

Segments-none : {hs : List Text} → Segments hs [] → hs ≡ []
Segments-none done = refl

lone : (hs : List Text) → Segments hs (wildcard_segment ∷ []) → only_wildcard hs ≢ false
unfolding only_wildcard text_eq
lone [] s e = elim s [ ]
lone (h ∷ hs) s e =
    let (w, r) = Segments-one s in
    let same_list : h ∷ hs ≡ wildcard_segment ∷ [] = cc (w, r) in cc (ap only_wildcard same_list, e)

-- A bare exact pattern matches no selector but the empty one.
bare-empty :
    (want : ScopePat) (sel : List Text)
    → want.any ≡ false
    → want.family ≡ false
    → want.selector ≡ []
    → SelectorCovers want sel
    → sel ≡ []
bare-empty want sel n f e (unselected q k) = elim k [ inl x ↦ absurd (cc) | inr x ↦ absurd (cc) ]
bare-empty want sel n f e (empty_only q k) = k
bare-empty want sel n f e (whole q) = cc (sym e ∙ q)
bare-empty want sel n f e (by_segment m segs) = absurd (m e)

wider-bare :
    (held want : ScopePat) (sel : List Text)
    → held.any ≡ false
    → action_covers held want ≡ true
    → selector_covers held want ≡ true
    → held.selector ≡ []
    → SelectorCovers want sel
    → SelectorCovers held sel
unfolding action_covers selector_covers
wider-bare held want sel n a h e c = elim (Bool-cases held.family) [
  | inl f ↦ unselected e (inl f)
  | inr f ↦
      let none_wanted : is_empty want.selector ≡ true =
        ground (arith, ap (is_empty {A = Text}) e) in
      empty_only e (
        bare-empty want sel (ground arith) (ground arith) (is_empty-eq want.selector none_wanted) c)
]

-- Two selectors of one length, of which the outer is not "*" alone.
wider-Segments :
    (held want : ScopePat) (sel : List Text)
    → held.selector ≢ []
    → only_wildcard held.selector ≡ false
    → Segments held.selector want.selector
    → SelectorCovers want sel
    → SelectorCovers held sel
wider-Segments held want sel n w s (unselected e f) = absurd (n (Segments-none (rw e at s)))
wider-Segments held want sel n w s (empty_only e f) = absurd (n (Segments-none (rw e at s)))
wider-Segments held want sel n w s (whole e) = absurd (lone held.selector (rw e at s) w)
wider-Segments held want sel n w s (by_segment m segs) = by_segment n (Segments-trans s segs)

wider-selector :
    (held want : ScopePat) (sel : List Text)
    → held.any ≡ false
    → action_covers held want ≡ true
    → selector_covers held want ≡ true
    → SelectorCovers want sel
    → SelectorCovers held sel
wider-selector held want sel n a h c = elim (Bool-cases (is_empty held.selector)) [
  | inl e ↦ wider-bare held want sel n a h (is_empty-eq held.selector e) c
  | inr e ↦ elim (Bool-cases (only_wildcard held.selector)) [
    | inl k ↦ whole (only_wildcard-eq held.selector k)
    | inr k ↦
        wider-Segments held want sel (is_empty-ne held.selector e) k
          (match_segments-Segments held.selector want.selector
            (unfold selector_covers in ground arith) (unfold selector_covers in ground arith))
          c
  ]
]

-- Whatever the want, a pattern that covers the pattern of a scope matches what the scope matches,
-- if neither has "*" for its action and a selector beside it.
pub scope_covers_sound :
    (held want : ScopePat) (a : Action) (sel : List Text)
    → (held.any ≡ true → held.selector ≡ [])
    → scope_covers held want ≡ true
    → ActionCovers want a
    → SelectorCovers want sel
    → ActionCovers held a × SelectorCovers held sel
scope_covers_sound held want a sel bare h act s = elim (Bool-cases held.any) [
  | inl e ↦ (every e, unselected (bare e) (inr e))
  | inr e ↦ (
    wider-action held want a e (unfold scope_covers in ground arith) act,
    wider-selector held want sel e (unfold scope_covers in ground arith)
        (unfold scope_covers in ground arith) s,
  )
]
