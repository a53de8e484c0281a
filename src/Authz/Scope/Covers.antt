-- ===== src/Authz/Scope/Covers.antt =====
-- What a scope grants: the meaning that the grammar's comment gives, and that Match decides it.
use xemu_cartographer.Base.{
  ◌≡◌, ◌≢◌, refl, ap, ◌⊎◌, inl, inr, ◌↔◌, true, false, ◌||◌, some, List, [], ◌∷◌, ◌++◌, arith,
  Bool-cases, Option-cases, is_empty, length,
}
use xemu_cartographer.Text.{Text, codes, text_eq, has_prefix}
use xemu_cartographer.Text.Laws.{text_eq_iff, text_eq_refl, text_eq→≡, has_prefix-append}
use xemu_cartographer.Authz.Errors.{ok, Result-cases}
use xemu_cartographer.Authz.Action.{Action, action_text}
use xemu_cartographer.Authz.Scope.{
  ScopePat, wildcard_segment, match_action, match_segments, match_selector, only_wildcard,
  match_parts, match, parse_scope, parse_want,
}

-- A wildcard segment covers any one segment, and a literal one itself.
pub data Segments : List Text → List Text → Type 0 where
  done : Segments [] []
  star :
      {seg w : Text} {segs ws : List Text}
      → seg ≡ wildcard_segment
      → Segments segs ws
      → Segments (seg ∷ segs) (w ∷ ws)
  same :
      {seg w : Text} {segs ws : List Text}
      → seg ≡ w
      → Segments segs ws
      → Segments (seg ∷ segs) (w ∷ ws)

pub data ActionCovers (pat : ScopePat) (a : Action) : Type 0 where
  every : pat.any ≡ true → ActionCovers pat a
  in_family :
      (rest : Text)
      → pat.any ≡ false
      → pat.family ≡ true
      → action_text a ≡ (pat.action ++ codes ".") ++ rest
      → ActionCovers pat a
  exact : pat.any ≡ false → pat.family ≡ false → action_text a ≡ pat.action → ActionCovers pat a

pub data SelectorCovers (pat : ScopePat) (sel : List Text) : Type 0 where
  unselected : pat.selector ≡ [] → (pat.family ≡ true) ⊎ (pat.any ≡ true) → SelectorCovers pat sel
  empty_only : pat.selector ≡ [] → sel ≡ [] → SelectorCovers pat sel
  whole : pat.selector ≡ wildcard_segment ∷ [] → SelectorCovers pat sel
  by_segment : pat.selector ≢ [] → Segments pat.selector sel → SelectorCovers pat sel

pub record Grants (scope want : Text) : Type 0 where
  pub pat : ScopePat
  pub act : Action
  pub sel : List Text
  pub parses : parse_scope scope ≡ ok pat
  pub wants : parse_want want ≡ some (act, sel)
  pub on_action : ActionCovers pat act
  pub on_selector : SelectorCovers pat sel

pub prefix_rest : (p s : Text) → has_prefix p s ≡ true → (rest : Text) × (s ≡ p ++ rest)
unfolding has_prefix
prefix_rest [] s h = (s, refl)
prefix_rest (x ∷ p) [] h = cc
prefix_rest (x ∷ p) (c ∷ s) h =
    let (rest, e) = prefix_rest p s (ground arith) in (rest, ground arith)

match_action-ActionCovers :
    (pat : ScopePat) (a : Action) → match_action pat a ≡ true → ActionCovers pat a
match_action-ActionCovers pat a h = elim (Bool-cases pat.any) [
  | inl e ↦ every e
  | inr e ↦ elim (Bool-cases pat.family) [
    | inl f ↦
        let (rest, k) =
          prefix_rest (pat.action ++ codes ".") (action_text a)
            (unfold match_action in ground arith) in
        in_family rest e f k
    | inr f ↦ exact e f (text_eq→≡ (action_text a) pat.action (unfold match_action in ground arith))
  ]
]

ActionCovers-match_action :
    (pat : ScopePat) (a : Action) → ActionCovers pat a → match_action pat a ≡ true
unfolding match_action
ActionCovers-match_action pat a (every e) = ground arith
ActionCovers-match_action pat a (in_family rest e f k) =
    rw (e, f, k) (has_prefix-append (pat.action ++ codes ".") rest)
ActionCovers-match_action pat a (exact e f k) = rw (e, f, k) (text_eq_refl pat.action)

pub match_segments-Segments :
    (segs ws : List Text)
    → length segs ≡ length ws
    → match_segments segs ws ≡ true
    → Segments segs ws
unfolding match_segments
match_segments-Segments [] [] l h = done
match_segments-Segments [] (w ∷ ws) l h = absurd (omega arith)
match_segments-Segments (s ∷ segs) [] l h = cc
match_segments-Segments (s ∷ segs) (w ∷ ws) l h =
    let rest = match_segments-Segments segs ws (omega arith) (ground arith) in
    elim (Bool-cases (text_eq s wildcard_segment)) [
      | inl e ↦ star (text_eq→≡ s wildcard_segment e) rest
      | inr e ↦ same (text_eq→≡ s w (ground arith)) rest
    ]

Segments-match_segments :
    {segs ws : List Text}
    → Segments segs ws
    → (length segs ≡ length ws) × (match_segments segs ws ≡ true)
unfolding match_segments
Segments-match_segments done = (refl, refl)
Segments-match_segments (star {seg = s} {w = w} {segs = segs} {ws = ws} e rest) =
    let (l, h) = Segments-match_segments rest in
    (omega arith, ground (arith, text_eq_iff s wildcard_segment))
Segments-match_segments (same {seg = s} {w = w} {segs = segs} {ws = ws} e rest) =
    let (l, h) = Segments-match_segments rest in (omega arith, ground (arith, text_eq_iff s w))

pub only_wildcard-eq : (segs : List Text) → only_wildcard segs ≡ true → segs ≡ wildcard_segment ∷ []
unfolding only_wildcard
only_wildcard-eq [] h = cc
only_wildcard-eq (s ∷ []) h = ap (λ t. t ∷ []) (text_eq→≡ s wildcard_segment h)
only_wildcard-eq (s ∷ t ∷ segs) h = cc

pub is_empty-eq : {A : Type 0} (xs : List A) → is_empty xs ≡ true → xs ≡ []
is_empty-eq [] h = refl
is_empty-eq (x ∷ xs) h = cc

pub is_empty-ne : {A : Type 0} (xs : List A) → is_empty xs ≡ false → xs ≢ []
is_empty-ne [] h e = cc
is_empty-ne (x ∷ xs) h e = cc

bare-SelectorCovers :
    (pat : ScopePat) (sel : List Text)
    → pat.selector ≡ []
    → (pat.family || pat.any || is_empty sel) ≡ true
    → SelectorCovers pat sel
bare-SelectorCovers pat sel e h = elim (Bool-cases (is_empty sel)) [
  | inl k ↦ empty_only e (is_empty-eq sel k)
  | inr k ↦ unselected e (ground arith)
]

match_selector-SelectorCovers :
    (pat : ScopePat) (sel : List Text) → match_selector pat sel ≡ true → SelectorCovers pat sel
match_selector-SelectorCovers pat sel h = elim (Bool-cases (is_empty pat.selector)) [
  | inl e ↦
      bare-SelectorCovers pat sel (is_empty-eq pat.selector e)
        (unfold match_selector in ground arith)
  | inr e ↦ elim (Bool-cases (only_wildcard pat.selector)) [
    | inl k ↦ whole (only_wildcard-eq pat.selector k)
    | inr k ↦ by_segment (is_empty-ne pat.selector e) (
        match_segments-Segments pat.selector sel (unfold match_selector in ground arith)
          (unfold match_selector in ground arith))
  ]
]

SelectorCovers-match_selector :
    (pat : ScopePat) (sel : List Text) → SelectorCovers pat sel → match_selector pat sel ≡ true
unfolding match_selector
SelectorCovers-match_selector pat sel (unselected e f) = rw e (ground arith)
SelectorCovers-match_selector pat sel (empty_only e f) = rw (e, f) (ground arith)
SelectorCovers-match_selector pat sel (whole e) =
    rw e (unfold only_wildcard in rw (text_eq_refl wildcard_segment))
SelectorCovers-match_selector pat sel (by_segment n segs) =
    let (l, h) = Segments-match_segments segs in ground (arith, is_empty-eq pat.selector)

pub match-Grants : (scope want : Text) → match scope want ≡ true → Grants scope want
unfolding match
match-Grants scope want h = elim (Result-cases (parse_scope scope)) [
  | inr (e, p) ↦ absurd (unfold match_parts in ground arith)
  | inl (pat, p) ↦ elim (Option-cases (parse_want want)) [
    | inl w ↦ absurd (unfold match_parts in ground arith)
    | inr ((a, sel), w) ↦ record {
      pat = pat;
      act = a;
      sel = sel;
      parses = p;
      wants = w;
      on_action = match_action-ActionCovers pat a (unfold match_parts in ground arith);
      on_selector = match_selector-SelectorCovers pat sel (unfold match_parts in ground arith);
    }
  ]
]

Grants-match : (scope want : Text) → Grants scope want → match scope want ≡ true
unfolding match match_parts
Grants-match scope want g =
    rw (g.parses, g.wants, ActionCovers-match_action g.pat g.act g.on_action)
      (SelectorCovers-match_selector g.pat g.sel g.on_selector)

-- Match answers true exactly if both texts parse, the pattern covers the wanted action (all of
-- them, those of a family, or itself) and the wanted selector (segment by segment, with a wildcard
-- for any one segment, "*" alone for every selector, and no selector by the grammar's rule).
pub match_iff : (scope want : Text) → (match scope want ≡ true) ↔ Grants scope want
match_iff scope want = (match-Grants scope want, Grants-match scope want)
