-- ===== src/Authz/Scope/Literal.antt =====
-- Scopes without wildcards.
use xemu_cartographer.Base.{◌≡◌, refl, sym, ap, ◌∙◌, true, false, some, List, ◌++◌, arith, any}
use xemu_cartographer.Text.{Text, text_eq}
use xemu_cartographer.Text.Laws.{text_eq_iff, text_eq_refl}
use xemu_cartographer.Authz.Errors.{ok}
use xemu_cartographer.Authz.Action.{Action, action_text}
use xemu_cartographer.Authz.Scope.{
  ScopePat, wildcard_segment, match, parse_scope, parse_want, pat_is_wildcard,
}
use xemu_cartographer.Authz.Scope.Print.{
  print_scope, print_action, print_selector, print-parse_scope,
}
use xemu_cartographer.Authz.Scope.Covers.{
  Segments, done, star, same, ActionCovers, every, in_family, exact, SelectorCovers, unselected,
  empty_only, whole, by_segment, match-Grants,
}

-- The one want, up to the folding of its segments, that a literal scope grants.
literal-Segments :
    {segs ws : List Text}
    → Segments segs ws
    → any (λ seg. text_eq seg wildcard_segment) segs ≡ false
    → segs ≡ ws
literal-Segments done h = refl
literal-Segments (star {seg = s} {w = w} {segs = segs} {ws = ws} e rest) h =
    absurd (ground (arith, text_eq_iff s wildcard_segment))
literal-Segments (same {seg = s} {w = w} {segs = segs} {ws = ws} e rest) h =
    cc (e, literal-Segments rest (ground arith))

pub literal-selector :
    (pat : ScopePat) (sel : List Text)
    → pat_is_wildcard pat ≡ false
    → SelectorCovers pat sel
    → pat.selector ≡ sel
unfolding pat_is_wildcard
literal-selector pat sel h (unselected e f) = absurd (ground arith)
literal-selector pat sel h (empty_only e f) = e ∙ sym f
literal-selector pat sel h (whole e) = absurd (
    ground (arith, text_eq_refl wildcard_segment, ap (any (λ seg. text_eq seg wildcard_segment)) e))
literal-selector pat sel h (by_segment n segs) = literal-Segments segs (ground arith)

pub literal-action :
    (pat : ScopePat) (a : Action)
    → pat_is_wildcard pat ≡ false
    → ActionCovers pat a
    → print_action pat ≡ action_text a
unfolding pat_is_wildcard
literal-action pat a h (every e) = absurd (ground arith)
literal-action pat a h (in_family rest e f k) = absurd (ground arith)
literal-action pat a h (exact e f k) = ground arith

-- A scope without any wildcard grants one want only: the one that the scope itself spells, once
-- the segments of the want are folded.
pub match-literal :
    (scope want : Text) (pat : ScopePat)
    → parse_scope scope ≡ ok pat
    → pat_is_wildcard pat ≡ false
    → match scope want ≡ true
    → (a : Action) × (sel : List Text) × (parse_want want ≡ some (a, sel))
      × (scope ≡ action_text a ++ print_selector sel)
match-literal scope want pat p l h =
    let g = match-Grants scope want h in
    let same : g.pat ≡ pat = cc (g.parses) in
    let literal : pat_is_wildcard g.pat ≡ false = rw same l in
    (
      g.act,
      g.sel,
      g.wants,
      sym (print-parse_scope scope g.pat g.parses)
          ∙ (unfold print_scope in
              rw (
                literal-action g.pat g.act literal g.on_action,
                literal-selector g.pat g.sel literal g.on_selector,
              )),
    )
