-- ===== src/Authz/Scope/Print.antt =====
-- Scopes print back to the text that they were parsed from.
use mathlib.Core.List.{append-nil}
use xemu_cartographer.Base.{
  ◌≡◌, ◌≢◌, refl, ◌∙◌, Option, none, some, List, [], ◌∷◌, ◌++◌, arith, if◌then◌else◌,
}
use xemu_cartographer.Text.{Text, codes, split, join, cut}
use xemu_cartographer.Text.Laws.{
  text_eq→≡, uncut, uncut-cut, join-split, split_nonempty, trim_suffix-append,
}
use xemu_cartographer.Authz.Errors.{ok, bind-ok}
use xemu_cartographer.Authz.Action.{Action, action_of}
use xemu_cartographer.Authz.Scope.{
  ScopePat, colon, wildcard_segment, bare_only, known_only, parse_action, parse_selector,
  parse_pattern, parse_scope,
}

abbrev pub print_action : ScopePat → Text
print_action pat =
    if pat.any
    then wildcard_segment
    else if pat.family
    then pat.action ++ codes ".*"
    else pat.action

abbrev pub print_selector : List Text → Text
print_selector [] = []
print_selector (seg ∷ segs) = colon ∷ join colon (seg ∷ segs)

-- The scope that a pattern stands for, by the grammar.
unfoldable pub print_scope : ScopePat → Text
unfolding join
print_scope pat = print_action pat ++ print_selector pat.selector

bare_only-print :
    (rest : Option Text) (pat : ScopePat)
    → bare_only rest ≡ ok pat
    → (print_action pat ≡ wildcard_segment) × (pat.selector ≡ [])
bare_only-print none pat h = ground arith
bare_only-print (some s) pat h = cc

known_only-print :
    (t : Text) (a : Option Action) (pat : ScopePat)
    → known_only t a ≡ ok pat
    → (print_action pat ≡ t) × (pat.selector ≡ [])
known_only-print t none pat h = cc
known_only-print t (some a) pat h = ground arith

-- The action part of the pattern is the text that it was read from; no selector is set yet.
pub parse_action-print :
    (t : Text) (rest : Option Text) (pat : ScopePat)
    → parse_action t rest ≡ ok pat
    → (print_action pat ≡ t) × (pat.selector ≡ [])
unfolding parse_action
parse_action-print t rest pat h = ground (
  arith,
  text_eq→≡ t wildcard_segment,
  trim_suffix-append (codes ".*") t,
  bare_only-print rest pat,
  known_only-print t (action_of t) pat,
)

print_selector-cons : (segs : List Text) → segs ≢ [] → print_selector segs ≡ colon ∷ join colon segs
print_selector-cons [] h = absurd (h refl)
print_selector-cons (seg ∷ segs) h = refl

print-parse_selector :
    (p pat : ScopePat) (t : Text) (rest : Option Text)
    → print_action p ≡ t
    → p.selector ≡ []
    → parse_selector p rest ≡ ok pat
    → print_scope pat ≡ uncut colon (t, rest)
unfolding parse_selector print_scope
print-parse_selector p pat t none e k h = ground (arith, append-nil t)
print-parse_selector p pat t (some sel) e k h =
    ground (
      arith,
      print_selector-cons (split colon sel) (split_nonempty colon sel),
      join-split colon sel,
    )

print-parse_pattern :
    (parts : Text × Option Text) (pat : ScopePat)
    → parse_pattern parts ≡ ok pat
    → print_scope pat ≡ uncut colon parts
unfolding parse_pattern
print-parse_pattern (t, rest) pat h =
    let (p, filled, read) = bind-ok (parse_action t rest) (λ q. parse_selector q rest) h in
    let (printed, bare) = parse_action-print t rest p read in
    print-parse_selector p pat t rest printed bare filled

-- A text that parses went through the pattern parser.
pub parse_scope-pattern :
    (s : Text) (pat : ScopePat) → parse_scope s ≡ ok pat → parse_pattern (cut colon s) ≡ ok pat
unfolding parse_scope
parse_scope-pattern s pat h = ground arith

-- Printing the pattern that a text parses to gives the text back.
pub print-parse_scope : (s : Text) (pat : ScopePat) → parse_scope s ≡ ok pat → print_scope pat ≡ s
print-parse_scope s pat h =
    print-parse_pattern (cut colon s) pat (parse_scope-pattern s pat h) ∙ uncut-cut colon s
