-- ===== src/Authz/Scope/Segments.antt =====
-- The segments of a parsed scope, and the instance that they name.
use xemu_cartographer.Base.{◌≡◌, ◌≢◌, true, Option, none, some, List, [], ◌∷◌, arith, all}
use xemu_cartographer.Text.{Text}
use xemu_cartographer.Authz.Errors.{ok, bind-ok}
use xemu_cartographer.Authz.Scope.{
  ScopePat, parse_scope, parse_pattern, parse_selector, parse_action, named_instance, named_in,
  named_host, validate_segment,
}
use xemu_cartographer.Authz.Scope.Print.{parse_scope-pattern, parse_action-print}

-- The segments of a parsed scope are not empty.
selector-valid :
    (p pat : ScopePat) (rest : Option Text)
    → p.selector ≡ []
    → parse_selector p rest ≡ ok pat
    → all validate_segment pat.selector ≡ true
unfolding parse_selector
selector-valid p pat none e h = ground arith
selector-valid p pat (some sel) e h = ground arith

pattern-valid :
    (parts : Text × Option Text) (pat : ScopePat)
    → parse_pattern parts ≡ ok pat
    → all validate_segment pat.selector ≡ true
unfolding parse_pattern
pattern-valid (t, rest) pat h =
    let (p, filled, read) = bind-ok (parse_action t rest) (λ q. parse_selector q rest) h in
    selector-valid p pat rest (parse_action-print t rest p read).1 filled

segment-nonempty : (seg : Text) → validate_segment seg ≡ true → seg ≢ []
unfolding validate_segment
segment-nonempty seg h e = ground arith

named_in-nonempty :
    (segs : List Text) (inst : Text)
    → all validate_segment segs ≡ true
    → named_in segs ≡ some inst
    → inst ≢ []
unfolding named_in named_host
named_in-nonempty [] inst v h = cc
named_in-nonempty (a ∷ []) inst v h = ground (arith, segment-nonempty a)
named_in-nonempty (a ∷ b ∷ []) inst v h = ground (arith, segment-nonempty b)
named_in-nonempty (a ∷ b ∷ c ∷ []) inst v h = ground (arith, segment-nonempty b)
named_in-nonempty (a ∷ b ∷ c ∷ d ∷ segs) inst v h = cc

pub named_instance-nonempty :
    (s : Text) (pat : ScopePat) (inst : Text)
    → parse_scope s ≡ ok pat
    → named_instance pat ≡ some inst
    → inst ≢ []
unfolding named_instance
named_instance-nonempty s pat inst p h =
    named_in-nonempty pat.selector inst (pattern-valid _ pat (parse_scope-pattern s pat p)) h
