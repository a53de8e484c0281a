-- ===== src/Authz/Scope.antt =====
-- internal/authz/scope.go: the scope language. A scope is a pattern over actions and selectors; a
-- want is what a request needs.
pub mod Print
pub mod Segments
pub mod Canon
pub mod Covers
pub mod Literal
use xemu_cartographer.Base.{
  ℕ, Bool, true, false, ◌==◌, leb, not, ◌&&◌, ◌||◌, Option, none, some, List, [], ◌∷◌, ◌++◌, map,
  if◌then◌else◌, is_empty, all, any, length,
}
use xemu_cartographer.Text.{
  Text, codes, text_eq, to_lower, trim_space, cut, split, join, fields, has_prefix, has_suffix,
  trim_suffix,
}
use xemu_cartographer.Authz.Errors.{Result, ok, err, scope_syntax, ◌>>=◌, ◌>>◌, require}
use xemu_cartographer.Authz.Action.{Action, action_text, action_of, is_action_family}

pub record ScopePat : Type 0 where
  pub action : Text
  pub family : Bool
  pub selector : List Text
  pub any : Bool

abbrev pub wildcard_segment : Text
wildcard_segment = codes "*"

abbrev pub colon : ℕ
colon = b':'

abbrev pub host_room_type : Text
host_room_type = codes "host"

abbrev pub host_aggregate_instances : List Text
host_aggregate_instances = codes "all" ∷ codes "summary" ∷ []

unfoldable pub canon_segment : Text → Text
canon_segment seg = join b' ' (fields (to_lower seg))

unfoldable pub canon : Text → Text
canon s =
    let t = to_lower (trim_space s) in
    if is_empty t then [] else join colon (map canon_segment (split colon t))

-- The characters of a segment; "*" inside one is among those refused.
segment_rune : ℕ → Bool
segment_rune r =
    (leb b'a' r && leb r b'z')
    || (leb b'0' r && leb r b'9')
    || r == b'-'
    || r == b'_'
    || r == b'.'
    || r == b' '

-- validateSegment answers no error
unfoldable pub validate_segment : Text → Bool
unfolding segment_rune
validate_segment seg =
    if is_empty seg
    then false
    else if text_eq seg wildcard_segment
    then true
    else all segment_rune seg

abbrev pub exact_pat : Text → ScopePat
exact_pat a = record { action = a; family = false; selector = []; any = false }

abbrev pub family_pat : Text → ScopePat
family_pat fam = record { action = fam; family = true; selector = []; any = false }

abbrev pub any_pat : ScopePat
any_pat = record { action = []; family = false; selector = []; any = true }

abbrev pub bare_only : Option Text → Result ScopePat
bare_only none = ok any_pat
bare_only (some selector) = err scope_syntax

abbrev pub known_only : Text → Option Action → Result ScopePat
known_only t none = err scope_syntax
known_only t (some a) = ok (exact_pat t)

-- the switch of ParseScope
unfoldable pub parse_action : Text → Option Text → Result ScopePat
parse_action action_pat rest =
    if text_eq action_pat wildcard_segment
    then bare_only rest
    else if has_suffix (codes ".*") action_pat
    then (let fam = trim_suffix (codes ".*") action_pat in
        if is_action_family fam then ok (family_pat fam) else err scope_syntax)
    else known_only action_pat (action_of action_pat)

unfoldable pub parse_selector : ScopePat → Option Text → Result ScopePat
parse_selector pat none = ok pat
parse_selector pat (some selector) = do
  require (all validate_segment (split colon selector)) scope_syntax
  ok (record pat { selector = split colon selector })

unfoldable pub parse_pattern : Text × Option Text → Result ScopePat
parse_pattern (action_pat, rest) = do pat ← parse_action action_pat rest; parse_selector pat rest

unfoldable pub parse_scope : Text → Result ScopePat
parse_scope s = do
  require (not (is_empty s)) scope_syntax
  require (text_eq (to_lower s) s) scope_syntax
  require (not (has_prefix (colon ∷ []) s || has_suffix (colon ∷ []) s)) scope_syntax
  parse_pattern (cut colon s)

abbrev pub want_selector : Option Text → List Text
want_selector none = []
want_selector (some rest) = map canon_segment (split colon rest)

abbrev pub with_selector : Option Action → List Text → Option (Action × List Text)
with_selector none sel = none
with_selector (some a) sel = some (a, sel)

unfoldable pub want_parts : Text × Option Text → Option (Action × List Text)
want_parts (head, rest) = with_selector (action_of head) (want_selector rest)

unfoldable pub parse_want : Text → Option (Action × List Text)
parse_want want = want_parts (cut colon want)

unfoldable pub match_action : ScopePat → Action → Bool
match_action pat a =
    if pat.any
    then true
    else if pat.family
    then has_prefix (pat.action ++ codes ".") (action_text a)
    else text_eq (action_text a) pat.action

-- The loop over the segments of a selector and a want of equal lengths.
unfoldable pub match_segments : List Text → List Text → Bool
match_segments [] want = true
match_segments (seg ∷ segs) [] = false
match_segments (seg ∷ segs) (w ∷ want) =
    (text_eq seg wildcard_segment || text_eq seg w) && match_segments segs want

unfoldable pub only_wildcard : List Text → Bool
only_wildcard (seg ∷ []) = text_eq seg wildcard_segment
only_wildcard _ = false

unfoldable pub match_selector : ScopePat → List Text → Bool
match_selector pat want =
    if is_empty pat.selector
    then pat.family || pat.any || is_empty want
    else if only_wildcard pat.selector
    then true
    else if length pat.selector == length want
    then match_segments pat.selector want
    else false

unfoldable pub match_parts : Result ScopePat → Option (Action × List Text) → Bool
match_parts (err e) want = false
match_parts (ok pat) none = false
match_parts (ok pat) (some (a, sel)) = match_action pat a && match_selector pat sel

unfoldable pub match : Text → Text → Bool
match scope want = match_parts (parse_scope scope) (parse_want want)

-- The first scope that matches.
unfoldable pub match_any : List Text → Text → Option Text
match_any [] want = none
match_any (s ∷ scopes) want = if match s want then some s else match_any scopes want

unfoldable pub pat_is_wildcard : ScopePat → Bool
pat_is_wildcard pat =
    pat.any || pat.family || any (λ seg. text_eq seg wildcard_segment) pat.selector

unfoldable pub is_wildcard : Text → Bool
is_wildcard s = elim (parse_scope s) [ err e ↦ false | ok pat ↦ pat_is_wildcard pat ]

unfoldable pub named_host : Text → Text → Option Text
named_host room_type inst =
    if not (text_eq room_type host_room_type)
    then none
    else if text_eq inst wildcard_segment || any (text_eq inst) host_aggregate_instances
    then none
    else some inst

-- the switch of namedInstance on the number of segments
unfoldable pub named_in : List Text → Option Text
named_in (seg ∷ []) = if text_eq seg wildcard_segment then none else some seg
named_in (room_type ∷ inst ∷ []) = named_host room_type inst
named_in (room_type ∷ inst ∷ class ∷ []) = named_host room_type inst
named_in _ = none

unfoldable pub named_instance : ScopePat → Option Text
named_instance pat = named_in pat.selector

abbrev is_some : Option Text → Bool
is_some none = false
is_some (some t) = true

unfoldable pub names_one_instance : Text → Bool
names_one_instance s = elim (parse_scope s) [
  | err e ↦ false
  | ok pat ↦ is_some (named_instance pat)
]
