-- ===== src/Pb/Ceiling.antt =====
-- internal/authz/pb/tokens.go: the delegation ceiling. A key may carry only scopes that its minter
-- holds.
pub mod Wider
pub mod Sound
use xemu_cartographer.Base.{
  ℕ, Bool, true, false, not, ◌&&◌, ◌||◌, ◌==◌, leb, Option, none, some, List, [], ◌∷◌, ◌++◌, length,
  if◌then◌else◌, is_empty,
}
use xemu_cartographer.Text.{Text, codes, text_eq, has_prefix}
use xemu_cartographer.Authz.Errors.{Result, ok, err}
use xemu_cartographer.Authz.Action.{action_text, overlay_mint}
use xemu_cartographer.Authz.Scope.{
  ScopePat, wildcard_segment, parse_scope, match_any, match_segments, only_wildcard, is_wildcard,
}
use xemu_cartographer.Authz.Principal.{Kind, superuser, internal, pb_user, Principal, is_admin}
use xemu_cartographer.Authz.Mint.{overlay_mint_covers}
use xemu_cartographer.Authz.Seed.{RoleSeed, seed_role}

-- The switch of scopeCovers on the two actions.
unfoldable pub action_covers : ScopePat → ScopePat → Bool
action_covers held want =
    if held.family
    then not want.any
      && (has_prefix (held.action ++ codes ".") want.action
          || (want.family && text_eq want.action held.action))
    else not want.any && not want.family && text_eq want.action held.action

-- What scopeCovers asks of the two selectors; its last loop is the one of `match_segments`.
unfoldable pub selector_covers : ScopePat → ScopePat → Bool
selector_covers held want =
    if is_empty held.selector
    then held.family || is_empty want.selector
    else if only_wildcard held.selector
    then true
    else length held.selector == length want.selector && match_segments held.selector want.selector

-- scopeCovers
unfoldable pub scope_covers : ScopePat → ScopePat → Bool
scope_covers held want =
    if held.any then true else action_covers held want && selector_covers held want

abbrev pub covers_parsed : Result ScopePat → ScopePat → Bool
covers_parsed (err e) want = false
covers_parsed (ok pat) want = scope_covers pat want

-- The loop of holdsScope over the held scopes, for a wildcard scope.
unfoldable pub some_covers : List Text → ScopePat → Bool
some_covers [] want = false
some_covers (h ∷ held) want = covers_parsed (parse_scope h) want || some_covers held want

abbrev is_some : Option Text → Bool
is_some none = false
is_some (some t) = true

abbrev holds_parsed : Result ScopePat → List Text → Text → Bool
holds_parsed (err e) held s = false
holds_parsed (ok want) held s =
    if not (is_wildcard s) then is_some (match_any held s) else some_covers held want

-- holdsScope
unfoldable pub holds_scope : List Text → Text → Bool
holds_scope held s = holds_parsed (parse_scope s) held s

abbrev reaches_seed : ℕ → Option RoleSeed → Bool
reaches_seed level none = false
reaches_seed level (some seed) = leb seed.level level

exempt_kind : Kind → Principal → Bool
exempt_kind superuser p = true
exempt_kind internal p = true
exempt_kind pb_user p = is_admin p || reaches_seed p.level (seed_role (codes "admin"))
exempt_kind _ p = false

-- The switch of checkMintCeiling on the minter's kind.
unfoldable pub is_exempt : Principal → Bool
unfolding exempt_kind
is_exempt p = exempt_kind p.kind p

-- The loop of checkMintCeiling: the first scope that is not covered.
unfoldable pub first_uncovered : Bool → List Text → List Text → Option Text
first_uncovered overlay held [] = none
first_uncovered overlay held (s ∷ scopes) =
    if (overlay && overlay_mint_covers s) || holds_scope held s
    then first_uncovered overlay held scopes
    else some s

unfoldable pub mints_overlays : Principal → Text → Bool
mints_overlays p kind =
    text_eq kind (codes "spectator") && holds_scope p.scopes (action_text overlay_mint)

-- checkMintCeiling: `none` is no error, else the scope that is named in it.
unfoldable pub check_mint_ceiling : Principal → Text → List Text → Option Text
check_mint_ceiling p kind scopes =
    if is_exempt p then none else first_uncovered (mints_overlays p kind) p.scopes scopes
