-- ===== src/Authz/Mint.antt =====
-- internal/authz/token.go: the principal of a verified key, and the rules for minting one.
pub mod Validated
pub mod Bound
use xemu_cartographer.Base.{
  Bool, true, false, not, ◌&&◌, ◌||◌, ◌==◌, Option, none, some, List, [], ◌∷◌, ◌++◌, if◌then◌else◌,
  is_empty, any, length,
}
use xemu_cartographer.Text.{Text, codes, text_eq, to_lower, trim_space, join, elem, Attrs}
use xemu_cartographer.Authz.Errors.{
  Result, ok, err, wildcard_kind, spectator_instance, scope_syntax, ◌>>=◌, ◌>>◌, require, or_fail,
}
use xemu_cartographer.Authz.Action.{
  Action, action_text, room_join, overlay_read_state, scraper_events, scraper_state, box_view,
  box_drive, box_read,
}
use xemu_cartographer.Authz.Scope.{ScopePat, parse_scope, pat_is_wildcard, named_instance}
use xemu_cartographer.Authz.Deps.{TokenRow}
use xemu_cartographer.Authz.Principal.{
  Kind, spectator, device, Principal, canon_scopes, bind_instance, empty_principal, nobody,
}
use xemu_cartographer.Authz.Ws.{scraper_classes}
use xemu_cartographer.Authz.Cells.{token_kinds}

-- The loop of sanitizedTags: `seen` holds what was kept so far.
tags_new : List Text → List Text → List Text
tags_new seen [] = []
tags_new seen (t ∷ ts) =
    let s = to_lower (trim_space t) in
    let skipped = tags_new seen ts in
    let kept = s ∷ tags_new (s ∷ seen) ts in if is_empty s || elem s seen then skipped else kept

unfoldable pub sanitized_tags : List Text → List Text
unfolding tags_new
sanitized_tags tags = tags_new [] tags

-- "room.join" must be "host:<inst>:<class>", any other action one literal segment.
unfoldable pub mint_instance : ScopePat → Option Text
mint_instance pat =
    if pat.any || pat.family || pat_is_wildcard pat
    then none
    else if text_eq pat.action (action_text room_join)
    then if length pat.selector == 3 then named_instance pat else none
    else if length pat.selector == 1
    then named_instance pat
    else none

-- `inst != "" && named != inst`
unfoldable pub clashes : Text → Text → Bool
clashes inst named = not (is_empty inst) && not (text_eq named inst)

-- The loop of scopesInstance: `inst` is what the scopes before named.
unfoldable pub instance_from : Text → List Text → Option Text
instance_from inst [] = if is_empty inst then none else some inst
instance_from inst (s ∷ scopes) = elim (parse_scope s) [
  | err e ↦ none
  | ok pat ↦ elim (mint_instance pat) [
    | none ↦ none
    | some named ↦ if clashes inst named then none else instance_from named scopes
  ]
]

unfoldable pub scopes_instance : List Text → Option Text
scopes_instance scopes = instance_from [] scopes

abbrev bound_of : Option Text → Text
bound_of none = []
bound_of (some inst) = inst

-- The binding by kind: the container of a device, the instance that a spectator's scopes name.
token_bound : Kind → TokenRow → List Text → Text
token_bound device row scopes = row.container
token_bound spectator row scopes = bound_of (scopes_instance scopes)
token_bound _ row scopes = []

-- `if v != "" { p.Extra[k] = v }`
abbrev extra_entry : Text → Text → Attrs
extra_entry k v = if is_empty v then [] else (k, v) ∷ []

token_extra : TokenRow → Attrs
token_extra row =
    extra_entry (codes "station_id") row.station_id
    ++ (extra_entry (codes "label") row.label
        ++ (extra_entry (codes "token_user") row.user_id
            ++ extra_entry (codes "gamertags") (join b',' (sanitized_tags row.gamertags))))

token_principal : Option Kind → TokenRow → Principal
unfolding token_bound token_extra
token_principal none row = nobody
token_principal (some kind) row = record (empty_principal kind) {
  id = row.kid;
  user_id = row.user_id;
  scopes = canon_scopes row.scopes;
  extra = token_extra row;
  bound = bind_instance (token_bound kind row (canon_scopes row.scopes));
}

unfoldable pub principal_from_token : TokenRow → Principal
unfolding token_principal
principal_from_token row = token_principal (token_kinds row.kind) row

-- mintAllowList
unfoldable pub mint_allow_list : Text → List Action
mint_allow_list kind =
    if text_eq kind (codes "spectator")
    then overlay_read_state ∷ room_join ∷ scraper_events ∷ scraper_state ∷ []
    else if text_eq kind (codes "device")
    then box_view ∷ box_drive ∷ box_read ∷ room_join ∷ scraper_state ∷ scraper_events ∷ []
    else []

abbrev pub overlay_classes : List Text
overlay_classes =
    codes "game_filtered" ∷ codes "tick" ∷ codes "scenario" ∷ codes "event_filtered" ∷ []

-- The third segment of a selector that has exactly three.
abbrev pub third_of_three : List Text → Option Text
third_of_three (a ∷ b ∷ c ∷ []) = some c
third_of_three _ = none

overlay_covered : ScopePat → Bool
overlay_covered pat =
    if text_eq pat.action (action_text overlay_read_state)
    then length pat.selector == 1
    else if text_eq pat.action (action_text room_join)
    then elim (third_of_three pat.selector) [
      | none ↦ false
      | some class ↦ elem class overlay_classes
    ]
    else false

abbrev is_some : Option Text → Bool
is_some none = false
is_some (some t) = true

unfoldable pub overlay_mint_covers : Text → Bool
unfolding overlay_covered
overlay_mint_covers s = elim (parse_scope s) [
  | err e ↦ false
  | ok pat ↦ not (pat_is_wildcard pat) && is_some (named_instance pat) && overlay_covered pat
]

unfoldable pub bad_class : ScopePat → Bool
bad_class pat = text_eq pat.action (action_text room_join) && (elim (third_of_three pat.selector) [
  | none ↦ false
  | some class ↦ not (elem class scraper_classes)
])

-- The first loop of ValidateForMint.
unfoldable pub parse_all : List Text → Result (List ScopePat)
parse_all [] = ok []
parse_all (s ∷ scopes) = do pat ← parse_scope s; pats ← parse_all scopes; ok (pat ∷ pats)

-- The second loop, for the kinds other than machine.
unfoldable pub check_pats : List Action → Text → List ScopePat → Result (Unit {0})
check_pats allowed inst [] = ok tt
check_pats allowed inst (pat ∷ pats) = do
  require (not (pat_is_wildcard pat)) wildcard_kind
  require (any (λ a. text_eq pat.action (action_text a)) allowed) scope_syntax
  require (not (bad_class pat)) scope_syntax
  named ← or_fail (mint_instance pat) spectator_instance
  require (not (clashes inst named)) spectator_instance
  check_pats allowed named pats

abbrev is_kind : Option Kind → Bool
is_kind none = false
is_kind (some k) = true

unfoldable pub validate_for_mint : Text → List Text → Result (Unit {0})
validate_for_mint kind scopes = do
  require (is_kind (token_kinds kind)) scope_syntax
  require (not (is_empty scopes)) scope_syntax
  pats ← parse_all scopes
  if text_eq kind (codes "machine") then ok tt else check_pats (mint_allow_list kind) [] pats
