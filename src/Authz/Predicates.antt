-- ===== src/Authz/Predicates.antt =====
-- internal/authz/rules.go: the predicates of the rule table. Each answers its verdict and its name.
use Prim.Native.Nat.{bit_and}
use xemu_cartographer.Base.{
  ℕ, ◌+◌, ◌-◌, ◌*◌, ◌^◌, Bool, true, false, ◌||◌, ◌&&◌, not, ◌==◌, ltb, leb, Option, none, some,
  List, [], ◌∷◌, ◌++◌, if◌then◌else◌, is_empty, any,
}
use xemu_cartographer.Text.{
  Text, codes, text_eq, to_lower, trim_space, cut, split, join, has_suffix, elem, attr,
}
use xemu_cartographer.Authz.Deps.{Deps}
use xemu_cartographer.Authz.Principal.{Kind, internal, Principal, bound_instance}
use xemu_cartographer.Authz.Resource.{Resource, instance_of}
use xemu_cartographer.Authz.Ws.{same_instance}

abbrev pub Predicate : Type 0
Predicate = Deps → Principal → Resource → Bool × Text

unfoldable pub pred_always : Predicate
pred_always deps p r = (true, codes "always")

unfoldable pub pred_authed : Predicate
pred_authed deps p r = (not (is_empty p.user_id), codes "authed")

unfoldable pub pred_linked : Predicate
pred_linked deps p r = (not (is_empty p.user_id), codes "linked")

unfoldable pub pred_rostered : Predicate
pred_rostered deps p r =
    if is_empty p.user_id || is_empty (instance_of r)
    then (false, codes "rostered")
    else (deps.rostered_in p.user_id (instance_of r), codes "rostered")

unfoldable pub pred_box_owner : Predicate
pred_box_owner deps p r =
    if is_empty p.user_id || is_empty (instance_of r)
    then (false, codes "box_owner")
    else (same_instance (deps.owned_box p.user_id) (instance_of r), codes "box_owner")

unfoldable pub pred_bound : Predicate
pred_bound deps p r = (same_instance (bound_instance p) (instance_of r), codes "bound")

abbrev level_verdict : ℕ → Option ℕ → Bool × Text
level_verdict level none = (false, codes "unknown_role")
level_verdict level (some lvl) = (leb lvl level, codes "level_ok")

unfoldable pub pred_level_ok : Predicate
pred_level_ok deps p r = level_verdict p.level (deps.role_level r.id)

unfoldable pub pred_team_authority : Predicate
pred_team_authority deps p r =
    if is_empty p.user_id || is_empty r.id
    then (false, codes "team_authority")
    else (deps.team_authority p.user_id r.id, codes "team_authority")

unfoldable pub profile_file_kind : Text → Bool
profile_file_kind kind = has_suffix (codes "-profile") kind

abbrev before_slash : Text × Option Text → Text
before_slash (kind, none) = []
before_slash (kind, some rest) = kind

unfoldable pub lan_file_kind : Resource → Text
lan_file_kind r =
    let kind = attr (codes "kind") r.extra in
    if not (is_empty kind) then kind else before_slash (cut b'/' r.id)

-- The loop of splitTags.
clean_tags : List Text → List Text
clean_tags [] = []
clean_tags (t ∷ ts) =
    let tag = to_lower (trim_space t) in if is_empty tag then clean_tags ts else tag ∷ clean_tags ts

unfoldable pub split_tags : Text → List Text
unfolding clean_tags
split_tags list = clean_tags (split b',' list)

unfoldable pub pred_station_file : Predicate
pred_station_file deps p r =
    let own = attr (codes "gamertags") p.extra in
    let kind = lan_file_kind r in
    if is_empty own
    then (true, codes "station_file")
    else if is_empty kind
    then (false, codes "station_file")
    else if not (profile_file_kind kind)
    then (true, codes "station_file")
    else (
      any (λ tag. elem tag (split_tags own)) (split_tags (attr (codes "gamertag") r.extra)),
      codes "station_file",
    )

-- strconv.ParseUint(s, 10, 64)
uint_digits : ℕ → Text → Option ℕ
uint_digits n [] = some n
uint_digits n (c ∷ s) =
    if leb b'0' c && leb c b'9' then uint_digits (n * 10 + (c - b'0')) s else none

unfoldable pub parse_uint : Text → Option ℕ
unfolding uint_digits
parse_uint s =
    if is_empty s
    then none
    else elim (uint_digits 0 s) [ none ↦ none | some n ↦ if ltb n (2 ^ 64) then some n else none ]

abbrev manage_bits : Option ℕ → Bool
manage_bits none = false
manage_bits (some perms) = not (bit_and perms 40 == 0)

-- MANAGE_GUILD (1 << 5) or ADMINISTRATOR (1 << 3)
unfoldable pub pred_manage_guild : Predicate
pred_manage_guild deps p r = (
  manage_bits (parse_uint (trim_space (attr (codes "member_permissions") p.extra))),
  codes "manage_guild",
)

abbrev is_internal : Kind → Bool
is_internal internal = true
is_internal _ = false

abbrev holds_or_unknown : Option Bool → Bool
holds_or_unknown none = true
holds_or_unknown (some holds) = holds

unfoldable pub deny_last_admin : Predicate
deny_last_admin deps p r =
    let target = attr (codes "target_user") r.extra in
    if is_internal p.kind || not (text_eq r.id (codes "admin"))
    then (false, codes "last_admin")
    else if ltb 1 deps.admin_count
    then (false, codes "last_admin")
    else if is_empty target
    then (true, codes "last_admin")
    else (holds_or_unknown (deps.holds_role target r.id), codes "last_admin")

-- anyOf: `names` holds the names of the predicates that failed so far.
abbrev chain_verdict : Bool × Text → Bool × Text → Bool × Text
chain_verdict (true, name) rest = (true, name)
chain_verdict (false, name) rest = rest

any_of_from : List Predicate → List Text → Predicate
any_of_from [] names deps p r = (false, join b'|' names)
any_of_from (pred ∷ preds) names deps p r =
    chain_verdict (pred deps p r) (any_of_from preds (names ++ ((pred deps p r).1 ∷ [])) deps p r)

unfoldable pub any_of : List Predicate → Predicate
unfolding any_of_from
any_of preds = any_of_from preds []
