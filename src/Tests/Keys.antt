-- ===== src/Tests/Keys.antt =====
-- The theorems on keys and rooms at inputs from internal/authz/token_test.go and ws_test.go.
use xemu_cartographer.Base.{◌≡◌, ◌≢◌, refl, true, some, [], ◌∷◌, List, ◌↔◌, All}
use xemu_cartographer.Text.{codes, Text}
use xemu_cartographer.Authz.Errors.{ok, err, bad_secret}
use xemu_cartographer.Authz.Principal.{spectator, bound_instance}
use xemu_cartographer.Authz.Token.{split_token, verify_token, looks_opaque}
use xemu_cartographer.Authz.Token.Keys.{
  Verifies, verify_token_iff, verify_token-secrecy, Splits, split_token_iff, new_kid-looks_opaque,
}
use xemu_cartographer.Authz.Mint.{mint_allow_list, principal_from_token}
use xemu_cartographer.Authz.Mint.Validated.{MintsFor, validate_for_mint-MintsFor}
use xemu_cartographer.Authz.Mint.Bound.{principal_from_token-bound}
use xemu_cartographer.Authz.Resource.{Room}
use xemu_cartographer.Authz.Rules.{room_canonical}
use xemu_cartographer.Authz.Ws.{joinable_instances}
use xemu_cartographer.Authz.Ws.Rooms.{parse_room-canonical}
use xemu_cartographer.Authz.Ws.Joinable.{SeesOwn, joinable_instances-SeesOwn}
use xemu_cartographer.Tests.{evaluated}
use xemu_cartographer.Tests.Data.{overlay_scope, tick_scope, viewer, spectator_row}

-- A digest that gives every secret the hash of the row.
abbrev same_digest : Text → Text
same_digest secret = codes "abc"

verify_token_iff_example :
    (verify_token same_digest spectator_row (codes "s") 9 ≡ ok tt)
    ↔ Verifies same_digest spectator_row (codes "s") 9
verify_token_iff_example = verify_token_iff same_digest spectator_row (codes "s") 9

verifies_before : verify_token same_digest spectator_row (codes "s") 9 ≡ ok tt
unfolding evaluated
verifies_before = refl

wrong_secret :
    verify_token (λ s. s) (record spectator_row { revoked = true }) (codes "x") 99 ≡ err bad_secret
wrong_secret =
    verify_token-secrecy (λ s. s) (record spectator_row { revoked = true }) (codes "x") 99 (λ e. cc)

split_token_iff_example :
    (split_token (codes "sp_1.xyz") ≡ some (codes "sp_1", codes "xyz"))
    ↔ Splits (codes "sp_1.xyz") (codes "sp_1") (codes "xyz")
split_token_iff_example = split_token_iff (codes "sp_1.xyz") (codes "sp_1") (codes "xyz")

splits_once : split_token (codes "sp_1.xyz") ≡ some (codes "sp_1", codes "xyz")
unfolding evaluated
splits_once = refl

new_kid-looks_opaque_example :
    (split_token (codes "mk_0v5.xyz") ≡ some (codes "mk_0v5", codes "xyz"))
    × (looks_opaque (codes "mk_0v5.xyz") ≡ true)
unfolding evaluated
new_kid-looks_opaque_example =
    new_kid-looks_opaque (0 ∷ 59 ∷ 37 ∷ []) (codes "machine") (codes "mk_0v5") (codes "xyz") refl
      (λ e. cc) refl

abbrev two_scopes : List Text
two_scopes = overlay_scope ∷ tick_scope ∷ []

validate_for_mint-MintsFor_example :
    (inst : Text) × (inst ≢ [])
    × All (MintsFor (mint_allow_list (codes "spectator")) inst) two_scopes
unfolding evaluated
validate_for_mint-MintsFor_example =
    validate_for_mint-MintsFor (codes "spectator") two_scopes (λ e. cc) refl

principal_from_token-bound_example :
    ((principal_from_token spectator_row).kind ≡ spectator)
    × (bound_instance (principal_from_token spectator_row) ≢ [])
    × All
        (MintsFor
          (mint_allow_list (codes "spectator"))
          (bound_instance (principal_from_token spectator_row)))
        two_scopes
unfolding evaluated
principal_from_token-bound_example = principal_from_token-bound spectator_row refl refl refl

abbrev tick_room : Room
tick_room = record {
  room_type = codes "host";
  instance_name = codes "box1";
  class = codes "tick";
  raw = codes "host:box1:tick";
}

parse_room-canonical_example : room_canonical tick_room ≡ true
unfolding evaluated
parse_room-canonical_example = parse_room-canonical (codes "host:box1:tick") tick_room refl

joinable_instances-SeesOwn_example :
    let live : List Text = codes "box0" ∷ codes "BOX1" ∷ [] in
    SeesOwn (bound_instance viewer) live (joinable_instances viewer live)
joinable_instances-SeesOwn_example =
    joinable_instances-SeesOwn viewer (codes "box0" ∷ codes "BOX1" ∷ []) refl
