-- ===== src/Authz/Token.antt =====
-- internal/authz/token.go: naming, reading and verifying the opaque keys. The random bytes, the
-- SHA-256 digest and the base64 text of a secret come from the standard library as arguments.
pub mod Keys
use xemu_cartographer.Base.{
  ℕ, ◌-◌, Bool, true, false, not, ◌||◌, ◌==◌, ◌%◌, ltb, Option, none, some, List, [], ◌∷◌, ◌++◌,
  map, if◌then◌else◌, is_empty, any,
}
use xemu_cartographer.Text.{Text, codes, text_eq, cut, has_prefix, count_rune, Attrs}
use xemu_cartographer.Authz.Errors.{
  Result, ok, revoked, expired, bad_secret, unknown_token_kind, ◌>>=◌, ◌>>◌, require, or_fail,
}
use xemu_cartographer.Authz.Deps.{TokenRow}

-- KidPrefix: the map as its entries
abbrev pub kid_prefix : Attrs
kid_prefix =
    (codes "spectator", codes "sp_")
    ∷ (codes "machine", codes "mk_")
    ∷ (codes "device", codes "dv_")
    ∷ []

abbrev pub legacy_kid : Text
legacy_kid = codes "legacy-env"

abbrev pub kid_alphabet : Text
kid_alphabet = codes "0123456789abcdefghjkmnpqrstvwxyz"

abbrev pub rune_at : Text → ℕ → ℕ
rune_at [] i = 0
rune_at (c ∷ s) i = if i == 0 then c else rune_at s (i - 1)

-- kidAlphabet[int(b)&31]
unfoldable pub kid_symbol : ℕ → ℕ
kid_symbol b = rune_at kid_alphabet (b % 32)

unfoldable pub lookup_text : Text → Attrs → Option Text
lookup_text k [] = none
lookup_text k ((j, v) ∷ m) = if text_eq j k then some v else lookup_text k m

-- NewKid, given the twelve random bytes
unfoldable pub new_kid : List ℕ → Text → Result Text
new_kid bytes kind = do
  prefix ← or_fail (lookup_text kind kid_prefix) unknown_token_kind
  ok (prefix ++ map kid_symbol bytes)

abbrev pub split_parts : Text × Option Text → Option (Text × Text)
split_parts (kid, none) = none
split_parts (kid, some secret) =
    if is_empty kid || is_empty secret then none else some (kid, secret)

unfoldable pub split_token : Text → Option (Text × Text)
split_token s = if not (count_rune b'.' s == 1) then none else split_parts (cut b'.' s)

unfoldable pub kid_has_known_prefix : Text → Bool
kid_has_known_prefix kid =
    if text_eq kid legacy_kid then true else any (λ e. has_prefix e.1 kid) kid_prefix

abbrev pub opaque_parts : Option (Text × Text) → Bool
opaque_parts none = false
opaque_parts (some (kid, secret)) = kid_has_known_prefix kid

unfoldable pub looks_opaque : Text → Bool
looks_opaque s = opaque_parts (split_token s)

abbrev pub is_past : Option ℕ → ℕ → Bool
is_past none now = false
is_past (some expires) now = not (ltb now expires)

-- VerifyToken with the digest of HashSecret; `now.Before(e)` is `now < e`.
unfoldable pub verify_token : (Text → Text) → TokenRow → Text → ℕ → Result (Unit {0})
verify_token hash_secret row secret now = do
  require (not (is_empty row.key_hash || is_empty secret)) bad_secret
  require (text_eq (hash_secret secret) row.key_hash) bad_secret
  require (not row.revoked) revoked
  require (not (is_past row.expires_at now)) expired
  ok tt
