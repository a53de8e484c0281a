-- ===== src/Pb/Keys.antt =====
-- internal/authz/pb/tokens.go: revoking and listing keys, with LookupToken of deps.go. The PocketBase
-- app is a record of the calls that the code makes of it. The row that stands for a key of the
-- environment (LegacyKid) is an argument.
pub mod Revoked
use xemu_cartographer.Base.{
  ℕ, Bool, true, false, not, ◌||◌, Option, none, some, List, [], ◌∷◌, ◌++◌, is_empty, if◌then◌else◌,
}
use xemu_cartographer.Text.{Text, text_eq, trim_space, to_lower}
use xemu_cartographer.Authz.Action.{action_text, token_revoke, token_list}
use xemu_cartographer.Authz.Deps.{Deps, TokenRow}
use xemu_cartographer.Authz.Principal.{Principal}
use xemu_cartographer.Authz.Resource.{token_res, global}
use xemu_cartographer.Authz.Token.{legacy_kid}
use xemu_cartographer.Authz.Decision.{Decision, can_with}
use xemu_cartographer.Pb.Grants.{GrantError, decision_error}

-- The calls of core.App, with the rows as tokenRowFromRecord reads them; a write answers `none` when
-- it fails. The audit row of a revocation has the
-- key, and the reason.
pub record KeyApp (S : Type 0) : Type 0 where
  pub token_by_kid : Text → S → Option TokenRow
  pub all_tokens : Text → S → Option (List TokenRow)
  pub save_token : TokenRow → S → Option S
  pub write_audit : Text → Text → S → Option S

pub data KeyError : Type 0 where
  unknown_key legacy_key key_write_failed key_lookup_failed : KeyError
  key_denied : (e : GrantError) → KeyError

pub data KeyReply : Type 0 where
  key_done : KeyReply
  key_refused : (e : KeyError) → KeyReply

abbrev pub shut : TokenRow → TokenRow
shut row = record row { revoked = true }

-- `row.KeyHash = ""`
abbrev pub without_hash : TokenRow → TokenRow
without_hash row = record row { key_hash = [] }

unfoldable pub all_without_hash : List TokenRow → List TokenRow
all_without_hash [] = []
all_without_hash (row ∷ rows) = without_hash row ∷ all_without_hash rows

-- The row of the environment's key, if there is one and the filter has its kind.
unfoldable pub legacy_rows : Text → Option TokenRow → List TokenRow
legacy_rows kind none = []
legacy_rows kind (some row) =
    if is_empty kind || text_eq kind row.kind then without_hash row ∷ [] else []

-- The answer of a listing.
pub data Listing : Type 0 where
  listed : (rows : List TokenRow) → Listing
  not_listed : (e : KeyError) → Listing

module _ {S : Type 0} (app : KeyApp S) (legacy : Option TokenRow) where
  -- LookupToken
  unfoldable pub lookup_token : Text → S → Option TokenRow
  lookup_token kid s =
      if is_empty kid
      then none
      else if text_eq kid legacy_kid
      then legacy
      else app.token_by_kid kid s

  abbrev audit_key : S → Option S → KeyReply × S
  audit_key s1 none = (key_refused key_write_failed, s1)
  audit_key s1 (some s2) = (key_done, s2)

  abbrev saved_key : Text → Text → S → Option S → KeyReply × S
  saved_key kid reason s none = (key_refused key_write_failed, s)
  saved_key kid reason s (some s1) = audit_key s1 (app.write_audit kid reason s1)

  -- RevokeToken from its lookup on
  unfoldable pub revoke_row : Text → Text → S → Option TokenRow → KeyReply × S
  revoke_row kid reason s none = (key_refused unknown_key, s)
  revoke_row kid reason s (some row) =
      if row.revoked
      then (key_done, s)
      else saved_key kid (trim_space reason) s (app.save_token (shut row) s)

  -- RevokeToken
  unfoldable pub revoke_token : Deps → Principal → Text → Text → S → KeyReply × S
  revoke_token base actor kid reason s =
      let k = trim_space kid in
      let dec = can_with (some base) actor (action_text token_revoke) (token_res k) in
      if is_empty k
      then (key_refused unknown_key, s)
      else if not dec.allow
      then (key_refused (key_denied (decision_error dec.reason)), s)
      else if text_eq k legacy_kid
      then (key_refused legacy_key, s)
      else revoke_row k reason s (app.token_by_kid k s)

  abbrev list_rows : Text → Option (List TokenRow) → Listing
  list_rows kind none = not_listed key_lookup_failed
  list_rows kind (some rows) = listed (legacy_rows kind legacy ++ all_without_hash rows)

  -- ListTokens; its rows have no bookkeeping columns.
  unfoldable pub list_tokens : Deps → Principal → Text → S → Listing
  list_tokens base actor kind s =
      let k = to_lower (trim_space kind) in
      let dec = can_with (some base) actor (action_text token_list) global in
      if not dec.allow
      then not_listed (key_denied (decision_error dec.reason))
      else list_rows k (app.all_tokens k s)
