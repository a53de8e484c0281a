-- ===== src/Tests/Stores.antt =====
-- A database with one role, "admin", whose holders are a list; the id of a holder's row is the holder.
use xemu_cartographer.Base.{
  Option, none, All, ◌∙◌, if◌then◌else◌, Bool-cases, inl, inr, sym, ap, refl, ◌≢◌, ℕ, ◌≤◌, ◌≡◌,
  Bool, true, false, some, List, [], ◌∷◌, arith,
}
use xemu_cartographer.Text.{Text, codes, text_eq, elem, trim_space}
use xemu_cartographer.Authz.Action.{role_grant}
use xemu_cartographer.Authz.Principal.{Principal, empty_principal, superuser, internal}
use xemu_cartographer.Authz.Resource.{role}
use xemu_cartographer.Authz.Decision.Admins.{OutRanks}
use xemu_cartographer.Pb.Grants.{
  App, Lookup, found, missing, done, refused, last_admin, admin_count, RolesCache, deps_at, revoke,
  grant,
}
use xemu_cartographer.Pb.Grants.Counts.{remove_one}
use xemu_cartographer.Pb.Grants.Laws.{AppLaws}
use xemu_cartographer.Pb.Grants.Revokes.{revoke-AdminRemains}
use xemu_cartographer.Pb.Grants.Granted.{AreRecent, grant-OutRanks}
use xemu_cartographer.Pb.Keys.{KeyApp, key_done, listed, lookup_token, revoke_token, list_tokens}
use xemu_cartographer.Pb.Keys.Revoked.{KeyLaws, revoke_token-refuses, list_tokens-hidden}
use xemu_cartographer.Text.Laws.{text_eq→≡, text_eq_refl}
use xemu_cartographer.Authz.Errors.{ok}
use xemu_cartographer.Authz.Deps.{TokenRow}
use xemu_cartographer.Authz.Action.{action_text, token_list}
use xemu_cartographer.Authz.Resource.{global}
use xemu_cartographer.Authz.Token.{verify_token}
use xemu_cartographer.Authz.Decision.{can}
use xemu_cartographer.Tests.{evaluated}
use xemu_cartographer.Tests.Data.{two_admins, organizer, spectator_row}

abbrev role_id : Bool → Lookup Text
role_id true = found (codes "r1")
role_id false = missing

abbrev row_of : Bool → Text → Lookup Text
row_of true user = found user
row_of false user = missing

abbrev admins_app : App (List Text)
admins_app = record {
  role_by_slug = λ slug s. role_id (text_eq slug (codes "admin"));
  user_role_row = λ user id s. row_of (elem user s) user;
  admin_role_users = λ s. some s;
  has_deleted_at = λ s. false;
  user_deleted = λ user s. found false;
  all_roles = λ s. some ((codes "admin", 50) ∷ []);
  save_user_role = λ user id by s. some (user ∷ s);
  delete_user_role = λ row s. some (remove_one row s);
  write_audit = λ e s. some s;
}

role_id-found : (b : Bool) (id : Text) → role_id b ≡ found id → b ≡ true
role_id-found true id e = refl
role_id-found false id e = absurd cc

row_of-found : (b : Bool) (user row : Text) → row_of b user ≡ found row → user ≡ row
row_of-found true user row e = cc
row_of-found false user row e = absurd cc

some_of : {x y : List Text} → some x ≡ some y → x ≡ y
some_of e = cc

some_row : {x y : TokenRow} → some x ≡ some y → x ≡ y
some_row e = cc

some_rows : {x y : List TokenRow} → some x ≡ some y → x ≡ y
some_rows e = cc

admins_laws : AppLaws admins_app
admins_laws = record {
  deletes = λ user slug id row s s1 r q d. record {
    rows =
        rw (role_id-found (text_eq slug (codes "admin")) id r)
          (rw (row_of-found (elem user s) user row q) d);
    field = refl;
    each = λ u. refl;
  };
  audits = λ e s s1 w. record { rows = w; field = refl; each = λ u. refl };
}

abbrev root : Principal
root = empty_principal superuser

abbrev both : List Text
both = codes "u1" ∷ codes "u2" ∷ []

revokes_one :
    revoke admins_app two_admins root (codes " u1 ") (codes "admin") [] both
    ≡ (done, codes "u2" ∷ [])
unfolding evaluated
revokes_one = refl

keeps_last :
    revoke admins_app two_admins root (codes "u2") (codes "admin") [] (codes "u2" ∷ [])
    ≡ (refused last_admin, codes "u2" ∷ [])
unfolding evaluated
keeps_last = refl

root_external : root.kind ≢ internal
root_external e = cc

revoke-AdminRemains_example : 1 ≤ admin_count admins_app (codes "u2" ∷ [])
unfolding evaluated
revoke-AdminRemains_example =
    revoke-AdminRemains admins_app admins_laws two_admins root (codes " u1 ") (codes "admin") []
      both (codes "u2" ∷ []) done root_external (omega arith) revokes_one

-- The roles as they were read half a minute before.
abbrev half_minute : Option RolesCache
half_minute = some record { roles = (codes "admin", 10) ∷ []; roles_at = 0 }

grants :
    grant admins_app half_minute 30000000000 two_admins organizer
      (codes "u9")
      (codes "admin")
      []
      both
    ≡ (done, codes "u9" ∷ both)
unfolding evaluated
grants = refl

grant-OutRanks_example :
    (trim_space (codes "admin") ≢ codes "anonymous")
    × OutRanks
        (deps_at admins_app half_minute 30000000000 two_admins both)
        organizer
        role_grant
        (role (trim_space (codes "admin")) (trim_space (codes "u9")))
    × AreRecent admins_app half_minute 30000000000 both
grant-OutRanks_example =
    grant-OutRanks admins_app half_minute 30000000000 two_admins organizer (codes "u9")
      (codes "admin") [] both (codes "u9" ∷ both) refl grants

-- A list of keys, the latest save of a kid in front.
abbrev first_kid : Text → List TokenRow → Option TokenRow
first_kid kid [] = none
first_kid kid (row ∷ rows) = if text_eq row.kid kid then some row else first_kid kid rows

abbrev keys_app : KeyApp (List TokenRow)
keys_app = record {
  token_by_kid = first_kid;
  all_tokens = λ kind s. some s;
  save_token = λ row s. some (row ∷ s);
  write_audit = λ kid reason s. some s;
}

first_kid-kid :
    (kid : Text) (s : List TokenRow) (row : TokenRow) → first_kid kid s ≡ some row → row.kid ≡ kid
first_kid-kid kid [] row e = absurd cc
first_kid-kid kid (r ∷ s) row e = elim (Bool-cases (text_eq r.kid kid)) [
  | inl q ↦ ap (λ (x : TokenRow). x.kid) (sym (some_row (rw q at e))) ∙ text_eq→≡ r.kid kid q
  | inr q ↦ first_kid-kid kid s row (rw q at e)
]

keys_laws : KeyLaws keys_app
keys_laws = record {
  finds = first_kid-kid;
  saves = λ row s s1 e. rw (sym (some_rows e), text_eq_refl row.kid) refl;
  audits = λ kid reason s s1 e k. ap (first_kid k) (sym (some_rows e));
}

abbrev shut_row : TokenRow
shut_row = record spectator_row { revoked = true }

shuts :
    revoke_token keys_app none two_admins root (codes "sp_1") [] (spectator_row ∷ [])
    ≡ (key_done, shut_row ∷ spectator_row ∷ [])
unfolding evaluated
shuts = refl

revoke_token-refuses_example :
    (row : TokenRow) × (lookup_token keys_app none
        (trim_space (codes "sp_1"))
        (shut_row ∷ spectator_row ∷ [])
      ≡ some row)
    × ((hash : Text → Text) (secret : Text) (now : ℕ) → verify_token hash row secret now ≢ ok tt)
revoke_token-refuses_example =
    revoke_token-refuses keys_app keys_laws none two_admins root (codes "sp_1") []
      (spectator_row ∷ []) (shut_row ∷ spectator_row ∷ []) shuts

abbrev hidden_row : TokenRow
hidden_row = record spectator_row { key_hash = [] }

lists : list_tokens keys_app none two_admins root [] (spectator_row ∷ []) ≡ listed (hidden_row ∷ [])
unfolding evaluated
lists = refl

list_tokens-hidden_example :
    (can (some two_admins) root (action_text token_list) global ≡ true)
    × All (λ (row : TokenRow). row.key_hash ≡ []) (hidden_row ∷ [])
list_tokens-hidden_example =
    list_tokens-hidden keys_app none two_admins root [] (spectator_row ∷ []) (hidden_row ∷ []) lists
