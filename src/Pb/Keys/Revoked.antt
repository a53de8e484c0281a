-- ===== src/Pb/Keys/Revoked.antt =====
-- RevokeToken and VerifyToken: a revoked key is of no use. ListTokens: no digest leaves.
use xemu_cartographer.Base.{
  ℕ, ◌≡◌, ◌≢◌, refl, sym, ap, subst, ◌∙◌, inl, inr, ◌||◌, true, Option, none, some, List, [], ◌∷◌,
  ◌++◌, is_empty, arith, Bool-cases, All,
}
use xemu_cartographer.Text.{Text, text_eq, trim_space, to_lower}
use xemu_cartographer.Authz.Errors.{ok}
use xemu_cartographer.Authz.Action.{action_text, token_revoke, token_list}
use xemu_cartographer.Authz.Deps.{Deps, TokenRow}
use xemu_cartographer.Authz.Principal.{Principal}
use xemu_cartographer.Authz.Resource.{token_res, global}
use xemu_cartographer.Authz.Token.{verify_token, legacy_kid}
use xemu_cartographer.Authz.Token.Keys.{verify_token_iff}
use xemu_cartographer.Authz.Decision.{can, can_with}
use xemu_cartographer.Pb.Keys.{
  KeyApp, KeyError, KeyReply, key_done, key_refused, shut, all_without_hash, legacy_rows, listed,
  not_listed, lookup_token, audit_key, saved_key, revoke_row, revoke_token, list_rows, list_tokens,
}

-- What RevokeToken relies on: a row that is found has the kid asked for, a row that is saved is found
-- by its kid from then on, and an audit row changes no key.
pub record KeyLaws {S : Type 0} (app : KeyApp S) : Type 0 where
  pub finds :
      (kid : Text) (s : S) (row : TokenRow) → app.token_by_kid kid s ≡ some row → row.kid ≡ kid
  pub saves :
      (row : TokenRow) (s s1 : S)
      → app.save_token row s ≡ some s1
      → app.token_by_kid row.kid s1 ≡ some row
  pub audits :
      (kid reason : Text) (s s1 : S)
      → app.write_audit kid reason s ≡ some s1
      → (k : Text) → app.token_by_kid k s1 ≡ app.token_by_kid k s

-- A row under this kid is revoked, if there is one.
abbrev IsShut : Option TokenRow → Type 0
IsShut none = Unit
IsShut (some row) = row.revoked ≡ true

refused≢done :
    {S : Type 0} {e : KeyError} {s s1 : S}
    → ◌≡◌ {A = KeyReply × S} (key_refused e, s) (key_done, s1)
    → ⊥
refused≢done {S = S} h = cc (ap (λ (x : KeyReply × S). x.0) h)

same_state :
    {S : Type 0} {r : KeyReply} {s s1 : S} → ◌≡◌ {A = KeyReply × S} (r, s) (key_done, s1) → s ≡ s1
same_state {S = S} h = ap (λ (x : KeyReply × S). x.1) h

listed_injective : {rows rows1 : List TokenRow} → listed rows ≡ listed rows1 → rows ≡ rows1
listed_injective e = cc

not_listed≢listed : {e : KeyError} {rows : List TokenRow} → not_listed e ≡ listed rows → ⊥
not_listed≢listed h = cc

module _ {S : Type 0} (app : KeyApp S) (laws : KeyLaws app) (legacy : Option TokenRow) where
  audited_shut :
      (kid reason : Text) (row : TokenRow) (s s1 : S) (written : Option S)
      → app.token_by_kid kid s ≡ some (shut row)
      → app.write_audit kid reason s ≡ written
      → audit_key app legacy s written ≡ (key_done, s1)
      → app.token_by_kid kid s1 ≡ some (shut row)
  audited_shut kid reason row s s1 none t w h = absurd (refused≢done h)
  audited_shut kid reason row s s1 (some s2) t w h =
      rw (sym (same_state h)) (laws.audits kid reason s s2 w kid ∙ t)

  saved_shut :
      (kid reason : Text) (row : TokenRow) (s s1 : S) (saved : Option S)
      → row.kid ≡ kid
      → app.save_token (shut row) s ≡ saved
      → saved_key app legacy kid reason s saved ≡ (key_done, s1)
      → app.token_by_kid kid s1 ≡ some (shut row)
  saved_shut kid reason row s s1 none k w h = absurd (refused≢done h)
  saved_shut kid reason row s s1 (some s2) k w h =
      audited_shut kid reason row s2 s1 (app.write_audit kid reason s2)
        (ap (λ x. app.token_by_kid x s2) (sym k) ∙ laws.saves (shut row) s s2 w) refl h

  row_shut :
      (kid reason : Text) (s s1 : S) (look : Option TokenRow)
      → app.token_by_kid kid s ≡ look
      → revoke_row app legacy kid reason s look ≡ (key_done, s1)
      → (row : TokenRow) × (app.token_by_kid kid s1 ≡ some row) × (row.revoked ≡ true)
  unfolding revoke_row
  row_shut kid reason s s1 none t h = absurd (refused≢done h)
  row_shut kid reason s s1 (some row) t h = elim (Bool-cases row.revoked) [
    | inl r ↦ (row, rw (sym (same_state (rw r at h))) t, r)
    | inr r ↦ (
      shut row,
      saved_shut kid (trim_space reason) row s s1 (app.save_token (shut row) s)
          (laws.finds kid s row t) refl (rw r at h),
      refl,
    )
  ]

  no_use :
      (hash : Text → Text) (row : TokenRow) (secret : Text) (now : ℕ)
      → row.revoked ≡ true
      → verify_token hash row secret now ≢ ok tt
  no_use hash row secret now r h =
      ground (arith, r, ((verify_token_iff hash row secret now).0 h).valid)

  -- If the app keeps rows as described, then once RevokeToken has answered no error, the key is still
  -- known, and no secret, whenever it is presented, verifies against any row that LookupToken gives
  -- for it.
  pub revoke_token-refuses :
      (base : Deps) (actor : Principal) (kid reason : Text) (s s1 : S)
      → revoke_token app legacy base actor kid reason s ≡ (key_done, s1)
      → (row : TokenRow) × (lookup_token app legacy (trim_space kid) s1 ≡ some row)
        × ((hash : Text → Text) (secret : Text) (now : ℕ)
            → verify_token hash row secret now ≢ ok tt)
  unfolding revoke_token lookup_token
  revoke_token-refuses base actor kid reason s s1 h =
      elim (Bool-cases (is_empty (trim_space kid))) [
        | inl e ↦ absurd (refused≢done (rw e at h))
        | inr e ↦
            elim (Bool-cases
              (can_with (some base) actor (action_text token_revoke)
                (token_res (trim_space kid))).allow) [
                  | inr a ↦ absurd (refused≢done (rw (e, a) at h))
                  | inl a ↦ elim (Bool-cases (text_eq (trim_space kid) legacy_kid)) [
                    | inl l ↦ absurd (refused≢done (rw (e, a, l) at h))
                    | inr l ↦
                        let (row, found, r) =
                          row_shut (trim_space kid) reason s s1
                            (app.token_by_kid (trim_space kid) s) refl (rw (e, a, l) at h) in
                        (row, rw (e, l) found, λ hash secret now. no_use hash row secret now r)
                  ]
                ]
      ]

module _ {S : Type 0} (app : KeyApp S) (legacy : Option TokenRow) where
  hashless-rows : (rows : List TokenRow) → All (λ row. row.key_hash ≡ []) (all_without_hash rows)
  unfolding all_without_hash
  hashless-rows [] = tt
  hashless-rows (row ∷ rows) = (refl, hashless-rows rows)

  hashless-listed :
      (kind : Text) (old : Option TokenRow) (rows : List TokenRow)
      → All (λ row. row.key_hash ≡ []) (legacy_rows kind old ++ all_without_hash rows)
  unfolding legacy_rows
  hashless-listed kind none rows = hashless-rows rows
  hashless-listed kind (some old) rows =
      elim (Bool-cases (is_empty kind || text_eq kind old.kind)) [
        | inl e ↦ rw e (refl, hashless-rows rows)
        | inr e ↦ rw e (hashless-rows rows)
      ]

  rows_hidden :
      (kind : Text) (found : Option (List TokenRow)) (rows : List TokenRow)
      → list_rows app legacy kind found ≡ listed rows
      → All (λ row. row.key_hash ≡ []) rows
  rows_hidden kind none rows h = absurd cc
  rows_hidden kind (some found) rows h =
      subst (All (λ row. row.key_hash ≡ [])) (listed_injective h)
        (hashless-listed kind legacy found)

  -- Whoever gets a listing from ListTokens may list keys, and no row of it has a digest.
  pub list_tokens-hidden :
      (base : Deps) (actor : Principal) (kind : Text) (s : S) (rows : List TokenRow)
      → list_tokens app legacy base actor kind s ≡ listed rows
      → (can (some base) actor (action_text token_list) global ≡ true)
        × All (λ row. row.key_hash ≡ []) rows
  unfolding list_tokens can
  list_tokens-hidden base actor kind s rows h =
      elim (Bool-cases (can_with (some base) actor (action_text token_list) global).allow) [
        | inl a ↦ (
          a,
          rows_hidden (to_lower (trim_space kind)) (app.all_tokens (to_lower (trim_space kind)) s)
              rows (rw a at h),
        )
        | inr a ↦ absurd (not_listed≢listed (rw a at h))
      ]
