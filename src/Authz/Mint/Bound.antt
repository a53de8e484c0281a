-- ===== src/Authz/Mint/Bound.antt =====
-- A spectator's principal is bound to the instance that its key was minted for.
use xemu_cartographer.Base.{
  ℕ, ◌≡◌, ◌≢◌, refl, sym, ap, ◌∙◌, ◌⊎◌, inl, inr, false, some, List, [], ◌∷◌, arith, All,
}
use xemu_cartographer.Text.{Text, codes, text_eq, attr}
use xemu_cartographer.Text.Laws.{text_eq_refl}
use xemu_cartographer.Authz.Errors.{ok}
use xemu_cartographer.Authz.Action.{Action}
use xemu_cartographer.Authz.Deps.{TokenRow}
use xemu_cartographer.Authz.Principal.{spectator, canon_scopes, bound_instance}
use xemu_cartographer.Authz.Cells.{token_kinds}
use xemu_cartographer.Authz.Mint.{
  clashes, instance_from, scopes_instance, principal_from_token, mint_allow_list, validate_for_mint,
}
use xemu_cartographer.Authz.Mint.Validated.{MintsFor, validate_for_mint-MintsFor}

-- What the loop of scopesInstance needs of the instance found so far.
abbrev Agrees : Text → Text → Type 0
Agrees so_far inst = (so_far ≡ []) ⊎ (so_far ≡ inst)

Agrees-clashes : (so_far inst : Text) → Agrees so_far inst → clashes so_far inst ≡ false
unfolding clashes
Agrees-clashes so_far inst (inl e) = rw e (ground arith)
Agrees-clashes so_far inst (inr e) = rw (e, text_eq_refl inst) (ground arith)

instance_from-done : (inst : Text) → inst ≢ [] → instance_from inst [] ≡ some inst
unfolding instance_from
instance_from-done inst n = ground arith

instance_from-cons :
    (so_far inst s : Text) (scopes : List Text) (allowed : List Action)
    → Agrees so_far inst
    → MintsFor allowed inst s
    → instance_from so_far (s ∷ scopes) ≡ instance_from inst scopes
unfolding instance_from
instance_from-cons so_far inst s scopes allowed a m =
    rw (m.parses, instance_from, m.names, Agrees-clashes so_far inst a)

instance_from-MintsFor :
    (so_far inst : Text) (scopes : List Text) (allowed : List Action)
    → Agrees so_far inst
    → inst ≢ []
    → (scopes ≢ []) ⊎ (so_far ≡ inst)
    → All (MintsFor allowed inst) scopes
    → instance_from so_far scopes ≡ some inst
instance_from-MintsFor so_far inst [] allowed a n (inl k) h = absurd (k refl)
instance_from-MintsFor so_far inst [] allowed a n (inr k) h = rw k (instance_from-done inst n)
instance_from-MintsFor so_far inst (s ∷ scopes) allowed a n k h =
    instance_from-cons so_far inst s scopes allowed a h.0
    ∙ instance_from-MintsFor inst inst scopes allowed (inr refl) n (inr refl) h.1

scopes-nonempty :
    (kind : Text) (scopes : List Text) → validate_for_mint kind scopes ≡ ok tt → scopes ≢ []
unfolding validate_for_mint
scopes-nonempty kind [] h = absurd (ground arith)
scopes-nonempty kind (s ∷ scopes) h = λ e. cc

spectator-principal :
    (row : TokenRow) (c : ℕ) (inst : Text)
    → token_kinds row.kind ≡ some spectator
    → scopes_instance (canon_scopes row.scopes) ≡ some (c ∷ inst)
    → ((principal_from_token row).kind ≡ spectator)
      × ((principal_from_token row).bound ≡ (codes "instance", c ∷ inst) ∷ [])
unfolding principal_from_token
spectator-principal row c inst k h = rw (k, principal_from_token, h) (refl, refl)

bound-spectator :
    (row : TokenRow) (inst : Text)
    → row.kind ≡ codes "spectator"
    → inst ≢ []
    → scopes_instance (canon_scopes row.scopes) ≡ some inst
    → ((principal_from_token row).kind ≡ spectator)
      × (bound_instance (principal_from_token row) ≡ inst)
bound-spectator row [] e n h = absurd (n refl)
bound-spectator row (c ∷ inst) e n h =
    let known : token_kinds row.kind ≡ some spectator =
      ap token_kinds e ∙ unfold token_kinds text_eq in refl in
    let (kind, bound) = spectator-principal row c inst known h in
    (kind, unfold bound_instance attr text_eq in rw bound refl)

-- A spectator row that may be minted, with its scopes in canonical form, gives a spectator bound
-- to the one instance that every scope names.
pub principal_from_token-bound :
    (row : TokenRow)
    → row.kind ≡ codes "spectator"
    → canon_scopes row.scopes ≡ row.scopes
    → validate_for_mint (codes "spectator") row.scopes ≡ ok tt
    → ((principal_from_token row).kind ≡ spectator)
      × (bound_instance (principal_from_token row) ≢ [])
      × All
          (MintsFor
            (mint_allow_list (codes "spectator"))
            (bound_instance (principal_from_token row)))
          row.scopes
principal_from_token-bound row e canonical h =
    let (inst, n, mints) =
      validate_for_mint-MintsFor (codes "spectator") row.scopes (λ k. ground arith) h in
    let found : scopes_instance (canon_scopes row.scopes) ≡ some inst =
      ap scopes_instance canonical
      ∙ unfold scopes_instance in
        instance_from-MintsFor [] inst row.scopes (mint_allow_list (codes "spectator")) (inl refl) n
          (inl (scopes-nonempty (codes "spectator") row.scopes h)) mints in
    let (kind, bound) = bound-spectator row inst e n found in
    (kind, λ k. n (sym bound ∙ k), rw bound mints)
