-- ===== src/Authz/Mint/Validated.antt =====
-- A minted spectator or device key carries literal scopes that name one instance.
use xemu_cartographer.Base.{
  ◌≡◌, ◌≢◌, refl, ap, ◌∙◌, inl, inr, true, false, some, List, [], ◌∷◌, arith, Option-cases, All,
  any,
}
use xemu_cartographer.Text.{Text, codes, text_eq}
use xemu_cartographer.Text.Laws.{text_eq_iff}
use xemu_cartographer.Authz.Errors.{ok, ◌>>=◌, bind-ok, Result-cases}
use xemu_cartographer.Authz.Action.{Action, action_text}
use xemu_cartographer.Authz.Scope.{ScopePat, parse_scope, pat_is_wildcard, named_instance}
use xemu_cartographer.Authz.Scope.Segments.{named_instance-nonempty}
use xemu_cartographer.Authz.Mint.{
  mint_instance, clashes, mint_allow_list, parse_all, check_pats, validate_for_mint,
}

-- A scope that a key restricted to `allowed` may carry for the instance.
pub record MintsFor (allowed : List Action) (inst s : Text) : Type 0 where
  pub pat : ScopePat
  pub parses : parse_scope s ≡ ok pat
  pub literal : pat_is_wildcard pat ≡ false
  pub listed : any (λ a. text_eq pat.action (action_text a)) allowed ≡ true
  pub names : mint_instance pat ≡ some inst

mint_instance-named :
    (pat : ScopePat) (inst : Text) → mint_instance pat ≡ some inst → named_instance pat ≡ some inst
unfolding mint_instance
mint_instance-named pat inst h = ground arith

mint_instance-nonempty :
    (s : Text) (pat : ScopePat) (inst : Text)
    → parse_scope s ≡ ok pat
    → mint_instance pat ≡ some inst
    → inst ≢ []
mint_instance-nonempty s pat inst p h =
    named_instance-nonempty s pat inst p (mint_instance-named pat inst h)

clashes-same : (inst named : Text) → inst ≢ [] → clashes inst named ≡ false → named ≡ inst
unfolding clashes
clashes-same [] named n h = absurd (n refl)
clashes-same (c ∷ inst) named n h = ground (arith, text_eq_iff named (c ∷ inst))

-- One round of the second loop of ValidateForMint.
record Checked (allowed : List Action) (inst : Text) (pat : ScopePat) (pats : List ScopePat)
    : Type 0 where
  named : Text
  literal : pat_is_wildcard pat ≡ false
  listed : any (λ a. text_eq pat.action (action_text a)) allowed ≡ true
  names : mint_instance pat ≡ some named
  agrees : clashes inst named ≡ false
  rest : check_pats allowed named pats ≡ ok tt

check_pats-Checked :
    (allowed : List Action) (inst : Text) (pat : ScopePat) (pats : List ScopePat)
    → check_pats allowed inst (pat ∷ pats) ≡ ok tt
    → Checked allowed inst pat pats
unfolding check_pats
check_pats-Checked allowed inst pat pats h = elim (Option-cases (mint_instance pat)) [
  | inl e ↦ absurd (ground arith)
  | inr (named, e) ↦ record {
    named = named;
    literal = ground arith;
    listed = ground arith;
    names = e;
    agrees = ground arith;
    rest = ground arith;
  }
]

-- One round of the first loop.
parse_all-cons :
    (s : Text) (scopes : List Text) (pats : List ScopePat)
    → parse_all (s ∷ scopes) ≡ ok pats
    → (pat : ScopePat) × (rest : List ScopePat) × (parse_scope s ≡ ok pat)
      × (parse_all scopes ≡ ok rest)
      × (pats ≡ pat ∷ rest)
unfolding parse_all
parse_all-cons s scopes pats h =
    let (pat, h', p) = bind-ok (parse_scope s) (λ q. parse_all scopes >>= λ r. ok (q ∷ r)) h in
    let (rest, e, q) = bind-ok (parse_all scopes) (λ r. ok (pat ∷ r)) h' in
    (pat, rest, p, q, ground arith)

scopes-MintsFor :
    (allowed : List Action) (inst : Text) (scopes : List Text) (pats : List ScopePat)
    → inst ≢ []
    → parse_all scopes ≡ ok pats
    → check_pats allowed inst pats ≡ ok tt
    → All (MintsFor allowed inst) scopes
scopes-MintsFor allowed inst [] pats n h c = tt
scopes-MintsFor allowed inst (s ∷ scopes) pats n h c =
    let (pat, rest, p, q, e) = parse_all-cons s scopes pats h in
    let round = check_pats-Checked allowed inst pat rest (rw e at c) in
    let same : round.named ≡ inst = clashes-same inst round.named n round.agrees in
    (
      record {
        pat = pat;
        parses = p;
        literal = round.literal;
        listed = round.listed;
        names = round.names ∙ ap some same;
      },
      scopes-MintsFor allowed inst scopes rest n q (rw same at round.rest),
    )

-- The first scope fixes the instance for all.
checked-MintsFor :
    (allowed : List Action) (s : Text) (scopes : List Text) (pats : List ScopePat)
    → parse_all (s ∷ scopes) ≡ ok pats
    → check_pats allowed [] pats ≡ ok tt
    → (inst : Text) × (inst ≢ []) × All (MintsFor allowed inst) (s ∷ scopes)
checked-MintsFor allowed s scopes pats h c =
    let (pat, rest, p, q, e) = parse_all-cons s scopes pats h in
    let round = check_pats-Checked allowed [] pat rest (rw e at c) in
    let n = mint_instance-nonempty s pat round.named p round.names in
    (
      round.named,
      n,
      (
        record {
          pat = pat;
          parses = p;
          literal = round.literal;
          listed = round.listed;
          names = round.names;
        },
        scopes-MintsFor allowed round.named scopes rest n q round.rest,
      ),
    )

-- A key that may be minted and is not a machine's carries literal scopes only, of actions from its
-- kind's list, all naming one instance, which is not empty.
pub validate_for_mint-MintsFor :
    (kind : Text) (scopes : List Text)
    → kind ≢ codes "machine"
    → validate_for_mint kind scopes ≡ ok tt
    → (inst : Text) × (inst ≢ []) × All (MintsFor (mint_allow_list kind) inst) scopes
unfolding validate_for_mint
validate_for_mint-MintsFor kind [] k h = absurd (ground arith)
validate_for_mint-MintsFor kind (s ∷ scopes) k h = elim (Result-cases (parse_all (s ∷ scopes))) [
  | inr (e, p) ↦ absurd (ground arith)
  | inl (pats, p) ↦
      checked-MintsFor (mint_allow_list kind) s scopes pats p
        (ground (arith, text_eq_iff kind (codes "machine")))
]
