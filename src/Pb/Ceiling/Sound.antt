-- ===== src/Pb/Ceiling/Sound.antt =====
-- checkMintCeiling: no key is minted that can do more than its minter.
use xemu_cartographer.Base.{
  ◌≡◌, refl, sym, ap, ◌∙◌, ◌⊎◌, inl, inr, Bool, true, false, ◌&&◌, Option, none, some, List, [],
  ◌∷◌, map, arith, Bool-cases, Option-cases, In, here, there, or_true,
}
use xemu_cartographer.Text.{Text, cut, split}
use xemu_cartographer.Authz.Errors.{ok, Result-cases}
use xemu_cartographer.Authz.Action.{Action, action_text, action_of}
use xemu_cartographer.Authz.Action.Names.{action_text-action_of, action_text_injective}
use xemu_cartographer.Authz.Scope.{
  ScopePat, colon, canon_segment, parse_scope, parse_pattern, parse_action, parse_selector,
  parse_want, want_parts, want_selector, match, match_parts, match_any, is_wildcard,
  pat_is_wildcard,
}
use xemu_cartographer.Authz.Scope.Canon.{segments-twice}
use xemu_cartographer.Authz.Scope.Print.{parse_scope-pattern}
use xemu_cartographer.Authz.Scope.Covers.{
  match-Grants, match_iff, exact, every, in_family, ActionCovers,
}
use xemu_cartographer.Authz.Scope.Literal.{literal-selector}
use xemu_cartographer.Authz.Decision.Matching.{match_any_sound}
use xemu_cartographer.Authz.Principal.{Principal}
use xemu_cartographer.Authz.Mint.{overlay_mint_covers}
use xemu_cartographer.Pb.Ceiling.{
  covers_parsed, scope_covers, some_covers, holds_scope, is_exempt, first_uncovered, mints_overlays,
  check_mint_ceiling,
}
use xemu_cartographer.Pb.Ceiling.Wider.{scope_covers_sound}

any-bare-parts :
    (t : Text) (rest : Option Text) (pat : ScopePat)
    → parse_pattern (t, rest) ≡ ok pat
    → pat.any ≡ true
    → pat.selector ≡ []
unfolding parse_pattern parse_action parse_selector
any-bare-parts t none pat h e = ground (arith, h, e)
any-bare-parts t (some r) pat h e = absurd (ground (arith, h, e))

-- "*" as an action takes no selector.
any-bare : (s : Text) (pat : ScopePat) → parse_scope s ≡ ok pat → pat.any ≡ true → pat.selector ≡ []
any-bare s pat h e =
    any-bare-parts (cut colon s).0 (cut colon s).1 pat (parse_scope-pattern s pat h) e

exact-action :
    (pat : ScopePat) (a : Action)
    → pat.any ≡ false
    → pat.family ≡ false
    → ActionCovers pat a
    → action_text a ≡ pat.action
exact-action pat a n f (every e) = cc
exact-action pat a n f (in_family rest e g k) = cc
exact-action pat a n f (exact e g k) = k

literal-parts :
    (t : Text) (rest : Option Text) (pat : ScopePat)
    → parse_pattern (t, rest) ≡ ok pat
    → pat.any ≡ false
    → pat.family ≡ false
    → (a : Action) × (want_parts (t, rest) ≡ some (a, map canon_segment pat.selector))
      × (action_text a ≡ pat.action)
unfolding parse_pattern parse_action parse_selector want_parts
literal-parts t none pat h e f = elim (Option-cases (action_of t)) [
  | inl u ↦ absurd (ground (arith, h, e, f, u))
  | inr (a, u) ↦
      (a, ground (arith, h, e, f, u), ground (arith, h, e, f, u, action_text-action_of t a))
]
literal-parts t (some r) pat h e f = elim (Option-cases (action_of t)) [
  | inl u ↦ absurd (ground (arith, h, e, f, u))
  | inr (a, u) ↦
      (a, ground (arith, h, e, f, u), ground (arith, h, e, f, u, action_text-action_of t a))
]

want_selector-twice :
    (rest : Option Text) → map canon_segment (want_selector rest) ≡ want_selector rest
want_selector-twice none = refl
want_selector-twice (some r) = segments-twice (split colon r)

-- The selector of a want is folded.
want-folded :
    (w : Text) (a : Action) (sel : List Text)
    → parse_want w ≡ some (a, sel)
    → map canon_segment sel ≡ sel
unfolding parse_want want_parts
want-folded w a sel h =
    let rest : Option Text = (cut colon w).1 in
    elim (Option-cases (action_of (cut colon w).0)) [
      | inl u ↦ absurd (ground (arith, h, u))
      | inr (b, u) ↦
          let same : want_selector rest ≡ sel = ground (arith, h, u) in
          ap (map canon_segment) (sym same) ∙ want_selector-twice rest ∙ same
    ]

-- A literal scope, read as a want, is every want that it matches.
literal-want : (s w : Text) → is_wildcard s ≡ false → match s w ≡ true → parse_want s ≡ parse_want w
unfolding is_wildcard
literal-want s w l h =
    let g = match-Grants s w h in
    let lit : pat_is_wildcard g.pat ≡ false = rw (g.parses, is_wildcard) at l in
    let not_any : g.pat.any ≡ false = unfold pat_is_wildcard in ground arith in
    let not_family : g.pat.family ≡ false = unfold pat_is_wildcard in ground arith in
    let (a, wanted, named) =
      literal-parts (cut colon s).0 (cut colon s).1 g.pat (parse_scope-pattern s g.pat g.parses)
        not_any not_family in
    let selector = literal-selector g.pat g.sel lit g.on_selector in
    let acts : a ≡ g.act =
      action_text_injective a g.act
        (named ∙ sym (exact-action g.pat g.act not_any not_family g.on_action)) in
    unfold parse_want in
    wanted
    ∙ ap (λ (x : Action). some (x, map canon_segment g.pat.selector)) acts
    ∙ ap (λ (x : List Text). some (g.act, x))
        (ap (map canon_segment) selector ∙ want-folded w g.act g.sel g.wants)
    ∙ sym g.wants

match-same_want : (h s w : Text) → parse_want s ≡ parse_want w → match h s ≡ match h w
unfolding match
match-same_want h s w e = ap (match_parts (parse_scope h)) e

some_covers-In :
    (held : List Text) (want : ScopePat)
    → some_covers held want ≡ true
    → (h : Text) × (pat : ScopePat) × In h held
      × (parse_scope h ≡ ok pat)
      × (scope_covers pat want ≡ true)
unfolding some_covers
some_covers-In [] want e = cc
some_covers-In (x ∷ held) want e =
    elim (or_true (covers_parsed (parse_scope x) want) (some_covers held want) e) [
      | inr later ↦
          let (h, pat, place, p, c) = some_covers-In held want later in (h, pat, there place, p, c)
      | inl now ↦ elim (Result-cases (parse_scope x)) [
        | inr (f, p) ↦ absurd (ground (arith, p))
        | inl (pat, p) ↦ (x, pat, here refl, p, ground (arith, p))
      ]
    ]

-- A scope that holdsScope finds held matches nothing that the held scopes do not match.
holds_scope_sound :
    (held : List Text) (s w : Text)
    → holds_scope held s ≡ true
    → match s w ≡ true
    → (h : Text) × In h held × (match h w ≡ true)
holds_scope_sound held s w e m =
    let g = match-Grants s w m in
    elim (Bool-cases (is_wildcard s)) [
      | inr l ↦ elim (Option-cases (match_any held s)) [
        | inl n ↦ absurd (unfold holds_scope in ground (arith, g.parses, l, n))
        | inr (h, k) ↦
            let (place, hit) = match_any_sound held s h k in
            (h, place, sym (match-same_want h s w (literal-want s w l m)) ∙ hit)
      ]
      | inl l ↦
          let covered : some_covers held g.pat ≡ true =
            unfold holds_scope in ground (arith, g.parses, l) in
          let (h, pat, place, p, c) = some_covers-In held g.pat covered in
          let (act, sel) =
            scope_covers_sound pat g.pat g.act g.sel (any-bare h pat p) c g.on_action
              g.on_selector in
          (
            h,
            place,
            (match_iff h w).1 (record {
              pat = pat;
              act = g.act;
              sel = g.sel;
              parses = p;
              wants = g.wants;
              on_action = act;
              on_selector = sel;
            }),
          )
    ]

first_uncovered-none :
    (overlay : Bool) (held scopes : List Text) (s : Text)
    → first_uncovered overlay held scopes ≡ none
    → In s scopes
    → ((overlay && overlay_mint_covers s) ≡ true) ⊎ (holds_scope held s ≡ true)
unfolding first_uncovered
first_uncovered-none overlay held [] s e place = elim place [ ]
first_uncovered-none overlay held (x ∷ scopes) s e (here q) =
    rw q (or_true (overlay && overlay_mint_covers x) (holds_scope held x) (ground (arith, e)))
first_uncovered-none overlay held (x ∷ scopes) s e (there place) =
    first_uncovered-none overlay held scopes s (ground (arith, e)) place

-- If the minter is not exempt and the ceiling finds no fault with a key's scopes, then each want that
-- a scope of the key matches is one that a scope of the minter matches; only an overlay scope of a
-- spectator key may instead rest on the minter's overlay.mint.
pub check_mint_ceiling_sound :
    (p : Principal) (kind : Text) (scopes : List Text) (s w : Text)
    → is_exempt p ≡ false
    → check_mint_ceiling p kind scopes ≡ none
    → In s scopes
    → match s w ≡ true
    → ((h : Text) × In h p.scopes × (match h w ≡ true))
      ⊎ ((overlay_mint_covers s ≡ true) × (mints_overlays p kind ≡ true))
unfolding check_mint_ceiling
check_mint_ceiling_sound p kind scopes s w x e place m =
    elim (first_uncovered-none (mints_overlays p kind) p.scopes scopes s (ground (arith, e, x))
      place) [
        | inl o ↦ inr (ground arith, ground arith)
        | inr k ↦ inl (holds_scope_sound p.scopes s w k m)
      ]
