-- ===== src/Authz/Seed/Delegated.antt =====
-- What the built-in roles other than admin can reach.
use xemu_cartographer.Base.{
  ◌≡◌, ◌≢◌, refl, sym, ap, ◌⊎◌, inl, inr, Bool, true, false, not, ◌&&◌, ◌||◌, Option, none, some,
  List, [], ◌∷◌, arith, Bool-cases, In, here, there, All-In, all, is_empty, if◌then◌else◌,
}
use xemu_cartographer.Text.{
  Text, codes, text_eq, to_lower, lower_rune, has_prefix, has_suffix, cut, split, count_rune,
}
use xemu_cartographer.Text.Laws.{text_eq→≡}
use xemu_cartographer.Text.Separators.{IsFree, cut-append, cut-free}
use xemu_cartographer.Authz.Errors.{Result, ok, err}
use xemu_cartographer.Authz.Action.{
  Action, room_join, token_mint, action_text, all_actions, action_of, role_grant, role_revoke,
  library_manage, iso_set_policy, lan_saves_meta, lan_saves_build, lan_saves_download, overlay_mint,
  overlay_list_consoles, overlay_read_state,
}
use xemu_cartographer.Authz.Action.Names.{action_of-action_text, action_text_injective}
use xemu_cartographer.Authz.Deps.{Deps}
use xemu_cartographer.Authz.Scope.{
  colon, ScopePat, parse_scope, parse_pattern, parse_action, parse_selector, validate_segment,
  parse_want, want_parts, match,
}
use xemu_cartographer.Authz.Scope.Covers.{match-Grants, ActionCovers, every, in_family, exact}
use xemu_cartographer.Authz.Principal.{Principal}
use xemu_cartographer.Text.{attr}
use xemu_cartographer.Authz.Resource.{Resource, selector}
use xemu_cartographer.Authz.Cells.{scope_for, token_mint_wants}
use xemu_cartographer.Authz.Rules.{rules, wants_for}
use xemu_cartographer.Authz.Decision.{can}
use xemu_cartographer.Authz.Decision.Admins.{is_allow_all, role_change-OutRanks}
use xemu_cartographer.Authz.Seed.{
  RoleSeed, seed_roles, seed_organizer, seed_member, seed_overlay_manager, seed_anonymous,
}

action_text-IsFree : (a : Action) → IsFree colon (action_text a)
unfolding action_text count_rune
action_text-IsFree room_join = refl
action_text-IsFree _ = refl

scope_for-cut :
    (a : Action) (r : Resource)
    → (rest : Option Text) × (cut colon (scope_for a r) ≡ (action_text a, rest))
unfolding scope_for
scope_for-cut a r = elim (Bool-cases (is_empty (selector r))) [
  | inl e ↦ (none, rw e (cut-free colon (action_text a) (action_text-IsFree a)))
  | inr e ↦ (
    some (selector r),
    rw e (cut-append colon (action_text a) (selector r) (action_text-IsFree a)),
  )
]

-- A want that begins with an action's name is a want of that action.
cut-want :
    (a b : Action) (w : Text) (rest : Option Text) (sel : List Text)
    → cut colon w ≡ (action_text a, rest)
    → parse_want w ≡ some (b, sel)
    → a ≡ b
cut-want a b w rest sel e h =
    let parsed : want_parts (action_text a, rest) ≡ some (b, sel) =
      unfold parse_want in (rw e at h) in
    unfold want_parts in ground (arith, action_of-action_text a)

-- The actions that the seeds delegate to roles other than admin.
abbrev pub delegated : List Action
delegated =
    library_manage ∷ iso_set_policy ∷ lan_saves_meta ∷ lan_saves_build ∷ lan_saves_download
    ∷ overlay_mint ∷ overlay_list_consoles ∷ overlay_read_state ∷ room_join ∷ []

names_one : List Action → Text → Bool
names_one [] t = false
names_one (a ∷ as') t = text_eq (action_text a) t || names_one as' t

abbrev delegates_one : Result ScopePat → Bool
delegates_one (err e) = false
delegates_one (ok pat) = not pat.any && not pat.family && names_one delegated pat.action

abbrev AreExact : RoleSeed → Type 0
AreExact seed = all (λ s. delegates_one (parse_scope s)) seed.scopes ≡ true

non_admin_exact :
    AreExact seed_organizer
    × AreExact seed_member
    × AreExact seed_overlay_manager
    × AreExact seed_anonymous
unfolding parse_scope parse_pattern parse_action parse_selector validate_segment to_lower lower_rune
    has_prefix has_suffix cut split action_text action_of all_actions text_eq names_one
non_admin_exact = (refl, refl, refl, refl)

seeded-exact : (seed : RoleSeed) → In seed seed_roles → seed.slug ≢ codes "admin" → AreExact seed
seeded-exact seed (here e) ne = absurd (ne (ap (λ (r : RoleSeed). r.slug) e))
seeded-exact seed (there (here e)) ne = rw e non_admin_exact.0
seeded-exact seed (there (there (here e))) ne = rw e non_admin_exact.1
seeded-exact seed (there (there (there (here e)))) ne = rw e non_admin_exact.2
seeded-exact seed (there (there (there (there (here e))))) ne = rw e non_admin_exact.3
seeded-exact seed (there (there (there (there (there h))))) ne = elim h [ ]

all-In : (p : Text → Bool) (t : Text) (ts : List Text) → all p ts ≡ true → In t ts → p t ≡ true
all-In p t [] h held = elim held [ ]
all-In p t (x ∷ ts) h (here e) = rw e (ground arith)
all-In p t (x ∷ ts) h (there held) = all-In p t ts (ground arith) held

names_one-In : (a : Action) (as' : List Action) → names_one as' (action_text a) ≡ true → In a as'
unfolding names_one
names_one-In a [] h = cc
names_one-In a (b ∷ as') h = elim (Bool-cases (text_eq (action_text b) (action_text a))) [
  | inl e ↦ here (action_text_injective a b (sym (text_eq→≡ (action_text b) (action_text a) e)))
  | inr e ↦ there (names_one-In a as' (ground arith))
]

covers-delegated :
    (pat : ScopePat) (a : Action)
    → delegates_one (ok pat) ≡ true
    → ActionCovers pat a
    → In a delegated
covers-delegated pat a h (every e) = absurd (ground arith)
covers-delegated pat a h (in_family rest e f k) = absurd (ground arith)
covers-delegated pat a h (exact e f k) = names_one-In a delegated (rw k (ground arith))

exact-IsDelegated :
    (seed : RoleSeed) (s : Text) (a : Action) (w : Text) (rest : Option Text)
    → In seed seed_roles
    → seed.slug ≢ codes "admin"
    → In s seed.scopes
    → cut colon w ≡ (action_text a, rest)
    → match s w ≡ true
    → In a delegated
exact-IsDelegated seed s a w rest built_in ne held e h =
    let g = match-Grants s w h in
    let one =
      all-In (λ t. delegates_one (parse_scope t)) s seed.scopes (seeded-exact seed built_in ne)
        held in
    let is_exact : delegates_one (ok g.pat) ≡ true = rw g.parses at one in
    rw (cut-want a g.act w rest g.sel e g.wants) (covers-delegated g.pat g.act is_exact g.on_action)

-- The one exception: what lets a user mint a spectator key.
abbrev pub IsSpectatorMint : Action → Resource → Type 0
IsSpectatorMint a r = (a ≡ token_mint) × (attr (codes "kind") r.extra ≡ codes "spectator")

-- A want of a rule is of the rule's action, but for those of room.join and the exception.
wants-cut :
    (a : Action) (r : Resource) (w : Text)
    → In w (wants_for (rules a) a r)
    → (a ≡ room_join)
      ⊎ IsSpectatorMint a r
      ⊎ ((rest : Option Text) × (cut colon w ≡ (action_text a, rest)))
unfolding wants_for rules
wants-cut room_join r w h = inl refl
wants-cut token_mint r w h =
    unfold token_mint_wants in
    elim h [
      | here e ↦ inr (
          inr
            (none, rw e (cut-free colon (action_text token_mint) (action_text-IsFree token_mint))))
      | there (here e) ↦ inr (
          inr (
            some (attr (codes "kind") r.extra),
            rw e (
                cut-append colon (action_text token_mint) (attr (codes "kind") r.extra)
                  (action_text-IsFree token_mint)),
          ))
      | there (there k) ↦ inr (inl (refl, spectator_kind k))
    ]
  where
    spectator_kind :
        In w (
          if text_eq (attr (codes "kind") r.extra) (codes "spectator")
          then action_text overlay_mint ∷ []
          else [])
        → attr (codes "kind") r.extra ≡ codes "spectator"
    spectator_kind k =
        elim (Bool-cases (text_eq (attr (codes "kind") r.extra) (codes "spectator"))) [
          | inl e ↦ text_eq→≡ (attr (codes "kind") r.extra) (codes "spectator") e
          | inr e ↦ elim (rw e at k) [ ]
        ]
wants-cut _ r w (here e) = inr (inr (rw e (scope_for-cut _ r)))
wants-cut _ r w (there k) = elim k [ ]

room_join-delegated : In room_join delegated
room_join-delegated = there (there (there (there (there (there (there (there (here refl))))))))

-- A scope of a built-in role other than admin that matches one of the wants of an action's rule is
-- for one of the nine delegated actions, or for the minting of a spectator key.
pub seeded-IsDelegated :
    (seed : RoleSeed) (s : Text) (a : Action) (r : Resource) (w : Text)
    → In seed seed_roles
    → seed.slug ≢ codes "admin"
    → In s seed.scopes
    → In w (wants_for (rules a) a r)
    → match s w ≡ true
    → In a delegated ⊎ IsSpectatorMint a r
seeded-IsDelegated seed s a r w built_in ne held wanted h = elim (wants-cut a r w wanted) [
  | inl e ↦ inl (rw e room_join-delegated)
  | inr (inl e) ↦ inr e
  | inr (inr (rest, e)) ↦ inl (exact-IsDelegated seed s a w rest built_in ne held e h)
]

-- The scope stands in a built-in role other than admin.
abbrev pub IsNonAdminScope : Text → Type 0
IsNonAdminScope s =
    (seed : RoleSeed) × In seed seed_roles × (seed.slug ≢ codes "admin") × In s seed.scopes

abbrev is_role_change : Action → Bool
is_role_change role_grant = true
is_role_change role_revoke = true
is_role_change _ = false

delegated-role_change : (a : Action) → In a delegated → is_role_change a ≡ false
delegated-role_change a held =
    All-In (λ b. is_role_change b ≡ false) a delegated (ground arith) held

-- Whoever holds no scopes but those of built-in roles other than admin, and is neither a superuser
-- nor an in-process caller, can neither grant nor revoke any role.
pub role_change_closed :
    (a : Action) (ds : Deps) (p : Principal) (r : Resource)
    → (a ≡ role_grant) ⊎ (a ≡ role_revoke)
    → is_allow_all p.kind ≡ false
    → ((s : Text) → In s p.scopes → IsNonAdminScope s)
    → can (some ds) p (action_text a) r ≡ false
role_change_closed a ds p r e k non_admin = elim (Bool-cases (can (some ds) p (action_text a) r)) [
  | inl h ↦
      let o = role_change-OutRanks a ds p r e k h in
      let (seed, built_in, ne, held) = non_admin o.scope o.held in
      let apart = delegated-role_change a (
        exact-IsDelegated seed o.scope a (scope_for a r) (scope_for-cut a r).0 built_in ne held
          (scope_for-cut a r).1 o.grants) in
      absurd (elim e [
        | inl g ↦ cc (ap is_role_change g, apart)
        | inr g ↦ cc (ap is_role_change g, apart)
      ])
  | inr h ↦ h
]
