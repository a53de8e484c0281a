-- ===== src/Tests/Seeds.antt =====
-- The built-in roles of internal/authz/seed.go.
use xemu_cartographer.Base.{◌≡◌, ◌≢◌, refl, ◌↔◌, ◌⊎◌, inl, false, some, none, In, here, there}
use xemu_cartographer.Text.{Text, codes}
use xemu_cartographer.Authz.Action.{action_text, role_grant, lan_saves_meta}
use xemu_cartographer.Authz.Principal.{Principal, empty_principal, pb_user}
use xemu_cartographer.Authz.Resource.{global, res_role, plain}
use xemu_cartographer.Authz.Decision.{can}
use xemu_cartographer.Authz.Seed.{seed_role, seed_roles, seed_member}
use xemu_cartographer.Authz.Seed.Delegated.{
  delegated, IsSpectatorMint, IsNonAdminScope, seeded-IsDelegated, role_change_closed,
}
use xemu_cartographer.Authz.Seed.Lookup.{seed_role_iff}
use xemu_cartographer.Tests.{evaluated}
use xemu_cartographer.Tests.Data.{two_admins}

member_named : seed_member.slug ≢ codes "admin"
member_named e = cc

unknown_role : seed_role (codes "owner") ≡ none
unfolding evaluated
unknown_role = refl

member_found :
    (seed_role (codes "member") ≡ some seed_member)
    ↔ (In seed_member seed_roles × (seed_member.slug ≡ codes "member"))
member_found = seed_role_iff (codes "member") seed_member

seeded-IsDelegated_example : In lan_saves_meta delegated ⊎ IsSpectatorMint lan_saves_meta global
unfolding evaluated
seeded-IsDelegated_example =
    seeded-IsDelegated seed_member (codes "lan.saves.meta") lan_saves_meta global
      (codes "lan.saves.meta") (there (there (here refl))) member_named (here refl) (here refl) refl

abbrev member : Principal
member = record (empty_principal pb_user) {
  user_id = codes "u3";
  level = 100;
  scopes = seed_member.scopes;
}

member_scopes : (s : Text) → In s member.scopes → IsNonAdminScope s
member_scopes s held = (seed_member, there (there (here refl)), member_named, held)

role_change_closed_example :
    can (some two_admins) member (action_text role_grant) (plain res_role (codes "member")) ≡ false
role_change_closed_example =
    role_change_closed role_grant two_admins member (plain res_role (codes "member")) (inl refl)
      refl member_scopes
