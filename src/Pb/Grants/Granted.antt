-- ===== src/Pb/Grants/Granted.antt =====
-- Grant: who is granted a role, and by whom.
use xemu_cartographer.Base.{
  ◌≡◌, ◌≢◌, refl, ℕ, Option, none, ◌⊎◌, ◌-◌, ltb, true, some, inl, inr, false, Bool-cases, is_empty,
}
use xemu_cartographer.Text.{Text, codes, text_eq, trim_space}
use xemu_cartographer.Text.Laws.{text_eq-false}
use xemu_cartographer.Authz.Action.{action_text, role_grant}
use xemu_cartographer.Authz.Deps.{Deps}
use xemu_cartographer.Authz.Principal.{Principal}
use xemu_cartographer.Authz.Resource.{role}
use xemu_cartographer.Authz.Decision.{can, can_with}
use xemu_cartographer.Authz.Decision.Admins.{OutRanks, is_allow_all, role_change-OutRanks}
use xemu_cartographer.Pb.Grants.{
  App, done, RolesCache, roles_cache_ttl, stored_roles, roles_table, deps_at, grant_decided, grant,
}
use xemu_cartographer.Pb.Grants.Laws.{done≢refused}

module _ {S : Type 0} (app : App S) where
  decided-OutRanks :
      (cache : Option RolesCache) (now : ℕ) (base : Deps) (actor : Principal)
      (user slug reason : Text) (s s1 : S)
      → is_allow_all actor.kind ≡ false
      → grant_decided app cache now base actor user slug reason s ≡ (done, s1)
      → OutRanks (deps_at app cache now base s) actor role_grant (role slug user)
  unfolding grant_decided can
  decided-OutRanks cache now base actor user slug reason s s1 k h =
      elim (Bool-cases
        (can_with (some (deps_at app cache now base s)) actor (action_text role_grant)
          (role slug user)).allow) [
            | inl a ↦
                role_change-OutRanks role_grant (deps_at app cache now base s) actor
                  (role slug user) (inl refl) k a
            | inr a ↦ absurd (done≢refused (rw a at h))
          ]

  -- The roles that are judged by are those of the database, or were read less than 60 s ago.
  abbrev pub AreRecent : Option RolesCache → ℕ → S → Type 0
  AreRecent cache now s =
      (roles_table app cache now s ≡ stored_roles app s)
      ⊎ ((c : RolesCache) × (cache ≡ some c)
          × (ltb (now - c.roles_at) roles_cache_ttl ≡ true)
          × (roles_table app cache now s ≡ c.roles))

  table-AreRecent : (cache : Option RolesCache) (now : ℕ) (s : S) → AreRecent cache now s
  unfolding roles_table
  table-AreRecent none now s = inl refl
  table-AreRecent (some c) now s = elim (Bool-cases (ltb (now - c.roles_at) roles_cache_ttl)) [
    | inl e ↦ inr (c, refl, e, rw e refl)
    | inr e ↦ inl (rw e refl)
  ]

  -- If Grant answers no error to anyone but a superuser or an in-process caller, the role is not the
  -- anonymous one, and the actor is a user who holds a scope for that role and whose level reaches
  -- the level that the role has in the adapter's roles table. That table is the database's, or one
  -- that the adapter read less than 60 s ago.
  pub grant-OutRanks :
      (cache : Option RolesCache) (now : ℕ) (base : Deps) (actor : Principal)
      (user slug reason : Text) (s s1 : S)
      → is_allow_all actor.kind ≡ false
      → grant app cache now base actor user slug reason s ≡ (done, s1)
      → (trim_space slug ≢ codes "anonymous")
        × OutRanks
            (deps_at app cache now base s)
            actor
            role_grant
            (role (trim_space slug) (trim_space user))
        × AreRecent cache now s
  unfolding grant
  grant-OutRanks cache now base actor user slug reason s s1 k h =
      elim (Bool-cases (is_empty (trim_space user))) [
        | inl u ↦ absurd (done≢refused (rw u at h))
        | inr u ↦ elim (Bool-cases (is_empty (trim_space slug))) [
          | inl n ↦ absurd (done≢refused (rw (u, n) at h))
          | inr n ↦ elim (Bool-cases (text_eq (trim_space slug) (codes "anonymous"))) [
            | inl x ↦ absurd (done≢refused (rw (u, n, x) at h))
            | inr x ↦ (
              text_eq-false (trim_space slug) (codes "anonymous") x,
              decided-OutRanks cache now base actor (trim_space user) (trim_space slug) reason s s1
                  k (rw (u, n, x) at h),
              table-AreRecent cache now s,
            )
          ]
        ]
      ]
