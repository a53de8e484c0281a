-- ===== src/Pb/Grants/Revokes.antt =====
-- Revoke: an admin remains.
use xemu_cartographer.Base.{
  ◌≤◌, ◌<◌, ◌≡◌, ◌≢◌, refl, sym, ap, ◌∙◌, inl, inr, true, false, some, is_empty, Bool-cases,
}
use xemu_cartographer.Text.{Text, codes, text_eq, trim_space, is_space, attr}
use xemu_cartographer.Text.Laws.{text_eq→≡}
use xemu_cartographer.Text.Trim.{is_tight, trim_space-tight, trim_space-trim_space}
use xemu_cartographer.Authz.Action.{action_text}
use xemu_cartographer.Authz.Deps.{Deps}
use xemu_cartographer.Authz.Principal.{internal, Principal}
use xemu_cartographer.Authz.Resource.{role}
use xemu_cartographer.Authz.Decision.{can, can_with}
use xemu_cartographer.Authz.Decision.Admins.{role_revoke-AdminRemains}
use xemu_cartographer.Pb.Grants.{
  App, Lookup, found, missing, broken, AuditEntry, Reply, done, refused, admin_count, holds_role,
  deps_at, pb_deps, delete_row, revoke_role, entry, revoke_tx, in_transaction, revoke,
}
use xemu_cartographer.Pb.Grants.Laws.{AppLaws, done≢refused, kept, deleted}

held≢unheld : some true ≢ some false
held≢unheld e = cc

tight_admin : is_tight (codes "admin") ≡ true
unfolding is_space
tight_admin = refl

module _ {S : Type 0} (app : App S) (laws : AppLaws app) where
  -- A row that was found is one that the deps know of.
  holds_found :
      (user slug id row : Text) (s : S)
      → trim_space user ≡ user
      → trim_space slug ≡ slug
      → is_empty user ≡ false
      → is_empty slug ≡ false
      → app.role_by_slug slug s ≡ found id
      → app.user_role_row user id s ≡ found row
      → holds_role app user slug s ≡ some true
  unfolding holds_role
  holds_found user slug id row s tu ts nu ns r q = rw (tu, ts, nu, ns, r, q) refl

  refl_admin : trim_space (codes "admin") ≡ codes "admin"
  refl_admin = trim_space-tight (codes "admin") tight_admin

  -- What the decision leaves of the admins, where it lets the admin role be revoked.
  more_admins :
      (base : Deps) (actor : Principal) (user id row : Text) (s : S)
      → actor.kind ≢ internal
      → trim_space user ≡ user
      → is_empty user ≡ false
      → app.role_by_slug (codes "admin") s ≡ found id
      → app.user_role_row user id s ≡ found row
      → can (some (pb_deps app base s)) actor (codes "role.revoke") (role (codes "admin") user)
        ≡ true
      → 1 < admin_count app s
  unfolding pb_deps deps_at attr text_eq
  more_admins base actor user id row s k tu nu r q allowed =
      elim (role_revoke-AdminRemains (pb_deps app base s) actor (role (codes "admin") user) k refl
        allowed) [
          | inl more ↦ more
          | inr (named, unheld) ↦ absurd (
              held≢unheld (
                sym (holds_found user (codes "admin") id row s tu refl_admin nu refl r q) ∙ unheld))
        ]

  revoked_row :
      (base : Deps) (actor : Principal) (e : AuditEntry) (user slug id : Text) (s s1 : S)
      → actor.kind ≢ internal
      → trim_space user ≡ user
      → is_empty user ≡ false
      → 1 ≤ admin_count app s
      → can (some (pb_deps app base s)) actor (codes "role.revoke") (role slug user) ≡ true
      → app.role_by_slug slug s ≡ found id
      → (look : Lookup Text) → app.user_role_row user id s ≡ look
      → delete_row app e s look ≡ (done, s1)
      → 1 ≤ admin_count app s1
  unfolding delete_row
  revoked_row base actor e user slug id s s1 k tu nu one allowed r missing q h =
      rw (sym (kept s h)) one
  revoked_row base actor e user slug id s s1 k tu nu one allowed r broken q h =
      rw (sym (kept s h)) one
  revoked_row base actor e user slug id s s1 k tu nu one allowed r (found row) q h =
      deleted app laws e user slug id row s s1 (app.delete_user_role row s) r q one
        (λ a.
          let same : slug ≡ codes "admin" = text_eq→≡ slug (codes "admin") a in
          more_admins base actor user id row s k tu nu (rw same at r) q (rw same at allowed))
        refl h

  revoked_role :
      (base : Deps) (actor : Principal) (e : AuditEntry) (user slug : Text) (s s1 : S)
      → actor.kind ≢ internal
      → trim_space user ≡ user
      → is_empty user ≡ false
      → 1 ≤ admin_count app s
      → can (some (pb_deps app base s)) actor (codes "role.revoke") (role slug user) ≡ true
      → (look : Lookup Text) → app.role_by_slug slug s ≡ look
      → revoke_role app e user s look ≡ (done, s1)
      → 1 ≤ admin_count app s1
  unfolding revoke_role
  revoked_role base actor e user slug s s1 k tu nu one allowed missing r h = absurd (done≢refused h)
  revoked_role base actor e user slug s s1 k tu nu one allowed broken r h = absurd (done≢refused h)
  revoked_role base actor e user slug s s1 k tu nu one allowed (found id) r h =
      revoked_row base actor e user slug id s s1 k tu nu one allowed r (app.user_role_row user id s)
        refl h

  tx-AdminRemains :
      (base : Deps) (actor : Principal) (user slug reason : Text) (s s1 : S)
      → actor.kind ≢ internal
      → trim_space user ≡ user
      → is_empty user ≡ false
      → 1 ≤ admin_count app s
      → revoke_tx app base actor user slug reason s ≡ (done, s1)
      → 1 ≤ admin_count app s1
  unfolding revoke_tx action_text can
  tx-AdminRemains base actor user slug reason s s1 k tu nu one h =
      elim (Bool-cases
        (can_with (some (pb_deps app base s)) actor (codes "role.revoke") (role slug user)).allow) [
          | inl a ↦
              revoked_role base actor (entry true actor user slug reason) user slug s s1 k tu nu one
                a (app.role_by_slug slug s) refl (rw a at h)
          | inr a ↦ absurd (done≢refused (rw a at h))
        ]

  in_transaction-AdminRemains :
      (s s1 : S) (answer : Reply × S) (reply : Reply)
      → 1 ≤ admin_count app s
      → ((s2 : S) → answer ≡ (done, s2) → 1 ≤ admin_count app s2)
      → in_transaction s answer ≡ (reply, s1)
      → 1 ≤ admin_count app s1
  in_transaction-AdminRemains s s1 (done, s2) reply one h e =
      rw (ap (λ (x : Reply × S). x.1) (sym e)) (h s2 refl)
  in_transaction-AdminRemains s s1 (refused f, s2) reply one h e =
      rw (ap (λ (x : Reply × S). x.1) (sym e)) one

  -- If the app deletes rows as described, an admin is left after every call of Revoke that an admin is
  -- left before, whatever it answers, unless the caller is in-process.
  pub revoke-AdminRemains :
      (base : Deps) (actor : Principal) (user slug reason : Text) (s s1 : S) (reply : Reply)
      → actor.kind ≢ internal
      → 1 ≤ admin_count app s
      → revoke app base actor user slug reason s ≡ (reply, s1)
      → 1 ≤ admin_count app s1
  unfolding revoke
  revoke-AdminRemains base actor user slug reason s s1 reply k one h =
      elim (Bool-cases (is_empty (trim_space user))) [
        | inl u ↦ rw (ap (λ (x : Reply × S). x.1) (sym (rw u at h))) one
        | inr u ↦ elim (Bool-cases (is_empty (trim_space slug))) [
          | inl n ↦ rw (ap (λ (x : Reply × S). x.1) (sym (rw (u, n) at h))) one
          | inr n ↦
              in_transaction-AdminRemains s s1
                (revoke_tx app base actor (trim_space user) (trim_space slug) reason s) reply one
                (λ s2 e.
                  tx-AdminRemains base actor (trim_space user) (trim_space slug) reason s s2 k
                    (trim_space-trim_space user) u one e)
                (rw (u, n) at h)
        ]
      ]
