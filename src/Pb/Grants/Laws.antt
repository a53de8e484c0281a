-- ===== src/Pb/Grants/Laws.antt =====
-- What Revoke relies on in the app, and what a deleted row does to the number of admins.
use xemu_cartographer.Base.{
  suc, ◌≤◌, ◌<◌, ◌≡◌, refl, sym, ap, ◌∙◌, inl, inr, true, Option, none, some, List, [], arith,
  if◌then◌else◌, Bool-cases,
}
use xemu_cartographer.Text.{Text, codes, text_eq}
use xemu_cartographer.Pb.Grants.{
  App, found, AuditEntry, GrantError, Reply, done, refused, admin_count, count_live, count_rows,
  live_user, audited, audit_reply,
}
use xemu_cartographer.Pb.Grants.Counts.{remove_one, count_live-remove_one, count_live-agree}

abbrev pub less_one : Text → Option (List Text) → Option (List Text)
less_one u none = none
less_one u (some users) = some (remove_one u users)

-- The same users and the same admin rows.
pub record SameAdmins {S : Type 0} (app : App S) (users users1 : Option (List Text)) (s s1 : S)
    : Type 0 where
  pub rows : users ≡ users1
  pub field : app.has_deleted_at s1 ≡ app.has_deleted_at s
  pub each : (u : Text) → app.user_deleted u s1 ≡ app.user_deleted u s

-- What Revoke relies on: to delete the row that was found for a user and the role of a slug takes
-- that user's admin row away if the slug is "admin", and no admin row if not; an audit row changes
-- neither roles nor users.
pub record AppLaws {S : Type 0} (app : App S) : Type 0 where
  pub deletes :
      (user slug id row : Text) (s s1 : S)
      → app.role_by_slug slug s ≡ found id
      → app.user_role_row user id s ≡ found row
      → app.delete_user_role row s ≡ some s1
      → SameAdmins app
          (if text_eq slug (codes "admin")
            then less_one user (app.admin_role_users s)
            else app.admin_role_users s)
          (app.admin_role_users s1)
          s
          s1
  pub audits :
      (e : AuditEntry) (s s1 : S)
      → app.write_audit e s ≡ some s1
      → SameAdmins app (app.admin_role_users s) (app.admin_role_users s1) s s1

pub some_injective : {A : Type 0} {x y : A} → some x ≡ some y → x ≡ y
some_injective e = cc

pub done≢refused :
    {S : Type 0} {e : GrantError} {s s1 : S} → ◌≡◌ {A = Reply × S} (refused e, s) (done, s1) → ⊥
done≢refused {S = S} h = cc (ap (λ (x : Reply × S). x.0) h)

pub kept :
    {S : Type 0} {r : Reply} {s s1 : S} (t : S) → ◌≡◌ {A = Reply × S} (r, s) (done, s1) → s ≡ s1
kept {S = S} t h = ap (λ (x : Reply × S). x.1) h

module _ {S : Type 0} (app : App S) (laws : AppLaws app) where
  pub count-SameAdmins :
      (users users1 : Option (List Text)) (s s1 : S)
      → SameAdmins app users users1 s s1
      → count_rows app s1 users1 ≡ count_rows app s users
  count-SameAdmins none none s s1 same = refl
  count-SameAdmins none (some v) s s1 same = absurd cc
  count-SameAdmins (some u) none s s1 same = absurd cc
  count-SameAdmins (some u) (some v) s s1 same =
      count_live-agree (live_user app s1) (live_user app s) v []
        (λ x. rw (same.field, same.each x) refl)
      ∙ ap (λ x. count_live (live_user app s) [] x) (some_injective (sym same.rows))

  pub count-less_one :
      (u : Text) (users : Option (List Text)) (s : S)
      → count_rows app s users ≤ suc (count_rows app s (less_one u users))
  count-less_one u none s = omega arith
  count-less_one u (some users) s = count_live-remove_one (live_user app s) users [] u

  pub after_audit :
      (e : AuditEntry) (s1 s2 : S) (written : Option S)
      → app.write_audit e s1 ≡ written
      → audit_reply app s1 written ≡ (done, s2)
      → admin_count app s2 ≡ admin_count app s1
  unfolding admin_count
  after_audit e s1 s2 none q h = absurd (done≢refused h)
  after_audit e s1 s2 (some s3) q h = rw (sym (kept s3 h)) (
      count-SameAdmins (app.admin_role_users s1) (app.admin_role_users s3) s1 s3
        (laws.audits e s1 s3 q))

  -- A row that is deleted takes one admin at most, and only if the role is the admins'.
  pub after_delete :
      (user slug id row : Text) (s s1 : S)
      → app.role_by_slug slug s ≡ found id
      → app.user_role_row user id s ≡ found row
      → app.delete_user_role row s ≡ some s1
      → 1 ≤ admin_count app s
      → (text_eq slug (codes "admin") ≡ true → 1 < admin_count app s)
      → 1 ≤ admin_count app s1
  unfolding admin_count
  after_delete user slug id row s s1 r q d one more =
      let same = laws.deletes user slug id row s s1 r q d in
      elim (Bool-cases (text_eq slug (codes "admin"))) [
        | inl e ↦ omega (
          arith,
          more e,
          count-less_one user (app.admin_role_users s) s,
          count-SameAdmins (less_one user (app.admin_role_users s)) (app.admin_role_users s1) s s1
              (rw e at same),
        )
        | inr e ↦ omega (
          arith,
          one,
          count-SameAdmins (app.admin_role_users s) (app.admin_role_users s1) s s1 (rw e at same),
        )
      ]

  -- The row's deletion and the audit row behind it.
  pub deleted :
      (e : AuditEntry) (user slug id row : Text) (s s1 : S) (gone : Option S)
      → app.role_by_slug slug s ≡ found id
      → app.user_role_row user id s ≡ found row
      → 1 ≤ admin_count app s
      → (text_eq slug (codes "admin") ≡ true → 1 < admin_count app s)
      → app.delete_user_role row s ≡ gone
      → audited app e s gone ≡ (done, s1)
      → 1 ≤ admin_count app s1
  unfolding audited
  deleted e user slug id row s s1 none r q one more d h = absurd (done≢refused h)
  deleted e user slug id row s s1 (some s2) r q one more d h = omega (
    arith,
    after_delete user slug id row s s2 r q d one more,
    after_audit e s2 s1 (app.write_audit e s2) refl h,
  )
