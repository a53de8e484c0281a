-- ===== src/Tests/Decisions.antt =====
-- The theorems on decisions at inputs from internal/authz/can_test.go.
use xemu_cartographer.Base.{
  ◌≡◌, refl, inl, true, false, some, [], ◌∷◌, In, here, there, List, ◌↔◌, ◌⊎◌,
}
use xemu_cartographer.Text.{codes, Text}
use xemu_cartographer.Authz.Action.{role_grant}
use xemu_cartographer.Authz.Principal.{nobody, empty_principal, superuser}
use xemu_cartographer.Authz.Resource.{global, instance_res, room_res, role}
use xemu_cartographer.Authz.Decision.{can, can_with}
use xemu_cartographer.Authz.Decision.Confined.{IsOpenRequest, Confined, can-Confined}
use xemu_cartographer.Authz.Decision.Nobody.{nobody_iff, discord_post_open}
use xemu_cartographer.Authz.Decision.Admins.{
  AdminRemains, role_revoke-AdminRemains, OutRanks, role_change-OutRanks,
}
use xemu_cartographer.Authz.Decision.Monotone.{can_mono, with_scopes}
use xemu_cartographer.Authz.Decision.Report.{ByScope, can_with-ByScope}
use xemu_cartographer.Tests.{evaluated}
use xemu_cartographer.Tests.Data.{two_admins, organizer, viewer, public_name}

can-Confined_example :
    let r = instance_res (codes "box1") in
    IsOpenRequest (codes "overlay.read_state") r ⊎ Confined viewer (codes "overlay.read_state") r
unfolding evaluated
can-Confined_example =
    can-Confined (some two_admins) viewer (codes "overlay.read_state") (instance_res (codes "box1"))
      refl refl

viewer_elsewhere :
    can (some two_admins) viewer (codes "overlay.read_state") (instance_res (codes "box2")) ≡ false
unfolding evaluated
viewer_elsewhere = refl

nobody_iff_example :
    (can (some two_admins) nobody (codes "room.join") (room_res public_name) ≡ true)
    ↔ IsOpenRequest (codes "room.join") (room_res public_name)
nobody_iff_example = nobody_iff two_admins (codes "room.join") (room_res public_name)

nobody_joins_public : can (some two_admins) nobody (codes "room.join") (room_res public_name) ≡ true
unfolding evaluated
nobody_joins_public = refl

discord_post_open_example :
    can (some two_admins) viewer (codes "discord.post") (room_res public_name) ≡ true
unfolding evaluated
discord_post_open_example =
    discord_post_open two_admins viewer (room_res public_name) refl (refl, refl) refl

superuser_leaves_one : AdminRemains two_admins (codes "u2")
unfolding evaluated
superuser_leaves_one =
    role_revoke-AdminRemains two_admins (empty_principal superuser)
      (role (codes "admin") (codes "u2")) (λ e. cc) refl refl

role_change-OutRanks_example :
    OutRanks two_admins organizer role_grant (role (codes "organizer") (codes "u2"))
unfolding evaluated
role_change-OutRanks_example =
    role_change-OutRanks role_grant two_admins organizer (role (codes "organizer") (codes "u2"))
      (inl refl) refl refl

abbrev three_scopes : List Text
three_scopes = codes "box.*" ∷ codes "role.*" ∷ codes "lan.*" ∷ []

widened : (s : Text) → In s organizer.scopes → In s three_scopes
widened s (here e) = there (there (here e))
widened s (there (here e)) = there (here e)
widened s (there (there h)) = elim h [ ]

can_mono_example :
    can (some two_admins) (with_scopes organizer three_scopes) (codes "lan.saves.meta") global
    ≡ true
unfolding evaluated
can_mono_example =
    can_mono (some two_admins) organizer three_scopes (codes "lan.saves.meta") global widened refl

can_with-ByScope_example :
    ByScope
      (can_with (some two_admins) organizer (codes "lan.saves.meta") global)
      organizer
      (codes "lan.saves.meta")
      global
unfolding evaluated
can_with-ByScope_example =
    can_with-ByScope (some two_admins) organizer (codes "lan.saves.meta") global (λ e. cc)
