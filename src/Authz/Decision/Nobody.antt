-- ===== src/Authz/Decision/Nobody.antt =====
-- The principal with no credential, and the action that no kind was meant to have.
use xemu_cartographer.Base.{
  ◌≡◌, refl, ◌⊎◌, inl, inr, ◌↔◌, Bool, true, false, Option, some, [], arith,
}
use xemu_cartographer.Text.{Text, codes}
use xemu_cartographer.Authz.Action.{Action, action_text, room_join, discord_post}
use xemu_cartographer.Authz.Action.Names.{action_of-action_text}
use xemu_cartographer.Authz.Deps.{Deps}
use xemu_cartographer.Authz.Principal.{
  Kind, pb_user, machine, spectator, device, anonymous, Principal, nobody,
}
use xemu_cartographer.Authz.Resource.{Resource, res_room}
use xemu_cartographer.Authz.Predicates.{pred_always}
use xemu_cartographer.Authz.Cells.{room_join_rules}
use xemu_cartographer.Authz.Rules.{rules, accepts, room_canonical, kinds_for}
use xemu_cartographer.Authz.Decision.{by_kind, by_cell, by_mode, verdict, can, denied_by}
use xemu_cartographer.Authz.Decision.Inversion.{Admitted-can}
use xemu_cartographer.Authz.Decision.Confined.{IsOpenRequest, IsPublicRoom, Confined, can-Confined}

accepts-canonical :
    (a : Action) (r : Resource)
    → (a ≡ room_join) ⊎ (a ≡ discord_post)
    → r.kind ≡ res_room
    → room_canonical r.room ≡ true
    → (accepts (rules a) r ≡ true) × ((rules a).denials ≡ [])
unfolding rules accepts
accepts-canonical room_join r a k c = ground arith
accepts-canonical discord_post r a k c = ground arith
accepts-canonical _ r a k c = ground arith

abbrev pub is_open_kind : Kind → Bool
is_open_kind pb_user = true
is_open_kind machine = true
is_open_kind spectator = true
is_open_kind device = true
is_open_kind anonymous = true
is_open_kind _ = false

public-passes :
    (k : Kind) (a : Action) (ds : Deps) (p : Principal) (r : Resource)
    → is_open_kind k ≡ true
    → IsPublicRoom r
    → (by_kind k (rules a) a ds p r).allow ≡ true
unfolding by_kind kinds_for room_join_rules by_cell by_mode verdict pred_always
public-passes k a ds p r o h = ground arith

-- Either action is open to each of the five kinds at a public room.
public_open :
    (a : Action) (ds : Deps) (p : Principal) (r : Resource)
    → (a ≡ room_join) ⊎ (a ≡ discord_post)
    → is_open_kind p.kind ≡ true
    → IsPublicRoom r
    → room_canonical r.room ≡ true
    → can (some ds) p (action_text a) r ≡ true
public_open a ds p r either o h c =
    let (acc, free) = accepts-canonical a r either h.0 c in
    Admitted-can (some ds) p (action_text a) r (record {
      act = a;
      ds = ds;
      names = action_of-action_text a;
      answers = refl;
      accepted = acc;
      not_denied = rw free (unfold denied_by in refl);
      passes = public-passes p.kind a ds p r o h;
    })

-- discord.post is open to users, to every key and to visitors with no credential, at any public
-- room of canonical form, whatever scopes they hold.
pub discord_post_open :
    (ds : Deps) (p : Principal) (r : Resource)
    → is_open_kind p.kind ≡ true
    → IsPublicRoom r
    → room_canonical r.room ≡ true
    → can (some ds) p (codes "discord.post") r ≡ true
unfolding action_text
discord_post_open ds p r o h c = public_open discord_post ds p r (inr refl) o h c

nobody_scopeless : (t : Text) (r : Resource) → ¬ Confined nobody t r
unfolding nobody
nobody_scopeless t r c = elim c.held [ ]

nobody-IsOpenRequest :
    (deps : Option Deps) (t : Text) (r : Resource) → can deps nobody t r ≡ true → IsOpenRequest t r
nobody-IsOpenRequest deps t r h = elim (can-Confined deps nobody t r (unfold nobody in refl) h) [
  | inl o ↦ o
  | inr c ↦ absurd (nobody_scopeless t r c)
]

IsOpenRequest-nobody :
    (ds : Deps) (t : Text) (r : Resource) → IsOpenRequest t r → can (some ds) nobody t r ≡ true
unfolding action_text
IsOpenRequest-nobody ds t r (inl e, public, c) =
    rw e (public_open room_join ds nobody r (inl refl) (unfold nobody in refl) public c)
IsOpenRequest-nobody ds t r (inr e, public, c) =
    rw e (public_open discord_post ds nobody r (inr refl) (unfold nobody in refl) public c)

-- With no credential one may join a public room of canonical form, or discord.post at one, and
-- nothing else, on every action and resource.
pub nobody_iff :
    (ds : Deps) (t : Text) (r : Resource) → (can (some ds) nobody t r ≡ true) ↔ IsOpenRequest t r
nobody_iff ds t r = (nobody-IsOpenRequest (some ds) t r, IsOpenRequest-nobody ds t r)
