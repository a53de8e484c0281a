-- ===== src/Tests/Scope.antt =====
-- The scope language on the examples of internal/authz/scope_test.go.
use xemu_cartographer.Base.{◌++◌, ◌↔◌, List, some, ◌≡◌, refl, true, false, [], ◌∷◌}
use xemu_cartographer.Text.{codes, Text}
use xemu_cartographer.Authz.Scope.{match, canon, ScopePat, parse_want}
use xemu_cartographer.Authz.Action.{Action, action_text}
use xemu_cartographer.Authz.Scope.Covers.{Grants, match_iff}
use xemu_cartographer.Authz.Scope.Literal.{match-literal}
use xemu_cartographer.Authz.Scope.Print.{print_scope, print_selector, print-parse_scope}
use xemu_cartographer.Authz.Scope.Canon.{canon-canon}
use xemu_cartographer.Authz.Principal.Normal.{IsNormal, canon_scopes-IsNormal}
use xemu_cartographer.Tests.Data.{overlay_scope}
use xemu_cartographer.Authz.Principal.{canon_scopes}
use xemu_cartographer.Tests.{evaluated}

canon_folds :
    canon (codes "  Room.Join:Host:  Box  One :tick ") ≡ codes "room.join:host:box one:tick"
unfolding evaluated
canon_folds = refl

canon_scopes_sorts :
    canon_scopes (codes "lan.*" ∷ codes " BOX.* " ∷ codes "" ∷ codes "lan.*" ∷ [])
    ≡ codes "box.*" ∷ codes "lan.*" ∷ []
unfolding evaluated
canon_scopes_sorts = refl

match_segment :
    match (codes "room.join:host:*:game_filtered") (codes "room.join:host:box1:game_filtered")
    ≡ true
unfolding evaluated
match_segment = refl

match_bare_room :
    match (codes "room.join:host:*:game_filtered") (codes "room.join:host:box1") ≡ false
unfolding evaluated
match_bare_room = refl

match_family : match (codes "lan.*") (codes "lan.saves.file:gametype/abc") ≡ true
unfolding evaluated
match_family = refl

match_selectorless : match (codes "library.manage") (codes "library.manage:iso1") ≡ false
unfolding evaluated
match_selectorless = refl

match_iff_example :
    (match (codes "lan.*") (codes "lan.saves.file:gametype/abc") ≡ true)
    ↔ Grants (codes "lan.*") (codes "lan.saves.file:gametype/abc")
match_iff_example = match_iff (codes "lan.*") (codes "lan.saves.file:gametype/abc")

abbrev overlay_pat : ScopePat
overlay_pat = record {
  action = codes "overlay.read_state";
  family = false;
  selector = codes "box1" ∷ [];
  any = false;
}

match-literal_example :
    (a : Action) × (sel : List Text) × (parse_want (codes "overlay.read_state: Box1")
      ≡ some (a, sel))
    × (overlay_scope ≡ action_text a ++ print_selector sel)
unfolding evaluated
match-literal_example =
    match-literal overlay_scope (codes "overlay.read_state: Box1") overlay_pat refl refl refl

print-parse_scope_example : print_scope overlay_pat ≡ overlay_scope
unfolding evaluated
print-parse_scope_example = print-parse_scope overlay_scope overlay_pat refl

folded_twice : canon (canon (codes " A : b  C ")) ≡ canon (codes " A : b  C ")
folded_twice = canon-canon (codes " A : b  C ")

canon_scopes-IsNormal_example :
    IsNormal (codes "LAN.*" ∷ codes "" ∷ []) (canon_scopes (codes "LAN.*" ∷ codes "" ∷ []))
canon_scopes-IsNormal_example = canon_scopes-IsNormal (codes "LAN.*" ∷ codes "" ∷ [])
