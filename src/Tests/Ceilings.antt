-- ===== src/Tests/Ceilings.antt =====
-- The delegation ceiling at inputs as in internal/authz/pb/tokens_test.go.
use xemu_cartographer.Base.{◌≡◌, refl, ◌⊎◌, true, some, [], ◌∷◌, In, here}
use xemu_cartographer.Text.{Text, codes}
use xemu_cartographer.Authz.Scope.{match}
use xemu_cartographer.Authz.Mint.{overlay_mint_covers}
use xemu_cartographer.Pb.Ceiling.{mints_overlays, check_mint_ceiling}
use xemu_cartographer.Pb.Ceiling.Sound.{check_mint_ceiling_sound}
use xemu_cartographer.Tests.{evaluated}
use xemu_cartographer.Tests.Data.{organizer}

abbrev saves : Text
saves = codes "lan.saves.*"

check_mint_ceiling_sound_example :
    ((h : Text) × In h organizer.scopes × (match h (codes "lan.saves.meta") ≡ true))
    ⊎ ((overlay_mint_covers saves ≡ true) × (mints_overlays organizer (codes "machine") ≡ true))
unfolding evaluated
check_mint_ceiling_sound_example =
    check_mint_ceiling_sound organizer (codes "machine") (saves ∷ []) saves (codes "lan.saves.meta")
      refl refl (here refl) refl

too_wide :
    check_mint_ceiling organizer (codes "machine") (codes "box.*" ∷ []) ≡ some (codes "box.*")
unfolding evaluated
too_wide = refl
