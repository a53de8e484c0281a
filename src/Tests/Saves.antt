-- ===== src/Tests/Saves.antt =====
-- Game type files, rebuilt from a template of zeros with a name, an engine and a time in the patch.
use xemu_cartographer.Base.{
  ℕ, zero, suc, ◌≡◌, refl, ◌⊎◌, ◌≤◌, ◌<◌, true, false, none, some, [], ◌∷◌, length, arith,
}
use xemu_cartographer.Text.{codes}
use xemu_cartographer.Halosave.Bytes.{
  Bytes, Outcome, fails, returns, bad_size, name_too_long, byte_at, slice,
}
use xemu_cartographer.Halosave.Digest.{recompute_digest}
use xemu_cartographer.Halosave.Ce.{CePatch, ce_build, ce_parse, ce_view}
use xemu_cartographer.Halosave.Ce.Steps.{NameFits}
use xemu_cartographer.Halosave.Ce.Rebuilt.{ce_build_outcome, ce_build_bounds}
use xemu_cartographer.Halosave.Ce.View.{patched, ce_parse-ce_build}
use xemu_cartographer.Tests.{evaluated}

abbrev zeros : ℕ → Bytes
zeros zero = []
zeros (suc n) = 0 ∷ zeros n

abbrev template : Bytes
template = zeros 0x200

-- In place of HMAC-SHA1: the first byte of the message, in front of the key.
abbrev toy_hmac : Bytes → Bytes → Bytes
toy_hmac key message = byte_at 0 message ∷ key

abbrev no_patch : CePatch
no_patch = record {
  name = none;
  engine = none;
  teams = none;
  options = none;
  objectives_indicator = none;
  odd_man_out = none;
  respawn_growth = none;
  respawn_time = none;
  suicide_penalty = none;
  lives = none;
  max_health = none;
  score_limit = none;
  weapon_set = none;
  nhe_toggles = none;
  engine_union = none;
  ctf_single_flag = none;
  oddball_speed = none;
  oddball_trait_with = none;
  oddball_trait_without = none;
  oddball_ball_type = none;
  ball_spawn_count = none;
  race_scoring = none;
}

abbrev patch : CePatch
patch = record no_patch { name = some (codes "PROOF"); engine = some 1; respawn_time = some 300 }

abbrev rebuilt : Outcome Bytes → Bytes
rebuilt (fails e) = []
rebuilt (returns b) = b

abbrev result : Bytes
result = rebuilt (ce_build toy_hmac template patch true)

ce_build_outcome_example :
    ((length template ≡ 0x200 → ⊥) × (ce_build toy_hmac template patch true ≡ fails bad_size))
    ⊎ ((length template ≡ 0x200)
        × (NameFits patch.name → ⊥)
        × (ce_build toy_hmac template patch true ≡ fails name_too_long))
    ⊎ ((length template ≡ 0x200)
        × NameFits patch.name
        × ((out : Bytes) × (ce_build toy_hmac template patch true ≡ returns out)))
ce_build_outcome_example = ce_build_outcome toy_hmac template patch true

builds : ce_build toy_hmac template patch true ≡ returns result
unfolding evaluated
builds = refl

long_name :
    ce_build toy_hmac template (record no_patch { name = some (codes "twelve chars") }) true
    ≡ fails name_too_long
unfolding evaluated
long_name = refl

ce_build_bounds_example :
    (length result ≡ 0x200)
    × ((i : ℕ) → (0x64 ≤ i) × (i < 0x68) ⊎ (0x7C ≤ i) → byte_at i result ≡ byte_at i template)
    × (true ≡ true
        → recompute_digest toy_hmac result 0x68 20 (codes "ce") ≡ returns (slice result 0x68 20))
    × (true ≡ false → slice result 0x68 20 ≡ slice template 0x68 20)
ce_build_bounds_example = ce_build_bounds toy_hmac template patch true result builds

parses : ce_parse template ≡ returns (ce_view template)
unfolding evaluated
parses = refl

ce_parse-ce_build_example : ce_parse result ≡ returns (patched patch result (ce_view template))
unfolding evaluated
ce_parse-ce_build_example =
    ce_parse-ce_build toy_hmac template patch true result (ce_view template) (ground arith)
      (refl, (refl, (refl, (refl, (refl, tt))))) parses builds
