-- ===== src/Halosave/Ce.antt =====
-- internal/halosave/ce.go: the game type file of the first title, parsed and rebuilt from a template.
pub mod Fields
pub mod Steps
pub mod Rebuilt
pub mod View
use xemu_cartographer.Base.{ℕ, ◌==◌, Bool, not, Option, none, some, if◌then◌else◌, length}
use xemu_cartographer.Text.{Text, codes}
use xemu_cartographer.Halosave.Bytes.{
  Bytes, Outcome, fails, returns, bad_size, get_u32, get_f32, put_u32, read_utf16z, write_utf16z,
  slice, copy_bytes,
}
use xemu_cartographer.Halosave.Digest.{recompute_digest}

abbrev pub ce_size : ℕ
ce_size = 0x200

abbrev ce_name_buf : ℕ
ce_name_buf = 0x18

abbrev ce_off_digest : ℕ
ce_off_digest = 0x68

-- The map ceEngineNames, with the "?" of CEEngineName for what it lacks.
unfoldable pub ce_engine_name : ℕ → Text
ce_engine_name id =
    if id == 1
    then codes "ctf"
    else if id == 2
    then codes "slayer"
    else if id == 3
    then codes "oddball"
    else if id == 4
    then codes "king"
    else if id == 5
    then codes "race"
    else codes "?"

-- The map ceScoreUnits, with the "points" that CEParse puts where it lacks an engine.
unfoldable pub ce_score_unit : ℕ → Text
ce_score_unit id =
    if id == 1
    then codes "captures"
    else if id == 2
    then codes "kills"
    else if id == 3
    then codes "minutes"
    else if id == 4
    then codes "minutes"
    else if id == 5
    then codes "laps"
    else codes "points"

-- CEGametype
pub record CeGametype : Type 0 where
  pub raw : Bytes
  pub name : Text
  pub engine : ℕ
  pub engine_name : Text
  pub teams : ℕ
  pub options : ℕ
  pub objectives_indicator : ℕ
  pub odd_man_out : ℕ
  pub respawn_growth : ℕ
  pub respawn_time : ℕ
  pub suicide_penalty : ℕ
  pub lives : ℕ
  pub max_health : ℕ
  pub score_limit : ℕ
  pub score_unit : Text
  pub weapon_set : ℕ
  pub nhe_toggles : ℕ
  pub engine_union : ℕ
  pub ctf_single_flag : ℕ
  pub oddball_speed : ℕ
  pub oddball_trait_with : ℕ
  pub oddball_trait_without : ℕ
  pub oddball_ball_type : ℕ
  pub ball_spawn_count : ℕ
  pub race_scoring : ℕ
  pub digest : Bytes

unfoldable pub ce_view : Bytes → CeGametype
ce_view b = record {
  raw = b;
  name = read_utf16z b 0 ce_name_buf;
  engine = get_u32 b 0x18;
  engine_name = ce_engine_name (get_u32 b 0x18);
  teams = get_u32 b 0x1C;
  options = get_u32 b 0x20;
  objectives_indicator = get_u32 b 0x24;
  odd_man_out = get_u32 b 0x28;
  respawn_growth = get_u32 b 0x2C;
  respawn_time = get_u32 b 0x30;
  suicide_penalty = get_u32 b 0x34;
  lives = get_u32 b 0x38;
  max_health = get_f32 b 0x3C;
  score_limit = get_u32 b 0x40;
  score_unit = ce_score_unit (get_u32 b 0x18);
  weapon_set = get_u32 b 0x44;
  nhe_toggles = get_u32 b 0x48;
  engine_union = get_u32 b 0x4C;
  ctf_single_flag = get_u32 b 0x50;
  oddball_speed = get_u32 b 0x50;
  oddball_trait_with = get_u32 b 0x54;
  oddball_trait_without = get_u32 b 0x58;
  oddball_ball_type = get_u32 b 0x5C;
  ball_spawn_count = get_u32 b 0x60;
  race_scoring = get_u32 b 0x50;
  digest = slice b ce_off_digest 20;
}

-- CEParse
unfoldable pub ce_parse : Bytes → Outcome CeGametype
ce_parse b = if not (length b == ce_size) then fails bad_size else returns (ce_view b)

-- CEPatch: a field that is `none` is left as the template has it.
pub record CePatch : Type 0 where
  pub name : Option Text
  pub engine : Option ℕ
  pub teams : Option ℕ
  pub options : Option ℕ
  pub objectives_indicator : Option ℕ
  pub odd_man_out : Option ℕ
  pub respawn_growth : Option ℕ
  pub respawn_time : Option ℕ
  pub suicide_penalty : Option ℕ
  pub lives : Option ℕ
  pub max_health : Option ℕ
  pub score_limit : Option ℕ
  pub weapon_set : Option ℕ
  pub nhe_toggles : Option ℕ
  pub engine_union : Option ℕ
  pub ctf_single_flag : Option ℕ
  pub oddball_speed : Option ℕ
  pub oddball_trait_with : Option ℕ
  pub oddball_trait_without : Option ℕ
  pub oddball_ball_type : Option ℕ
  pub ball_spawn_count : Option ℕ
  pub race_scoring : Option ℕ

-- putU32opt
unfoldable pub put_u32_opt : Bytes → ℕ → Option ℕ → Bytes
put_u32_opt b off none = b
put_u32_opt b off (some v) = put_u32 b off v

-- `if p.MaxHealth != nil` of CEBuild, on the bit pattern
abbrev put_f32_opt : Bytes → ℕ → Option ℕ → Bytes
put_f32_opt b off v = put_u32_opt b off v

-- `if p.Name != nil` of CEBuild
unfoldable pub put_name_opt : Bytes → Option Text → Outcome Bytes
put_name_opt b none = returns b
put_name_opt b (some name) = write_utf16z b 0 ce_name_buf name

-- The calls of putU32opt in CEBuild, in their order.
unfoldable pub ce_fields : CePatch → Bytes → Bytes
ce_fields p b0 =
    let b1 = put_u32_opt b0 0x18 p.engine in
    let b2 = put_u32_opt b1 0x1C p.teams in
    let b3 = put_u32_opt b2 0x20 p.options in
    let b4 = put_u32_opt b3 0x24 p.objectives_indicator in
    let b5 = put_u32_opt b4 0x28 p.odd_man_out in
    let b6 = put_u32_opt b5 0x2C p.respawn_growth in
    let b7 = put_u32_opt b6 0x30 p.respawn_time in
    let b8 = put_u32_opt b7 0x34 p.suicide_penalty in
    let b9 = put_u32_opt b8 0x38 p.lives in
    let b10 = put_f32_opt b9 0x3C p.max_health in
    let b11 = put_u32_opt b10 0x40 p.score_limit in
    let b12 = put_u32_opt b11 0x44 p.weapon_set in
    let b13 = put_u32_opt b12 0x48 p.nhe_toggles in
    let b14 = put_u32_opt b13 0x4C p.engine_union in
    let b15 = put_u32_opt b14 0x50 p.ctf_single_flag in
    let b16 = put_u32_opt b15 0x50 p.oddball_speed in
    let b17 = put_u32_opt b16 0x54 p.oddball_trait_with in
    let b18 = put_u32_opt b17 0x58 p.oddball_trait_without in
    let b19 = put_u32_opt b18 0x5C p.oddball_ball_type in
    let b20 = put_u32_opt b19 0x60 p.ball_spawn_count in put_u32_opt b20 0x50 p.race_scoring

abbrev splice_digest : Bytes → Outcome Bytes → Outcome Bytes
splice_digest b (fails e) = fails e
splice_digest b (returns digest) = returns (copy_bytes b ce_off_digest digest)

-- `if recompute` of CEBuild
unfoldable pub ce_sign : (Bytes → Bytes → Bytes) → Bool → Bytes → Outcome Bytes
ce_sign hmac recompute b =
    if recompute
    then splice_digest b (recompute_digest hmac b ce_off_digest 20 (codes "ce"))
    else returns b

unfoldable pub ce_finish : (Bytes → Bytes → Bytes) → CePatch → Bool → Outcome Bytes → Outcome Bytes
ce_finish hmac p recompute (fails e) = fails e
ce_finish hmac p recompute (returns b) = ce_sign hmac recompute (ce_fields p b)

-- CEBuild
unfoldable pub ce_build : (Bytes → Bytes → Bytes) → Bytes → CePatch → Bool → Outcome Bytes
ce_build hmac template p recompute =
    if not (length template == ce_size)
    then fails bad_size
    else ce_finish hmac p recompute (put_name_opt template p.name)
