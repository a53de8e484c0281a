-- ===== src/Halosave/Ce/View.antt =====
-- CEBuild and CEParse: the fields of a rebuilt file.
use xemu_cartographer.Base.{ℕ, ◌≤◌, ◌≡◌, refl, sym, ap, ◌∙◌, inl, Bool, true, all, length, arith}
use xemu_cartographer.Halosave.Bytes.{Bytes, returns, slice, read_utf16z, get_u32}
use xemu_cartographer.Halosave.Bytes.Words.{get_u32-agree}
use xemu_cartographer.Halosave.Bytes.Names.{read_utf16z-agree}
use xemu_cartographer.Halosave.Ce.{
  CePatch, CeGametype, ce_build, ce_parse, ce_view, ce_fields, ce_engine_name, ce_score_unit,
}
use xemu_cartographer.Halosave.Ce.Fields.{
  PatchFits, or_keep, writes, last_write, apart, get_u32-ce_fields, byte_at-ce_fields,
}
use xemu_cartographer.Halosave.Ce.Steps.{NamePlain}
use xemu_cartographer.Halosave.Ce.Rebuilt.{Made, Made-of, ce_build_bounds}

-- Three fields share a word; that of the race is written last.
abbrev scratch : CePatch → CeGametype → ℕ
scratch p g =
    or_keep p.race_scoring (or_keep p.oddball_speed (or_keep p.ctf_single_flag g.ctf_single_flag))

-- The game type `g` with the fields of the patch in place, in a file `out`.
pub patched : CePatch → Bytes → CeGametype → CeGametype
patched p out g = record {
  raw = out;
  name = or_keep p.name g.name;
  engine = or_keep p.engine g.engine;
  engine_name = ce_engine_name (or_keep p.engine g.engine);
  teams = or_keep p.teams g.teams;
  options = or_keep p.options g.options;
  objectives_indicator = or_keep p.objectives_indicator g.objectives_indicator;
  odd_man_out = or_keep p.odd_man_out g.odd_man_out;
  respawn_growth = or_keep p.respawn_growth g.respawn_growth;
  respawn_time = or_keep p.respawn_time g.respawn_time;
  suicide_penalty = or_keep p.suicide_penalty g.suicide_penalty;
  lives = or_keep p.lives g.lives;
  max_health = or_keep p.max_health g.max_health;
  score_limit = or_keep p.score_limit g.score_limit;
  score_unit = ce_score_unit (or_keep p.engine g.engine);
  weapon_set = or_keep p.weapon_set g.weapon_set;
  nhe_toggles = or_keep p.nhe_toggles g.nhe_toggles;
  engine_union = or_keep p.engine_union g.engine_union;
  ctf_single_flag = scratch p g;
  oddball_speed = scratch p g;
  oddball_trait_with = or_keep p.oddball_trait_with g.oddball_trait_with;
  oddball_trait_without = or_keep p.oddball_trait_without g.oddball_trait_without;
  oddball_ball_type = or_keep p.oddball_ball_type g.oddball_ball_type;
  ball_spawn_count = or_keep p.ball_spawn_count g.ball_spawn_count;
  race_scoring = scratch p g;
  digest = slice out 0x68 20;
}

module _ (hmac : Bytes → Bytes → Bytes) (t : Bytes) (p : CePatch) (recompute : Bool)
    (out : Bytes) where
  word :
      Made hmac t p recompute out
      → PatchFits p
      → (o : ℕ) → 0x18 ≤ o
      → o ≤ 0x60
      → all (apart o) (writes p) ≡ true
      → get_u32 out o ≡ last_write o (writes p) (get_u32 t o)
  word m fits o low high a =
      get_u32-agree out (ce_fields p m.named) o
        (λ i l h. m.is_signed.rest i (inl (omega (arith, h, high))))
      ∙ get_u32-ce_fields o p m.named a (omega (arith, high, m.is_named.long, m.size)) fits
      ∙ ap (last_write o (writes p))
          (get_u32-agree m.named t o (λ i l h. m.is_named.rest i (omega (arith, l, low))))

  name_read :
      Made hmac t p recompute out
      → NamePlain p.name
      → read_utf16z out 0 24 ≡ or_keep p.name (read_utf16z t 0 24)
  name_read m plain =
      read_utf16z-agree out m.named 0 12 (λ i l h.
        m.is_signed.rest i (inl (omega (arith, h)))
        ∙ byte_at-ce_fields i p m.named (inl (omega (arith, h))))
      ∙ m.is_named.reads plain

  view-patched :
      Made hmac t p recompute out
      → PatchFits p
      → NamePlain p.name
      → ce_view out ≡ patched p out (ce_view t)
  unfolding ce_view patched
  view-patched m fits plain =
      rw
        (
          name_read m plain,
          word m fits 0x18 (omega arith) (omega arith) refl,
          word m fits 0x1C (omega arith) (omega arith) refl,
          word m fits 0x20 (omega arith) (omega arith) refl,
          word m fits 0x24 (omega arith) (omega arith) refl,
          word m fits 0x28 (omega arith) (omega arith) refl,
          word m fits 0x2C (omega arith) (omega arith) refl,
          word m fits 0x30 (omega arith) (omega arith) refl,
          word m fits 0x34 (omega arith) (omega arith) refl,
          word m fits 0x38 (omega arith) (omega arith) refl,
          word m fits 0x3C (omega arith) (omega arith) refl,
          word m fits 0x40 (omega arith) (omega arith) refl,
          word m fits 0x44 (omega arith) (omega arith) refl,
          word m fits 0x48 (omega arith) (omega arith) refl,
          word m fits 0x4C (omega arith) (omega arith) refl,
          word m fits 0x54 (omega arith) (omega arith) refl,
          word m fits 0x58 (omega arith) (omega arith) refl,
          word m fits 0x5C (omega arith) (omega arith) refl,
          word m fits 0x60 (omega arith) (omega arith) refl,
          word m fits 0x50 (omega arith) (omega arith) refl,
        )
        refl

  parse-view : (b : Bytes) → length b ≡ 0x200 → ce_parse b ≡ returns (ce_view b)
  unfolding ce_parse
  parse-view b h = rw h refl

  -- If CEBuild answers a file for a template that parses, the file parses, and each field of it is the
  -- patch's where the patch has one, else the template's; the word that three fields share is the
  -- last of those given. The words of the patch are of 32 bits, and its name has no NUL and no
  -- surrogate.
  pub ce_parse-ce_build :
      (g : CeGametype)
      → PatchFits p
      → NamePlain p.name
      → ce_parse t ≡ returns g
      → ce_build hmac t p recompute ≡ returns out
      → ce_parse out ≡ returns (patched p out g)
  ce_parse-ce_build g fits plain e f =
      let m = Made-of hmac t p recompute out f in
      parse-view out (ce_build_bounds hmac t p recompute out f).0
      ∙ ap returns (view-patched m fits plain)
      ∙ ap (λ v. returns (patched p out v)) (returned (sym (parse-view t m.size) ∙ e))
    where
      returned : {v w : CeGametype} → returns v ≡ returns w → v ≡ w
      returned q = cc
