-- ===== src/Halosave/Ce/Fields.antt =====
-- The words that CEBuild writes: which is read where, and what is left as it was.
use xemu_cartographer.Base.{
  ℕ, ◌+◌, ◌^◌, ◌≤◌, ◌<◌, ◌≡◌, refl, ap, ◌∙◌, inl, inr, Bool, true, ◌||◌, ◌==◌, ltb, leb,
  if◌then◌else◌, Option, none, some, List, [], ◌∷◌, length, arith, All, all, Bool-cases, ==_iff,
}
use xemu_cartographer.Halosave.Bytes.{Bytes, byte_at, get_u32}
use xemu_cartographer.Halosave.Bytes.Copies.{Outside}
use xemu_cartographer.Halosave.Bytes.Words.{
  length-put_u32, byte_at-put-Outside, get_u32-agree, get_u32-put_u32,
}
use xemu_cartographer.Halosave.Ce.{CePatch, put_u32_opt, ce_fields}

-- A place and the word to write there, if any.
abbrev pub Write : Type 0
Write = ℕ × Option ℕ

-- The words of a patch, in the order in which they are written.
abbrev pub writes : CePatch → List Write
writes p =
    (0x18, p.engine)
    ∷ (0x1C, p.teams)
    ∷ (0x20, p.options)
    ∷ (0x24, p.objectives_indicator)
    ∷ (0x28, p.odd_man_out)
    ∷ (0x2C, p.respawn_growth)
    ∷ (0x30, p.respawn_time)
    ∷ (0x34, p.suicide_penalty)
    ∷ (0x38, p.lives)
    ∷ (0x3C, p.max_health)
    ∷ (0x40, p.score_limit)
    ∷ (0x44, p.weapon_set)
    ∷ (0x48, p.nhe_toggles)
    ∷ (0x4C, p.engine_union)
    ∷ (0x50, p.ctf_single_flag)
    ∷ (0x50, p.oddball_speed)
    ∷ (0x54, p.oddball_trait_with)
    ∷ (0x58, p.oddball_trait_without)
    ∷ (0x5C, p.oddball_ball_type)
    ∷ (0x60, p.ball_spawn_count)
    ∷ (0x50, p.race_scoring)
    ∷ []

put_all : List Write → Bytes → Bytes
put_all [] b = b
put_all (w ∷ ws) b = put_all ws (put_u32_opt b w.0 w.1)

ce_fields-put_all : (p : CePatch) (b : Bytes) → ce_fields p b ≡ put_all (writes p) b
unfolding ce_fields put_all
ce_fields-put_all p b = refl

-- What a field is after a write that may be missing.
abbrev pub or_keep {ℓ} : {A : Type ℓ} → Option A → A → A
or_keep none old = old
or_keep (some new) old = new

-- The word at place `o` after all writes.
abbrev pub last_write : ℕ → List Write → ℕ → ℕ
last_write o [] v = v
last_write o (w ∷ ws) v = last_write o ws (if w.0 == o then or_keep w.1 v else v)

abbrev FitsWord : Write → Type 0
FitsWord w = elim w.1 [ none ↦ Unit | some v ↦ v < 2 ^ 32 ]

-- Every word of the patch is one of 32 bits.
abbrev pub PatchFits : CePatch → Type 0
PatchFits p = All FitsWord (writes p)

abbrev pub apart : ℕ → Write → Bool
apart o w = leb (o + 4) w.0 || leb (w.0 + 4) o || w.0 == o

length-put_u32_opt : (b : Bytes) (off : ℕ) (v : Option ℕ) → length (put_u32_opt b off v) ≡ length b
unfolding put_u32_opt
length-put_u32_opt b off none = refl
length-put_u32_opt b off (some v) = length-put_u32 b off v

byte_at-put_opt :
    (i : ℕ) (b : Bytes) (off : ℕ) (v : Option ℕ)
    → (ltb i off || leb (off + 4) i) ≡ true
    → byte_at i (put_u32_opt b off v) ≡ byte_at i b
unfolding put_u32_opt
byte_at-put_opt i b off none h = refl
byte_at-put_opt i b off (some v) h = byte_at-put-Outside i b off v (elim (Bool-cases (ltb i off)) [
  | inl l ↦ inl (ground (arith, l))
  | inr l ↦ inr (ground (arith, l, h))
])

get_u32-put_same :
    (b : Bytes) (off : ℕ) (v : Option ℕ)
    → off + 4 ≤ length b
    → FitsWord (off, v)
    → get_u32 (put_u32_opt b off v) off ≡ or_keep v (get_u32 b off)
unfolding put_u32_opt
get_u32-put_same b off none h f = refl
get_u32-put_same b off (some v) h f = get_u32-put_u32 b off v h f

get_u32-put_other :
    (o : ℕ) (b : Bytes) (off : ℕ) (v : Option ℕ)
    → (leb (o + 4) off || leb (off + 4) o) ≡ true
    → get_u32 (put_u32_opt b off v) o ≡ get_u32 b o
get_u32-put_other o b off v h =
    get_u32-agree (put_u32_opt b off v) b o
      (λ i l r. byte_at-put_opt i b off v (ground (arith, h, l, r)))

==_refl : (o : ℕ) → (o == o) ≡ true
==_refl o = ground arith

get_u32-put_opt :
    (o : ℕ) (b : Bytes) (off : ℕ) (v : Option ℕ)
    → apart o (off, v) ≡ true
    → o + 4 ≤ length b
    → FitsWord (off, v)
    → get_u32 (put_u32_opt b off v) o ≡ (if off == o then or_keep v (get_u32 b o) else get_u32 b o)
get_u32-put_opt o b off v a h f = elim (Bool-cases (off == o)) [
  | inl e ↦ rw (((==_iff off o).0 e)) (rw (==_refl o) (get_u32-put_same b o v h f))
  | inr e ↦ rw e (get_u32-put_other o b off v (ground (arith, a, e)))
]

get_u32-put_all :
    (o : ℕ) (ws : List Write) (b : Bytes)
    → all (apart o) ws ≡ true
    → o + 4 ≤ length b
    → All FitsWord ws
    → get_u32 (put_all ws b) o ≡ last_write o ws (get_u32 b o)
unfolding put_all
get_u32-put_all o [] b a h f = refl
get_u32-put_all o (w ∷ ws) b a h f =
    get_u32-put_all o ws (put_u32_opt b w.0 w.1) (ground (arith, a))
      (omega (arith, h, length-put_u32_opt b w.0 w.1)) f.1
    ∙ ap (last_write o ws) (get_u32-put_opt o b w.0 w.1 (ground (arith, a)) h f.0)

byte_at-put_all :
    (i : ℕ) (ws : List Write) (b : Bytes)
    → all (λ w. ltb i w.0 || leb (w.0 + 4) i) ws ≡ true
    → byte_at i (put_all ws b) ≡ byte_at i b
unfolding put_all
byte_at-put_all i [] b h = refl
byte_at-put_all i (w ∷ ws) b h =
    byte_at-put_all i ws (put_u32_opt b w.0 w.1) (ground (arith, h))
    ∙ byte_at-put_opt i b w.0 w.1 (ground (arith, h))

length-put_all : (ws : List Write) (b : Bytes) → length (put_all ws b) ≡ length b
unfolding put_all
length-put_all [] b = refl
length-put_all (w ∷ ws) b = length-put_all ws (put_u32_opt b w.0 w.1) ∙ length-put_u32_opt b w.0 w.1

pub length-ce_fields : (p : CePatch) (b : Bytes) → length (ce_fields p b) ≡ length b
length-ce_fields p b = rw (ce_fields-put_all p b) (length-put_all (writes p) b)

-- A field has the value of the last word written to it, else that of the template.
pub get_u32-ce_fields :
    (o : ℕ) (p : CePatch) (b : Bytes)
    → all (apart o) (writes p) ≡ true
    → o + 4 ≤ length b
    → PatchFits p
    → get_u32 (ce_fields p b) o ≡ last_write o (writes p) (get_u32 b o)
get_u32-ce_fields o p b a h f = rw (ce_fields-put_all p b) (get_u32-put_all o (writes p) b a h f)

-- No byte outside the words is written.
pub byte_at-ce_fields :
    (i : ℕ) (p : CePatch) (b : Bytes)
    → Outside i 0x18 0x4C
    → byte_at i (ce_fields p b) ≡ byte_at i b
byte_at-ce_fields i p b h = rw (ce_fields-put_all p b) (
    byte_at-put_all i (writes p) b
      (elim h [ inl l ↦ ground (arith, l) | inr r ↦ ground (arith, r) ]))
