-- ===== src/Authz/Scope/Canon.antt =====
-- Canonical scopes: Canon changes nothing the second time.
use xemu_cartographer.Base.{
  ◌⊎◌, ℕ, ◌≡◌, ◌≢◌, refl, ap, ◌∙◌, Bool, true, List, [], ◌∷◌, map, arith, ◌==◌, all, inl, inr,
}
use xemu_cartographer.Text.{
  Text, lower_rune, to_lower, trim_space, trim_left, trim_right, fields, join, split, is_space,
  count_rune,
}
use xemu_cartographer.Text.Separators.{IsFree, split-free, split-append}
use xemu_cartographer.Text.Laws.{split_nonempty}
use xemu_cartographer.Text.Spaces.{IsLower, lower_rune_idem, fields-words, fields-join}
use xemu_cartographer.Text.Trim.{is_tight, trim_space-tight, join_words-tight, join-tight}
use xemu_cartographer.Text.Runes.{fields-all, join-all, split-all, without}
use xemu_cartographer.Authz.Scope.{canon, canon_segment, colon}

abbrev is_lower_rune : ℕ → Bool
is_lower_rune c = lower_rune c == c

-- A rune of a canonical segment.
abbrev canon_rune : ℕ → Bool
canon_rune = without colon is_lower_rune

lower-all : (s : Text) → all is_lower_rune (to_lower s) ≡ true
unfolding to_lower
lower-all [] = refl
lower-all (c ∷ s) = ground (arith, lower_rune_idem c, lower-all s)

all-IsLower : (s : Text) → all is_lower_rune s ≡ true → IsLower s
unfolding to_lower
all-IsLower [] h = refl
all-IsLower (c ∷ s) h = ground (arith, all-IsLower s)

all-canon_rune : (s : Text) → all canon_rune s ≡ true → all is_lower_rune s ≡ true
all-canon_rune [] h = refl
all-canon_rune (c ∷ s) h = ground (arith, all-canon_rune s)

all-IsFree : (s : Text) → all canon_rune s ≡ true → IsFree colon s
unfolding count_rune
all-IsFree [] h = refl
all-IsFree (c ∷ s) h = ground (arith, all-IsFree s)

segment-all :
    (P : ℕ → Bool) (seg : Text)
    → P b' ' ≡ true
    → all P (to_lower seg) ≡ true
    → all P (canon_segment seg) ≡ true
unfolding canon_segment
segment-all P seg n h = join-all P b' ' (fields (to_lower seg)) n (fields-all P (to_lower seg) h)

blank_lower : is_lower_rune b' ' ≡ true
unfolding lower_rune
blank_lower = refl

canon_segment-IsLower : (seg : Text) → IsLower (canon_segment seg)
canon_segment-IsLower seg =
    all-IsLower (canon_segment seg) (segment-all is_lower_rune seg blank_lower (lower-all seg))

-- Folding a segment twice is folding it once.
pub canon_segment-canon_segment :
    (seg : Text) → canon_segment (canon_segment seg) ≡ canon_segment seg
canon_segment-canon_segment seg =
    (unfold canon_segment in
      ap (λ s. join b' ' (fields s)) (unfold canon_segment in canon_segment-IsLower seg)
      ∙ ap (join b' ') (fields-join (fields (to_lower seg)) (fields-words (to_lower seg))))

canon_segment-tight : (seg : Text) → is_tight (canon_segment seg) ≡ true
unfolding canon_segment
canon_segment-tight seg = join_words-tight (fields (to_lower seg)) (fields-words (to_lower seg))

-- A canonical segment of lower-case text keeps its runes canonical.
canon_segment-rune :
    (seg : Text) → all canon_rune seg ≡ true → all canon_rune (canon_segment seg) ≡ true
canon_segment-rune seg h =
    segment-all canon_rune seg (unfold lower_rune in refl)
      (ap (all canon_rune) (all-IsLower seg (all-canon_rune seg h)) ∙ h)

segments-rune :
    (segs : List Text)
    → all (all canon_rune) segs ≡ true
    → all (all canon_rune) (map canon_segment segs) ≡ true
segments-rune [] h = refl
segments-rune (s ∷ segs) h = ground (arith, canon_segment-rune s, segments-rune segs)

segments-tight : (segs : List Text) → all is_tight (map canon_segment segs) ≡ true
segments-tight [] = refl
segments-tight (s ∷ segs) = ground (arith, canon_segment-tight s, segments-tight segs)

pub segments-twice :
    (segs : List Text) → map canon_segment (map canon_segment segs) ≡ map canon_segment segs
segments-twice [] = refl
segments-twice (s ∷ segs) = rw (canon_segment-canon_segment s, segments-twice segs)

split-join :
    (s : Text) (segs : List Text)
    → all (all canon_rune) (s ∷ segs) ≡ true
    → split colon (join colon (s ∷ segs)) ≡ s ∷ segs
unfolding join
split-join s [] h = split-free colon s (all-IsFree s (ground arith))
split-join s (t ∷ ts) h =
    split-append colon s (join colon (t ∷ ts)) (all-IsFree s (ground arith))
    ∙ ap (◌∷◌ s) (split-join t ts (ground arith))

segments-lower :
    (segs : List Text) → all (all canon_rune) segs ≡ true → all (all is_lower_rune) segs ≡ true
segments-lower [] h = refl
segments-lower (s ∷ segs) h = ground (arith, all-canon_rune s, segments-lower segs)

-- A text in lower case, trimmed, and made of canonical segments is its own canonical form.
canon-fixed :
    (u : Text)
    → trim_space u ≡ u
    → to_lower u ≡ u
    → join colon (map canon_segment (split colon u)) ≡ u
    → canon u ≡ u
unfolding canon
canon-fixed [] t l e = rw (t, l) refl
canon-fixed (c ∷ u) t l e = rw (t, l) e

-- What Canon builds from segments that are canonical already.
rebuild :
    (s : Text) (segs : List Text)
    → all (all canon_rune) (s ∷ segs) ≡ true
    → all is_tight (s ∷ segs) ≡ true
    → map canon_segment (s ∷ segs) ≡ s ∷ segs
    → canon (join colon (s ∷ segs)) ≡ join colon (s ∷ segs)
rebuild s segs h k e =
    let u : Text = join colon (s ∷ segs) in
    let tight = join-tight colon (s ∷ segs) (unfold is_space in refl) k in
    let lower =
      join-all is_lower_rune colon (s ∷ segs) (unfold lower_rune in refl)
        (segments-lower (s ∷ segs) h) in
    canon-fixed u (trim_space-tight u tight) (all-IsLower u lower)
      (ap (λ l. join colon (map canon_segment l)) (split-join s segs h) ∙ ap (join colon) e)

rebuild-map :
    (segs : List Text)
    → segs ≢ []
    → all (all canon_rune) segs ≡ true
    → canon (join colon (map canon_segment segs)) ≡ join colon (map canon_segment segs)
rebuild-map [] n h = absurd (n refl)
rebuild-map (s ∷ segs) n h =
    rebuild (canon_segment s) (map canon_segment segs) (segments-rune (s ∷ segs) h)
      (segments-tight (s ∷ segs)) (segments-twice (s ∷ segs))

canon_nil : canon [] ≡ []
unfolding canon trim_space trim_left trim_right to_lower
canon_nil = refl

canon-cases :
    (s : Text)
    → (canon s ≡ [])
      ⊎ (canon s ≡ join colon (map canon_segment (split colon (to_lower (trim_space s)))))
unfolding canon
canon-cases s = ground arith

-- The canonical form of a scope is its own canonical form.
pub canon-canon : (s : Text) → canon (canon s) ≡ canon s
canon-canon s = elim (canon-cases s) [
  | inl e ↦ rw e canon_nil
  | inr e ↦
      let t : Text = to_lower (trim_space s) in
      rw e (
        rebuild-map (split colon t) (split_nonempty colon t)
          (split-all is_lower_rune colon t (lower-all (trim_space s))))
]
