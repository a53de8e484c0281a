-- ===== src/Text/Trim.antt =====
-- Texts with no white space at their ends: trimming leaves them, and joining keeps them so.
use xemu_cartographer.Base.{
  ℕ, ◌≡◌, ◌≢◌, refl, Bool, true, false, not, ◌&&◌, List, [], ◌∷◌, ◌++◌, arith, all, and_true,
  is_empty, inl, inr, Bool-cases,
}
use xemu_cartographer.Text.{Text, is_space, trim_left, trim_right, trim_space, join}
use xemu_cartographer.Text.Spaces.{is_word, spaceless}

abbrev pub starts_clean : Text → Bool
starts_clean [] = true
starts_clean (c ∷ s) = not (is_space c)

abbrev pub ends_clean : Text → Bool
ends_clean [] = true
ends_clean (c ∷ []) = not (is_space c)
ends_clean (c ∷ d ∷ s) = ends_clean (d ∷ s)

abbrev pub is_tight : Text → Bool
is_tight s = starts_clean s && ends_clean s

trim_left-clean : (s : Text) → starts_clean s ≡ true → trim_left s ≡ s
unfolding trim_left
trim_left-clean [] h = refl
trim_left-clean (c ∷ s) h = ground arith

trim_right-clean : (s : Text) → ends_clean s ≡ true → trim_right s ≡ s
unfolding trim_right
trim_right-clean [] h = refl
trim_right-clean (c ∷ []) h = ground arith
trim_right-clean (c ∷ d ∷ s) h = rw (trim_right-clean (d ∷ s) h) (ground arith)

pub trim_space-tight : (s : Text) → is_tight s ≡ true → trim_space s ≡ s
unfolding trim_space
trim_space-tight s h =
    let (a, b) = and_true (starts_clean s) (ends_clean s) h in
    rw (trim_left-clean s a) (trim_right-clean s b)

ends_clean-append :
    (s t : Text) (c : ℕ) → ends_clean (c ∷ t) ≡ true → ends_clean (s ++ c ∷ t) ≡ true
ends_clean-append [] t c h = h
ends_clean-append (x ∷ []) t c h = h
ends_clean-append (x ∷ y ∷ s) t c h = ends_clean-append (y ∷ s) t c h

starts_clean-append : (s t : Text) → s ≢ [] → starts_clean s ≡ true → starts_clean (s ++ t) ≡ true
starts_clean-append [] t n h = absurd (n refl)
starts_clean-append (c ∷ s) t n h = h

spaceless-ends : (s : Text) → spaceless s ≡ true → ends_clean s ≡ true
spaceless-ends [] h = refl
spaceless-ends (c ∷ []) h = ground arith
spaceless-ends (c ∷ d ∷ s) h = spaceless-ends (d ∷ s) (ground arith)

pub word-tight : (w : Text) → is_word w ≡ true → is_tight w ≡ true
word-tight [] h = cc
word-tight (c ∷ w) h = ground (arith, spaceless-ends (c ∷ w))

join_words-nonempty : (w : Text) (ws : List Text) → is_word w ≡ true → join b' ' (w ∷ ws) ≢ []
unfolding join
join_words-nonempty [] ws h e = cc
join_words-nonempty (c ∷ w) [] h e = cc
join_words-nonempty (c ∷ w) (v ∷ ws) h e = cc

ends_clean-cons : (c : ℕ) (t : Text) → t ≢ [] → ends_clean t ≡ true → ends_clean (c ∷ t) ≡ true
ends_clean-cons c [] n h = absurd (n refl)
ends_clean-cons c (d ∷ t) n h = h

-- Words joined by blanks.
pub join_words-tight : (ws : List Text) → all is_word ws ≡ true → is_tight (join b' ' ws) ≡ true
unfolding join
join_words-tight [] h = refl
join_words-tight (w ∷ []) h = word-tight w (ground arith)
join_words-tight ([] ∷ v ∷ ws) h = cc
join_words-tight ((c ∷ w) ∷ v ∷ ws) h =
    let rest = join_words-tight (v ∷ ws) (ground arith) in
    let n = join_words-nonempty v ws (ground arith) in
    ground (
      arith,
      ends_clean-append (c ∷ w) (join b' ' (v ∷ ws)) b' '
          (ends_clean-cons b' ' (join b' ' (v ∷ ws)) n (ground arith)),
    )

ends_clean-sep :
    (sep : ℕ) (t : Text) → is_space sep ≡ false → ends_clean t ≡ true → ends_clean (sep ∷ t) ≡ true
ends_clean-sep sep [] n h = ground arith
ends_clean-sep sep (d ∷ t) n h = h

-- Tight texts joined by a separator that is no white space.
pub join-tight :
    (sep : ℕ) (segs : List Text)
    → is_space sep ≡ false
    → all is_tight segs ≡ true
    → is_tight (join sep segs) ≡ true
unfolding join
join-tight sep [] n h = refl
join-tight sep (s ∷ []) n h = ground arith
join-tight sep ([] ∷ t ∷ ts) n h =
    ground (arith, join-tight sep (t ∷ ts) n, ends_clean-sep sep (join sep (t ∷ ts)) n)
join-tight sep ((c ∷ s) ∷ t ∷ ts) n h =
    let rest = join-tight sep (t ∷ ts) n (ground arith) in
    ground (
      arith,
      ends_clean-append (c ∷ s) (join sep (t ∷ ts)) sep
          (ends_clean-sep sep (join sep (t ∷ ts)) n (ground arith)),
    )

trim_left-starts : (s : Text) → starts_clean (trim_left s) ≡ true
unfolding trim_left
trim_left-starts [] = refl
trim_left-starts (c ∷ s) = ground (arith, trim_left-starts s)

trim_right-starts : (s : Text) → starts_clean s ≡ true → starts_clean (trim_right s) ≡ true
unfolding trim_right
trim_right-starts [] h = refl
trim_right-starts (c ∷ s) h = ground (arith, h)

ends_clean-kept :
    (c : ℕ) (t : Text)
    → (is_space c && is_empty t) ≡ false
    → ends_clean t ≡ true
    → ends_clean (c ∷ t) ≡ true
ends_clean-kept c [] h e = ground (arith, h)
ends_clean-kept c (d ∷ t) h e = e

trim_right-ends : (s : Text) → ends_clean (trim_right s) ≡ true
unfolding trim_right
trim_right-ends [] = refl
trim_right-ends (c ∷ s) = elim (Bool-cases (is_space c && is_empty (trim_right s))) [
  | inl e ↦ rw e refl
  | inr e ↦ rw e (ends_clean-kept c (trim_right s) e (trim_right-ends s))
]

trim_space-is_tight : (s : Text) → is_tight (trim_space s) ≡ true
unfolding trim_space
trim_space-is_tight s =
    ground
      (arith, trim_right-starts (trim_left s) (trim_left-starts s), trim_right-ends (trim_left s))

-- What is trimmed is trimmed already.
pub trim_space-trim_space : (s : Text) → trim_space (trim_space s) ≡ trim_space s
trim_space-trim_space s = trim_space-tight (trim_space s) (trim_space-is_tight s)
