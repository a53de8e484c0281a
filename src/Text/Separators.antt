-- ===== src/Text/Separators.antt =====
-- Texts without a separator: how they cut and split.
use xemu_cartographer.Base.{
  ℕ, ◌+◌, ◌≡◌, refl, ap, inl, inr, false, Option, none, some, List, [], ◌∷◌, ◌++◌, arith, ◌==◌,
  Bool-cases, All,
}
use xemu_cartographer.Text.{Text, cut, cut_cons, split, push_rune, count_rune}

-- The separator does not occur.
abbrev pub IsFree : ℕ → Text → Type 0
IsFree sep s = count_rune sep s ≡ 0

pub count_rune-append :
    (sep : ℕ) (s t : Text) → count_rune sep (s ++ t) ≡ count_rune sep s + count_rune sep t
unfolding count_rune
count_rune-append sep [] t = omega arith
count_rune-append sep (c ∷ s) t = ground (arith, count_rune-append sep s t)

IsFree-head : (sep c : ℕ) (s : Text) → IsFree sep (c ∷ s) → ((c == sep) ≡ false) × IsFree sep s
unfolding count_rune
IsFree-head sep c s h = ground arith

pub cut-free : (sep : ℕ) (s : Text) → IsFree sep s → cut sep s ≡ (s, none)
unfolding cut
cut-free sep [] h = refl
cut-free sep (c ∷ s) h =
    let (ne, free) = IsFree-head sep c s h in rw ne (ap (cut_cons c) (cut-free sep s free))

pub cut-append : (sep : ℕ) (s t : Text) → IsFree sep s → cut sep (s ++ sep ∷ t) ≡ (s, some t)
unfolding cut
cut-append sep [] t h = ground arith
cut-append sep (c ∷ s) t h =
    let (ne, free) = IsFree-head sep c s h in rw ne (ap (cut_cons c) (cut-append sep s t free))

cut_cons-IsFree :
    (sep c : ℕ) (p : Text × Option Text)
    → (c == sep) ≡ false
    → IsFree sep p.0
    → IsFree sep (cut_cons c p).0
unfolding count_rune
cut_cons-IsFree sep c (b, a) ne h = ground arith

-- What stands before the first separator has none.
pub cut-IsFree : (sep : ℕ) (s : Text) → IsFree sep (cut sep s).0
unfolding cut
cut-IsFree sep [] = unfold count_rune in refl
cut-IsFree sep (c ∷ s) = elim (Bool-cases (c == sep)) [
  | inl e ↦ rw e (unfold count_rune in refl)
  | inr e ↦ rw e (cut_cons-IsFree sep c (cut sep s) e (cut-IsFree sep s))
]

pub split-free : (sep : ℕ) (s : Text) → IsFree sep s → split sep s ≡ s ∷ []
unfolding split
split-free sep [] h = refl
split-free sep (c ∷ s) h =
    let (ne, free) = IsFree-head sep c s h in rw ne (ap (push_rune c) (split-free sep s free))

pub split-append :
    (sep : ℕ) (s t : Text) → IsFree sep s → split sep (s ++ sep ∷ t) ≡ s ∷ split sep t
unfolding split
split-append sep [] t h = ground arith
split-append sep (c ∷ s) t h =
    let (ne, free) = IsFree-head sep c s h in rw ne (ap (push_rune c) (split-append sep s t free))

push_rune-IsFree :
    (sep c : ℕ) (segs : List Text)
    → (c == sep) ≡ false
    → All (IsFree sep) segs
    → All (IsFree sep) (push_rune c segs)
unfolding count_rune
push_rune-IsFree sep c [] ne h = ground arith
push_rune-IsFree sep c (seg ∷ segs) ne h = (ground arith, h.1)

-- No segment of a split has the separator.
pub split-IsFree : (sep : ℕ) (s : Text) → All (IsFree sep) (split sep s)
unfolding split
split-IsFree sep [] = (unfold count_rune in refl, tt)
split-IsFree sep (c ∷ s) = elim (Bool-cases (c == sep)) [
  | inl e ↦ rw e (unfold count_rune in refl, split-IsFree sep s)
  | inr e ↦ rw e (push_rune-IsFree sep c (split sep s) e (split-IsFree sep s))
]
