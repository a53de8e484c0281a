-- ===== src/Text/Laws.antt =====
-- Equality of texts, and what cutting, splitting, joining and trimming a suffix undo.
use xemu_cartographer.Base.{
  ℕ, ◌≡◌, ◌≢◌, refl, sym, ap, ◌∙◌, ◌↔◌, inl, inr, true, false, Option, none, some, List, [], ◌∷◌,
  ◌++◌, arith, ◌==◌, ==_iff, Bool-cases, any, All, or_true,
}
use xemu_cartographer.Text.{
  Text, text_eq, cut, cut_cons, split, push_rune, join, has_suffix, trim_suffix, has_prefix, elem,
}

pub text_eq_iff : (s t : Text) → (text_eq s t ≡ true) ↔ (s ≡ t)
unfolding text_eq
text_eq_iff [] [] = ground arith
text_eq_iff [] (y ∷ t) = ground arith
text_eq_iff (x ∷ s) [] = ground arith
text_eq_iff (x ∷ s) (y ∷ t) = ground (arith, text_eq_iff s t)

pub text_eq_refl : (s : Text) → text_eq s s ≡ true
text_eq_refl s = (text_eq_iff s s).1 refl

pub text_eq→≡ : (s t : Text) → text_eq s t ≡ true → s ≡ t
text_eq→≡ s t = (text_eq_iff s t).0

pub text_eq-false : (s t : Text) → text_eq s t ≡ false → s ≢ t
text_eq-false s t h e = ground (arith, text_eq_iff s t)

-- The text that was cut.
abbrev pub uncut : ℕ → Text × Option Text → Text
uncut sep (before, none) = before
uncut sep (before, some after) = before ++ sep ∷ after

uncut-cut_cons : (sep c : ℕ) (p : Text × Option Text) → uncut sep (cut_cons c p) ≡ c ∷ uncut sep p
uncut-cut_cons sep c (before, none) = refl
uncut-cut_cons sep c (before, some after) = refl

pub uncut-cut : (sep : ℕ) (s : Text) → uncut sep (cut sep s) ≡ s
unfolding cut
uncut-cut sep [] = refl
uncut-cut sep (c ∷ s) = elim (Bool-cases (c == sep)) [
  | inl e ↦ rw e (ap (λ x. x ∷ s) (sym ((==_iff c sep).0 e)))
  | inr e ↦ rw e (uncut-cut_cons sep c (cut sep s) ∙ ap (◌∷◌ c) (uncut-cut sep s))
]

join-push_rune : (sep c : ℕ) (l : List Text) → join sep (push_rune c l) ≡ c ∷ join sep l
unfolding join
join-push_rune sep c [] = refl
join-push_rune sep c (s ∷ []) = refl
join-push_rune sep c (s ∷ t ∷ ts) = refl

pub split_nonempty : (sep : ℕ) (s : Text) → split sep s ≢ []
unfolding split
split_nonempty sep [] e = cc
split_nonempty sep (c ∷ s) e = ground arith

join_nil-cons : (sep : ℕ) (l : List Text) → l ≢ [] → join sep ([] ∷ l) ≡ sep ∷ join sep l
unfolding join
join_nil-cons sep [] h = absurd (h refl)
join_nil-cons sep (s ∷ l) h = refl

pub join-split : (sep : ℕ) (s : Text) → join sep (split sep s) ≡ s
unfolding split
join-split sep [] = unfold join in refl
join-split sep (c ∷ s) = elim (Bool-cases (c == sep)) [
  | inl e ↦ rw e (
      join_nil-cons sep (split sep s) (split_nonempty sep s)
      ∙ (ap (◌∷◌ sep) (join-split sep s) ∙ ap (λ x. x ∷ s) (sym ((==_iff c sep).0 e))))
  | inr e ↦ rw e (join-push_rune sep c (split sep s) ∙ ap (◌∷◌ c) (join-split sep s))
]

pub trim_suffix-append : (t s : Text) → has_suffix t s ≡ true → trim_suffix t s ++ t ≡ s
unfolding has_suffix trim_suffix
trim_suffix-append t [] h = text_eq→≡ t [] h
trim_suffix-append t (c ∷ s) h = elim (Bool-cases (text_eq t (c ∷ s))) [
  | inl e ↦ rw e (text_eq→≡ t (c ∷ s) e)
  | inr e ↦ rw e (ap (◌∷◌ c) (trim_suffix-append t s (rw e at h)))
]

-- A prefix, with the rest kept.
pub has_prefix-append : (p s : Text) → has_prefix p (p ++ s) ≡ true
unfolding has_prefix
has_prefix-append [] s = refl
has_prefix-append (c ∷ p) s = ground (arith, has_prefix-append p s)

-- The texts of a list of which one is `t`.
pub elem-All {ℓ} :
    (P : Text → Type ℓ) (t : Text) (ts : List Text) → All P ts → elem t ts ≡ true → P t
unfolding elem
elem-All P t [] h e = cc
elem-All P t (x ∷ ts) h e = elim (or_true (text_eq t x) (any (text_eq t) ts) e) [
  | inl k ↦ rw (text_eq→≡ t x k) h.0
  | inr k ↦ elem-All P t ts h.1 k
]
