-- ===== src/Text/Runes.antt =====
-- A test on every rune of a text, through words, splitting and joining.
use xemu_cartographer.Base.{
  ℕ, ◌≡◌, refl, Bool, true, not, ◌&&◌, List, [], ◌∷◌, ◌++◌, arith, ◌==◌, inl, inr, Bool-cases, all,
}
use xemu_cartographer.Text.{Text, words, words_cons, push_word, fields, join, split, push_rune}

module _ (P : ℕ → Bool) where
  words_cons-all :
      (c : ℕ) (p : Text × List Text)
      → P c ≡ true
      → (all P p.0 ≡ true) × (all (all P) p.1 ≡ true)
      → (all P (words_cons c p).0 ≡ true) × (all (all P) (words_cons c p).1 ≡ true)
  words_cons-all c ([], ws) h k = ground arith
  words_cons-all c (d ∷ w, ws) h k = ground arith

  words-all :
      (s : Text) → all P s ≡ true → (all P (words s).0 ≡ true) × (all (all P) (words s).1 ≡ true)
  unfolding words
  words-all [] h = (refl, refl)
  words-all (c ∷ s) h = words_cons-all c (words s) (ground arith) (words-all s (ground arith))

  push_word-all :
      (w : Text) (ws : List Text)
      → all P w ≡ true
      → all (all P) ws ≡ true
      → all (all P) (push_word w ws) ≡ true
  push_word-all [] ws h k = k
  push_word-all (c ∷ w) ws h k = ground arith

  pub fields-all : (s : Text) → all P s ≡ true → all (all P) (fields s) ≡ true
  unfolding fields
  fields-all s h = let (w, ws) = words-all s h in push_word-all (words s).0 (words s).1 w ws

  pub append-all : (s t : Text) → all P s ≡ true → all P t ≡ true → all P (s ++ t) ≡ true
  append-all [] t h k = k
  append-all (c ∷ s) t h k = ground (arith, append-all s t)

  pub join-all :
      (sep : ℕ) (segs : List Text)
      → P sep ≡ true
      → all (all P) segs ≡ true
      → all P (join sep segs) ≡ true
  unfolding join
  join-all sep [] n h = refl
  join-all sep (s ∷ []) n h = ground arith
  join-all sep (s ∷ t ∷ ts) n h =
      let rest = join-all sep (t ∷ ts) n (ground arith) in
      append-all s (sep ∷ join sep (t ∷ ts)) (ground arith) (ground arith)

-- Every segment of a split passes the text's test and has no separator.
abbrev pub without : ℕ → (ℕ → Bool) → ℕ → Bool
without sep P c = P c && not (c == sep)

push_rune-all :
    (P : ℕ → Bool) (c : ℕ) (segs : List Text)
    → P c ≡ true
    → all (all P) segs ≡ true
    → all (all P) (push_rune c segs) ≡ true
push_rune-all P c [] h k = ground arith
push_rune-all P c (s ∷ segs) h k = ground arith

pub split-all :
    (P : ℕ → Bool) (sep : ℕ) (s : Text)
    → all P s ≡ true
    → all (all (without sep P)) (split sep s) ≡ true
unfolding split
split-all P sep [] h = refl
split-all P sep (c ∷ s) h = elim (Bool-cases (c == sep)) [
  | inl e ↦ rw e (split-all P sep s (ground arith))
  | inr e ↦ rw e (
      push_rune-all (without sep P) c (split sep s) (ground arith)
        (split-all P sep s (ground arith)))
]
