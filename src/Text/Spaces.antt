-- ===== src/Text/Spaces.antt =====
-- Words and white space: texts of words joined by blanks, and texts with none at their ends.
use mathlib.Core.List.{append-nil}
use xemu_cartographer.Base.{
  ℕ, ◌≡◌, refl, sym, ap, ◌∙◌, Bool, true, false, not, ◌&&◌, List, [], ◌∷◌, ◌++◌, arith, is_empty,
  all,
}
use xemu_cartographer.Text.{
  Text, is_space, words, words_cons, push_word, fields, join, lower_rune, to_lower,
}

pub lower_rune_idem : (c : ℕ) → lower_rune (lower_rune c) ≡ lower_rune c
unfolding lower_rune
lower_rune_idem c = ground arith

-- No rune of the text changes in lower case.
abbrev pub IsLower : Text → Type 0
IsLower s = to_lower s ≡ s

pub to_lower-IsLower : (s : Text) → IsLower (to_lower s)
unfolding to_lower
to_lower-IsLower [] = refl
to_lower-IsLower (c ∷ s) = rw (lower_rune_idem c) (ap (◌∷◌ (lower_rune c)) (to_lower-IsLower s))

-- A word: not empty, and without white space.
abbrev pub spaceless : Text → Bool
spaceless [] = true
spaceless (c ∷ s) = not (is_space c) && spaceless s

abbrev pub is_word : Text → Bool
is_word s = not (is_empty s) && spaceless s

push_word-words :
    (w : Text) (ws : List Text)
    → spaceless w ≡ true
    → all is_word ws ≡ true
    → all is_word (push_word w ws) ≡ true
push_word-words [] ws h k = k
push_word-words (c ∷ w) ws h k = ground arith

words_cons-spaceless :
    (c : ℕ) (p : Text × List Text)
    → (spaceless p.0 ≡ true) × (all is_word p.1 ≡ true)
    → (spaceless (words_cons c p).0 ≡ true) × (all is_word (words_cons c p).1 ≡ true)
words_cons-spaceless c (w, ws) h = ground (arith, push_word-words w ws h.0 h.1)

-- The first word in hand and the words behind it are free of white space.
words-spaceless : (s : Text) → (spaceless (words s).0 ≡ true) × (all is_word (words s).1 ≡ true)
unfolding words
words-spaceless [] = (refl, refl)
words-spaceless (c ∷ s) = words_cons-spaceless c (words s) (words-spaceless s)

pub fields-words : (s : Text) → all is_word (fields s) ≡ true
unfolding fields
fields-words s = let (w, ws) = words-spaceless s in push_word-words (words s).0 (words s).1 w ws

words_cons-word :
    (c : ℕ) (p : Text × List Text) → is_space c ≡ false → words_cons c p ≡ (c ∷ p.0, p.1)
words_cons-word c (w, ws) h = rw h

-- A word in front of a text is the beginning of its first word.
words-append : (w s : Text) → spaceless w ≡ true → words (w ++ s) ≡ (w ++ (words s).0, (words s).1)
unfolding words
words-append [] s h = refl
words-append (c ∷ w) s h =
    ap (words_cons c) (words-append w s (ground arith))
    ∙ words_cons-word c (w ++ (words s).0, (words s).1) (ground arith)

words-blank : (s : Text) → words (b' ' ∷ s) ≡ ([], fields s)
unfolding words fields is_space
words-blank s = ground arith

fields-word : (w s : Text) → is_word w ≡ true → (words s).0 ≡ [] → fields (w ++ s) ≡ w ∷ (words s).1
fields-word [] s h e = cc
fields-word (c ∷ w) s h e =
    unfold fields in rw (words-append (c ∷ w) s (ground arith), e, append-nil w)

-- Words joined by blanks are read back.
pub fields-join : (ws : List Text) → all is_word ws ≡ true → fields (join b' ' ws) ≡ ws
unfolding join
fields-join [] h = unfold fields words in refl
fields-join (w ∷ []) h =
    ap fields (sym (append-nil w))
    ∙ fields-word w [] (ground arith) (unfold words in refl)
    ∙ ap (◌∷◌ w) (unfold words in refl)
fields-join (w ∷ v ∷ ws) h =
    let blank = words-blank (join b' ' (v ∷ ws)) in
    fields-word w (b' ' ∷ join b' ' (v ∷ ws)) (ground arith) (ap (λ p. p.0) blank)
    ∙ ap (λ (p : Text × List Text). w ∷ p.1) blank
    ∙ ap (◌∷◌ w) (fields-join (v ∷ ws) (ground arith))
