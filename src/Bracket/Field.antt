-- ===== src/Bracket/Field.antt =====
-- RoundRobin: the participants with the bye that evens their number.
use xemu_cartographer.Base.{
  ℕ, zero, suc, ◌+◌, ◌%◌, ◌<◌, ◌≡◌, ◌≢◌, refl, sym, ap, ◌∙◌, List, [], ◌∷◌, ◌++◌, length,
  length-append, arith, false, ltb, All, is_empty, ◌⊎◌, inl, inr, true, Bool-cases, ◌==◌,
}
use xemu_cartographer.Text.{Text}
use xemu_cartographer.Text.Laws.{text_eq_iff}
use xemu_cartographer.Bracket.{text_at, even_field}
use xemu_cartographer.Bracket.Once.{IsSole}
use xemu_cartographer.Bracket.Elimination.{tally}

tally-bye : (t : Text) (ps : List Text) → t ≢ [] → tally t (ps ++ [] ∷ []) ≡ tally t ps
tally-bye t [] ne = ground (arith, text_eq_iff [] t)
tally-bye t (p ∷ ps) ne = ground (arith, tally-bye t ps ne)

pub tally-even_field : (t : Text) (ps : List Text) → t ≢ [] → tally t (even_field ps) ≡ tally t ps
unfolding even_field
tally-even_field t ps ne = ground (arith, tally-bye t ps ne)

byes-none : (ps : List Text) → All (λ p. p ≢ []) ps → tally [] ps ≡ 0
byes-none [] h = refl
byes-none (p ∷ ps) h = ground (arith, text_eq_iff p [], byes-none ps h.1)

byes-append : (ps : List Text) → tally [] (ps ++ [] ∷ []) ≡ tally [] ps + 1
byes-append [] = ground (arith, text_eq_iff [] [])
byes-append (p ∷ ps) = ground (arith, byes-append ps)

pub byes-even_field :
    (ps : List Text) → All (λ p. p ≢ []) ps → tally [] (even_field ps) ≡ length ps % 2
unfolding even_field
byes-even_field ps h = ground (arith, byes-none ps h, byes-append ps)

pub length-even_field : (ps : List Text) → length (even_field ps) ≡ length ps + length ps % 2
unfolding even_field
length-even_field ps = ground (arith, length-append ps ([] ∷ []))

text_at-append : (u : ℕ) (ps : List Text) → u < length ps → text_at (ps ++ [] ∷ []) u ≡ text_at ps u
unfolding text_at
text_at-append u [] h = absurd (omega arith)
text_at-append zero (p ∷ ps) h = refl
text_at-append (suc u) (p ∷ ps) h = ground (arith, text_at-append u ps (omega arith))

pub text_at-even_field :
    (u : ℕ) (ps : List Text) → u < length ps → text_at (even_field ps) u ≡ text_at ps u
unfolding even_field
text_at-even_field u ps h = ground (arith, text_at-append u ps h)

pub text_at-named :
    (u : ℕ) (ps : List Text)
    → u < length ps
    → All (λ p. p ≢ []) ps
    → is_empty (text_at ps u) ≡ false
unfolding text_at
text_at-named u [] h a = absurd (omega arith)
text_at-named zero ([] ∷ ps) h a = absurd (a.0 refl)
text_at-named zero ((c ∷ p) ∷ ps) h a = refl
text_at-named (suc u) (p ∷ ps) h a = ground (arith, text_at-named u ps (omega arith) a.1)

text_at-bye : (ps : List Text) → text_at (ps ++ [] ∷ []) (length ps) ≡ []
unfolding text_at
text_at-bye [] = refl
text_at-bye (p ∷ ps) = ground (arith, text_at-bye ps)

-- A place of the field is an entry's, or the bye's.
field_place :
    (ps : List Text) (j : ℕ)
    → j < length (even_field ps)
    → (j < length ps) ⊎ (text_at (even_field ps) j ≡ [])
unfolding even_field
field_place ps j h = elim (Bool-cases (ltb j (length ps))) [
  | inl e ↦ inl (ground (arith, e))
  | inr e ↦ elim (Bool-cases (length ps % 2 == 1)) [
    | inl odd ↦
        let at_end : j ≡ length ps = ground (arith, e, rw odd at h, length-append ps ([] ∷ [])) in
        inr (rw (odd, at_end) (text_at-bye ps))
    | inr even ↦ inl (rw even at h)
  ]
]

pub field-IsSole :
    (ps : List Text) (u : ℕ)
    → All (λ p. p ≢ []) ps
    → u < length ps
    → IsSole ps u
    → IsSole (even_field ps) u
field-IsSole ps u named h sole j k e =
    let seat_u = text_at-even_field u ps h in
    elim (field_place ps j k) [
      | inl l ↦ sole j l (sym (text_at-even_field j ps l) ∙ e ∙ seat_u)
      | inr bye ↦
          absurd (true≢false (ap is_empty (sym bye ∙ e ∙ seat_u) ∙ text_at-named u ps h named))
    ]
  where
    true≢false : true ≢ false
    true≢false q = cc
