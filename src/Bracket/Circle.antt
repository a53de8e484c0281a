-- ===== src/Bracket/Circle.antt =====
-- RoundRobin: one round of the circle method, and the rotation between two.
use xemu_cartographer.Base.{
  ℕ, zero, suc, ◌+◌, ◌-◌, ◌*◌, ◌≤◌, ◌≡◌, refl, ap, List, [], ◌∷◌, length, arith, false, not, ◌&&◌,
  inl, inr, Bool-cases, if◌then◌else◌, All, is_empty,
}
use xemu_cartographer.Text.{Text, text_eq}
use xemu_cartographer.Text.Laws.{text_eq_iff}
use xemu_cartographer.Bracket.{is_bye, text_at, circle_pairs, last_of, but_last, rotate}
use xemu_cartographer.Bracket.Elimination.{tally, sides}

abbrev hits : Text → List Text → ℕ → ℕ
hits t ps i = if text_eq (text_at ps i) t then 1 else 0

-- How often the name stands among `k` places from the place `i` on.
pub within : Text → List Text → (i k : ℕ) → ℕ
within t ps i zero = 0
within t ps i (suc k) = hits t ps i + within t ps (i + 1) k

within-last :
    (t : Text) (ps : List Text) (i k : ℕ)
    → within t ps i (suc k) ≡ within t ps i k + hits t ps (i + k)
unfolding within
within-last t ps i zero = let same : i + 0 ≡ i = omega arith in omega (arith, ap (hits t ps) same)
within-last t ps i (suc k) =
    let same : i + 1 + k ≡ i + suc k = omega arith in
    omega (arith, within-last t ps (i + 1) k, ap (hits t ps) same)

within-cons :
    (t p : Text) (ps : List Text) (i k : ℕ) → within t (p ∷ ps) (i + 1) k ≡ within t ps i k
unfolding within text_at
within-cons t p ps i zero = refl
within-cons t p ps i (suc k) = ground (arith, within-cons t p ps (i + 1) k)

pub within-tally : (t : Text) (ps : List Text) → within t ps 0 (length ps) ≡ tally t ps
unfolding within text_at
within-tally t [] = refl
within-tally t (p ∷ ps) = ground (arith, within-tally t ps, within-cons t p ps 0 (length ps))

-- The pairs from the place `i` on use the `k` places between it and its opposite.
pub pairs-within :
    (t : Text) (left i k n : ℕ) (ps : List Text)
    → i + k + i ≡ n
    → left * 2 ≤ k
    → tally t (sides (circle_pairs left i n ps)) ≤ within t ps i k
unfolding circle_pairs within
pairs-within t zero i k n ps e le = omega arith
pairs-within t (suc left) i zero n ps e le = absurd (omega arith)
pairs-within t (suc left) i (suc zero) n ps e le = absurd (omega arith)
pairs-within t (suc left) i (suc (suc k)) n ps e le =
    let opposite : i + 1 + k ≡ n - 1 - i = omega arith in
    ground (
      arith,
      ap (hits t ps) opposite,
      within-last t ps (i + 1) k,
      pairs-within t left (i + 1) k n ps (omega arith) (omega arith),
    )

-- Where at most one place is a bye, only the pair with that place is left out.
pub length-circle_pairs :
    (left i k n : ℕ) (ps : List Text)
    → i + k + i ≡ n
    → left * 2 ≡ k
    → within [] ps i k ≤ 1
    → length (circle_pairs left i n ps) + within [] ps i k ≡ left
unfolding circle_pairs within
length-circle_pairs zero i zero n ps e le one = refl
length-circle_pairs zero i (suc k) n ps e le one = absurd (omega arith)
length-circle_pairs (suc left) i zero n ps e le one = absurd (omega arith)
length-circle_pairs (suc left) i (suc zero) n ps e le one = absurd (omega arith)
length-circle_pairs (suc left) i (suc (suc k)) n ps e le one =
    let opposite : i + 1 + k ≡ n - 1 - i = omega arith in
    let split = within-last [] ps (i + 1) k in
    let at_end = ap (hits [] ps) opposite in
    ground (
      arith,
      at_end,
      split,
      text_eq_iff (text_at ps i) [],
      text_eq_iff (text_at ps (n - 1 - i)) [],
      length-circle_pairs left (i + 1) k n ps (omega arith) (omega arith) (omega (arith, split)),
    )

pub circle_pairs-real :
    (left i n : ℕ) (ps : List Text) → All (λ m. is_bye m ≡ false) (circle_pairs left i n ps)
unfolding circle_pairs is_bye
circle_pairs-real zero i n ps = tt
circle_pairs-real (suc left) i n ps =
    elim (Bool-cases (not (is_empty (text_at ps i)) && not (is_empty (text_at ps (n - 1 - i))))) [
      | inl e ↦ rw e (ground (arith, e), circle_pairs-real left (i + 1) n ps)
      | inr e ↦ rw e (circle_pairs-real left (i + 1) n ps)
    ]

tally-last :
    (t u : Text) (ts : List Text) → tally t (last_of u ts ∷ but_last u ts) ≡ tally t (u ∷ ts)
unfolding last_of but_last
tally-last t u [] = refl
tally-last t u (v ∷ ts) = ground (arith, tally-last t v ts)

pub tally-rotate : (t : Text) (ps : List Text) → tally t (rotate ps) ≡ tally t ps
unfolding rotate
tally-rotate t [] = refl
tally-rotate t (p ∷ []) = refl
tally-rotate t (p ∷ u ∷ ts) = ground (arith, tally-last t u ts)

length-but_last : (u : Text) (ts : List Text) → length (but_last u ts) ≡ length ts
unfolding but_last
length-but_last u [] = refl
length-but_last u (v ∷ ts) = ap suc (length-but_last v ts)

pub length-rotate : (ps : List Text) → length (rotate ps) ≡ length ps
unfolding rotate
length-rotate [] = refl
length-rotate (p ∷ []) = refl
length-rotate (p ∷ u ∷ ts) = ap (λ n. suc (suc n)) (length-but_last u ts)
