-- ===== src/Bracket/Elimination.antt =====
-- SingleElim: who meets whom in the first round.
use xemu_cartographer.Base.{
  ℕ, zero, suc, ◌+◌, ◌-◌, ◌*◌, ◌^◌, ◌≤◌, ◌<◌, ◌≡◌, ◌≢◌, refl, sym, ap, ◌∙◌, List, [], ◌∷◌, length,
  arith, Bool, true, false, ◌&&◌, if◌then◌else◌, ltb, leb, All, map,
}
use xemu_cartographer.Text.{Text, text_eq}
use xemu_cartographer.Text.Laws.{text_eq_iff}
use xemu_cartographer.Bracket.{
  Match, Bracket, grow, text_at, seed_name, pair_up, seed_order, bracket_of, single_elim,
}
use xemu_cartographer.Bracket.Order.{count, IsPaired, doubles, seed_order-doubles, doubles-twice}
use xemu_cartographer.Bracket.Sizes.{doubles-pow, grow-IsRoom}

-- How often a name stands in a list.
abbrev pub tally : Text → List Text → ℕ
tally t [] = 0
tally t (p ∷ ps) = if text_eq p t then 1 + tally t ps else tally t ps

abbrev pub sides : List Match → List Text
sides [] = []
sides (m ∷ ms) = m.side_a ∷ m.side_b ∷ sides ms

-- The seeds of the name `t`, `i` of them before the list, counted with how often each is drawn.
drawn : Text → List ℕ → ℕ → List Text → ℕ
drawn t order i [] = 0
drawn t order i (p ∷ ps) =
    (if text_eq p t then count (suc i) order else 0) + drawn t order (suc i) ps

drawn-none : (t : Text) (i : ℕ) (ps : List Text) → drawn t [] i ps ≡ 0
unfolding drawn
drawn-none t i [] = refl
drawn-none t i (p ∷ ps) = ground (arith, drawn-none t (suc i) ps)

-- The seed `s` is one of the list's, and its name is `t`.
names : Text → ℕ → ℕ → List Text → Bool
names t s i ps = (ltb i s && leb s (i + length ps)) && text_eq (text_at ps (s - suc i)) t

drawn-cons :
    (t : Text) (s : ℕ) (order : List ℕ) (i : ℕ) (ps : List Text)
    → drawn t (s ∷ order) i ps ≡ drawn t order i ps + (if names t s i ps then 1 else 0)
unfolding drawn names text_at
drawn-cons t s order i [] = ground arith
drawn-cons t s order i (p ∷ ps) = ground (arith, drawn-cons t s order (suc i) ps)

drawn-once :
    (t : Text) (order : List ℕ) (i : ℕ) (ps : List Text)
    → ((s : ℕ) → i < s → s ≤ i + length ps → count s order ≡ 1)
    → drawn t order i ps ≡ tally t ps
unfolding drawn
drawn-once t order i [] h = refl
drawn-once t order i (p ∷ ps) h = ground (
  arith,
  h (suc i) (omega arith) (omega arith),
  drawn-once t order (suc i) ps (λ s p q. h s (omega arith) (omega arith)),
)

tally-seeds :
    (t : Text) (ps : List Text) (order : List ℕ) (size : ℕ)
    → t ≢ []
    → All (λ s. (1 ≤ s) × (s ≤ size)) order
    → tally t (map (λ s. seed_name s (length ps) ps) order) ≡ drawn t order 0 ps
unfolding seed_name names
tally-seeds t ps [] size ne h = sym (drawn-none t 0 ps)
tally-seeds t ps (s ∷ order) size ne h =
    ground (arith, drawn-cons t s order 0 ps, tally-seeds t ps order size ne h.1, text_eq_iff [] t)

sides-pair_up :
    (n half : ℕ) (ps : List Text) (order : List ℕ)
    → length order ≡ half * 2
    → sides (pair_up n ps order) ≡ map (λ s. seed_name s n ps) order
unfolding pair_up
sides-pair_up n half ps [] h = refl
sides-pair_up n half ps (s ∷ []) h = absurd (omega arith)
sides-pair_up n half ps (s ∷ t ∷ order) h =
    ap (λ l. seed_name s n ps ∷ seed_name t n ps ∷ l)
      (sides-pair_up n (half - 1) ps order (omega arith))

length-sides : (ms : List Match) → length (sides ms) ≡ length ms * 2
length-sides [] = refl
length-sides (m ∷ ms) = omega (arith, length-sides ms)

length-map : {A : Type 0} (f : A → Text) (xs : List A) → length (map f xs) ≡ length xs
length-map f [] = refl
length-map f (x ∷ xs) = omega (arith, length-map f xs)

-- The seed `s`, a real one from the stronger half, meets the seed that makes up the sum, whose name
-- is empty past the field.
pub record IsPairing (ps : List Text) (size : ℕ) (m : Match) : Type 0 where
  pub seed : ℕ
  pub first : 1 ≤ seed
  pub stronger : seed * 2 ≤ size
  pub real : seed ≤ length ps
  pub sits : m.side_a ≡ text_at ps (seed - 1)
  pub meets : m.side_b ≡ seed_name (size + 1 - seed) (length ps) ps

pair_up-IsPairing :
    (ps : List Text) (size : ℕ) (order : List ℕ)
    → size < length ps * 2
    → All (λ s. (1 ≤ s) × (s ≤ size)) order
    → IsPaired (size + 1) order
    → All (IsPairing ps size) (pair_up (length ps) ps order)
unfolding pair_up
pair_up-IsPairing ps size [] lt h q = tt
pair_up-IsPairing ps size (s ∷ []) lt h q = tt
pair_up-IsPairing ps size (s ∷ t ∷ order) lt h q =
    let real : leb s (length ps) ≡ true = ground (arith, q) in
    (
      record {
        seed = s;
        first = h.0.0;
        stronger = omega (arith, q.0, q.1);
        real = omega (arith, q.0, q.1);
        sits = unfold seed_name in rw real refl;
        meets = ap (λ r. seed_name r (length ps) ps) (omega (arith, q.0));
      },
      pair_up-IsPairing ps size order lt h.1.1 q.2,
    )

-- What SingleElim promises of its bracket.
pub record IsElimination (ps : List Text) (b : Bracket) : Type 0 where
  pub power : b.size ≡ 2 ^ b.rounds
  pub holds : length ps ≤ b.size
  pub least : b.size < length ps * 2
  pub halved : length b.first_round * 2 ≡ b.size
  pub pairings : All (IsPairing ps b.size) b.first_round
  pub plays : (t : Text) → t ≢ [] → tally t (sides b.first_round) ≡ tally t ps

bracket_of-IsElimination :
    (ps : List Text) (d : ℕ)
    → length ps ≤ doubles (suc d) 1
    → doubles (suc d) 1 < length ps * 2
    → IsElimination ps (bracket_of ps (doubles (suc d) 1, suc d))
bracket_of-IsElimination ps d holds least =
    let size = doubles (suc d) 1 in
    let order = seed_order size in
    let v = seed_order-doubles (suc d) in
    let n = length ps in
    let half : length order ≡ doubles d 1 * 2 = v.slots ∙ doubles-twice d 1 in
    let flat : sides (pair_up n ps order) ≡ map (λ s. seed_name s n ps) order =
      sides-pair_up n (doubles d 1) ps order half in
    record {
      power = doubles-pow (suc d) 1 ∙ omega arith;
      holds = holds;
      least = least;
      halved = omega (
        arith,
        length-sides (pair_up n ps order),
        ap length flat,
        length-map (λ s. seed_name s n ps) order,
        v.slots,
      );
      pairings = pair_up-IsPairing ps size order least v.in_range v.paired;
      plays = λ t ne.
          ap (tally t) flat
          ∙ tally-seeds t ps order size ne v.in_range
          ∙ drawn-once t order 0 ps (λ s p q. v.once s p (omega (arith, holds)));
    }

steps-IsElimination :
    (ps : List Text) (d : ℕ)
    → 2 ≤ length ps
    → length ps ≤ doubles d 1
    → doubles d 1 < length ps * 2
    → IsElimination ps (bracket_of ps (doubles d 1, d))
steps-IsElimination ps zero two holds least = absurd (omega arith)
steps-IsElimination ps (suc d) two holds least = bracket_of-IsElimination ps d holds least

-- For two participants or more, SingleElim's size is the least power of two that holds them, and
-- `rounds` its exponent. The first round has half as many matches as slots. In each, a participant
-- seeded in the stronger half meets the seed that makes up size + 1, or has a bye where there is no
-- such participant. Each name stands in the matches as often as among the participants.
pub single_elim-IsElimination : (ps : List Text) → 2 ≤ length ps → IsElimination ps (single_elim ps)
unfolding single_elim
single_elim-IsElimination ps two =
    let n = length ps in
    let v = grow-IsRoom n n 1 0 (omega arith) (omega arith) (omega arith) in
    let many : leb n 1 ≡ false = ground arith in
    let stops : grow n n 1 0 ≡ (doubles v.steps 1, v.steps) =
      v.stops ∙ ap (λ r. (doubles v.steps 1, r)) (omega arith) in
    rw (many, stops) (steps-IsElimination ps v.steps two v.holds v.least)
