-- ===== src/Bracket/RoundRobin.antt =====
-- RoundRobin: the rounds of the circle method.
use xemu_cartographer.Base.{
  ℕ, zero, suc, ◌+◌, ◌-◌, ◌/◌, ◌%◌, ◌≤◌, ◌<◌, ◌≡◌, ◌≢◌, refl, sym, ap, ◌∙◌, List, [], ◌∷◌, length,
  arith, false, ltb, All, Any, In,
}
use xemu_cartographer.Text.{Text}
use xemu_cartographer.Bracket.{
  is_bye, text_at, Round, rotate, circle_rounds, even_field, round_robin,
}
use xemu_cartographer.Bracket.Circle.{
  within, within-tally, pairs-within, length-circle_pairs, circle_pairs-real, tally-rotate,
  length-rotate,
}
use xemu_cartographer.Bracket.Field.{
  tally-even_field, byes-even_field, length-even_field, text_at-even_field, text_at-named,
  field-IsSole,
}
use xemu_cartographer.Bracket.Meetings.{IsBetween, meets}
use xemu_cartographer.Bracket.Once.{IsSole, meets_once}
use xemu_cartographer.Bracket.Elimination.{tally, sides}

-- A round has no byes, and no name plays in it more often than it is entered.
pub record IsFair (ps : List Text) (round : Round) : Type 0 where
  pub real : All (λ m. is_bye m ≡ false) round.matches
  pub once : (t : Text) → t ≢ [] → tally t (sides round.matches) ≤ tally t ps
  pub full : length round.matches ≡ length ps / 2

abbrev pub IsNumbered : ℕ → List Round → Type 0
IsNumbered r [] = Unit
IsNumbered r (round ∷ rounds) = (round.number ≡ r + 1) × IsNumbered (r + 1) rounds

module _ (entered : List Text) where
  circle_rounds-IsFair :
      (left r n : ℕ) (ps : List Text)
      → length ps ≡ n
      → length ps ≡ length entered + length entered % 2
      → tally [] ps ≡ length entered % 2
      → ((t : Text) → t ≢ [] → tally t ps ≡ tally t entered)
      → All (IsFair entered) (circle_rounds left r n ps)
  unfolding circle_rounds
  circle_rounds-IsFair zero r n ps e even byes h = tt
  circle_rounds-IsFair (suc left) r n ps e even byes h =
      let all_byes : within [] ps 0 n ≡ length entered % 2 =
        ap (within [] ps 0) (sym e) ∙ within-tally [] ps ∙ byes in
      (
        record {
          real = circle_pairs-real (n / 2) 0 n ps;
          once = λ t ne. omega (
            arith,
            pairs-within t (n / 2) 0 n n ps (omega arith) (omega arith),
            ap (within t ps 0) e,
            within-tally t ps,
            h t ne,
          );
          full = omega (
            arith,
            length-circle_pairs (n / 2) 0 n n ps (omega arith) (omega arith)
                (omega (arith, all_byes)),
            all_byes,
          );
        },
        circle_rounds-IsFair left (r + 1) n (rotate ps) (length-rotate ps ∙ e)
            (length-rotate ps ∙ even) (tally-rotate [] ps ∙ byes)
            λ t ne. tally-rotate t ps ∙ h t ne,
      )

circle_rounds-IsNumbered :
    (left r n : ℕ) (ps : List Text) → IsNumbered r (circle_rounds left r n ps)
unfolding circle_rounds
circle_rounds-IsNumbered zero r n ps = tt
circle_rounds-IsNumbered (suc left) r n ps =
    (refl, circle_rounds-IsNumbered left (r + 1) n (rotate ps))

length-circle_rounds : (left r n : ℕ) (ps : List Text) → length (circle_rounds left r n ps) ≡ left
unfolding circle_rounds
length-circle_rounds zero r n ps = refl
length-circle_rounds (suc left) r n ps = ap suc (length-circle_rounds left (r + 1) n (rotate ps))

-- Two entries have a match in some round.
abbrev Meet : (ps : List Text) (rounds : List Round) (u v : ℕ) → Type 0
Meet ps rounds u v =
    Any (λ round. Any (IsBetween (text_at ps u) (text_at ps v)) round.matches) rounds

field_meets :
    (ps : List Text) (u v : ℕ)
    → All (λ p. p ≢ []) ps
    → u < v
    → v < length ps
    → Meet ps
        (circle_rounds (length (even_field ps) - 1) 0 (length (even_field ps)) (even_field ps))
        u
        v
field_meets ps u v named h k =
    let field = even_field ps in
    let n = length field in
    let size = length-even_field ps in
    let seat_u = text_at-even_field u ps (omega arith) in
    let seat_v = text_at-even_field v ps k in
    let found =
      meets n u v field refl (omega (arith, size)) h (omega (arith, size))
        (rw seat_u (text_at-named u ps (omega arith) named))
        (rw seat_v (text_at-named v ps k named)) in
    rw (seat_u, seat_v) at found

pub record IsSchedule (ps : List Text) (rounds : List Round) : Type 0 where
  pub complete : length rounds ≡ length ps - 1 + length ps % 2
  pub numbered : IsNumbered 0 rounds
  pub fair : All (IsFair ps) rounds
  pub met : (u v : ℕ) → u < v → v < length ps → Meet ps rounds u v
  -- Entries that share their names with no other have no match in any other round.
  pub alone :
      (u v : ℕ)
      → u < v
      → v < length ps
      → IsSole ps u
      → IsSole ps v
      → (a b : Round) → In a rounds
      → In b rounds
      → Any (IsBetween (text_at ps u) (text_at ps v)) a.matches
      → Any (IsBetween (text_at ps u) (text_at ps v)) b.matches
      → a.number ≡ b.number

-- For two participants or more, all with a name, every two of them have a match in some round, and
-- have matches in no other round if each is the only one of its name. RoundRobin has one round less
-- than participants if they are even in number, and as many if they are odd, numbered from 1. Each
-- round has half as many matches as participants, rounded down, none of them a bye, and lets no name
-- play more often than it is entered.
pub round_robin-IsSchedule :
    (ps : List Text) → 2 ≤ length ps → All (λ p. p ≢ []) ps → IsSchedule ps (round_robin ps)
unfolding round_robin
round_robin-IsSchedule ps two named =
    let many : ltb (length ps) 2 ≡ false = ground arith in
    let field = even_field ps in
    let n = length field in
    rw many record {
      complete = omega (arith, length-circle_rounds (n - 1) 0 n field, length-even_field ps);
      numbered = circle_rounds-IsNumbered (n - 1) 0 n field;
      fair =
          circle_rounds-IsFair ps (n - 1) 0 n field refl (length-even_field ps)
            (byes-even_field ps named) λ t ne. tally-even_field t ps ne;
      met = λ u v h k. field_meets ps u v named h k;
      alone = λ u v h k sole_u sole_v a b ha hb ma mb.
          let size = length-even_field ps in
          let seat_u = text_at-even_field u ps (omega arith) in
          let seat_v = text_at-even_field v ps k in
          meets_once n u v field refl (omega (arith, size))
            (field-IsSole ps u named (omega arith) sole_u) (field-IsSole ps v named k sole_v) a b ha
            hb (rw (seat_u, seat_v) ma) (rw (seat_u, seat_v) mb);
    }
