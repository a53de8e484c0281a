-- ===== src/Bracket.antt =====
-- internal/bracket/bracket.go: single elimination and round robin over a list of participants, the
-- top seed first. An int is a length of a list or at most twice one, so that none overflows.
pub mod Order
pub mod Sizes
pub mod Elimination
pub mod Circle
pub mod Meetings
pub mod Once
pub mod Field
pub mod RoundRobin
use xemu_cartographer.Base.{
  ℕ, zero, suc, ◌+◌, ◌-◌, ◌*◌, ◌/◌, ◌%◌, Bool, true, false, ◌||◌, ◌&&◌, not, List, [], ◌∷◌, ◌++◌,
  map, length, if◌then◌else◌, ltb, leb, ◌==◌, is_empty,
}
use xemu_cartographer.Text.{Text}

pub record Match : Type 0 where
  pub side_a : Text
  pub side_b : Text

unfoldable pub is_bye : Match → Bool
is_bye m = is_empty m.side_a || is_empty m.side_b

pub record Round : Type 0 where
  pub number : ℕ
  pub matches : List Match

pub record Bracket : Type 0 where
  pub size : ℕ
  pub rounds : ℕ
  pub first_round : List Match

-- `for size < n { size *= 2; rounds++ }`, on fuel
unfoldable pub grow : (fuel n size rounds : ℕ) → ℕ × ℕ
grow zero n size rounds = (size, rounds)
grow (suc fuel) n size rounds = elim (ltb size n) [
  | true ↦ grow fuel n (size * 2) (rounds + 1)
  | false ↦ (size, rounds)
]

-- The inner loop of seedOrder.
unfoldable pub expand : (sum : ℕ) → List ℕ → List ℕ
expand sum [] = []
expand sum (s ∷ seeds) = s ∷ (sum - s) ∷ expand sum seeds

-- `for len(seeds) < size`, on fuel
unfoldable pub order_loop : (fuel size : ℕ) → List ℕ → List ℕ
order_loop zero size seeds = seeds
order_loop (suc fuel) size seeds = elim (ltb (length seeds) size) [
  | true ↦ order_loop fuel size (expand (length seeds * 2 + 1) seeds)
  | false ↦ seeds
]

unfoldable pub seed_order : ℕ → List ℕ
seed_order size = order_loop size size (1 ∷ [])

-- An index into a slice; past the end, where Go panics, it is the empty text.
unfoldable pub text_at : List Text → ℕ → Text
text_at [] i = []
text_at (t ∷ ts) i = if i == 0 then t else text_at ts (i - 1)

unfoldable pub seed_name : (seed n : ℕ) → List Text → Text
seed_name seed n participants = if leb seed n then text_at participants (seed - 1) else []

-- The loop of SingleElim, two slots a round. An odd slot at the end, where Go panics, is dropped.
unfoldable pub pair_up : (n : ℕ) → List Text → List ℕ → List Match
pair_up n participants (s ∷ t ∷ order) =
    record { side_a = seed_name s n participants; side_b = seed_name t n participants }
    ∷ pair_up n participants order
pair_up n participants _ = []

abbrev pub bracket_of : List Text → ℕ × ℕ → Bracket
bracket_of participants (size, rounds) = record {
  size = size;
  rounds = rounds;
  first_round = pair_up (length participants) participants (seed_order size);
}

-- SingleElim
unfoldable pub single_elim : List Text → Bracket
single_elim participants =
    let n = length participants in
    if leb n 1
    then record { size = n; rounds = 0; first_round = [] }
    else bracket_of participants (grow n n 1 0)

-- The inner loop of RoundRobin: `i` of `half` pairs are done.
unfoldable pub circle_pairs : (left i n : ℕ) → List Text → List Match
circle_pairs zero i n ps = []
circle_pairs (suc left) i n ps =
    let a = text_at ps i in
    let b = text_at ps (n - 1 - i) in
    let rest = circle_pairs left (i + 1) n ps in
    if not (is_empty a) && not (is_empty b) then record { side_a = a; side_b = b } ∷ rest else rest

-- The last entry moves to the second place.
last_of : Text → List Text → Text
last_of t [] = t
last_of t (u ∷ ts) = last_of u ts

but_last : Text → List Text → List Text
but_last t [] = []
but_last t (u ∷ ts) = t ∷ but_last u ts

unfoldable pub rotate : List Text → List Text
unfolding last_of but_last
rotate (t ∷ u ∷ ts) = t ∷ last_of u ts ∷ but_last u ts
rotate ps = ps

unfoldable pub circle_rounds : (left r n : ℕ) → List Text → List Round
circle_rounds zero r n ps = []
circle_rounds (suc left) r n ps =
    record { number = r + 1; matches = circle_pairs (n / 2) 0 n ps }
    ∷ circle_rounds left (r + 1) n (rotate ps)

unfoldable pub even_field : List Text → List Text
even_field ps = if length ps % 2 == 1 then ps ++ ([] ∷ []) else ps

-- RoundRobin
unfoldable pub round_robin : List Text → List Round
round_robin participants =
    let ps = even_field participants in
    if ltb (length participants) 2 then [] else circle_rounds (length ps - 1) 0 (length ps) ps
