-- ===== src/Bracket/Meetings.antt =====
-- RoundRobin: where each entry sits after some rotations, and the round in which two entries meet.
use xemu_cartographer.Base.{
  ℕ, zero, suc, ◌+◌, ◌-◌, ◌*◌, ◌/◌, ◌%◌, ◌<◌, ◌≤◌, ◌≡◌, refl, sym, ap, ◌∙◌, ◌⊎◌, inl, inr, List, [],
  ◌∷◌, length, arith, false, ltb, ◌==◌, if◌then◌else◌, Any, here, there, is_empty, not, ◌&&◌,
  Bool-cases,
}
use xemu_cartographer.Text.{Text}
use xemu_cartographer.Bracket.{
  Match, Round, text_at, last_of, but_last, rotate, circle_pairs, circle_rounds,
}
use xemu_cartographer.Bracket.Circle.{length-rotate}

last_of-text_at : (u : Text) (ts : List Text) → last_of u ts ≡ text_at (u ∷ ts) (length ts)
unfolding last_of text_at
last_of-text_at u [] = refl
last_of-text_at u (v ∷ ts) = ground (arith, last_of-text_at v ts)

text_at-but_last :
    (k : ℕ) (u : Text) (ts : List Text)
    → k < length ts
    → text_at (but_last u ts) k ≡ text_at (u ∷ ts) k
unfolding but_last text_at
text_at-but_last k u [] h = absurd (omega arith)
text_at-but_last zero u (v ∷ ts) h = refl
text_at-but_last (suc k) u (v ∷ ts) h = ground (arith, text_at-but_last k v ts (omega arith))

text_at-cons : (t : Text) (ts : List Text) (k : ℕ) → text_at (t ∷ ts) (suc k) ≡ text_at ts k
unfolding text_at
text_at-cons t ts k = ground arith

-- The place that an entry comes from in a rotation, and in `r` of them.
abbrev back : (n j : ℕ) → ℕ
back n j = if j == 0 then 0 else if j == 1 then n - 1 else j - 1

abbrev pub seat : (n r j : ℕ) → ℕ
seat n r j = if j == 0 then 0 else if ltb r j then j - r else j + (n - 1) - r

text_at-head : (t : Text) (ts : List Text) → text_at (t ∷ ts) 0 ≡ t
unfolding text_at
text_at-head t ts = refl

back-late : (n j : ℕ) → back n (suc (suc j)) ≡ suc j
back-late n j = ground arith

text_at-rotate :
    (j : ℕ) (ps : List Text)
    → j < length ps
    → text_at (rotate ps) j ≡ text_at ps (back (length ps) j)
unfolding rotate
text_at-rotate j [] h = absurd (omega arith)
text_at-rotate zero (t ∷ []) h = refl
text_at-rotate (suc j) (t ∷ []) h = absurd (omega arith)
text_at-rotate zero (t ∷ u ∷ ts) h =
    text_at-head t (last_of u ts ∷ but_last u ts) ∙ sym (text_at-head t (u ∷ ts))
text_at-rotate (suc zero) (t ∷ u ∷ ts) h =
    let end_of : suc (length ts) ≡ length (t ∷ u ∷ ts) - 1 = omega arith in
    text_at-cons t (last_of u ts ∷ but_last u ts) 0
    ∙ text_at-head (last_of u ts) (but_last u ts)
    ∙ last_of-text_at u ts
    ∙ sym (text_at-cons t (u ∷ ts) (length ts))
    ∙ ap (text_at (t ∷ u ∷ ts)) end_of
text_at-rotate (suc (suc j)) (t ∷ u ∷ ts) h =
    text_at-cons t (last_of u ts ∷ but_last u ts) (suc j)
    ∙ text_at-cons (last_of u ts) (but_last u ts) j
    ∙ text_at-but_last j u ts (omega arith)
    ∙ sym (text_at-cons t (u ∷ ts) j)
    ∙ ap (text_at (t ∷ u ∷ ts)) (sym (back-late (length (t ∷ u ∷ ts)) j))

unfoldable pub spin : ℕ → List Text → List Text
spin zero ps = ps
spin (suc r) ps = spin r (rotate ps)

back-seat : (n r j : ℕ) → r + 2 < n + 1 → j < n → seat n (suc r) j ≡ back n (seat n r j)
back-seat n r j h k = ground arith

pub seat-below : (n r j : ℕ) → r + 1 < n + 1 → j < n → seat n r j < n
seat-below n r j h k = ground arith

pub text_at-spin :
    (r j n : ℕ) (ps : List Text)
    → length ps ≡ n
    → r < n
    → j < n
    → text_at (spin r ps) j ≡ text_at ps (seat n r j)
unfolding spin
text_at-spin zero j n ps e h k = ap (text_at ps) (ground arith)
text_at-spin (suc r) j n ps e h k =
    text_at-spin r j n (rotate ps) (length-rotate ps ∙ e) (omega arith) k
    ∙ text_at-rotate (seat n r j) ps (rw e (seat-below n r j (omega arith) k))
    ∙ rw e (ap (text_at ps) (sym (back-seat n r j (omega arith) k)))

circle_rounds-at :
    (P : Round → Type 0) (k left r n : ℕ) (ps : List Text)
    → k < left
    → ((number : ℕ)
        → P (record { number = number; matches = circle_pairs (n / 2) 0 n (spin k ps) }))
    → Any P (circle_rounds left r n ps)
unfolding circle_rounds spin
circle_rounds-at P k zero r n ps h p = absurd (omega arith)
circle_rounds-at P zero (suc left) r n ps h p = here (p (r + 1))
circle_rounds-at P (suc k) (suc left) r n ps h p =
    there (circle_rounds-at P k left (r + 1) n (rotate ps) (omega arith) p)

-- The match of two names, either of them first.
abbrev pub IsBetween : Text → Text → Match → Type 0
IsBetween s t m = ((m.side_a ≡ s) × (m.side_b ≡ t)) ⊎ ((m.side_a ≡ t) × (m.side_b ≡ s))

circle_pairs-at :
    (x left i n : ℕ) (ps : List Text)
    → i ≤ x
    → x < i + left
    → is_empty (text_at ps x) ≡ false
    → is_empty (text_at ps (n - 1 - x)) ≡ false
    → Any (IsBetween (text_at ps x) (text_at ps (n - 1 - x))) (circle_pairs left i n ps)
unfolding circle_pairs
circle_pairs-at x zero i n ps l h a b = absurd (omega arith)
circle_pairs-at x (suc left) i n ps l h a b = elim (Bool-cases (i == x)) [
  | inl e ↦ let same : i ≡ x = ground (arith, e) in rw (same, a, b) (here (inl (refl, refl)))
  | inr e ↦
      let rest = circle_pairs-at x left (i + 1) n ps (ground (arith, e, l)) (omega arith) a b in
      elim (Bool-cases (not (is_empty (text_at ps i)) && not (is_empty (text_at ps (n - 1 - i))))) [
        | inl q ↦ rw q (there rest)
        | inr q ↦ rw q rest
      ]
]

-- In some round the entries `u` and `v` sit at places that are paired.
record Meeting (n u v : ℕ) : Type 0 where
  round : ℕ
  place : ℕ
  in_time : round < n - 1
  at_table : place < n
  first : seat n round place ≡ u
  second : seat n round (n - 1 - place) ≡ v

meets_at : (n u v : ℕ) → n % 2 ≡ 0 → u < v → v < n → Meeting n u v
meets_at n zero v even h k = record {
  round = n - 1 - v;
  place = 0;
  in_time = omega arith;
  at_table = omega arith;
  first = refl;
  second = ground arith;
}
meets_at n (suc u) v even h k = elim (Bool-cases ((suc u + v) % 2 == 0)) [
  | inl e ↦
      let s : (suc u + v) % 2 ≡ 0 = ground (arith, e) in
      record {
        round = n - 1 - (suc u + v) / 2;
        place = suc u + (n - 1 - (suc u + v) / 2);
        in_time = omega (arith, s);
        at_table = omega (arith, s);
        first = ground (arith, s);
        second = ground (arith, s);
      }
  | inr e ↦
      let s : (suc u + v) % 2 ≡ 1 = ground (arith, e) in
      elim (Bool-cases (ltb (n - 1) (suc u + v))) [
        | inl q ↦
            let late : n - 1 < suc u + v = ground (arith, q) in
            let r = (3 * (n - 1) - (suc u + v)) / 2 in
            record {
              round = (3 * (n - 1) - (suc u + v)) / 2;
              place = suc u + (3 * (n - 1) - (suc u + v)) / 2 - (n - 1);
              in_time = omega (arith, s, late);
              at_table = omega (arith, s, late);
              first = ground (arith, s, late);
              second = ground (arith, s, late);
            }
        | inr q ↦
            let early : suc u + v ≤ n - 1 = ground (arith, q) in
            record {
              round = (n - 1 - (suc u + v)) / 2;
              place = suc u + (n - 1 - (suc u + v)) / 2;
              in_time = omega (arith, s, early);
              at_table = omega (arith, s, early);
              first = ground (arith, s, early);
              second = ground (arith, s, early);
            }
      ]
]

paired :
    (n j : ℕ) (ps : List Text)
    → n % 2 ≡ 0
    → j < n
    → (s t : Text) → text_at ps j ≡ s
    → text_at ps (n - 1 - j) ≡ t
    → is_empty s ≡ false
    → is_empty t ≡ false
    → Any (IsBetween s t) (circle_pairs (n / 2) 0 n ps)
paired n j ps even h s t left right a b = elim (Bool-cases (ltb j (n / 2))) [
  | inl q ↦
      let low : j < n / 2 = ground (arith, q) in
      let found =
        circle_pairs-at j (n / 2) 0 n ps (omega arith) (omega (arith, low)) (rw left a)
          (rw right b) in
      rw (left, right) at found
  | inr q ↦
      let high : n / 2 ≤ j = ground (arith, q) in
      let opposite : n - 1 - (n - 1 - j) ≡ j = omega arith in
      let found =
        circle_pairs-at (n - 1 - j) (n / 2) 0 n ps (omega arith) (omega (arith, high, even))
          (rw right b) (rw (opposite, left) a) in
      Any-swap (circle_pairs (n / 2) 0 n ps) (rw (opposite, left, right) at found)
]
  where
    Any-swap : (ms : List Match) → Any (IsBetween t s) ms → Any (IsBetween s t) ms
    Any-swap [] k = elim k [ ]
    Any-swap (m ∷ ms) (here (inl e)) = here (inr e)
    Any-swap (m ∷ ms) (here (inr e)) = here (inl e)
    Any-swap (m ∷ ms) (there k) = there (Any-swap ms k)

-- The entries of an even field meet.
pub meets :
    (n u v : ℕ) (ps : List Text)
    → length ps ≡ n
    → n % 2 ≡ 0
    → u < v
    → v < n
    → is_empty (text_at ps u) ≡ false
    → is_empty (text_at ps v) ≡ false
    → Any
        (λ round. Any (IsBetween (text_at ps u) (text_at ps v)) round.matches)
        (circle_rounds (n - 1) 0 n ps)
meets n u v ps e even h k a b =
    let m = meets_at n u v even h k in
    let left : text_at (spin m.round ps) m.place ≡ text_at ps u =
      text_at-spin m.round m.place n ps e (omega (arith, m.in_time)) m.at_table
      ∙ ap (text_at ps) m.first in
    let right : text_at (spin m.round ps) (n - 1 - m.place) ≡ text_at ps v =
      text_at-spin m.round (n - 1 - m.place) n ps e (omega (arith, m.in_time)) (omega arith)
      ∙ ap (text_at ps) m.second in
    circle_rounds-at (λ round. Any (IsBetween (text_at ps u) (text_at ps v)) round.matches) m.round
      (n - 1) 0 n ps m.in_time
      (λ number.
        paired n m.place (spin m.round ps) even m.at_table (text_at ps u) (text_at ps v) left right
          a b)
