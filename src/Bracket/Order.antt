-- ===== src/Bracket/Order.antt =====
-- seedOrder: the slot order of the first round.
use xemu_cartographer.Base.{
  ℕ, zero, suc, ◌+◌, ◌-◌, ◌*◌, ◌≤◌, ◌<◌, ◌≡◌, refl, inl, inr, List, [], ◌∷◌, length, arith, true,
  false, Bool-cases, if◌then◌else◌, ltb, leb, ◌==◌, All,
}
use xemu_cartographer.Bracket.{expand, order_loop, seed_order}

-- How often a seed stands in the order.
abbrev pub count : ℕ → List ℕ → ℕ
count s [] = 0
count s (t ∷ ts) = if t == s then 1 + count s ts else count s ts

-- Adjacent slots add up to `sum`, and the first of the two is the stronger seed.
abbrev pub IsPaired : ℕ → List ℕ → Type 0
IsPaired sum (s ∷ t ∷ order) = (s + t ≡ sum) × (s < t) × IsPaired sum order
IsPaired sum (s ∷ []) = Unit
IsPaired sum [] = Unit

-- Each seed from 1 to `size` in one slot, and nothing else.
pub record IsSeeding (size : ℕ) (order : List ℕ) : Type 0 where
  pub slots : length order ≡ size
  pub in_range : All (λ s. (1 ≤ s) × (s ≤ size)) order
  pub once : (s : ℕ) → 1 ≤ s → s ≤ size → count s order ≡ 1
  pub paired : IsPaired (size + 1) order

length-expand : (sum : ℕ) (seeds : List ℕ) → length (expand sum seeds) ≡ length seeds * 2
unfolding expand
length-expand sum [] = refl
length-expand sum (s ∷ seeds) = omega (arith, length-expand sum seeds)

count-expand :
    (sum x : ℕ) (seeds : List ℕ)
    → All (λ s. (1 ≤ s) × (s < sum)) seeds
    → x ≤ sum
    → count x (expand sum seeds) ≡ count x seeds + count (sum - x) seeds
unfolding expand
count-expand sum x [] h le = refl
count-expand sum x (s ∷ seeds) h le = ground (arith, count-expand sum x seeds h.1 le)

count-out :
    (size s : ℕ) (order : List ℕ)
    → All (λ t. (1 ≤ t) × (t ≤ size)) order
    → size < s
    → count s order ≡ 0
count-out size s [] h lt = refl
count-out size s (t ∷ ts) h lt = ground (arith, count-out size s ts h.1 lt)

within-sum :
    (size sum : ℕ) (order : List ℕ)
    → size < sum
    → All (λ t. (1 ≤ t) × (t ≤ size)) order
    → All (λ t. (1 ≤ t) × (t < sum)) order
within-sum size sum [] lt h = tt
within-sum size sum (t ∷ ts) lt h = ((h.0.0, omega (arith, h.0.1)), within-sum size sum ts lt h.1)

expand-range :
    (size : ℕ) (order : List ℕ)
    → All (λ t. (1 ≤ t) × (t ≤ size)) order
    → All (λ t. (1 ≤ t) × (t ≤ size * 2)) (expand (size * 2 + 1) order)
unfolding expand
expand-range size [] h = tt
expand-range size (t ∷ ts) h = (
  (h.0.0, omega (arith, h.0.1)),
  ((omega (arith, h.0.1), omega (arith, h.0.0)), expand-range size ts h.1),
)

expand-IsPaired :
    (size : ℕ) (order : List ℕ)
    → All (λ t. (1 ≤ t) × (t ≤ size)) order
    → IsPaired (size * 2 + 1) (expand (size * 2 + 1) order)
unfolding expand
expand-IsPaired size [] h = tt
expand-IsPaired size (t ∷ ts) h =
    (omega (arith, h.0.1), omega (arith, h.0.1), expand-IsPaired size ts h.1)

-- One round of the outer loop doubles the field.
expand-IsSeeding :
    (size : ℕ) (order : List ℕ)
    → IsSeeding size order
    → IsSeeding (size * 2) (expand (size * 2 + 1) order)
expand-IsSeeding size order v = record {
  slots = omega (arith, length-expand (size * 2 + 1) order, v.slots);
  in_range = expand-range size order v.in_range;
  once = λ s p q.
      let two =
        count-expand (size * 2 + 1) s order
          (within-sum size (size * 2 + 1) order (omega arith) v.in_range) (omega arith) in
      elim (Bool-cases (leb s size)) [
        | inl e ↦
            let le : s ≤ size = ground arith in
            omega (
              arith,
              two,
              v.once s p le,
              count-out size (size * 2 + 1 - s) order v.in_range (omega arith),
            )
        | inr e ↦
            let lt : size < s = ground arith in
            omega (
              arith,
              two,
              count-out size s order v.in_range lt,
              v.once (size * 2 + 1 - s) (omega arith) (omega arith),
            )
      ];
  paired = expand-IsPaired size order v.in_range;
}

-- `size` doubled `d` times.
abbrev pub doubles : ℕ → ℕ → ℕ
doubles zero size = size
doubles (suc d) size = doubles d (size * 2)

pub doubles-grows : (d size : ℕ) → 1 ≤ size → d + size ≤ doubles d size
doubles-grows zero size h = omega arith
doubles-grows (suc d) size h = omega (arith, doubles-grows d (size * 2) (omega arith))

pub doubles-twice : (d size : ℕ) → doubles (suc d) size ≡ doubles d size * 2
doubles-twice zero size = refl
doubles-twice (suc d) size = doubles-twice d (size * 2)

order_loop-IsSeeding :
    (fuel d size : ℕ) (order : List ℕ)
    → d ≤ fuel
    → 1 ≤ size
    → IsSeeding size order
    → IsSeeding (doubles d size) (order_loop fuel (doubles d size) order)
unfolding order_loop
order_loop-IsSeeding zero zero size order le some v = v
order_loop-IsSeeding zero (suc d) size order le some v = absurd (omega arith)
order_loop-IsSeeding (suc fuel) zero size order le some v =
    let e : ltb (length order) size ≡ false = ground (arith, v.slots) in rw (order_loop, e) v
order_loop-IsSeeding (suc fuel) (suc d) size order le some v =
    let more : ltb (length order) (doubles d (size * 2)) ≡ true =
      ground (arith, v.slots, doubles-grows d (size * 2) (omega arith)) in
    rw (order_loop, more, v.slots)
      (order_loop-IsSeeding fuel d (size * 2) (expand (size * 2 + 1) order) (omega arith)
        (omega arith) (expand-IsSeeding size order v))

pub seed_order-doubles : (d : ℕ) → IsSeeding (doubles d 1) (seed_order (doubles d 1))
unfolding seed_order
seed_order-doubles d =
    order_loop-IsSeeding (doubles d 1) d 1 (1 ∷ []) (omega (arith, doubles-grows d 1 (omega arith)))
      (omega arith)
      (record {
        slots = refl;
        in_range = ((omega arith, omega arith), tt);
        once = λ s p q. ground arith;
        paired = tt;
      })
