-- ===== src/Bracket/Sizes.antt =====
-- The size loop of SingleElim: the least power of two that holds the field.
use xemu_cartographer.Base.{
  ℕ, zero, suc, ◌+◌, ◌*◌, ◌^◌, ◌≤◌, ◌<◌, ◌≡◌, sym, subst, ◌∙◌, ap, inl, inr, Bool-cases, arith, ltb,
}
use native.Mathlib.Nat.{mul_assoc, pow-succ'}
use xemu_cartographer.Bracket.{grow, seed_order}
use xemu_cartographer.Bracket.Order.{IsSeeding, doubles, seed_order-doubles}

pub doubles-pow : (d size : ℕ) → doubles d size ≡ size * 2 ^ d
doubles-pow zero size = omega arith
doubles-pow (suc d) size =
    doubles-pow d (size * 2) ∙ mul_assoc size 2 (2 ^ d) ∙ ap (◌*◌ size) (sym (pow-succ' 2 d))

-- In the slot order for 2 ^ d slots, each seed from 1 to 2 ^ d stands once and nothing else does, and
-- each slot of an even place, counted from 0, is followed by the weaker seed that makes up 2 ^ d + 1
-- with it.
pub seed_order-IsSeeding : (d : ℕ) → IsSeeding (2 ^ d) (seed_order (2 ^ d))
seed_order-IsSeeding d =
    let size : doubles d 1 ≡ 2 ^ d = doubles-pow d 1 ∙ omega arith in
    subst (λ n. IsSeeding n (seed_order n)) size (seed_order-doubles d)

-- The loop stops, after `d` doublings, at a size that holds `n` and is less than twice as large.
pub record IsRoom (n size rounds : ℕ) (found : ℕ × ℕ) : Type 0 where
  pub steps : ℕ
  pub stops : found ≡ (doubles steps size, rounds + steps)
  pub holds : n ≤ doubles steps size
  pub least : doubles steps size < n * 2

pub grow-IsRoom :
    (fuel n size rounds : ℕ)
    → 1 ≤ size
    → size < n * 2
    → n ≤ size + fuel
    → IsRoom n size rounds (grow fuel n size rounds)
unfolding grow
grow-IsRoom zero n size rounds some lt enough = record {
  steps = 0;
  stops = ap (λ r. (size, r)) (omega arith);
  holds = omega arith;
  least = lt;
}
grow-IsRoom (suc fuel) n size rounds some lt enough = elim (Bool-cases (ltb size n)) [
  | inl e ↦
      let less : size < n = ground arith in
      let v =
        grow-IsRoom fuel n (size * 2) (rounds + 1) (omega arith) (omega arith) (omega arith) in
      record {
        steps = suc v.steps;
        stops = rw (grow, e) (v.stops ∙ ap (λ r. (doubles v.steps (size * 2), r)) (omega arith));
        holds = v.holds;
        least = v.least;
      }
  | inr e ↦
      let more : n ≤ size = ground arith in
      record {
        steps = 0;
        stops = rw (grow, e) (ap (λ r. (size, r)) (omega arith));
        holds = more;
        least = lt;
      }
]
