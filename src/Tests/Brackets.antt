-- ===== src/Tests/Brackets.antt =====
-- The examples of internal/bracket/bracket_test.go.
use xemu_cartographer.Base.{◌^◌, ◌≡◌, ◌≢◌, refl, List, [], ◌∷◌, map, length, arith, All}
use xemu_cartographer.Text.{Text, codes}
use xemu_cartographer.Bracket.{Match, seed_order, single_elim, round_robin}
use xemu_cartographer.Bracket.Order.{IsSeeding}
use xemu_cartographer.Bracket.Sizes.{seed_order-IsSeeding}
use xemu_cartographer.Bracket.Elimination.{IsElimination, single_elim-IsElimination}
use xemu_cartographer.Bracket.RoundRobin.{IsSchedule, round_robin-IsSchedule}
use xemu_cartographer.Tests.{evaluated}

abbrev five : List Text
five = codes "a" ∷ codes "b" ∷ codes "c" ∷ codes "d" ∷ codes "e" ∷ []

abbrev versus : Text → Text → Match
versus a b = record { side_a = a; side_b = b }

order_of_eight : seed_order 8 ≡ 1 ∷ 8 ∷ 4 ∷ 5 ∷ 2 ∷ 7 ∷ 3 ∷ 6 ∷ []
unfolding evaluated
order_of_eight = refl

five_drawn : single_elim five ≡ record {
  size = 8;
  rounds = 3;
  first_round =
      versus (codes "a") []
      ∷ versus (codes "d") (codes "e")
      ∷ versus (codes "b") []
      ∷ versus (codes "c") []
      ∷ [];
}
unfolding evaluated
five_drawn = refl

five_rounds : map (λ round. length round.matches) (round_robin five) ≡ 2 ∷ 2 ∷ 2 ∷ 2 ∷ 2 ∷ []
unfolding evaluated
five_rounds = refl

seed_order-IsSeeding_example : IsSeeding (2 ^ 3) (seed_order (2 ^ 3))
seed_order-IsSeeding_example = seed_order-IsSeeding 3

single_elim-IsElimination_example : IsElimination five (single_elim five)
single_elim-IsElimination_example = single_elim-IsElimination five (omega arith)

five_named : All (λ p. p ≢ []) five
five_named = ground arith

round_robin-IsSchedule_example : IsSchedule five (round_robin five)
round_robin-IsSchedule_example = round_robin-IsSchedule five (omega arith) five_named
