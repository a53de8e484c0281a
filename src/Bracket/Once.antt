-- ===== src/Bracket/Once.antt =====
-- RoundRobin: two entries meet in one round only.
use xemu_cartographer.Base.{
  ℕ, zero, suc, ◌+◌, ◌-◌, ◌*◌, ◌/◌, ◌%◌, ◌<◌, ◌≤◌, ◌≡◌, ◌≢◌, sym, ap, ◌∙◌, ◌⊎◌, inl, inr, List, ◌∷◌,
  length, arith, In, Any, here, there, is_empty, not, ◌&&◌, Bool-cases, subst,
}
use xemu_cartographer.Text.{Text}
use xemu_cartographer.Bracket.{Round, text_at, rotate, circle_pairs, circle_rounds}
use xemu_cartographer.Bracket.Meetings.{IsBetween, seat, spin, text_at-spin, seat-below}

-- Conversely, what a round pairs are the entries at paired places.
circle_rounds-only :
    (round : Round) (left r n : ℕ) (ps : List Text)
    → In round (circle_rounds left r n ps)
    → (k : ℕ) × (k < left)
      × (round.number ≡ r + k + 1)
      × (round.matches ≡ circle_pairs (n / 2) 0 n (spin k ps))
unfolding circle_rounds spin
circle_rounds-only round zero r n ps h = elim h [ ]
circle_rounds-only round (suc left) r n ps (here e) =
    (0, omega arith, ap (λ (x : Round). x.number) e ∙ omega arith, ap (λ (x : Round). x.matches) e)
circle_rounds-only round (suc left) r n ps (there h) =
    let (k, l, number, matches) = circle_rounds-only round left (r + 1) n (rotate ps) h in
    (suc k, omega (arith, l), number ∙ omega arith, matches)

-- A pair of places that are opposite.
abbrev Opposite : (s t : Text) (n : ℕ) (ps : List Text) → Type 0
Opposite s t n ps = (x : ℕ) × (x < n) × (text_at ps x ≡ s) × (text_at ps (n - 1 - x) ≡ t)

circle_pairs-only :
    (s t : Text) (left i n : ℕ) (ps : List Text)
    → i + left ≤ n
    → Any (IsBetween s t) (circle_pairs left i n ps)
    → Opposite s t n ps ⊎ Opposite t s n ps
unfolding circle_pairs
circle_pairs-only s t zero i n ps l h = elim h [ ]
circle_pairs-only s t (suc left) i n ps l h =
    elim (Bool-cases (not (is_empty (text_at ps i)) && not (is_empty (text_at ps (n - 1 - i))))) [
      | inl q ↦
          first_or (λ k. circle_pairs-only s t left (i + 1) n ps (omega (arith, l)) k) (rw q at h)
      | inr q ↦ circle_pairs-only s t left (i + 1) n ps (omega (arith, l)) (rw q at h)
    ]
  where
    first_or :
        (Any (IsBetween s t) (circle_pairs left (i + 1) n ps)
          → Opposite s t n ps ⊎ Opposite t s n ps)
        → Any (IsBetween s t) (
            record { side_a = text_at ps i; side_b = text_at ps (n - 1 - i) }
            ∷ circle_pairs left (i + 1) n ps)
        → Opposite s t n ps ⊎ Opposite t s n ps
    first_or rest (here (inl (a, b))) = inl (i, omega (arith, l), a, b)
    first_or rest (here (inr (a, b))) = inr (i, omega (arith, l), a, b)
    first_or rest (there k) = rest k

-- The round in which the entries `u` and `v` sit at opposite places.
abbrev Summed : (n r u v : ℕ) → Type 0
Summed n r u v =
    ((u ≡ 0) × (v + r ≡ n - 1))
    ⊎ ((v ≡ 0) × (u + r ≡ n - 1))
    ⊎ ((u ≢ 0)
        × (v ≢ 0)
        × ((u + v + 2 * r ≡ n - 1) ⊎ (u + v + 2 * r ≡ 2 * (n - 1)) ⊎ (u + v + 2 * r ≡ 3 * (n - 1))))

seats-Summed : (n r x : ℕ) → r < n - 1 → x < n → Summed n r (seat n r x) (seat n r (n - 1 - x))
seats-Summed n r x h k = ground arith

Summed-swap : (n r u v : ℕ) → Summed n r v u → Summed n r u v
Summed-swap n r u v h = ground (arith, h)

Summed-once :
    (n r q u v : ℕ) → n % 2 ≡ 0 → r < n - 1 → q < n - 1 → Summed n r u v → Summed n q u v → r ≡ q
Summed-once n r q u v even h k a b = ground (arith, even, h, k, a, b)

Summed-at :
    (n r x u v : ℕ) → r < n - 1 → x < n → seat n r x ≡ u → seat n r (n - 1 - x) ≡ v → Summed n r u v
Summed-at n r x u v h k a b =
    subst (λ w. Summed n r u w) b
      (subst (λ w. Summed n r w (seat n r (n - 1 - x))) a (seats-Summed n r x h k))

-- No other entry has the name of the entry `u`.
abbrev pub IsSole : List Text → ℕ → Type 0
IsSole ps u = (j : ℕ) → j < length ps → text_at ps j ≡ text_at ps u → j ≡ u

module _ (n u v : ℕ) (ps : List Text) (size : length ps ≡ n) (even : n % 2 ≡ 0)
    (sole_u : IsSole ps u) (sole_v : IsSole ps v) where
  seated :
      (w k x : ℕ)
      → IsSole ps w
      → k < n - 1
      → x < n
      → text_at (spin k ps) x ≡ text_at ps w
      → seat n k x ≡ w
  seated w k x sole h l e =
      sole (seat n k x) (subst (λ z. seat n k x < z) (sym size) (seat-below n k x (omega arith) l))
        (sym (text_at-spin k x n ps size (omega arith) l) ∙ e)

  pairs-Summed :
      (k : ℕ)
      → k < n - 1
      → Any (IsBetween (text_at ps u) (text_at ps v)) (circle_pairs (n / 2) 0 n (spin k ps))
      → Summed n k u v
  pairs-Summed k h m =
      elim (circle_pairs-only (text_at ps u) (text_at ps v) (n / 2) 0 n (spin k ps) (omega arith)
        m) [
          | inl (x, l, a, b) ↦
              Summed-at n k x u v h l (seated u k x sole_u h l a)
                (seated v k (n - 1 - x) sole_v h (omega arith) b)
          | inr (x, l, a, b) ↦ Summed-swap n k u v (
              Summed-at n k x v u h l (seated v k x sole_v h l a)
                (seated u k (n - 1 - x) sole_u h (omega arith) b))
        ]

  -- Two rounds with a match of the two entries are the same round.
  pub meets_once :
      (a b : Round)
      → In a (circle_rounds (n - 1) 0 n ps)
      → In b (circle_rounds (n - 1) 0 n ps)
      → Any (IsBetween (text_at ps u) (text_at ps v)) a.matches
      → Any (IsBetween (text_at ps u) (text_at ps v)) b.matches
      → a.number ≡ b.number
  meets_once a b ha hb ma mb =
      let (k, lk, number_a, matches_a) = circle_rounds-only a (n - 1) 0 n ps ha in
      let (q, lq, number_b, matches_b) = circle_rounds-only b (n - 1) 0 n ps hb in
      let same : k ≡ q =
        Summed-once n k q u v even lk lq (pairs-Summed k lk (rw matches_a at ma))
          (pairs-Summed q lq (rw matches_b at mb)) in
      omega (arith, number_a, number_b, same)
