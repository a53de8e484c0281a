-- ===== src/Reaper/Clocks.antt =====
-- The clocks of the reaper: lookups after a change, and what one pass makes of them.
use xemu_cartographer.Base.{
  ℕ, ◌-◌, ◌≤◌, ◌≡◌, ◌≢◌, refl, sym, ap, ◌∙◌, ◌⊎◌, inl, inr, leb, true, false, some, List, [], ◌∷◌,
  arith, Bool-cases, Option-cases,
}
use xemu_cartographer.Text.{Text, text_eq, elem}
use xemu_cartographer.Text.Laws.{text_eq_iff, text_eq→≡}
use xemu_cartographer.Reaper.{
  Snapshot, Config, Clocks, clock_of, stop_clock, start_clock, in_scope, check_clock, visit, prune,
}

pub clock_of-stop_clock :
    (i j : Text) (clocks : Clocks) (t : ℕ)
    → clock_of i (stop_clock j clocks) ≡ some t
    → (clock_of i clocks ≡ some t) × (i ≢ j)
unfolding clock_of stop_clock
clock_of-stop_clock i j [] t h = cc
clock_of-stop_clock i j ((k, u) ∷ clocks) t h =
    ground (arith, text_eq_iff k i, text_eq_iff k j, clock_of-stop_clock i j clocks t)

pub stop_clock-other :
    (i j : Text) (clocks : Clocks) → i ≢ j → clock_of i (stop_clock j clocks) ≡ clock_of i clocks
unfolding clock_of stop_clock
stop_clock-other i j [] ne = refl
stop_clock-other i j ((k, u) ∷ clocks) ne =
    ground (arith, text_eq_iff k i, text_eq_iff k j, stop_clock-other i j clocks ne)

pub clock_of-prune :
    (i : Text) (present : List Text) (clocks : Clocks) (t : ℕ)
    → clock_of i (prune present clocks) ≡ some t
    → (clock_of i clocks ≡ some t) × (elem i present ≡ true)
unfolding clock_of prune
clock_of-prune i present [] t h = cc
clock_of-prune i present ((k, u) ∷ clocks) t h =
    ground (arith, text_eq_iff k i, clock_of-prune i present clocks t)

-- The snapshot says that the instance is up but unused.
abbrev pub IsIdle : Text → Snapshot → Type 0
IsIdle i s = (s.name ≡ i) × (s.active ≡ false)

-- Where the time on an instance's clock comes from, for one snapshot.
abbrev pub Visited : Text → ℕ → ℕ → Clocks → Snapshot → Type 0
Visited i t now clocks s =
    ((clock_of i clocks ≡ some t) × ((s.name ≢ i) ⊎ (s.active ≡ false))) ⊎ ((t ≡ now) × IsIdle i s)

start_clock-clock :
    (i j : Text) (now t : ℕ) (clocks : Clocks)
    → clock_of i (start_clock j now clocks) ≡ some t
    → ((clock_of i clocks ≡ some t) × (j ≢ i)) ⊎ ((t ≡ now) × (j ≡ i))
unfolding clock_of start_clock
start_clock-clock i j now t clocks h = elim (Bool-cases (text_eq j i)) [
  | inl e ↦ inr (ground (arith, e), text_eq→≡ j i e)
  | inr e ↦
      let (old, ne) = clock_of-stop_clock i j clocks t (ground arith) in inl (old, λ q. ne (sym q))
]

pub visit-Visited :
    (cfg : Config) (i : Text) (t now : ℕ) (s : Snapshot) (clocks : Clocks)
    → in_scope cfg i ≡ true
    → clock_of i (visit cfg now s clocks).0 ≡ some t
    → Visited i t now clocks s
unfolding visit
visit-Visited cfg i t now s clocks k h = elim (Bool-cases (in_scope cfg s.name)) [
  | inr e ↦ inl (ground (arith, e), inl λ q. cc (ap (in_scope cfg) q))
  | inl e ↦ elim (Bool-cases s.active) [
    | inl a ↦
        let (old, ne) = clock_of-stop_clock i s.name clocks t (ground (arith, e, a)) in
        inl (old, inl λ q. ne (sym q))
    | inr a ↦ elim (Option-cases (clock_of s.name clocks)) [
      | inl c ↦
          elim (start_clock-clock i s.name now t clocks
            (unfold check_clock in ground (arith, e, a, c))) [
              | inl (old, ne) ↦ inl (old, inr a)
              | inr (new, same) ↦ inr (new, (same, a))
            ]
      | inr (since, c) ↦ elim (Bool-cases (leb cfg.idle_timeout (now - since))) [
        | inl d ↦
            let (old, ne) =
              clock_of-stop_clock i s.name clocks t
                (unfold check_clock in ground (arith, e, a, c, d)) in
            inl (old, inr a)
        | inr d ↦ inl (unfold check_clock in ground (arith, e, a, c, d), inr a)
      ]
    ]
  ]
]

pub visit-reaps :
    (cfg : Config) (i : Text) (now : ℕ) (s : Snapshot) (clocks : Clocks)
    → (visit cfg now s clocks).1 ≡ some i
    → IsIdle i s
      × (in_scope cfg i ≡ true)
      × ((t : ℕ) × (clock_of i clocks ≡ some t) × (cfg.idle_timeout ≤ now - t))
unfolding visit check_clock
visit-reaps cfg i now s clocks h = elim (Option-cases (clock_of s.name clocks)) [
  | inl c ↦ absurd (ground (arith, c))
  | inr (t, c) ↦
      let same : s.name ≡ i = ground (arith, c) in
      (
        (same, ground (arith, c)),
        ap (in_scope cfg) (sym same) ∙ ground (arith, c),
        (t, ap (λ j. clock_of j clocks) (sym same) ∙ c, ground (arith, c)),
      )
]
