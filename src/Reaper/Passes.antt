-- ===== src/Reaper/Passes.antt =====
-- One pass of the reaper over its snapshots.
use xemu_cartographer.Base.{
  ℕ, ◌-◌, ◌≤◌, ◌≡◌, ◌≢◌, sym, ap, ◌⊎◌, inl, inr, true, false, Option, none, some, List, [], ◌∷◌,
  arith, Bool-cases, In, here, there, Any, any,
}
use xemu_cartographer.Text.{Text, text_eq, elem}
use xemu_cartographer.Text.Laws.{text_eq_iff}
use xemu_cartographer.Reaper.{
  Snapshot, Config, Clocks, clock_of, in_scope, visit, visit_all, listed, names,
}
use xemu_cartographer.Reaper.Clocks.{IsIdle, visit-Visited, visit-reaps}

-- Where the time on an instance's clock comes from, for a whole pass.
abbrev pub Passed : Text → ℕ → ℕ → Clocks → List Snapshot → Type 0
Passed i t now clocks snaps =
    ((clock_of i clocks ≡ some t) × (elem i (names snaps) ≡ true → Any (IsIdle i) snaps))
    ⊎ ((t ≡ now) × Any (IsIdle i) snaps)

seen-idle :
    (i : Text) (s : Snapshot) (snaps : List Snapshot)
    → (s.name ≢ i) ⊎ (s.active ≡ false)
    → (elem i (names snaps) ≡ true → Any (IsIdle i) snaps)
    → elem i (names (s ∷ snaps)) ≡ true
    → Any (IsIdle i) (s ∷ snaps)
unfolding elem
seen-idle i s snaps c f h = elim (Bool-cases (any (text_eq i) (names snaps))) [
  | inl e ↦ there (f e)
  | inr e ↦
      let same : s.name ≡ i = ground (arith, e, text_eq_iff i s.name) in
      elim c [ inl ne ↦ absurd (ne same) | inr a ↦ here (same, a) ]
]

nobody : (i : Text) → elem i [] ≡ true → Any (IsIdle i) []
unfolding elem
nobody i h = cc

pub visit_all-Passed :
    (cfg : Config) (i : Text) (t now : ℕ) (snaps : List Snapshot) (clocks : Clocks)
    → in_scope cfg i ≡ true
    → clock_of i (visit_all cfg now snaps clocks).0 ≡ some t
    → Passed i t now clocks snaps
unfolding visit_all
visit_all-Passed cfg i t now [] clocks k h = inl (h, nobody i)
visit_all-Passed cfg i t now (s ∷ snaps) clocks k h =
    elim (visit_all-Passed cfg i t now snaps (visit cfg now s clocks).0 k h) [
      | inr (new, idle) ↦ inr (new, there idle)
      | inl (after, f) ↦ elim (visit-Visited cfg i t now s clocks k after) [
        | inl (old, c) ↦ inl (old, seen-idle i s snaps c f)
        | inr (new, idle) ↦ inr (new, here idle)
      ]
    ]

-- Why a pass reaps an instance.
pub record IsDue (cfg : Config) (i : Text) (now : ℕ) (clocks : Clocks) (snaps : List Snapshot)
    : Type 0 where
  pub since : ℕ
  pub clock : (clock_of i clocks ≡ some since) ⊎ (since ≡ now)
  pub long : cfg.idle_timeout ≤ now - since
  pub idle : Any (IsIdle i) snaps
  pub scoped : in_scope cfg i ≡ true

listed-In :
    (i : Text) (found : Option Text) (to_reap : List Text)
    → In i (listed found to_reap)
    → (found ≡ some i) ⊎ In i to_reap
listed-In i none to_reap h = inr h
listed-In i (some j) to_reap (here e) = inl (ap some (sym e))
listed-In i (some j) to_reap (there h) = inr h

pub visit_all-IsDue :
    (cfg : Config) (i : Text) (now : ℕ) (snaps : List Snapshot) (clocks : Clocks)
    → In i (visit_all cfg now snaps clocks).1
    → IsDue cfg i now clocks snaps
unfolding visit_all
visit_all-IsDue cfg i now [] clocks h = elim h [ ]
visit_all-IsDue cfg i now (s ∷ snaps) clocks h =
    elim (listed-In i (visit cfg now s clocks).1
      (visit_all cfg now snaps (visit cfg now s clocks).0).1 h) [
        | inl e ↦
            let (idle, k, (t, c, d)) = visit-reaps cfg i now s clocks e in
            record { since = t; clock = inl c; long = d; idle = here idle; scoped = k }
        | inr later ↦
            let due = visit_all-IsDue cfg i now snaps (visit cfg now s clocks).0 later in
            record {
              since = due.since;
              clock = elim due.clock [
                | inr e ↦ inr e
                | inl c ↦ elim (visit-Visited cfg i due.since now s clocks due.scoped c) [
                  | inl (old, _) ↦ inl old
                  | inr (new, _) ↦ inr new
                ]
              ];
              long = due.long;
              idle = there due.idle;
              scoped = due.scoped;
            }
      ]
