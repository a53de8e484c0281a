-- ===== src/Reaper/Runs.antt =====
-- The passes of the reaper in a row: what is reaped was idle for the whole window.
use xemu_cartographer.Base.{
  ℕ, ◌+◌, ◌≤◌, ◌<◌, ◌≡◌, ◌≢◌, refl, sym, ◌∙◌, inl, inr, true, false, Option, none, some, List, [],
  ◌∷◌, arith, Bool-cases, Option-cases, In, here, there, Any, All,
}
use xemu_cartographer.Text.{Text, text_eq}
use xemu_cartographer.Text.Laws.{text_eq_iff, text_eq→≡}
use xemu_cartographer.Reaper.{
  Snapshot, Config, Clocks, History, clock_of, start_clock, in_scope, check_clock, visit, visit_all,
  listed, names, enabled, tick, run,
}
use xemu_cartographer.Reaper.Clocks.{IsIdle, clock_of-prune, stop_clock-other}
use xemu_cartographer.Reaper.Passes.{visit_all-Passed, visit_all-IsDue}

-- The instance was up and unused in a pass at the time `t` and in each pass since.
pub data IsIdleSince (i : Text) (t : ℕ) : History → Type 0 where
  first :
      {now : ℕ} {snaps : List Snapshot} {earlier : History}
      → t ≡ now
      → Any (IsIdle i) snaps
      → IsIdleSince i t ((now, snaps) ∷ earlier)
  still :
      {now : ℕ} {snaps : List Snapshot} {earlier : History}
      → Any (IsIdle i) snaps
      → IsIdleSince i t earlier
      → IsIdleSince i t ((now, snaps) ∷ earlier)

run-IsIdleSince :
    (cfg : Config) (i : Text) (t : ℕ) (h : History)
    → enabled cfg ≡ true
    → in_scope cfg i ≡ true
    → clock_of i (run cfg h) ≡ some t
    → IsIdleSince i t h
unfolding run tick
run-IsIdleSince cfg i t [] on k c = unfold clock_of in cc c
run-IsIdleSince cfg i t ((now, snaps) ∷ earlier) on k c =
    let (found, present) =
      clock_of-prune i (names snaps) (visit_all cfg now snaps (run cfg earlier)).0 t
        (rw (run, tick, on) at c) in
    elim (visit_all-Passed cfg i t now snaps (run cfg earlier) k found) [
      | inl (old, f) ↦ still (f present) (run-IsIdleSince cfg i t earlier on k old)
      | inr (new, idle) ↦ first new idle
    ]

-- Why the pass at `now` after the passes `h` tears an instance down.
pub record IsOverdue (cfg : Config) (i : Text) (now : ℕ) (h : History) (snaps : List Snapshot)
    : Type 0 where
  pub on : enabled cfg ≡ true
  pub scoped : in_scope cfg i ≡ true
  pub idle : Any (IsIdle i) snaps
  pub since : ℕ
  pub unused : IsIdleSince i since h
  pub window : since + cfg.idle_timeout ≤ now

-- Whatever the passes before, an instance that a pass tears down is in the reaper's scope, is up and
-- unused in that pass, and was so in each pass from one on that is at least the idle window past.
pub tick-IsOverdue :
    (cfg : Config) (i : Text) (now : ℕ) (h : History) (snaps : List Snapshot)
    → In i (tick cfg now snaps (run cfg h)).1
    → IsOverdue cfg i now h snaps
tick-IsOverdue cfg i now h snaps reaped = elim (Bool-cases (enabled cfg)) [
  | inr off ↦ nothing (unfold tick in (rw off at reaped))
  | inl on ↦
      let due = visit_all-IsDue cfg i now snaps (run cfg h) (unfold tick in (rw on at reaped)) in
      let positive : 0 < cfg.idle_timeout = unfold enabled in ground arith in
      elim due.clock [
        | inr e ↦ absurd (omega (arith, due.long, e))
        | inl c ↦ record {
          on = on;
          scoped = due.scoped;
          idle = due.idle;
          since = due.since;
          unused = run-IsIdleSince cfg i due.since h on due.scoped c;
          window = omega (arith, due.long);
        }
      ]
]
  where
    nothing : In i [] → IsOverdue cfg i now h snaps
    nothing e = elim e [ ]

visit-other :
    (cfg : Config) (i : Text) (now : ℕ) (s : Snapshot) (clocks : Clocks)
    → s.name ≢ i
    → clock_of i (visit cfg now s clocks).0 ≡ clock_of i clocks
unfolding visit check_clock start_clock
visit-other cfg i now s clocks ne =
    let stopped = stop_clock-other i s.name clocks (λ e. ne (sym e)) in
    elim (Option-cases (clock_of s.name clocks)) [
      | inl c ↦ unfold clock_of in ground (arith, c, stopped, text_eq_iff s.name i)
      | inr (t, c) ↦ ground (arith, c, stopped)
    ]

visit-due :
    (cfg : Config) (i : Text) (t now : ℕ) (s : Snapshot) (clocks : Clocks)
    → IsIdle i s
    → in_scope cfg i ≡ true
    → clock_of i clocks ≡ some t
    → t + cfg.idle_timeout ≤ now
    → (visit cfg now s clocks).1 ≡ some i
unfolding visit check_clock
visit-due cfg i t now s clocks idle k c d = rw (idle.0, idle.1) (ground (arith, k, c))

listed-there :
    (i : Text) (found : Option Text) (later : List Text) → In i later → In i (listed found later)
listed-there i none later h = h
listed-there i (some j) later h = there h

not_here :
    (i : Text) (s : Snapshot) (snaps : List Snapshot)
    → s.name ≢ i
    → Any (IsIdle i) (s ∷ snaps)
    → Any (IsIdle i) snaps
not_here i s snaps ne (here idle) = absurd (ne idle.0)
not_here i s snaps ne (there seen) = seen

visit_all-reaps :
    (cfg : Config) (i : Text) (t now : ℕ) (snaps : List Snapshot) (clocks : Clocks)
    → in_scope cfg i ≡ true
    → clock_of i clocks ≡ some t
    → t + cfg.idle_timeout ≤ now
    → Any (IsIdle i) snaps
    → All (λ s. s.name ≡ i → s.active ≡ false) snaps
    → In i (visit_all cfg now snaps clocks).1
unfolding visit_all
visit_all-reaps cfg i t now [] clocks k c d seen unused = elim seen [ ]
visit_all-reaps cfg i t now (s ∷ snaps) clocks k c d seen unused =
    let later = (visit_all cfg now snaps (visit cfg now s clocks).0).1 in
    elim (Bool-cases (text_eq s.name i)) [
      | inl e ↦
          let same = text_eq→≡ s.name i e in
          rw (visit-due cfg i t now s clocks (same, unused.0 same) k c d) (here refl)
      | inr e ↦
          let ne : s.name ≢ i = ground (arith, e, text_eq_iff s.name i) in
          listed-there i (visit cfg now s clocks).1 later (
            visit_all-reaps cfg i t now snaps (visit cfg now s clocks).0 k
              (visit-other cfg i now s clocks ne ∙ c) d (not_here i s snaps ne seen) unused.1)
    ]

-- An instance whose clock is at least the idle window old is torn down by the next pass in which it
-- is up and unused, if reaping is on, it is in scope, and no snapshot of the pass has it in use.
pub tick-reaps :
    (cfg : Config) (i : Text) (t now : ℕ) (snaps : List Snapshot) (clocks : Clocks)
    → enabled cfg ≡ true
    → in_scope cfg i ≡ true
    → clock_of i clocks ≡ some t
    → t + cfg.idle_timeout ≤ now
    → Any (IsIdle i) snaps
    → All (λ s. s.name ≡ i → s.active ≡ false) snaps
    → In i (tick cfg now snaps clocks).1
unfolding tick
tick-reaps cfg i t now snaps clocks on k c d seen unused =
    rw on (visit_all-reaps cfg i t now snaps clocks k c d seen unused)
