-- ===== src/Tests/Reaps.antt =====
-- The reaper on the cases of internal/reaper/reaper_test.go.
use xemu_cartographer.Base.{◌≡◌, refl, true, false, [], ◌∷◌, In, here, arith}
use xemu_cartographer.Text.{codes}
use xemu_cartographer.Reaper.{Snapshot, Config, History, tick, info, run, no_info}
use xemu_cartographer.Reaper.Runs.{IsOverdue, tick-IsOverdue, tick-reaps}
use xemu_cartographer.Tests.{evaluated}

abbrev ten : Config
ten = record { idle_timeout = 10; warn_before = 3; name_prefix = codes "box" }

abbrev unused : Snapshot
unused = record { name = codes "box1"; active = false }

abbrev played : Snapshot
played = record { name = codes "box1"; active = true }

-- Idle from 5 on, after a game at 4.
abbrev idle_from_five : History
idle_from_five = (9, unused ∷ []) ∷ (5, unused ∷ []) ∷ (4, played ∷ []) ∷ []

clock_starts : run ten idle_from_five ≡ (codes "box1", 5) ∷ []
unfolding evaluated
clock_starts = refl

warns : (info ten 12 (run ten idle_from_five) (codes "box1")).warning ≡ true
unfolding evaluated
warns = refl

play_resets : info ten 12 (run ten ((10, played ∷ []) ∷ idle_from_five)) (codes "box1") ≡ no_info
unfolding evaluated
play_resets = refl

tick-IsOverdue_example : IsOverdue ten (codes "box1") 15 idle_from_five (unused ∷ [])
unfolding evaluated
tick-IsOverdue_example =
    tick-IsOverdue ten (codes "box1") 15 idle_from_five (unused ∷ []) (here refl)

tick-reaps_example : In (codes "box1") (tick ten 15 (unused ∷ []) ((codes "box1", 5) ∷ [])).1
unfolding evaluated
tick-reaps_example =
    tick-reaps ten (codes "box1") 5 15 (unused ∷ []) ((codes "box1", 5) ∷ []) refl refl refl
      (omega arith) (here (refl, refl)) ((λ e. refl), tt)
