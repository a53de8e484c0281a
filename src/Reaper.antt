-- ===== src/Reaper.antt =====
-- internal/reaper/reaper.go: boxes that were idle too long are torn down. Times and durations are
-- natural numbers; a negative duration disables what a zero one does, and is read as zero.
pub mod Clocks
pub mod Passes
pub mod Runs
use xemu_cartographer.Base.{
  ℕ, ◌+◌, ◌-◌, Bool, true, false, not, ◌&&◌, Option, none, some, List, [], ◌∷◌, map, any, is_empty,
  if◌then◌else◌, ltb, leb,
}
use xemu_cartographer.Text.{Text, text_eq, has_prefix, elem}

pub record Snapshot : Type 0 where
  pub name : Text
  pub active : Bool

pub record Config : Type 0 where
  pub idle_timeout : ℕ
  pub warn_before : ℕ
  pub name_prefix : Text

-- The map idleSince, from instances to the time of their first idle observation.
abbrev pub Clocks : Type 0
Clocks = List (Text × ℕ)

unfoldable pub clock_of : Text → Clocks → Option ℕ
clock_of i [] = none
clock_of i ((j, t) ∷ clocks) = if text_eq j i then some t else clock_of i clocks

unfoldable pub stop_clock : Text → Clocks → Clocks
stop_clock i [] = []
stop_clock i ((j, t) ∷ clocks) =
    let rest = stop_clock i clocks in if text_eq j i then rest else (j, t) ∷ rest

unfoldable pub start_clock : Text → ℕ → Clocks → Clocks
start_clock i t clocks = (i, t) ∷ stop_clock i clocks

unfoldable pub enabled : Config → Bool
enabled cfg = ltb 0 cfg.idle_timeout

-- Reaper.matches
unfoldable pub in_scope : Config → Text → Bool
in_scope cfg i = if is_empty cfg.name_prefix then true else has_prefix cfg.name_prefix i

-- An idle box in scope, by its clock: the clocks after, and the instance if it is to be reaped.
unfoldable pub check_clock : Config → ℕ → Text → Clocks → Option ℕ → Clocks × Option Text
check_clock cfg now i clocks none = (start_clock i now clocks, none)
check_clock cfg now i clocks (some since) =
    if leb cfg.idle_timeout (now - since) then (stop_clock i clocks, some i) else (clocks, none)

-- The body of Tick's loop over the snapshots.
unfoldable pub visit : Config → ℕ → Snapshot → Clocks → Clocks × Option Text
visit cfg now s clocks =
    if not (in_scope cfg s.name)
    then (clocks, none)
    else if s.active
    then (stop_clock s.name clocks, none)
    else check_clock cfg now s.name clocks (clock_of s.name clocks)

abbrev pub listed : Option Text → List Text → List Text
listed none to_reap = to_reap
listed (some i) to_reap = i ∷ to_reap

unfoldable pub visit_all : Config → ℕ → List Snapshot → Clocks → Clocks × List Text
visit_all cfg now [] clocks = (clocks, [])
visit_all cfg now (s ∷ snaps) clocks =
    let (after, found) = visit cfg now s clocks in
    let (final, to_reap) = visit_all cfg now snaps after in (final, listed found to_reap)

abbrev pub names : List Snapshot → List Text
names snaps = map (λ (s : Snapshot). s.name) snaps

-- Clocks of instances that are not present are dropped.
unfoldable pub prune : List Text → Clocks → Clocks
prune present [] = []
prune present ((j, t) ∷ clocks) =
    let rest = prune present clocks in if elem j present then (j, t) ∷ rest else rest

-- Tick: the clocks after, and the instances that the remover is called with, in order. What the
-- remover answers is only logged.
unfoldable pub tick : Config → ℕ → List Snapshot → Clocks → Clocks × List Text
tick cfg now snaps clocks =
    let (after, to_reap) = visit_all cfg now snaps clocks in
    if not (enabled cfg) then (clocks, []) else (prune (names snaps) after, to_reap)

pub record Info : Type 0 where
  pub idle : Bool
  pub idle_since : ℕ
  pub reap_at : ℕ
  pub warning : Bool

abbrev pub no_info : Info
no_info = record { idle = false; idle_since = 0; reap_at = 0; warning = false }

unfoldable pub countdown : Config → ℕ → Option ℕ → Info
countdown cfg now none = no_info
countdown cfg now (some since) =
    let reap_at = since + cfg.idle_timeout in
    record {
      idle = true;
      idle_since = since;
      reap_at = reap_at;
      warning = ltb 0 cfg.warn_before && not (ltb now (reap_at - cfg.warn_before));
    }

-- Reaper.Info
unfoldable pub info : Config → ℕ → Clocks → Text → Info
info cfg now clocks i = if not (enabled cfg) then no_info else countdown cfg now (clock_of i clocks)

-- Run: the passes of the loop, each with its time and its snapshots, the latest first.
abbrev pub History : Type 0
History = List (ℕ × List Snapshot)

unfoldable pub run : Config → History → Clocks
run cfg [] = []
run cfg ((now, snaps) ∷ earlier) = (tick cfg now snaps (run cfg earlier)).0
