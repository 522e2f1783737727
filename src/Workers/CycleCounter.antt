-- ===== src/Workers/CycleCounter.antt =====
-- The class `CycleCounter` of common/cycle_counter.h on Linux. What the system calls return is a
-- parameter.
pub mod Sound
use mm_mem.Base.{ℕ, Bool, true, false, not, ◌&&◌, ◌||◌, Option, none, some, ◌==◌, if◌then◌else◌}
use mathlib.Core.List.{[]}
use mm_mem.Text.{Text, codes}

-- The answers of the system to the calls of one counter.
pub record Perf : Type 0 where
  -- `perf_event_open`, and `strerror(errno)` where it fails
  pub fd : Option ℕ
  pub open_error : Text
  -- the two `ioctl` of `start`, and `strerror(errno)` where one of them fails
  pub reset : Bool
  pub enable : Bool
  pub start_error : Text
  -- the `ioctl` and the `read` of `stop`
  pub disable : Bool
  pub whole_read : Bool
  pub cycles : ℕ
  pub enabled : ℕ
  pub running : ℕ

-- `none` is a negative `fd_`.
pub record CycleCounter : Type 0 where
  pub fd : Option ℕ
  pub error : Text

-- The constructor
unfoldable pub open_counter : Perf → CycleCounter
open_counter perf = elim perf.fd [
  | none ↦ record { fd = none; error = perf.open_error }
  | some fd ↦ record { fd = some fd; error = [] }
]

unfoldable pub start : Perf → CycleCounter → CycleCounter × Bool
start perf c = elim c.fd [
  | none ↦ (c, false)
  | some fd ↦
      if perf.reset && perf.enable
      then (c, true)
      else (record c { error = perf.start_error }, false)
]

-- `stop`: the cycles, or zero with an error
unfoldable pub stop : Perf → CycleCounter → CycleCounter × ℕ
stop perf c = elim c.fd [
  | none ↦ (c, 0)
  | some fd ↦
      if not perf.disable || not perf.whole_read
      then (record c { error = codes "could not read hardware cycles" }, 0)
      else if perf.cycles == 0 || perf.running == 0
      then (record c { error = codes "hardware cycle counter did not run" }, 0)
      else if not (perf.running == perf.enabled)
      then (record c { error = codes "hardware cycle counter was multiplexed" }, 0)
      else (c, perf.cycles)
]
