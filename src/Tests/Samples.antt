-- ===== src/Tests/Samples.antt =====
-- Samples of branches, a cycle counter and timers with a name, on a clock that strikes every second.
use mm_mem.Base.{
  ◌*◌, ◌≡◌, ◌≢◌, ◌⊎◌, refl, true, false, none, some, List, [], ◌∷◌, arith, leb, if◌then◌else◌,
  get_elem?,
}
use mm_mem.Base.Returns.{Returns}
use mm_mem.Text.{Text, codes, to_string}
use mm_mem.Kernels.Branch.{BranchCase, branch_cases}
use mm_mem.Workers.Timer.{Clock}
use mm_mem.Workers.Timer.Elapsed.{IsClock}
use mm_mem.Workers.Timer.Named.{Show, Call, start_of, end_of}
use mm_mem.Workers.Timer.Named.Spec.{outputs, spec_outputs}
use mm_mem.Workers.Timer.Named.Refines.{outputs-spec_outputs}
use mm_mem.Workers.CycleCounter.{Perf}
use mm_mem.Workers.CycleCounter.Sound.{count_cycles, IsTelling, IsMeasured, count_cycles_sound}
use mm_mem.Workers.Branch.{branch_tp}
use mm_mem.Workers.Branch.Samples.{IsSampled, branch_tp-Returns}

-- It stops after an hour.
abbrev clock : Clock
clock k = if leb k 3600 then k * 1000000000 else 3600000000000

clock-IsClock : IsClock clock
clock-IsClock = record { onward = λ k. ground arith; bounded = λ k. ground arith }

abbrev perf : Perf
perf = record {
  fd = some 3;
  open_error = codes "Permission denied";
  reset = true;
  enable = true;
  start_error = codes "Bad file descriptor";
  disable = true;
  whole_read = true;
  cycles = 1000;
  enabled = 7;
  running = 7;
}

telling : IsTelling perf
telling = record { open_told = λ e. cc e; start_told = λ e. cc e }

count_cycles_sound_example :
    (IsMeasured perf (count_cycles perf).1 × ((count_cycles perf).0.error ≡ []))
    ⊎ (((count_cycles perf).1 ≡ 0) × ((count_cycles perf).0.error ≢ []))
count_cycles_sound_example = count_cycles_sound perf telling

abbrev kernel : BranchCase
kernel = record { conditional = false; branches = 32; spacing = 16 }

found : get_elem? branch_cases 1 ≡ some kernel
unfolding branch_cases
found = refl

branch_tp-Returns_example :
    Returns
      (λ o.
        IsSampled clock (leb 2500000000) 5 kernel o
        × (o.cycles ≡ (count_cycles perf).1)
        × (o.counter_error ≡ (count_cycles perf).0.error))
      (branch_tp perf clock (leb 2500000000) 8 1)
branch_tp-Returns_example =
    branch_tp-Returns perf clock (leb 2500000000) 8 1 5 kernel found clock-IsClock refl
      (omega arith) (omega arith) (omega arith)

abbrev show : Show
show n unit = to_string n

abbrev what : Text
what = codes "map"

abbrev calls : List Call
calls =
    start_of (codes "setup")
    ∷ start_of (codes "run")
    ∷ end_of (codes "setup")
    ∷ end_of (codes "other")
    ∷ []

outputs-spec_outputs_example :
    outputs show what clock calls (record { reading = 0; entries = [] })
    ≡ spec_outputs show clock calls (record { reading = 0; since = λ k. none })
outputs-spec_outputs_example = outputs-spec_outputs show what clock clock-IsClock calls 0
