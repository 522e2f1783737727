-- ===== src/Tests/Machine.antt =====
-- A machine on which the test programs run: its system, its clock of two seconds and its arithmetic.
use mm_mem.Base.{ℕ, ◌+◌, ◌*◌, ◌/◌, ◌^◌, refl, true, some, [], arith, ltb, if◌then◌else◌}
use mm_mem.MemRegion.Memory.{Memory}
use mm_mem.MemRegion.Region.{Os}
use mm_mem.Workers.Timer.{Clock}
use mm_mem.Workers.Timer.Elapsed.{IsClock}
use mm_mem.Workers.Measure.Moved.{moved, IsMemcpy}
use mm_mem.Programs.{Floats, Session}
use mm_mem.Programs.Crew.{Machine, Surroundings}

abbrev pub clock : Clock
clock k = if ltb k 1 then 0 else 3000000000

pub clock-IsClock : IsClock clock
clock-IsClock = record { onward = λ k. ground arith; bounded = λ k. ground arith }

abbrev pub zeros : Memory
zeros b = 0

-- A `memcpy`
abbrev pub copies : (dst src size : ℕ) → Memory → Memory
copies dst src size m = moved m dst src size

pub copies-IsMemcpy : IsMemcpy copies
copies-IsMemcpy dst src n m b apart = refl

abbrev pub floats : Floats
floats = record {
  F = ℕ;
  of_nat = λ n. n;
  add = λ a b. a + b;
  mul = λ a b. a * b;
  div = λ a b. a / b;
  max = λ a b. if ltb a b then b else a;
  positive = ltb 0;
  to_uint32 = λ a. a;
  to_uint64 = λ a. a;
  setup_time_ns = 7;
  show = λ n unit. [];
}

abbrev pub os : Os
os = record {
  page_size = 4096;
  max_node = 1;
  set_mempolicy = λ mode nodemask maxnode. true;
  mmap = λ size log2. some 2097152;
  aligned_alloc = λ size. some 4096;
}

abbrev pub surroundings : Surroundings ℕ
surroundings = record {
  rounding = record {
    seconds = λ ns. ns / 1000000000;
    with_written = λ bytes fraction. bytes + bytes * fraction / 10000;
    exceeds = λ time target percent. ltb (target * percent) (time * 100);
  };
  zero_time = 0;
  fuel = 2 ^ 32;
  os = λ k i. os;
  src_os = λ k i. record os { aligned_alloc = λ size. some 16384 };
  rand = λ k i call. call;
  clock = λ k i. clock;
  kernel_memcpy = copies;
  pthread_create = λ k i. 0;
  timedjoin = λ k i. 0;
  timeout_s = 300;
}

abbrev pub begin : Session ℕ (Machine ℕ)
begin = record { out = []; world = record { memory = zeros; held = []; runs = 0; err = [] } }
