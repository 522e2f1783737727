-- ===== src/LoadedLatency.antt =====
-- The choice of load kernels in cpu_micro/cpu_loaded_latency.cc.
pub mod Nearest
use mm_mem.Base.{ℕ, ◌+◌, Bool, Option, none, some, List, [], ◌∷◌, ltb, if◌then◌else◌}
use mm_mem.Base.Int.{ℤ, pos, pos_part, neg_part, ◌-ℤ◌, ltb_ℤ}
use mm_mem.Kernels.Code.{Code}
use mm_mem.Kernels.Delays.{get_kernels_with_delays}

-- `delay_kernel_list`
abbrev pub DelayKernelList : Type 0
DelayKernelList = List (ℕ × Code)

-- `abs(delay - load_gen_delay)`
unfoldable pub distance : ℤ → ℕ × Code → ℕ
unfolding ◌-ℤ◌
distance wanted (delay, kernel) = let d = pos delay -ℤ wanted in pos_part d + neg_part d

-- The loop over the kernels: `gap` is the distance of the one in `out`.
unfoldable pub nearest_loop : ℤ → DelayKernelList → (gap : ℕ) → DelayKernelList → DelayKernelList
unfolding distance
nearest_loop wanted [] gap out = out
nearest_loop wanted (item ∷ rest) gap out =
    let closer = ltb (distance wanted item) gap in
    nearest_loop wanted rest (if closer then distance wanted item else gap)
      (if closer then item ∷ [] else out)

-- `push_front(front())`, which is undefined on an empty list
unfoldable pub repeat_front : DelayKernelList → Option (DelayKernelList)
repeat_front [] = none
repeat_front (item ∷ rest) = some (item ∷ item ∷ rest)

unfoldable pub build_delays_and_kernels : (read_write_mix : ℕ) → ℤ → Option (DelayKernelList)
unfolding nearest_loop repeat_front
build_delays_and_kernels read_write_mix load_gen_delay =
    let raw = get_kernels_with_delays read_write_mix in
    repeat_front (
      if ltb_ℤ (pos 0) load_gen_delay
      then nearest_loop load_gen_delay raw (pos_part load_gen_delay) []
      else raw)
