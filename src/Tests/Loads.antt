-- ===== src/Tests/Loads.antt =====
-- Kernels of the load, of the bandwidth and of the branches.
use mm_mem.Base.{ℕ, ◌+◌, ◌*◌, ◌≤◌, ◌≡◌, refl, none, some, [], ◌∷◌, arith, length}
use mm_mem.Base.Int.{pos}
use mm_mem.Base.Returns.{Returns}
use mm_mem.Kernels.Code.{Code, accesses}
use mm_mem.Kernels.Bandwidth.{get_write_fraction}
use mm_mem.Kernels.Bandwidth.Traffic.{dirty_lines, bandwidth_kernel, dirty_lines-get_write_fraction}
use mm_mem.Kernels.Delays.{get_kernels_with_delays}
use mm_mem.Kernels.Delayed.Paced.{Paced, base_kernel, rate, get_kernels_with_delays-Paced}
use mm_mem.Kernels.Branch.{select_cases}
use mm_mem.LoadedLatency.{build_delays_and_kernels}
use mm_mem.LoadedLatency.Nearest.{
  IsNearest, build_delays_and_kernels-IsNearest, build_delays_and_kernels-other_mix,
}

get_kernels_with_delays-Paced_example : Paced (base_kernel 2) (rate 2) (get_kernels_with_delays 2)
get_kernels_with_delays-Paced_example = get_kernels_with_delays-Paced 2 (omega arith)

dirty_lines-get_write_fraction_example :
    (length (accesses (bandwidth_kernel 2)) ≡ 256)
    × (get_write_fraction 2 * 128 ≤ dirty_lines (accesses (bandwidth_kernel 2)) * 10000)
    × (dirty_lines (accesses (bandwidth_kernel 2)) * 10000 ≤ get_write_fraction 2 * 128 + 0)
dirty_lines-get_write_fraction_example = dirty_lines-get_write_fraction 2 (omega arith)

selected : select_cases 2 5 3 ≡ some (2, 3)
unfolding select_cases
selected = refl

abbrev three : ℕ
three = 3

build_delays_and_kernels-IsNearest_example :
    Returns
      (λ chosen.
        (item : ℕ × Code) × (chosen ≡ item ∷ item ∷ [])
        × IsNearest (pos 100) item (get_kernels_with_delays 0))
      (build_delays_and_kernels 0 (pos 100))
build_delays_and_kernels-IsNearest_example =
    build_delays_and_kernels-IsNearest 0 100 (omega arith) (omega arith)

build_delays_and_kernels-other_mix_example : build_delays_and_kernels 100 (pos 64) ≡ none
build_delays_and_kernels-other_mix_example =
    build_delays_and_kernels-other_mix 100 64 (omega arith) (omega arith)
