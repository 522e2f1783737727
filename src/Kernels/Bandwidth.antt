-- ===== src/Kernels/Bandwidth.antt =====
-- The kernels of the peak bandwidth test, cpu_micro/kernels_bandwidth.h, and the fraction of written
-- lines, cpu_micro/worker_common.cc.
pub mod Traffic
use mm_mem.Base.{ℕ, List, [], ◌∷◌, ◌==◌, if◌then◌else◌}
use mm_mem.Kernels.Code.{Code, ◌▹◌}
use mm_mem.Kernels.Macros.{lp1, lp2, lp3, lp4, lp5, lp32, lp42, lp128, lp256, rd32, wr32}

unfoldable pub kernel_bw_r1w0_sequential : Code
kernel_bw_r1w0_sequential = lp256 rd32

unfoldable pub kernel_bw_r1w1_sequential : Code
kernel_bw_r1w1_sequential = lp128 (rd32 ▹ wr32)

unfoldable pub kernel_bw_r2w1_sequential : Code
kernel_bw_r2w1_sequential = lp32 (lp4 rd32 ▹ lp2 (rd32 ▹ wr32))

unfoldable pub kernel_bw_r3w1_sequential : Code
kernel_bw_r3w1_sequential = lp42 (lp5 rd32 ▹ wr32) ▹ lp3 rd32 ▹ lp1 wr32

-- What is appended to the list, by the mix of reads and writes; 100 is the sweep.
unfoldable pub get_kernels_with_wrmix : ℕ → List (ℕ × Code)
get_kernels_with_wrmix read_write_mix =
    if read_write_mix == 0
    then (0, kernel_bw_r1w0_sequential) ∷ []
    else if read_write_mix == 1
    then (1, kernel_bw_r1w1_sequential) ∷ []
    else if read_write_mix == 2
    then (2, kernel_bw_r2w1_sequential) ∷ []
    else if read_write_mix == 3
    then (3, kernel_bw_r3w1_sequential) ∷ []
    else if read_write_mix == 100
    then (0, kernel_bw_r1w0_sequential)
      ∷ (3, kernel_bw_r3w1_sequential)
      ∷ (2, kernel_bw_r2w1_sequential)
      ∷ (1, kernel_bw_r1w1_sequential)
      ∷ []
    else (0, kernel_bw_r1w0_sequential) ∷ []

-- The `float` constants in ten-thousandths.
unfoldable pub get_write_fraction : ℕ → ℕ
get_write_fraction read_write_mix =
    if read_write_mix == 1
    then 10000
    else if read_write_mix == 2
    then 5000
    else if read_write_mix == 3
    then 3333
    else 0
