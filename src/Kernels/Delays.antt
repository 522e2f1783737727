-- ===== src/Kernels/Delays.antt =====
-- `get_kernels_with_delays` of
-- cpu_micro/kernels_delay_bandwidth/kernels_delay_bandwidth_utils.cc: the kernels with their delays.
use mm_mem.Base.{ℕ, List, [], ◌∷◌, ◌==◌, if◌then◌else◌}
use mm_mem.Kernels.Code.{Code}
use mm_mem.Kernels.R1w0.{
  k_r1w0_s_n1, k_r1w0_s_n8, k_r1w0_s_n32, k_r1w0_s_n48, k_r1w0_s_n64, k_r1w0_s_n80, k_r1w0_s_n88,
  k_r1w0_s_n96, k_r1w0_s_n104, k_r1w0_s_n112, k_r1w0_s_n128, k_r1w0_s_n160, k_r1w0_s_n192,
  k_r1w0_s_n224, k_r1w0_s_n256, k_r1w0_s_n384, k_r1w0_s_n512, k_r1w0_s_n768, k_r1w0_s_n1024,
  k_r1w0_s_n1536, k_r1w0_s_n2048,
}
use mm_mem.Kernels.R1w1.{
  k_r1w1_s_n1, k_r1w1_s_n8, k_r1w1_s_n32, k_r1w1_s_n48, k_r1w1_s_n64, k_r1w1_s_n80, k_r1w1_s_n88,
  k_r1w1_s_n96, k_r1w1_s_n104, k_r1w1_s_n112, k_r1w1_s_n128, k_r1w1_s_n160, k_r1w1_s_n192,
  k_r1w1_s_n224, k_r1w1_s_n256, k_r1w1_s_n384, k_r1w1_s_n512, k_r1w1_s_n768, k_r1w1_s_n1024,
  k_r1w1_s_n1536, k_r1w1_s_n2048,
}
use mm_mem.Kernels.R2w1.{
  k_r2w1_s_n1, k_r2w1_s_n8, k_r2w1_s_n32, k_r2w1_s_n48, k_r2w1_s_n64, k_r2w1_s_n80, k_r2w1_s_n88,
  k_r2w1_s_n96, k_r2w1_s_n104, k_r2w1_s_n112, k_r2w1_s_n128, k_r2w1_s_n160, k_r2w1_s_n192,
  k_r2w1_s_n224, k_r2w1_s_n256, k_r2w1_s_n320, k_r2w1_s_n384, k_r2w1_s_n448, k_r2w1_s_n512,
  k_r2w1_s_n640, k_r2w1_s_n768, k_r2w1_s_n1024, k_r2w1_s_n1536, k_r2w1_s_n2048,
}
use mm_mem.Kernels.R3w1.{
  k_r3w1_s_n1, k_r3w1_s_n8, k_r3w1_s_n32, k_r3w1_s_n48, k_r3w1_s_n64, k_r3w1_s_n80, k_r3w1_s_n88,
  k_r3w1_s_n96, k_r3w1_s_n104, k_r3w1_s_n112, k_r3w1_s_n128, k_r3w1_s_n160, k_r3w1_s_n192,
  k_r3w1_s_n224, k_r3w1_s_n256, k_r3w1_s_n384, k_r3w1_s_n512, k_r3w1_s_n768, k_r3w1_s_n1024,
  k_r3w1_s_n1536, k_r3w1_s_n2048,
}

abbrev pub delays_r1w0 : List (ℕ × Code)
delays_r1w0 =
    (1, k_r1w0_s_n1)
    ∷ (8, k_r1w0_s_n8)
    ∷ (32, k_r1w0_s_n32)
    ∷ (48, k_r1w0_s_n48)
    ∷ (64, k_r1w0_s_n64)
    ∷ (80, k_r1w0_s_n80)
    ∷ (88, k_r1w0_s_n88)
    ∷ (96, k_r1w0_s_n96)
    ∷ (104, k_r1w0_s_n104)
    ∷ (112, k_r1w0_s_n112)
    ∷ (128, k_r1w0_s_n128)
    ∷ (160, k_r1w0_s_n160)
    ∷ (192, k_r1w0_s_n192)
    ∷ (224, k_r1w0_s_n224)
    ∷ (256, k_r1w0_s_n256)
    ∷ (384, k_r1w0_s_n384)
    ∷ (512, k_r1w0_s_n512)
    ∷ (768, k_r1w0_s_n768)
    ∷ (1024, k_r1w0_s_n1024)
    ∷ (1536, k_r1w0_s_n1536)
    ∷ (2048, k_r1w0_s_n2048)
    ∷ []

abbrev pub delays_r1w1 : List (ℕ × Code)
delays_r1w1 =
    (1, k_r1w1_s_n1)
    ∷ (8, k_r1w1_s_n8)
    ∷ (32, k_r1w1_s_n32)
    ∷ (48, k_r1w1_s_n48)
    ∷ (64, k_r1w1_s_n64)
    ∷ (80, k_r1w1_s_n80)
    ∷ (88, k_r1w1_s_n88)
    ∷ (96, k_r1w1_s_n96)
    ∷ (104, k_r1w1_s_n104)
    ∷ (112, k_r1w1_s_n112)
    ∷ (128, k_r1w1_s_n128)
    ∷ (160, k_r1w1_s_n160)
    ∷ (192, k_r1w1_s_n192)
    ∷ (224, k_r1w1_s_n224)
    ∷ (256, k_r1w1_s_n256)
    ∷ (384, k_r1w1_s_n384)
    ∷ (512, k_r1w1_s_n512)
    ∷ (768, k_r1w1_s_n768)
    ∷ (1024, k_r1w1_s_n1024)
    ∷ (1536, k_r1w1_s_n1536)
    ∷ (2048, k_r1w1_s_n2048)
    ∷ []

abbrev pub delays_r2w1 : List (ℕ × Code)
delays_r2w1 =
    (1, k_r2w1_s_n1)
    ∷ (8, k_r2w1_s_n8)
    ∷ (32, k_r2w1_s_n32)
    ∷ (48, k_r2w1_s_n48)
    ∷ (64, k_r2w1_s_n64)
    ∷ (80, k_r2w1_s_n80)
    ∷ (88, k_r2w1_s_n88)
    ∷ (96, k_r2w1_s_n96)
    ∷ (104, k_r2w1_s_n104)
    ∷ (112, k_r2w1_s_n112)
    ∷ (128, k_r2w1_s_n128)
    ∷ (160, k_r2w1_s_n160)
    ∷ (192, k_r2w1_s_n192)
    ∷ (224, k_r2w1_s_n224)
    ∷ (256, k_r2w1_s_n256)
    ∷ (320, k_r2w1_s_n320)
    ∷ (384, k_r2w1_s_n384)
    ∷ (448, k_r2w1_s_n448)
    ∷ (512, k_r2w1_s_n512)
    ∷ (640, k_r2w1_s_n640)
    ∷ (768, k_r2w1_s_n768)
    ∷ (1024, k_r2w1_s_n1024)
    ∷ (1536, k_r2w1_s_n1536)
    ∷ (2048, k_r2w1_s_n2048)
    ∷ []

abbrev pub delays_r3w1 : List (ℕ × Code)
delays_r3w1 =
    (1, k_r3w1_s_n1)
    ∷ (8, k_r3w1_s_n8)
    ∷ (32, k_r3w1_s_n32)
    ∷ (48, k_r3w1_s_n48)
    ∷ (64, k_r3w1_s_n64)
    ∷ (80, k_r3w1_s_n80)
    ∷ (88, k_r3w1_s_n88)
    ∷ (96, k_r3w1_s_n96)
    ∷ (104, k_r3w1_s_n104)
    ∷ (112, k_r3w1_s_n112)
    ∷ (128, k_r3w1_s_n128)
    ∷ (160, k_r3w1_s_n160)
    ∷ (192, k_r3w1_s_n192)
    ∷ (224, k_r3w1_s_n224)
    ∷ (256, k_r3w1_s_n256)
    ∷ (384, k_r3w1_s_n384)
    ∷ (512, k_r3w1_s_n512)
    ∷ (768, k_r3w1_s_n768)
    ∷ (1024, k_r3w1_s_n1024)
    ∷ (1536, k_r3w1_s_n1536)
    ∷ (2048, k_r3w1_s_n2048)
    ∷ []

-- What is appended to the list, by the mix of reads and writes.
unfoldable pub get_kernels_with_delays : ℕ → List (ℕ × Code)
get_kernels_with_delays read_write_mix =
    if read_write_mix == 0
    then delays_r1w0
    else if read_write_mix == 1
    then delays_r1w1
    else if read_write_mix == 2
    then delays_r2w1
    else if read_write_mix == 3
    then delays_r3w1
    else (0, k_r2w1_s_n256) ∷ []
