-- ===== src/Kernels/R2w1.antt =====
-- The delayed kernels with 2 reads to a write:
-- cpu_micro/kernels_delay_bandwidth/kernels_delay_bandwidth_2_0.cc to _2_8.cc.
use mm_mem.Kernels.Code.{Code, ◌▹◌}
use mm_mem.Kernels.Macros.{
  lp2, lp3, lp4, lp32, mn1, mn2, mn4, mn8, mn16, mn32, mn48, mn64, mn80, mn88, mn96, mn104, mn112,
  mn128, mn160, mn192, mn224, mn256, mn320, mn384, mn448, mn512, mn640, mn768, mn1024, mn1536,
  mn2048, rd32, wr32,
}

unfoldable pub k_r2w1_s_n0 : Code
k_r2w1_s_n0 = lp32 (lp4 rd32 ▹ lp2 (rd32 ▹ wr32))

unfoldable pub k_r2w1_s_n1 : Code
k_r2w1_s_n1 = lp32 (lp4 rd32 ▹ lp2 (rd32 ▹ wr32) ▹ lp3 mn1)

unfoldable pub k_r2w1_s_n2 : Code
k_r2w1_s_n2 = lp32 (lp4 rd32 ▹ lp2 (rd32 ▹ wr32) ▹ lp3 mn2)

unfoldable pub k_r2w1_s_n4 : Code
k_r2w1_s_n4 = lp32 (lp4 rd32 ▹ lp2 (rd32 ▹ wr32) ▹ lp3 mn4)

unfoldable pub k_r2w1_s_n8 : Code
k_r2w1_s_n8 = lp32 (lp4 rd32 ▹ lp2 (rd32 ▹ wr32) ▹ lp3 mn8)

unfoldable pub k_r2w1_s_n16 : Code
k_r2w1_s_n16 = lp32 (lp4 rd32 ▹ lp2 (rd32 ▹ wr32) ▹ lp3 mn16)

unfoldable pub k_r2w1_s_n32 : Code
k_r2w1_s_n32 = lp32 (lp4 rd32 ▹ lp2 (rd32 ▹ wr32) ▹ lp3 mn32)

unfoldable pub k_r2w1_s_n48 : Code
k_r2w1_s_n48 = lp32 (lp4 rd32 ▹ lp2 (rd32 ▹ wr32) ▹ lp3 mn48)

unfoldable pub k_r2w1_s_n64 : Code
k_r2w1_s_n64 = lp32 (lp4 rd32 ▹ lp2 (rd32 ▹ wr32) ▹ lp3 mn64)

unfoldable pub k_r2w1_s_n80 : Code
k_r2w1_s_n80 = lp32 (lp4 rd32 ▹ lp2 (rd32 ▹ wr32) ▹ lp3 mn80)

unfoldable pub k_r2w1_s_n88 : Code
k_r2w1_s_n88 = lp32 (lp4 rd32 ▹ lp2 (rd32 ▹ wr32) ▹ lp3 mn88)

unfoldable pub k_r2w1_s_n96 : Code
k_r2w1_s_n96 = lp32 (lp4 rd32 ▹ lp2 (rd32 ▹ wr32) ▹ lp3 mn96)

unfoldable pub k_r2w1_s_n104 : Code
k_r2w1_s_n104 = lp32 (lp4 rd32 ▹ lp2 (rd32 ▹ wr32) ▹ lp3 mn104)

unfoldable pub k_r2w1_s_n112 : Code
k_r2w1_s_n112 = lp32 (lp4 rd32 ▹ lp2 (rd32 ▹ wr32) ▹ lp3 mn112)

unfoldable pub k_r2w1_s_n128 : Code
k_r2w1_s_n128 = lp32 (lp4 rd32 ▹ lp2 (rd32 ▹ wr32) ▹ lp3 mn128)

unfoldable pub k_r2w1_s_n160 : Code
k_r2w1_s_n160 = lp32 (lp4 rd32 ▹ lp2 (rd32 ▹ wr32) ▹ lp3 mn160)

unfoldable pub k_r2w1_s_n192 : Code
k_r2w1_s_n192 = lp32 (lp4 rd32 ▹ lp2 (rd32 ▹ wr32) ▹ lp3 mn192)

unfoldable pub k_r2w1_s_n224 : Code
k_r2w1_s_n224 = lp32 (lp4 rd32 ▹ lp2 (rd32 ▹ wr32) ▹ lp3 mn224)

unfoldable pub k_r2w1_s_n256 : Code
k_r2w1_s_n256 = lp32 (lp4 rd32 ▹ lp2 (rd32 ▹ wr32) ▹ lp3 mn256)

unfoldable pub k_r2w1_s_n320 : Code
k_r2w1_s_n320 = lp32 (lp4 rd32 ▹ lp2 (rd32 ▹ wr32) ▹ lp3 mn320)

unfoldable pub k_r2w1_s_n384 : Code
k_r2w1_s_n384 = lp32 (lp4 rd32 ▹ lp2 (rd32 ▹ wr32) ▹ lp3 mn384)

unfoldable pub k_r2w1_s_n448 : Code
k_r2w1_s_n448 = lp32 (lp4 rd32 ▹ lp2 (rd32 ▹ wr32) ▹ lp3 mn448)

unfoldable pub k_r2w1_s_n512 : Code
k_r2w1_s_n512 = lp32 (lp4 rd32 ▹ lp2 (rd32 ▹ wr32) ▹ lp3 mn512)

unfoldable pub k_r2w1_s_n640 : Code
k_r2w1_s_n640 = lp32 (lp4 rd32 ▹ lp2 (rd32 ▹ wr32) ▹ lp3 mn640)

unfoldable pub k_r2w1_s_n768 : Code
k_r2w1_s_n768 = lp32 (lp4 rd32 ▹ lp2 (rd32 ▹ wr32) ▹ lp3 mn768)

unfoldable pub k_r2w1_s_n1024 : Code
k_r2w1_s_n1024 = lp32 (lp4 rd32 ▹ lp2 (rd32 ▹ wr32) ▹ lp3 mn1024)

unfoldable pub k_r2w1_s_n1536 : Code
k_r2w1_s_n1536 = lp32 (lp4 rd32 ▹ lp2 (rd32 ▹ wr32) ▹ lp3 mn1536)

unfoldable pub k_r2w1_s_n2048 : Code
k_r2w1_s_n2048 = lp32 (lp4 rd32 ▹ lp2 (rd32 ▹ wr32) ▹ lp3 mn2048)
