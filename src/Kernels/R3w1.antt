-- ===== src/Kernels/R3w1.antt =====
-- The delayed kernels with 3 reads to a write:
-- cpu_micro/kernels_delay_bandwidth/kernels_delay_bandwidth_3_0.cc to _3_8.cc.
use mm_mem.Kernels.Code.{Code, ◌▹◌}
use mm_mem.Kernels.Macros.{
  lp1, lp3, lp4, lp5, lp8, lp42, mn1, mn2, mn4, mn8, mn16, mn32, mn48, mn64, mn80, mn88, mn96,
  mn104, mn112, mn128, mn160, mn192, mn224, mn256, mn384, mn512, mn768, mn1024, mn1536, mn2048,
  rd32, wr32,
}

unfoldable pub k_r3w1_s_n0 : Code
k_r3w1_s_n0 = lp42 (lp5 rd32 ▹ wr32) ▹ lp3 rd32 ▹ lp1 wr32

unfoldable pub k_r3w1_s_n1 : Code
k_r3w1_s_n1 = lp42 (lp5 rd32 ▹ wr32 ▹ lp8 mn1) ▹ lp3 rd32 ▹ lp1 wr32 ▹ lp4 mn1

unfoldable pub k_r3w1_s_n2 : Code
k_r3w1_s_n2 = lp42 (lp5 rd32 ▹ wr32 ▹ lp8 mn2) ▹ lp3 rd32 ▹ lp1 wr32 ▹ lp4 mn2

unfoldable pub k_r3w1_s_n4 : Code
k_r3w1_s_n4 = lp42 (lp5 rd32 ▹ wr32 ▹ lp8 mn4) ▹ lp3 rd32 ▹ lp1 wr32 ▹ lp4 mn4

unfoldable pub k_r3w1_s_n8 : Code
k_r3w1_s_n8 = lp42 (lp5 rd32 ▹ wr32 ▹ lp8 mn8) ▹ lp3 rd32 ▹ lp1 wr32 ▹ lp4 mn8

unfoldable pub k_r3w1_s_n16 : Code
k_r3w1_s_n16 = lp42 (lp5 rd32 ▹ wr32 ▹ lp8 mn16) ▹ lp3 rd32 ▹ lp1 wr32 ▹ lp4 mn16

unfoldable pub k_r3w1_s_n32 : Code
k_r3w1_s_n32 = lp42 (lp5 rd32 ▹ wr32 ▹ lp8 mn32) ▹ lp3 rd32 ▹ lp1 wr32 ▹ lp4 mn32

unfoldable pub k_r3w1_s_n48 : Code
k_r3w1_s_n48 = lp42 (lp5 rd32 ▹ wr32 ▹ lp8 mn48) ▹ lp3 rd32 ▹ lp1 wr32 ▹ lp4 mn48

unfoldable pub k_r3w1_s_n64 : Code
k_r3w1_s_n64 = lp42 (lp5 rd32 ▹ wr32 ▹ lp8 mn64) ▹ lp3 rd32 ▹ lp1 wr32 ▹ lp4 mn64

unfoldable pub k_r3w1_s_n80 : Code
k_r3w1_s_n80 = lp42 (lp5 rd32 ▹ wr32 ▹ lp8 mn80) ▹ lp3 rd32 ▹ lp1 wr32 ▹ lp4 mn80

unfoldable pub k_r3w1_s_n88 : Code
k_r3w1_s_n88 = lp42 (lp5 rd32 ▹ wr32 ▹ lp8 mn88) ▹ lp3 rd32 ▹ lp1 wr32 ▹ lp4 mn88

unfoldable pub k_r3w1_s_n96 : Code
k_r3w1_s_n96 = lp42 (lp5 rd32 ▹ wr32 ▹ lp8 mn96) ▹ lp3 rd32 ▹ lp1 wr32 ▹ lp4 mn96

unfoldable pub k_r3w1_s_n104 : Code
k_r3w1_s_n104 = lp42 (lp5 rd32 ▹ wr32 ▹ lp8 mn104) ▹ lp3 rd32 ▹ lp1 wr32 ▹ lp4 mn104

unfoldable pub k_r3w1_s_n112 : Code
k_r3w1_s_n112 = lp42 (lp5 rd32 ▹ wr32 ▹ lp8 mn112) ▹ lp3 rd32 ▹ lp1 wr32 ▹ lp4 mn112

unfoldable pub k_r3w1_s_n128 : Code
k_r3w1_s_n128 = lp42 (lp5 rd32 ▹ wr32 ▹ lp8 mn128) ▹ lp3 rd32 ▹ lp1 wr32 ▹ lp4 mn128

unfoldable pub k_r3w1_s_n160 : Code
k_r3w1_s_n160 = lp42 (lp5 rd32 ▹ wr32 ▹ lp8 mn160) ▹ lp3 rd32 ▹ lp1 wr32 ▹ lp4 mn160

unfoldable pub k_r3w1_s_n192 : Code
k_r3w1_s_n192 = lp42 (lp5 rd32 ▹ wr32 ▹ lp8 mn192) ▹ lp3 rd32 ▹ lp1 wr32 ▹ lp4 mn192

unfoldable pub k_r3w1_s_n224 : Code
k_r3w1_s_n224 = lp42 (lp5 rd32 ▹ wr32 ▹ lp8 mn224) ▹ lp3 rd32 ▹ lp1 wr32 ▹ lp4 mn224

unfoldable pub k_r3w1_s_n256 : Code
k_r3w1_s_n256 = lp42 (lp5 rd32 ▹ wr32 ▹ lp8 mn256) ▹ lp3 rd32 ▹ lp1 wr32 ▹ lp4 mn256

unfoldable pub k_r3w1_s_n384 : Code
k_r3w1_s_n384 = lp42 (lp5 rd32 ▹ wr32 ▹ lp8 mn384) ▹ lp3 rd32 ▹ lp1 wr32 ▹ lp4 mn384

unfoldable pub k_r3w1_s_n512 : Code
k_r3w1_s_n512 = lp42 (lp5 rd32 ▹ wr32 ▹ lp8 mn512) ▹ lp3 rd32 ▹ lp1 wr32 ▹ lp4 mn512

unfoldable pub k_r3w1_s_n768 : Code
k_r3w1_s_n768 = lp42 (lp5 rd32 ▹ wr32 ▹ lp8 mn768) ▹ lp3 rd32 ▹ lp1 wr32 ▹ lp4 mn768

unfoldable pub k_r3w1_s_n1024 : Code
k_r3w1_s_n1024 = lp42 (lp5 rd32 ▹ wr32 ▹ lp8 mn1024) ▹ lp3 rd32 ▹ lp1 wr32 ▹ lp4 mn1024

unfoldable pub k_r3w1_s_n1536 : Code
k_r3w1_s_n1536 = lp42 (lp5 rd32 ▹ wr32 ▹ lp8 mn1536) ▹ lp3 rd32 ▹ lp1 wr32 ▹ lp4 mn1536

unfoldable pub k_r3w1_s_n2048 : Code
k_r3w1_s_n2048 = lp42 (lp5 rd32 ▹ wr32 ▹ lp8 mn2048) ▹ lp3 rd32 ▹ lp1 wr32 ▹ lp4 mn2048
