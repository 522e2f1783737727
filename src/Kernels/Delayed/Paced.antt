-- ===== src/Kernels/Delayed/Paced.antt =====
-- What the delays of the load kernels change: the number of `nop`s, and nothing else.
use mm_mem.Base.{ℕ, zero, suc, ◌*◌, ◌<◌, List, [], ◌∷◌, arith, ◌==◌, if◌then◌else◌}
use mm_mem.Kernels.Code.{Code, rd, wr, ◌▹◌}
use mm_mem.Kernels.Macros.{lp1, lp2, lp3, lp4, lp5, lp8, lp32, lp42, lp128, lp256, rd32, wr32}
use mm_mem.Kernels.Delays.{get_kernels_with_delays}
use mm_mem.Kernels.R1w0.{
  k_r1w0_s_n0, k_r1w0_s_n1, k_r1w0_s_n8, k_r1w0_s_n32, k_r1w0_s_n48, k_r1w0_s_n64, k_r1w0_s_n80,
  k_r1w0_s_n88, k_r1w0_s_n96, k_r1w0_s_n104, k_r1w0_s_n112, k_r1w0_s_n128, k_r1w0_s_n160,
  k_r1w0_s_n192, k_r1w0_s_n224, k_r1w0_s_n256, k_r1w0_s_n384, k_r1w0_s_n512, k_r1w0_s_n768,
  k_r1w0_s_n1024, k_r1w0_s_n1536, k_r1w0_s_n2048,
}
use mm_mem.Kernels.R1w1.{
  k_r1w1_s_n0, k_r1w1_s_n1, k_r1w1_s_n8, k_r1w1_s_n32, k_r1w1_s_n48, k_r1w1_s_n64, k_r1w1_s_n80,
  k_r1w1_s_n88, k_r1w1_s_n96, k_r1w1_s_n104, k_r1w1_s_n112, k_r1w1_s_n128, k_r1w1_s_n160,
  k_r1w1_s_n192, k_r1w1_s_n224, k_r1w1_s_n256, k_r1w1_s_n384, k_r1w1_s_n512, k_r1w1_s_n768,
  k_r1w1_s_n1024, k_r1w1_s_n1536, k_r1w1_s_n2048,
}
use mm_mem.Kernels.R2w1.{
  k_r2w1_s_n0, k_r2w1_s_n1, k_r2w1_s_n8, k_r2w1_s_n32, k_r2w1_s_n48, k_r2w1_s_n64, k_r2w1_s_n80,
  k_r2w1_s_n88, k_r2w1_s_n96, k_r2w1_s_n104, k_r2w1_s_n112, k_r2w1_s_n128, k_r2w1_s_n160,
  k_r2w1_s_n192, k_r2w1_s_n224, k_r2w1_s_n256, k_r2w1_s_n320, k_r2w1_s_n384, k_r2w1_s_n448,
  k_r2w1_s_n512, k_r2w1_s_n640, k_r2w1_s_n768, k_r2w1_s_n1024, k_r2w1_s_n1536, k_r2w1_s_n2048,
}
use mm_mem.Kernels.R3w1.{
  k_r3w1_s_n0, k_r3w1_s_n1, k_r3w1_s_n8, k_r3w1_s_n32, k_r3w1_s_n48, k_r3w1_s_n64, k_r3w1_s_n80,
  k_r3w1_s_n88, k_r3w1_s_n96, k_r3w1_s_n104, k_r3w1_s_n112, k_r3w1_s_n128, k_r3w1_s_n160,
  k_r3w1_s_n192, k_r3w1_s_n224, k_r3w1_s_n256, k_r3w1_s_n384, k_r3w1_s_n512, k_r3w1_s_n768,
  k_r3w1_s_n1024, k_r3w1_s_n1536, k_r3w1_s_n2048,
}
use mm_mem.Kernels.Delayed.{
  Delays, Delays-▹, Delays-refl, Delays-eq, Delays-pad, IsIdle, lp3-IsIdle, lp4-IsIdle, lp8-IsIdle,
  lp32-Delays, lp42-Delays, lp128-Delays, lp256-Delays,
}
use mm_mem.Kernels.Delayed.Runs.{
  mn1-IsIdle, mn8-IsIdle, mn32-IsIdle, mn48-IsIdle, mn64-IsIdle, mn80-IsIdle, mn88-IsIdle,
  mn96-IsIdle, mn104-IsIdle, mn112-IsIdle, mn128-IsIdle, mn160-IsIdle, mn192-IsIdle, mn224-IsIdle,
  mn256-IsIdle, mn320-IsIdle, mn384-IsIdle, mn448-IsIdle, mn512-IsIdle, mn640-IsIdle, mn768-IsIdle,
  mn1024-IsIdle, mn1536-IsIdle, mn2048-IsIdle,
}

-- A pair, nested to the right.
infixr 20 ◌&◌
◌&◌ : {A B : Type 0} → A → B → A × B
a & b = (a, b)

-- `MN104` is 120 `nop`s.
abbrev pub real_delay : ℕ → ℕ
real_delay delay = if delay == 104 then 120 else delay

-- Each kernel accesses memory as `base` does, with `rate` `nop`s for each unit of its delay.
abbrev pub Paced : (base : Code) (rate : ℕ) → List (ℕ × Code) → Type 0
Paced base rate [] = Unit
Paced base rate ((delay, kernel) ∷ rest) =
    Delays kernel base (rate * real_delay delay) × Paced base rate rest

module _ {k : Code} {n : ℕ} (h : IsIdle n k) where
  r1w0 : Delays (lp256 (rd32 ▹ k)) (lp256 rd32) (256 * n)
  r1w0 = lp256-Delays (Delays-pad rd32 h)

  r1w1 : Delays (lp128 (rd32 ▹ wr32 ▹ lp4 k)) (lp128 (rd32 ▹ wr32)) (512 * n)
  r1w1 =
      Delays-eq (lp128-Delays (Delays-▹ (Delays-refl rd) (Delays-pad wr (lp4-IsIdle h))))
        (omega arith)

  r2w1 :
      Delays
        (lp32 (lp4 rd32 ▹ lp2 (rd32 ▹ wr32) ▹ lp3 k))
        (lp32 (lp4 rd32 ▹ lp2 (rd32 ▹ wr32)))
        (96 * n)
  r2w1 =
      Delays-eq
        (lp32-Delays (Delays-▹ (Delays-refl (lp4 rd)) (Delays-pad (lp2 (rd ▹ wr)) (lp3-IsIdle h))))
        (omega arith)

  r3w1 :
      Delays
        (lp42 (lp5 rd32 ▹ wr32 ▹ lp8 k) ▹ lp3 rd32 ▹ lp1 wr32 ▹ lp4 k)
        (lp42 (lp5 rd32 ▹ wr32) ▹ lp3 rd32 ▹ lp1 wr32)
        (340 * n)
  r3w1 =
      Delays-eq
        (Delays-▹ (lp42-Delays (Delays-▹ (Delays-refl (lp5 rd)) (Delays-pad wr (lp8-IsIdle h))))
          (Delays-▹ (Delays-refl (lp3 rd)) (Delays-pad (lp1 wr) (lp4-IsIdle h))))
        (omega arith)

delays_r1w0-Paced : Paced k_r1w0_s_n0 256 (get_kernels_with_delays 0)
unfolding get_kernels_with_delays k_r1w0_s_n0 k_r1w0_s_n1 k_r1w0_s_n8 k_r1w0_s_n32 k_r1w0_s_n48
    k_r1w0_s_n64 k_r1w0_s_n80 k_r1w0_s_n88 k_r1w0_s_n96 k_r1w0_s_n104 k_r1w0_s_n112 k_r1w0_s_n128
    k_r1w0_s_n160 k_r1w0_s_n192 k_r1w0_s_n224 k_r1w0_s_n256 k_r1w0_s_n384 k_r1w0_s_n512
    k_r1w0_s_n768 k_r1w0_s_n1024 k_r1w0_s_n1536 k_r1w0_s_n2048
delays_r1w0-Paced =
    r1w0 mn1-IsIdle
    & r1w0 mn8-IsIdle
    & r1w0 mn32-IsIdle
    & r1w0 mn48-IsIdle
    & r1w0 mn64-IsIdle
    & r1w0 mn80-IsIdle
    & r1w0 mn88-IsIdle
    & r1w0 mn96-IsIdle
    & r1w0 mn104-IsIdle
    & r1w0 mn112-IsIdle
    & r1w0 mn128-IsIdle
    & r1w0 mn160-IsIdle
    & r1w0 mn192-IsIdle
    & r1w0 mn224-IsIdle
    & r1w0 mn256-IsIdle
    & r1w0 mn384-IsIdle
    & r1w0 mn512-IsIdle
    & r1w0 mn768-IsIdle
    & r1w0 mn1024-IsIdle
    & r1w0 mn1536-IsIdle
    & r1w0 mn2048-IsIdle
    & tt

delays_r1w1-Paced : Paced k_r1w1_s_n0 512 (get_kernels_with_delays 1)
unfolding get_kernels_with_delays k_r1w1_s_n0 k_r1w1_s_n1 k_r1w1_s_n8 k_r1w1_s_n32 k_r1w1_s_n48
    k_r1w1_s_n64 k_r1w1_s_n80 k_r1w1_s_n88 k_r1w1_s_n96 k_r1w1_s_n104 k_r1w1_s_n112 k_r1w1_s_n128
    k_r1w1_s_n160 k_r1w1_s_n192 k_r1w1_s_n224 k_r1w1_s_n256 k_r1w1_s_n384 k_r1w1_s_n512
    k_r1w1_s_n768 k_r1w1_s_n1024 k_r1w1_s_n1536 k_r1w1_s_n2048
delays_r1w1-Paced =
    r1w1 mn1-IsIdle
    & r1w1 mn8-IsIdle
    & r1w1 mn32-IsIdle
    & r1w1 mn48-IsIdle
    & r1w1 mn64-IsIdle
    & r1w1 mn80-IsIdle
    & r1w1 mn88-IsIdle
    & r1w1 mn96-IsIdle
    & r1w1 mn104-IsIdle
    & r1w1 mn112-IsIdle
    & r1w1 mn128-IsIdle
    & r1w1 mn160-IsIdle
    & r1w1 mn192-IsIdle
    & r1w1 mn224-IsIdle
    & r1w1 mn256-IsIdle
    & r1w1 mn384-IsIdle
    & r1w1 mn512-IsIdle
    & r1w1 mn768-IsIdle
    & r1w1 mn1024-IsIdle
    & r1w1 mn1536-IsIdle
    & r1w1 mn2048-IsIdle
    & tt

delays_r2w1-Paced : Paced k_r2w1_s_n0 96 (get_kernels_with_delays 2)
unfolding get_kernels_with_delays k_r2w1_s_n0 k_r2w1_s_n1 k_r2w1_s_n8 k_r2w1_s_n32 k_r2w1_s_n48
    k_r2w1_s_n64 k_r2w1_s_n80 k_r2w1_s_n88 k_r2w1_s_n96 k_r2w1_s_n104 k_r2w1_s_n112 k_r2w1_s_n128
    k_r2w1_s_n160 k_r2w1_s_n192 k_r2w1_s_n224 k_r2w1_s_n256 k_r2w1_s_n320 k_r2w1_s_n384
    k_r2w1_s_n448 k_r2w1_s_n512 k_r2w1_s_n640 k_r2w1_s_n768 k_r2w1_s_n1024 k_r2w1_s_n1536
    k_r2w1_s_n2048
delays_r2w1-Paced =
    r2w1 mn1-IsIdle
    & r2w1 mn8-IsIdle
    & r2w1 mn32-IsIdle
    & r2w1 mn48-IsIdle
    & r2w1 mn64-IsIdle
    & r2w1 mn80-IsIdle
    & r2w1 mn88-IsIdle
    & r2w1 mn96-IsIdle
    & r2w1 mn104-IsIdle
    & r2w1 mn112-IsIdle
    & r2w1 mn128-IsIdle
    & r2w1 mn160-IsIdle
    & r2w1 mn192-IsIdle
    & r2w1 mn224-IsIdle
    & r2w1 mn256-IsIdle
    & r2w1 mn320-IsIdle
    & r2w1 mn384-IsIdle
    & r2w1 mn448-IsIdle
    & r2w1 mn512-IsIdle
    & r2w1 mn640-IsIdle
    & r2w1 mn768-IsIdle
    & r2w1 mn1024-IsIdle
    & r2w1 mn1536-IsIdle
    & r2w1 mn2048-IsIdle
    & tt

delays_r3w1-Paced : Paced k_r3w1_s_n0 340 (get_kernels_with_delays 3)
unfolding get_kernels_with_delays k_r3w1_s_n0 k_r3w1_s_n1 k_r3w1_s_n8 k_r3w1_s_n32 k_r3w1_s_n48
    k_r3w1_s_n64 k_r3w1_s_n80 k_r3w1_s_n88 k_r3w1_s_n96 k_r3w1_s_n104 k_r3w1_s_n112 k_r3w1_s_n128
    k_r3w1_s_n160 k_r3w1_s_n192 k_r3w1_s_n224 k_r3w1_s_n256 k_r3w1_s_n384 k_r3w1_s_n512
    k_r3w1_s_n768 k_r3w1_s_n1024 k_r3w1_s_n1536 k_r3w1_s_n2048
delays_r3w1-Paced =
    r3w1 mn1-IsIdle
    & r3w1 mn8-IsIdle
    & r3w1 mn32-IsIdle
    & r3w1 mn48-IsIdle
    & r3w1 mn64-IsIdle
    & r3w1 mn80-IsIdle
    & r3w1 mn88-IsIdle
    & r3w1 mn96-IsIdle
    & r3w1 mn104-IsIdle
    & r3w1 mn112-IsIdle
    & r3w1 mn128-IsIdle
    & r3w1 mn160-IsIdle
    & r3w1 mn192-IsIdle
    & r3w1 mn224-IsIdle
    & r3w1 mn256-IsIdle
    & r3w1 mn384-IsIdle
    & r3w1 mn512-IsIdle
    & r3w1 mn768-IsIdle
    & r3w1 mn1024-IsIdle
    & r3w1 mn1536-IsIdle
    & r3w1 mn2048-IsIdle
    & tt

-- The kernel without delay, by the mix of reads and writes.
abbrev pub base_kernel : ℕ → Code
base_kernel mix =
    if mix == 0
    then k_r1w0_s_n0
    else if mix == 1
    then k_r1w1_s_n0
    else if mix == 2
    then k_r2w1_s_n0
    else k_r3w1_s_n0

-- The `nop`s of a kernel for each unit of its delay.
abbrev pub rate : ℕ → ℕ
rate mix = if mix == 0 then 256 else if mix == 1 then 512 else if mix == 2 then 96 else 340

-- For each of the four mixes, every listed kernel does to registers and memory what the kernel of
-- the mix without delay does, and executes nops in proportion to its delay, but for the delay 104,
-- which is one of 120.
pub get_kernels_with_delays-Paced :
    (mix : ℕ) → mix < 4 → Paced (base_kernel mix) (rate mix) (get_kernels_with_delays mix)
get_kernels_with_delays-Paced zero h = delays_r1w0-Paced
get_kernels_with_delays-Paced (suc zero) h = delays_r1w1-Paced
get_kernels_with_delays-Paced (suc (suc zero)) h = delays_r2w1-Paced
get_kernels_with_delays-Paced (suc (suc (suc zero))) h = delays_r3w1-Paced
get_kernels_with_delays-Paced (suc (suc (suc (suc mix)))) h = absurd (omega arith)
