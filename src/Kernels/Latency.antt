-- ===== src/Kernels/Latency.antt =====
-- The latency kernel, cpu_micro/kernels_latency.h: 256 dependent loads.
use mm_mem.Base.{add64}
use mm_mem.MemRegion.Memory.{read64}
use mm_mem.MemRegion.Tour.{chase}
use mm_mem.Kernels.Code.{State}

-- `LP256(p = *p) ret += *p;`
unfoldable pub kernel_lat : State → State
kernel_lat s =
    let p' = chase s.mem 256 s.p in record s { ret = add64 s.ret (read64 s.mem p'); p = p' }
