-- ===== src/Kernels/Code.antt =====
-- Straight-line kernels as code: what they do to the registers and the memory, what they access,
-- and how many `nop` instructions they execute.
use mm_mem.Base.{ℕ, ◌+◌, Bool, true, false, List, [], ◌∷◌, ◌++◌, add64}
use mm_mem.MemRegion.Memory.{Memory, read64, write64}

infixr 60 ◌▹◌
pub data Code : Type 0 where
  -- `ret += *p; p += 4;` on a `uint64_t*`
  rd : Code
  -- `*p = ret; p += 4;`
  wr : Code
  -- `asm("nop");`
  nop : Code
  ◌▹◌ : Code → Code → Code

-- The kernel's arguments and the memory.
pub record State : Type 0 where
  pub ret : ℕ
  pub p : ℕ
  pub mem : Memory

unfoldable pub run : Code → State → State
run rd s = record s { ret = add64 s.ret (read64 s.mem s.p); p = add64 s.p 32 }
run wr s = record s { mem = write64 s.mem s.p s.ret; p = add64 s.p 32 }
run nop s = s
run (c ▹ d) s = run d (run c s)

-- The `nop` instructions of a run.
unfoldable pub nops : Code → ℕ
nops rd = 0
nops wr = 0
nops nop = 1
nops (c ▹ d) = nops c + nops d

-- The accesses of a run in order; `true` stands for a write.
unfoldable pub accesses : Code → List Bool
accesses rd = false ∷ []
accesses wr = true ∷ []
accesses nop = []
accesses (c ▹ d) = accesses c ++ accesses d
