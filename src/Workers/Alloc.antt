-- ===== src/Workers/Alloc.antt =====
-- The routines that allocate a worker's region: `mem_region_alloc_lat`, `mem_region_alloc_bw` and
-- `mem_region_alloc_memcpy`.
pub mod Huge
pub mod Cycle
pub mod Placed
use mm_mem.Base.Int.{ℤ, pos, negsuc}
use mm_mem.Base.{ℕ, ◌-◌, ◌*◌, ◌%◌, ◌^◌, Option, none, some, ◌>>=◌, ltb, ◌==◌, if◌then◌else◌, mul64}
use mm_mem.MemRegion.Memory.{Memory}
use mm_mem.MemRegion.Sequence.{Rand}
use mm_mem.MemRegion.Region.{Os, MemRegion, native, no_hugepage, construct, cleared}
use mm_mem.MemRegion.Init.{stride_init, page_random_init, all_random_init}
use mm_mem.Workers.Packet.{Packet}

-- `chunk_size_kb * 1024` has 32 bits, as `chunk_size_kb` has.
unfoldable pub chunk_size : Packet → ℕ
chunk_size p = p.chunk_size_kb * 1024 % 2 ^ 32

unfoldable pub region_size : Packet → ℕ
region_size p = mul64 p.region_size_kb 1024

-- `static_cast<HugePageType>`: from 2^31 on the number is taken for a negative `int`.
unfoldable pub hugepage_of : ℕ → ℤ
hugepage_of n = if ltb n (2 ^ 31) then pos n else negsuc (2 ^ 32 - 1 - n)

-- The memory after the constructor.
unfoldable pub memory_of : MemRegion → Memory → Memory
memory_of r m = elim r.addr [ none ↦ m | some addr ↦ cleared addr r.size m ]

unfoldable pub init_pattern : Rand → (access_pattern : ℕ) → MemRegion → Memory → Option Memory
init_pattern rand access_pattern r m =
    if access_pattern == 0
    then stride_init r m
    else if access_pattern == 1
    then page_random_init rand r m
    else if access_pattern == 2
    then all_random_init rand r m
    else page_random_init rand r m

unfoldable pub mem_region_alloc_lat : Os → Rand → Packet → Memory → Option (MemRegion × Memory)
unfolding hugepage_of
mem_region_alloc_lat os rand p m =
    construct os (region_size p) (region_size p) (chunk_size p) p.stride_size_b p.mem_type
      (hugepage_of p.use_hugepage)
    >>= λ r. (init_pattern rand p.access_pattern r (memory_of r m) >>= λ m'. some (r, m'))

unfoldable pub mem_region_alloc_bw : Os → Packet → Memory → Option (MemRegion × Memory)
mem_region_alloc_bw os p m =
    construct os (region_size p) (region_size p) 4096 64 p.mem_type no_hugepage >>= λ r.
    some (r, memory_of r m)

-- The regions to copy to and to copy from; the system may answer differently the second time.
unfoldable pub mem_region_alloc_memcpy :
    (os os' : Os) → Packet → Memory → Option (MemRegion × MemRegion × Memory)
mem_region_alloc_memcpy os os' p m = do
  dst ← construct os (region_size p) (region_size p) 4096 64 native no_hugepage
  src ← construct os' (region_size p) (region_size p) 4096 64 native no_hugepage
  some (dst, src, memory_of src (memory_of dst m))
