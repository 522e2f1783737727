-- ===== src/Workers/Alloc/Huge.antt =====
-- The latency worker's region with huge pages.
use mm_mem.Base.{◌%◌, ◌^◌, ◌<◌, ◌≡◌, refl, inl, none, arith, lt→ltb}
use mm_mem.MemRegion.Memory.{Memory}
use mm_mem.MemRegion.Sequence.{Rand}
use mm_mem.MemRegion.Region.{Os}
use mm_mem.MemRegion.Region.Construct.{construct-zero}
use mm_mem.Configuration.Settings.{Settings, auto_correct}
use mm_mem.Workers.Packet.{Packet, copy_mem_region_config}
use mm_mem.Workers.Alloc.{hugepage_of, chunk_size, region_size, mem_region_alloc_lat}

-- The chunk that the settings ask for, with huge pages.
chunk_size-zero :
    (s : Settings) (p : Packet)
    → 0 < s.use_hugepage
    → s.region_size_kb % 2 ^ 22 ≡ 0
    → chunk_size (copy_mem_region_config (auto_correct s) p) ≡ 0
unfolding chunk_size copy_mem_region_config auto_correct
chunk_size-zero s p huge multiple = rw (lt→ltb 0 s.use_hugepage huge) (omega arith)

-- With huge pages and a region of a multiple of 4 GiB, the chunk size in bytes wraps around to
-- zero and the latency worker traps, whatever the system answers.
pub mem_region_alloc_lat-huge :
    (os : Os) (rand : Rand) (s : Settings) (p : Packet) (m : Memory)
    → 0 < s.use_hugepage
    → s.region_size_kb % 2 ^ 22 ≡ 0
    → mem_region_alloc_lat os rand (copy_mem_region_config (auto_correct s) p) m ≡ none
unfolding mem_region_alloc_lat
mem_region_alloc_lat-huge os rand s p m huge multiple =
    let q = copy_mem_region_config (auto_correct s) p in
    let trap =
      construct-zero os (region_size q) (region_size q) (chunk_size q) q.stride_size_b q.mem_type
        (hugepage_of q.use_hugepage) (inl (chunk_size-zero s p huge multiple)) in
    rw trap refl
