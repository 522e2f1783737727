-- ===== src/Tests/Workers.antt =====
-- Workers on a small region, with a clock of two seconds.
use mm_mem.Base.{
  ℕ, mul64, ◌+◌, ◌*◌, ◌^◌, ◌≤◌, ◌<◌, ◌≡◌, refl, none, some, [], ◌∷◌, arith, ltb, if◌then◌else◌,
  true, false, length,
}
use mm_mem.Base.Int.{pos}
use mm_mem.Base.Returns.{Returns}
use mm_mem.Text.{codes}
use mm_mem.MemRegion.Memory.{Memory}
use mm_mem.MemRegion.Region.{Os, MemRegion, div_or_trap, get_start_point, alloc_native, mem_policy}
use mm_mem.Kernels.Code.{run, accesses}
use mm_mem.Kernels.Macros.{lp1, lp2, lp4, lp8, lp16, lp32, lp64, lp128}
use mm_mem.Kernels.Latency.{kernel_lat}
use mm_mem.Kernels.Bandwidth.{kernel_bw_r1w0_sequential, kernel_bw_r1w1_sequential}
use mm_mem.CommandLine.Parse.{parse}
use mm_mem.CommandLine.Parse.Fits.{Fits, OnOk, parse-Fits}
use mm_mem.Configuration.{latency, configure}
use mm_mem.Configuration.Defaults.{distinct, configure_lem}
use mm_mem.Configuration.Settings.{Settings, auto_correct}
use mm_mem.Workers.Timer.{Clock}
use mm_mem.Workers.Timer.Elapsed.{IsClock}
use mm_mem.Workers.Packet.{Packet, copy_mem_region_config}
use mm_mem.Workers.Alloc.{hugepage_of, chunk_size, region_size, mem_region_alloc_lat}
use mm_mem.Workers.Alloc.Cycle.{
  IsAllocated, IsMade, packet_lines, mem_region_alloc_lat-IsCycle, mem_region_alloc_lat-InPages,
}
use mm_mem.MemRegion.Tour.{IsCycle}
use mm_mem.MemRegion.Tour.PageRandom.{page_cell, InPages}
use mm_mem.Workers.Alloc.Huge.{mem_region_alloc_lat-huge}
use mm_mem.Workers.Checkpoints.Ends.{IsTimely}
use mm_mem.Workers.Measure.{
  target_ns, lat_ptr, per_core_bw_mbps, chkpt_bytes, bw_plan, bw_sequential,
}
use mm_mem.Workers.Sharing.Traffic.{bw_calls, HasSwept, bw_sequential-Reach}
use mm_mem.Workers.Measure.Ended.{lat_ptr_small, bw_sequential_small}

abbrev clock : Clock
clock k = if ltb k 1 then 0 else 2000000000

abbrev packet : Packet
packet = record {
  num_threads = 1;
  thread_id = 0;
  target_duration = 1;
  region_size_kb = 8;
  access_pattern = 2;
  chunk_size_kb = 4;
  stride_size_b = 16;
  use_hugepage = 0;
  mem_type = 0;
  ref_latency_ps = 0;
  read_write_mix = 0;
  ref_total_bw_gbps = 0;
  num_total_threads = 1;
  fragment_size = 4096;
  ref_one_exec_time_ns = 0;
}

abbrev region : MemRegion
region = record {
  size = 8192;
  active_size = 8192;
  os_page_size = 4096;
  page_size = 4096;
  line_size = 16;
  mem_type = 0;
  hugepage_type = pos 0;
  addr = some 4096;
  real_size = 8192;
  num_all_pages = 2;
  num_active_pages = 2;
  num_lines_in_page = 256;
}

abbrev zeros : Memory
zeros b = 0

abbrev os : Os
os = record {
  page_size = 4096;
  max_node = 1;
  set_mempolicy = λ mode nodemask maxnode. true;
  mmap = λ size log2. some 2097152;
  aligned_alloc = λ size. some 4096;
}

clock-IsClock : IsClock clock
clock-IsClock = record { onward = λ k. ground arith; bounded = λ k. ground arith }

rate : per_core_bw_mbps packet ≡ some 2048
unfolding per_core_bw_mbps div_or_trap
rate = refl

bw-IsTimely : IsTimely clock (bw_plan packet 2048) 1
unfolding chkpt_bytes mul64
bw-IsTimely = record {
  a_clock = clock-IsClock;
  late = omega arith;
  some_reading = omega arith;
  some_size = omega arith;
  room = omega arith;
}

bw_enough : 1 + 1 * (bw_plan packet 2048).chkpt_size ≤ 10000000
unfolding chkpt_bytes mul64
bw_enough = omega arith

accesses_r1w1 : length (accesses kernel_bw_r1w1_sequential) ≡ 256
unfolding accesses kernel_bw_r1w1_sequential lp1 lp2 lp4 lp8 lp16 lp32 lp64 lp128
accesses_r1w1 = refl

region_fits : get_start_point region + region.active_size < 2 ^ 64
unfolding get_start_point
region_fits = omega arith

bw_sequential-Reach_example :
    Returns
      (λ (a, s).
        (target_ns packet ≤ s.timer.elapsed_time_ns)
        × ((calls : ℕ) × (0 < calls)
            × (calls ≤ bw_calls region)
            × HasSwept kernel_bw_r1w1_sequential region zeros calls s.finished a))
      (bw_sequential 10000000 clock (run kernel_bw_r1w1_sequential) packet region zeros)
bw_sequential-Reach_example =
    bw_sequential-Reach 10000000 1 clock packet zeros kernel_bw_r1w1_sequential region 2048
      (omega arith) rate bw-IsTimely bw_enough accesses_r1w1 region_fits

bw_sequential_small_example :
    bw_sequential 100 clock
      (run kernel_bw_r1w0_sequential)
      packet
      (record region { active_size = 4096 })
      zeros
    ≡ none
bw_sequential_small_example =
    bw_sequential_small 100 clock (run kernel_bw_r1w0_sequential) packet
      (record region { active_size = 4096 }) zeros (omega arith) (omega arith)

-- 4 GiB with pages of 1 GiB.
abbrev huge : Settings
huge = record {
  branch_case = 0;
  num_threads = 1;
  region_size_kb = 4194304;
  no_binding = false;
  verbose = false;
  access_pattern = 1;
  chunk_size_kb = 128;
  stride_size_b = 128;
  fragment_size_b = 4096;
  use_hugepage = 3;
  read_write_mix = 0;
  load_gen_delay = pos 0;
  target_duration_s = 10;
  latency_matrix = false;
  bandwidth_matrix = false;
  memcpy_matrix = false;
}

mem_region_alloc_lat-huge_example :
    mem_region_alloc_lat os (λ call. call) (copy_mem_region_config (auto_correct huge) packet) zeros
    ≡ none
mem_region_alloc_lat-huge_example =
    mem_region_alloc_lat-huge os (λ call. call) huge packet zeros (omega arith) refl

configure_lem_example :
    Fits (configure latency 4).line.options (configure latency 4).line.values
    × (distinct (configure latency 4).line.options ≡ true)
    × (length (configure latency 4).targets ≡ length (configure latency 4).line.options)
configure_lem_example = configure_lem latency 4

parse-Fits_example :
    OnOk
      (Fits (configure latency 4).line.options)
      (parse (configure latency 4).line (codes "-n" ∷ codes "2" ∷ codes "--stride_size=256" ∷ []))
parse-Fits_example =
    parse-Fits (configure latency 4).line (codes "-n" ∷ codes "2" ∷ codes "--stride_size=256" ∷ [])
      (configure_lem latency 4).0

allocated : IsAllocated os packet 4096
unfolding hugepage_of chunk_size region_size alloc_native mem_policy mul64
allocated = record {
  wide = omega arith;
  lines = omega arith;
  chunks = omega arith;
  fits = omega arith;
  given = (8192, refl);
}

few : packet_lines packet < 2 ^ 32
unfolding chunk_size region_size mul64
few = omega arith

mem_region_alloc_lat-IsCycle_example :
    Returns
      (λ (r, m). IsMade packet 4096 r × IsCycle 4096 (packet_lines packet) (λ i. i * 16) m)
      (mem_region_alloc_lat os (λ call. call) packet zeros)
mem_region_alloc_lat-IsCycle_example =
    mem_region_alloc_lat-IsCycle os packet 4096 allocated (λ call. call) zeros refl few

-- The same packet with random access in a chunk.
abbrev chunk_packet : Packet
chunk_packet = record packet { access_pattern = 1 }

chunk-IsAllocated : IsAllocated os chunk_packet 4096
unfolding hugepage_of chunk_size region_size alloc_native mem_policy mul64
chunk-IsAllocated = record {
  wide = omega arith;
  lines = omega arith;
  chunks = omega arith;
  fits = omega arith;
  given = (8192, refl);
}

mem_region_alloc_lat-InPages_example :
    Returns
      (λ (r, m).
        IsMade chunk_packet 4096 r
        × IsCycle 4096 (packet_lines chunk_packet) (page_cell r) m
        × InPages r 4096 m)
      (mem_region_alloc_lat os (λ call. call) chunk_packet zeros)
mem_region_alloc_lat-InPages_example =
    mem_region_alloc_lat-InPages os chunk_packet 4096 chunk-IsAllocated (λ call. call) zeros
      (omega arith) (omega arith)

lat_ptr_small_example :
    lat_ptr 100 clock kernel_lat packet (record region { active_size = 2048 }) zeros ≡ none
lat_ptr_small_example =
    lat_ptr_small 100 clock kernel_lat packet (record region { active_size = 2048 }) zeros
      (omega arith) (omega arith)
