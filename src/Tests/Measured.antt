-- ===== src/Tests/Measured.antt =====
-- What the workers have done, on a small region with a clock of two seconds, and the test of the idle
-- latency on a machine with one thread.
use mm_mem.Base.{
  ℕ, ◌+◌, ◌*◌, ◌/◌, ◌%◌, ◌^◌, ◌≤◌, ◌<◌, ◌≡◌, refl, true, false, some, List, [], ◌∷◌, ◌++◌, arith,
  length, mul64,
}
use mm_mem.Base.Int.{pos, ◌+ℤ◌}
use mm_mem.Base.Returns.{Returns}
use mm_mem.Text.{Text, codes, all_digits, value_from}
use mm_mem.CommandLine.{parse_integer}
use mm_mem.Configuration.Settings.Ranges.{OnConfigured, HasRanges, parse_options-HasRanges}
use mm_mem.MemRegion.Region.{MemRegion, alloc_native, mem_policy, get_start_point}
use mm_mem.Kernels.Latency.{kernel_lat}
use mm_mem.Configuration.{latency, configure, add_generic_options}
use mm_mem.CommandLine.Parse.{parse}
use mm_mem.Configuration.Settings.{
  Settings, configured, parse_options, dump, member, truth, settings, auto_correct,
}
use mm_mem.NumaConfig.{Numa, query}
use mm_mem.Workers.Packet.{Packet, copy_mem_region_config, node_mem_type}
use mm_mem.Workers.Alloc.{hugepage_of, chunk_size, region_size}
use mm_mem.Workers.Alloc.Cycle.{IsAllocated, packet_lines}
use mm_mem.Workers.Checkpoints.Ends.{IsTimely}
use mm_mem.Workers.Measure.{
  target_ns, chkpt_chases, lat_plan, lat_ptr, chkpt_calls, copy_plan, copy_fragment,
}
use mm_mem.Workers.Measure.Chases.{HasChased, lat_calls, lat_ptr-Chases}
use mm_mem.Workers.Measure.Moved.{moved, least}
use mm_mem.Workers.Measure.Copied.{copy_fragment-Copies}
use mm_mem.Programs.{text, prepare_job, new_packet}
use mm_mem.Programs.Crew.{Machine, run_crew}
use mm_mem.Programs.Latency.Alone.{IsSteady}
use mm_mem.Programs.Latency.SetUp.{only_packet}
use mm_mem.Programs.Latency.Measured.{manager_lines, title, HasRun}
use mm_mem.Programs.Main.{main_idle_latency}
use mm_mem.Programs.Main.Measured.{main_idle_latency-HasRun}
use mm_mem.Tests.Machine.{
  begin, clock, clock-IsClock, copies, copies-IsMemcpy, floats, os, surroundings, zeros,
}

abbrev wanted : Settings
wanted = record {
  branch_case = 0;
  num_threads = 1;
  region_size_kb = 8;
  no_binding = false;
  verbose = false;
  access_pattern = 2;
  chunk_size_kb = 4;
  stride_size_b = 16;
  fragment_size_b = 4096;
  use_hugepage = 0;
  read_write_mix = 0;
  load_gen_delay = pos 0;
  target_duration_s = 2;
  latency_matrix = false;
  bandwidth_matrix = false;
  memcpy_matrix = false;
}

abbrev packet : Packet
packet = record {
  num_threads = 1;
  thread_id = 0;
  target_duration = 2;
  region_size_kb = 8;
  access_pattern = 2;
  chunk_size_kb = 4;
  stride_size_b = 16;
  use_hugepage = 0;
  mem_type = 0;
  ref_latency_ps = 0;
  read_write_mix = 0;
  ref_total_bw_gbps = 0;
  num_total_threads = 1;
  fragment_size = 4096;
  ref_one_exec_time_ns = 0;
}

abbrev region : MemRegion
region = record {
  size = 8192;
  active_size = 8192;
  os_page_size = 4096;
  page_size = 4096;
  line_size = 16;
  mem_type = 0;
  hugepage_type = pos 0;
  addr = some 4096;
  real_size = 8192;
  num_all_pages = 2;
  num_active_pages = 2;
  num_lines_in_page = 256;
}

abbrev source : MemRegion
source = record region { addr = some 16384 }

lat-IsTimely : IsTimely clock (lat_plan packet region) 1
unfolding chkpt_chases
lat-IsTimely = record {
  a_clock = clock-IsClock;
  late = omega arith;
  some_reading = omega arith;
  some_size = omega arith;
  room = omega arith;
}

lat_enough : 1 + 1 * (lat_plan packet region).chkpt_size ≤ 5000000
unfolding chkpt_chases
lat_enough = omega arith

lat_ptr-Chases_example :
    Returns
      (λ (a, s).
        (target_ns packet ≤ s.timer.elapsed_time_ns)
        × ((calls : ℕ) × (0 < calls)
            × (calls ≤ lat_calls region)
            × HasChased zeros (get_start_point region) (lat_calls region) s.finished a calls))
      (lat_ptr 5000000 clock kernel_lat packet region zeros)
lat_ptr-Chases_example =
    lat_ptr-Chases 5000000 1 clock packet region zeros (omega arith) (omega arith) (omega arith)
      lat-IsTimely lat_enough

copy-IsTimely : IsTimely clock (copy_plan packet) 1
unfolding chkpt_calls
copy-IsTimely = record {
  a_clock = clock-IsClock;
  late = omega arith;
  some_reading = omega arith;
  some_size = omega arith;
  room = omega arith;
}

copy_enough : 1 + 1 * (copy_plan packet).chkpt_size ≤ 2
unfolding chkpt_calls
copy_enough = omega arith

starts : (get_start_point region ≡ 4096) × (get_start_point source ≡ 16384)
unfolding get_start_point
starts = (refl, refl)

copy_fragment-Copies_example :
    Returns
      (λ (a, s).
        (target_ns packet ≤ s.timer.elapsed_time_ns)
        × ((calls : ℕ) × (0 < calls)
            × (s.finished ≡ calls % 2 ^ 64)
            × (a
                ≡ moved zeros
                    (get_start_point region)
                    (get_start_point source)
                    (least calls (8192 / 4096) * 4096))))
      (copy_fragment 2 clock copies packet region source zeros)
copy_fragment-Copies_example =
    copy_fragment-Copies 2 1 clock packet zeros copies region source copies-IsMemcpy (omega arith)
      (omega arith) (omega (arith, starts)) (omega (arith, starts)) (omega (arith, starts))
      copy-IsTimely copy_enough

steady : IsSteady surroundings wanted 1
steady = record {
  created = λ k. refl;
  joined = λ k. refl;
  clocks = λ k. clock-IsClock;
  late = λ k. omega arith;
  some_reading = omega arith;
  few_readings = omega arith;
  fuel = omega arith;
}

abbrev pub numa : Numa
numa = record {
  num_nodes = 1;
  num_configured_nodes = 1;
  num_possible_nodes = 1;
  hardware_concurrency = 2;
  num_possible_cpus = 2;
  all_cpus_mask = λ cpu. true;
  node_size = λ node. pos (2 ^ 33);
  node_to_cpus = λ node. some (λ cpu. true);
}

allocated : IsAllocated os (only_packet wanted) 4096
unfolding prepare_job new_packet copy_mem_region_config node_mem_type ◌+ℤ◌ chunk_size region_size
    hugepage_of alloc_native mem_policy mul64
allocated = record {
  wide = omega arith;
  lines = omega arith;
  chunks = omega arith;
  fits = omega arith;
  given = (8192, refl);
}

sizes : (packet_lines (only_packet wanted) < 2 ^ 32) × (256 * 16 ≤ region_size (only_packet wanted))
unfolding prepare_job new_packet copy_mem_region_config node_mem_type chunk_size region_size mul64
sizes = (omega arith, omega arith)

abbrev args : List Text
args =
    codes "-t2"
    ∷ codes "--region_size=8"
    ∷ codes "-c"
    ∷ codes "4"
    ∷ codes "--stride_size=16"
    ∷ codes "-p2"
    ∷ []

parsed :
    parse_options (configure latency (length (query numa).all_allowed_cpus)) args
    ≡ configured wanted
unfolding parse_options configure add_generic_options parse member truth settings auto_correct
    parse_integer all_digits value_from
parsed = refl

main_idle_latency-HasRun_example :
    Returns
      (λ (status, session').
        (status ≡ 0)
        × HasRun floats surroundings wanted 1 steady 4096 1
            ((([] ++ text (dump latency wanted) ∷ [])
                ++ manager_lines floats surroundings wanted 1 steady 4096 (query numa))
              ++ title floats surroundings wanted 1 steady 4096)
            (text (codes " ns\n") ∷ text (codes "\n") ∷ [])
            session')
      (main_idle_latency floats (Machine ℕ) numa (run_crew surroundings) args begin)
main_idle_latency-HasRun_example =
    main_idle_latency-HasRun floats surroundings wanted 1 steady 4096 numa args begin parsed refl
      refl refl allocated sizes.0 sizes.1

parse_options-HasRanges_example : OnConfigured HasRanges (parse_options (configure latency 4) args)
parse_options-HasRanges_example = parse_options-HasRanges latency 4 args
