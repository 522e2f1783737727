-- ===== src/Tests/Copied.antt =====
-- The test of copying on a machine with one thread.
use mm_mem.Base.{ℕ, ◌≡◌, refl, false, some, List, [], ◌∷◌, ◌++◌, arith, length, mul64}
use mm_mem.Base.Int.{pos}
use mm_mem.Base.Returns.{Returns}
use mm_mem.Text.{Text, codes, all_digits, value_from}
use mm_mem.MemRegion.Region.{alloc_native, mem_policy}
use mm_mem.CommandLine.{parse_integer}
use mm_mem.CommandLine.Parse.{parse}
use mm_mem.Configuration.{memcpy, configure, add_generic_options}
use mm_mem.Configuration.Settings.{
  Settings, configured, parse_options, dump, member, truth, settings, auto_correct,
}
use mm_mem.NumaConfig.{query}
use mm_mem.Workers.Packet.{copy_mem_region_config}
use mm_mem.Workers.Alloc.{region_size}
use mm_mem.Workers.Measure.{select_fragment}
use mm_mem.Programs.{text, prepare_job, new_packet}
use mm_mem.Programs.Crew.{Machine, run_crew}
use mm_mem.Programs.Latency.Alone.{IsSteady}
use mm_mem.Programs.Latency.SetUp.{only_packet}
use mm_mem.Programs.Copy.SetUp.{AreServed}
use mm_mem.Programs.Copy.Measured.{set_up_lines, HasRun}
use mm_mem.Programs.Main.{main_memcpy}
use mm_mem.Programs.Main.Copied.{with_fragment, main_memcpy-HasRun}
use mm_mem.Tests.Machine.{clock-IsClock, floats, os, surroundings, begin, copies-IsMemcpy}
use mm_mem.Tests.Measured.{numa}

abbrev wanted : Settings
wanted = record {
  branch_case = 0;
  num_threads = 1;
  region_size_kb = 8;
  no_binding = false;
  verbose = false;
  access_pattern = 1;
  chunk_size_kb = 128;
  stride_size_b = 64;
  fragment_size_b = 0;
  use_hugepage = 0;
  read_write_mix = 0;
  load_gen_delay = pos 0;
  target_duration_s = 2;
  latency_matrix = false;
  bandwidth_matrix = false;
  memcpy_matrix = false;
}

abbrev args : List Text
args = codes "-t2" ∷ codes "-b8" ∷ codes "-n" ∷ codes "1" ∷ []

parsed :
    parse_options (configure memcpy (length (query numa).all_allowed_cpus)) args ≡ configured wanted
unfolding parse_options configure add_generic_options parse member truth settings auto_correct
    parse_integer all_digits value_from
parsed = refl

chosen : select_fragment 8 0 ≡ some 8192
unfolding select_fragment mul64
chosen = refl

steady : IsSteady surroundings (with_fragment wanted 8192) 1
steady = record {
  created = λ k. refl;
  joined = λ k. refl;
  clocks = λ k. clock-IsClock;
  late = λ k. omega arith;
  some_reading = omega arith;
  few_readings = omega arith;
  fuel = omega arith;
}

served :
    AreServed os
      (record os { aligned_alloc = λ size. some 16384 })
      (only_packet (with_fragment wanted 8192))
      4096
      16384
unfolding prepare_job new_packet copy_mem_region_config region_size alloc_native mem_policy mul64
served = record {
  positive = omega arith;
  given = (8192, refl);
  given' = (8192, refl);
  fits = omega arith;
  fits' = omega arith;
  apart = omega arith;
}

main_memcpy-HasRun_example :
    Returns
      (λ (status, session').
        (status ≡ 0)
        × HasRun floats surroundings
            (with_fragment wanted 8192)
            1
            steady
            copies-IsMemcpy
            4096
            16384
            begin.world
            (([] ++ text (dump memcpy (with_fragment wanted 8192)) ∷ [])
              ++ set_up_lines floats surroundings
                  (with_fragment wanted 8192)
                  1
                  steady
                  copies-IsMemcpy
                  (query numa))
            (text (codes "\n") ∷ [])
            session')
      (main_memcpy floats (Machine ℕ) numa (run_crew surroundings) args begin)
main_memcpy-HasRun_example =
    main_memcpy-HasRun floats surroundings wanted 8192 1 steady copies-IsMemcpy numa args begin 4096
      16384 parsed chosen refl served
