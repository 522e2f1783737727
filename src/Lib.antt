-- ===== src/Lib.antt =====
-- A model of mm-mem, the memory micro-benchmarks of common/ and cpu_micro/, and what is proved of it.
--
-- MemRegion (common/mem_region.h, common/mem_region.cc): the memory is a function from addresses to
--   bytes (MemRegion/Memory), a pointer is eight bytes of it. MemRegion/Region has the record of the
--   class, its constructor, `allocNative_` and the destructor; MemRegion/Sequence has
--   `randomizeSequence_`, and MemRegion/Init the three patterns `stride_init`, `page_random_init` and
--   `all_random_init`. MemRegion/Tour says what a pattern is for, a pointer chase that goes round.
--   The answers of the operating system and the results of `rand()` are parameters.
-- Text, CommandLine (common/command_line.h): the integer and switch parser. CommandLine has the
--   registration of options and the conversion of an integer, CommandLine/Parse the loop of `parse`.
--   An exception is a value.
-- Kernels (cpu_micro/kernels_common.h, cpu_micro/kernels_bandwidth.h, cpu_micro/kernels_latency.h,
--   cpu_micro/kernels_delay_bandwidth/, cpu_micro/kernels_branch.h, cpu_micro/worker_common.cc): the
--   macros are functions on straight-line code (Kernels/Code, Kernels/Macros), the kernels are code,
--   and `run` executes it on the two arguments of a kernel and the memory. Kernels/Branch counts the
--   taken branches of the assembly and has the checks of cpu_micro/cpu_branch_throughput.cc.
-- LoadedLatency (cpu_micro/cpu_loaded_latency.cc): the choice of the kernels by their delay.
-- Configuration (cpu_micro/lib_configuration.h, cpu_micro/lib_configuration.cc): the options that a
--   test registers with the parser, each bound to a member; Configuration/Settings has the members
--   after `parse_options` and what `dump` prints.
-- Workers (common/timing.h, cpu_micro/worker_thread_packet.h, cpu_micro/worker_latency.h,
--   cpu_micro/worker_bandwidth.h, cpu_micro/worker_memcpy.h, the checks of cpu_micro/cpu_memcpy.cc):
--   Workers/Alloc makes the region of a worker from its packet and Workers/Alloc/Placed says on which
--   nodes it is, Workers/Measure has the measuring
--   workers. Their loops are the same in the source but for the call and the unit that they count, so
--   they share Workers/Checkpoints. The readings of the clock are a parameter. Below Workers/Measure
--   is what a measurement leaves: Chases for the latency worker, Moved and Copied for the copying
--   worker, Timely for the plan of the latency worker. Workers/Timer/Named
--   (common/timing.cc) has the timers with a name, Workers/CycleCounter (common/cycle_counter.h) the
--   counter, Workers/Branch (cpu_micro/worker_branch_throughput.h) the worker for the branches.
--   Workers/Sharing says which memories are reached by writes into given regions, step by step, and
--   Workers/Sharing/Traffic what the bandwidth worker leaves.
-- WorkerThreads (common/worker_thread_manager.h): the manager of the threads that run the workers,
--   with the results of the thread library as parameters.
-- NumaConfig (common/numa_config.h, common/numa_config.cc, cpu_micro/cpu_numa_info.cc): the topology of
--   the machine, with the answers of libnuma as a parameter, and what `dump` prints.
-- KmgParser (common/kmg_parser.cc): numbers with a unit.
-- Programs (cpu_micro/cpu_idle_latency.cc, cpu_micro/cpu_peak_bandwidth.cc,
--   cpu_micro/cpu_loaded_latency.cc, cpu_micro/cpu_memcpy.cc,
--   cpu_micro/cpu_branch_throughput.cc): the test programs as steps on a session
--   that has what was printed and the rest of the world; Programs/Main has their `main`, from the
--   command line to the exit status. A team is a manager of WorkerThreads with packets of Workers;
--   what its threads do in a run, and floating-point numbers, are parameters. Programs/Crew has a run
--   in which the threads execute the routines of Workers one after another on one memory, and leave
--   in their packets what Programs/Results says, messages on a late end included.
--   Programs/Matrix has the loops over the nodes of NumaConfig. Programs/Latency and Programs/Copy
--   follow the latency and the copy program with one thread from the setup to what is printed.
-- The settings are copied into a packet, the packet gives the region and the plan of a measurement.
-- The kernels run on the memory of MemRegion: the latency kernel follows the pointers of a pattern.
--
-- Machine integers are native natural numbers with the wrap-around written out. Out of range, a
-- division by zero and an exit are `none`. `restore_loop` and `stride_loop` have fuel, one more than
-- the number of rounds; the theorems on them prove that it is enough. The loop of the workers has a
-- number of passes as fuel, which is enough if it is at least the number of the clock's last reading
-- times the distance of the checkpoints, and one more: `passes_until`, 2 ^ 32 times that number, is no
-- less for the latency and the copying worker. For `disp_loop` one more than the number is
-- enough fuel, for `run_batches` the number of the reading at which the sample is over.
--
-- Not modelled: floating-point results, and the time that the timer of the setup measures, which are
-- parameters where they are used; what the programs write to the standard error when they refuse
-- their options or print their usage, and what the manager of the threads writes there;
-- `MemRegion::dump`; and the scripts.
pub mod Base
pub mod MemRegion
pub mod Text
pub mod CommandLine
pub mod Kernels
pub mod LoadedLatency
pub mod Configuration
pub mod Workers
pub mod WorkerThreads
pub mod KmgParser
pub mod NumaConfig
pub mod Programs
mod Tests
