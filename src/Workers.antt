-- ===== src/Workers.antt =====
-- The workers of cpu_micro/worker_latency.h, cpu_micro/worker_bandwidth.h and
-- cpu_micro/worker_memcpy.h, and their packet, cpu_micro/worker_thread_packet.h.
pub mod Timer
pub mod Packet
pub mod Alloc
pub mod Checkpoints
pub mod Measure
pub mod CycleCounter
pub mod Branch
pub mod Sharing
