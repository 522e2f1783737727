-- ===== src/MemRegion.antt =====
-- The memory region of the benchmarks: common/mem_region.h and common/mem_region.cc.
pub mod Memory
pub mod Sequence
pub mod Region
pub mod Init
pub mod Tour
