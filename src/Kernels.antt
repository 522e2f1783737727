-- ===== src/Kernels.antt =====
-- The measured kernels: cpu_micro/kernels_common.h, kernels_bandwidth.h, kernels_latency.h,
-- kernels_branch.h and kernels_delay_bandwidth/.
pub mod Code
pub mod Macros
pub mod Bandwidth
pub mod Latency
pub mod Delayed
pub mod R1w0
pub mod R1w1
pub mod R2w1
pub mod R3w1
pub mod Delays
pub mod Branch
