-- ===== src/Workers/Packet.antt =====
-- `MemLatBwThreadPacket` of cpu_micro/worker_thread_packet.h, without its outputs, regions and
-- kernels, which the workers take and return.
use mm_mem.Base.{ℕ, List, [], ◌∷◌}
use mm_mem.Base.Int.{ℤ, pos, pos_part, ◌+ℤ◌}
use mm_mem.MemRegion.Region.{node0}
use mm_mem.Configuration.Settings.{Settings}

pub record Packet : Type 0 where
  pub num_threads : ℕ
  pub thread_id : ℕ
  pub target_duration : ℕ
  pub region_size_kb : ℕ
  pub access_pattern : ℕ
  pub chunk_size_kb : ℕ
  pub stride_size_b : ℕ
  pub use_hugepage : ℕ
  pub mem_type : ℕ
  pub ref_latency_ps : ℕ
  pub read_write_mix : ℕ
  pub ref_total_bw_gbps : ℕ
  pub num_total_threads : ℕ
  pub fragment_size : ℕ
  pub ref_one_exec_time_ns : ℕ

unfoldable pub copy_mem_region_config : Settings → Packet → Packet
copy_mem_region_config s p = record p {
  region_size_kb = s.region_size_kb;
  access_pattern = s.access_pattern;
  chunk_size_kb = s.chunk_size_kb;
  stride_size_b = s.stride_size_b;
  use_hugepage = s.use_hugepage;
}

-- `NODE0 + node`; the node is -1, for `NATIVE`, or the number of a node.
unfoldable pub node_mem_type : ℤ → ℕ
node_mem_type node = pos_part (pos node0 +ℤ node)

unfoldable pub prepare_packets : Settings → (node : ℤ) → List Packet → List Packet
unfolding copy_mem_region_config node_mem_type
prepare_packets s node [] = []
prepare_packets s node (p ∷ rest) =
    record (copy_mem_region_config s p) { mem_type = node_mem_type node }
    ∷ prepare_packets s node rest
