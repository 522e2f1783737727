-- ===== src/Tests/Regions.antt =====
-- A small region of common/mem_region.cc: 4 pages of 4 lines.
use mm_mem.Base.{ℕ, ◌+◌, ◌*◌, ◌%◌, ◌/◌, ◌^◌, ◌≤◌, ◌<◌, ◌≡◌, refl, true, false, some, [], ◌∷◌, arith}
use mm_mem.Base.Int.{pos}
use mm_mem.Base.Returns.{Returns}
use mm_mem.MemRegion.Memory.{Memory}
use mm_mem.MemRegion.Sequence.{Rand, randomize_sequence}
use mm_mem.MemRegion.Sequence.Randomize.{IsArrangement, randomize_sequence-IsArrangement}
use mm_mem.MemRegion.Region.{
  Os, MemRegion, div_or_trap, mpol_bind, mem_policy, round_up, alloc_native, construct,
}
use mm_mem.Workers.Packet.{node_mem_type}
use mm_mem.Workers.Alloc.Placed.{policy_at, node_mem_type-mem_policy}
use mm_mem.MemRegion.Region.Alloc.{round_up_lem}
use mm_mem.MemRegion.Region.Construct.{used_page, construct-IsRegion}
use mm_mem.MemRegion.Init.{stride_init, page_random_init, all_random_init}
use mm_mem.MemRegion.Tour.{chase, IsCycle, IsRegion}
use mm_mem.MemRegion.Tour.AllRandom.{all_random_init-IsCycle}
use mm_mem.MemRegion.Tour.PageRandom.{page_cell, InPages, page_random_init-IsCycle}
use mm_mem.MemRegion.Tour.Stride.{stride_init-chase}

-- Not the `rand` of any library.
abbrev rand : Rand
rand call = (call * 7919 + 13) % 1000

abbrev os : Os
os = record {
  page_size = 4096;
  max_node = 1;
  set_mempolicy = λ mode nodemask maxnode. true;
  mmap = λ size log2. some 2097152;
  aligned_alloc = λ size. some 4096;
}

abbrev region : MemRegion
region = record {
  size = 256;
  active_size = 256;
  os_page_size = 4096;
  page_size = 64;
  line_size = 16;
  mem_type = 0;
  hugepage_type = pos 0;
  addr = some 4096;
  real_size = 256;
  num_all_pages = 4;
  num_active_pages = 4;
  num_lines_in_page = 4;
}

region-IsRegion : IsRegion region 4096
region-IsRegion = record {
  located = refl;
  fits = omega arith;
  within = omega arith;
  pages = omega arith;
  lines = omega arith;
  wide = omega arith;
}

abbrev zeros : Memory
zeros b = 0

constructed : construct os 256 256 64 16 0 (pos 0) ≡ some region
unfolding construct alloc_native div_or_trap mem_policy
constructed = refl

randomize_sequence-IsArrangement_example :
    Returns (IsArrangement 3 64) (randomize_sequence rand (0 ∷ 0 ∷ 0 ∷ []) 3 64 false)
randomize_sequence-IsArrangement_example =
    randomize_sequence-IsArrangement rand (0 ∷ 0 ∷ 0 ∷ []) 3 64 refl (λ k h. omega (arith, h))
      (omega arith) (omega arith)

all_random_init-IsCycle_example :
    Returns (IsCycle 4096 16 (λ i. i * 16)) (all_random_init rand region zeros)
all_random_init-IsCycle_example =
    all_random_init-IsCycle region 4096 region-IsRegion rand zeros (omega arith) (omega arith)

page_random_init-IsCycle_example :
    Returns
      (λ m. IsCycle 4096 16 (page_cell region) m × InPages region 4096 m)
      (page_random_init rand region zeros)
page_random_init-IsCycle_example =
    page_random_init-IsCycle region 4096 region-IsRegion (omega arith) (omega arith) (omega arith)
      rand zeros

allocated : alloc_native os 0 (pos 0) 256 ≡ some (4096, 256)
unfolding alloc_native mem_policy
allocated = refl

construct-IsRegion_example :
    Returns
      (λ r.
        IsRegion r 4096
        × (r.size ≡ 256)
        × (r.active_size ≡ 256)
        × (r.line_size ≡ 16)
        × (r.page_size ≡ used_page 256 64)
        × (r.num_active_pages ≡ 256 / used_page 256 64)
        × (r.num_lines_in_page ≡ used_page 256 64 / 16)
        × (r.real_size ≡ 256))
      (construct os 256 256 64 16 0 (pos 0))
construct-IsRegion_example =
    construct-IsRegion os 256 256 64 16 0 (pos 0) 4096 256 (omega arith) (omega arith) (omega arith)
      (omega arith) (omega arith) allocated

node_mem_type-mem_policy_example :
    policy_at (mem_policy 1 (node_mem_type (pos 1))) 1 ≡ some (mpol_bind, true)
node_mem_type-mem_policy_example = node_mem_type-mem_policy 1 1 1 (omega arith)

round_up_lem_example :
    (5000000 ≤ round_up 5000000 21)
    × (round_up 5000000 21 < 5000000 + 2 ^ 21)
    × (round_up 5000000 21 % 2 ^ 21 ≡ 0)
round_up_lem_example = round_up_lem 5000000 21 (omega arith)

stride_init-chase_example :
    Returns (λ m. (k : ℕ) → chase m k 4096 ≡ 4096 + (k % 16) * 16) (stride_init region zeros)
stride_init-chase_example =
    stride_init-chase region 4096 region-IsRegion 16 (omega arith) (omega arith) (omega arith)
      (omega arith) zeros
