-- ===== src/Workers/Alloc/Cycle.antt =====
-- The latency worker's region as its chase finds it.
use mm_mem.Base.{ℕ, ◌*◌, ◌+◌, ◌/◌, ◌^◌, ◌≤◌, ◌<◌, ◌≡◌, ◌≢◌, ◌∙◌, ap, some, arith, div-pos}
use mathlib.Core.Path.{subst}
use native.Mathlib.Nat.{mul-le-mul_right, div-le_self}
use mm_mem.Base.Returns.{Returns, returns, bind, mono}
use mm_mem.MemRegion.Memory.{Memory}
use mm_mem.MemRegion.Sequence.{Rand}
use mm_mem.MemRegion.Region.{Os, MemRegion, construct, alloc_native}
use mm_mem.MemRegion.Region.Construct.{construct-IsRegion, used_page}
use mm_mem.MemRegion.Init.{page_random_init, all_random_init}
use mm_mem.MemRegion.Tour.{IsCycle, IsRegion, active_lines}
use mm_mem.MemRegion.Tour.AllRandom.{all_random_init-IsCycle}
use mm_mem.MemRegion.Tour.PageRandom.{page_cell, InPages, page_random_init-IsCycle}
use mm_mem.Workers.Packet.{Packet}
use mm_mem.Workers.Alloc.{
  hugepage_of, chunk_size, region_size, memory_of, init_pattern, mem_region_alloc_lat,
}

-- A packet whose lines fit into its chunks and its chunks into its region, in a system that gives it
-- the memory at `a`.
pub record IsAllocated (os : Os) (p : Packet) (a : ℕ) : Type 0 where
  pub wide : 8 ≤ p.stride_size_b
  pub lines : p.stride_size_b ≤ chunk_size p
  pub chunks : chunk_size p ≤ region_size p
  pub fits : a + region_size p < 2 ^ 64
  pub given :
      (real : ℕ) × (alloc_native os p.mem_type (hugepage_of p.use_hugepage) (region_size p)
        ≡ some (a, real))

-- The lines of a region, by a packet.
abbrev pub packet_lines : Packet → ℕ
packet_lines p = region_size p / chunk_size p * (chunk_size p / p.stride_size_b)

-- What the constructor makes of the packet.
pub record IsMade (p : Packet) (a : ℕ) (r : MemRegion) : Type 0 where
  pub is_region : IsRegion r a
  pub active : r.active_size ≡ region_size p
  pub line : r.line_size ≡ p.stride_size_b
  pub page : r.page_size ≡ chunk_size p
  pub pages : r.num_active_pages ≡ region_size p / chunk_size p
  pub in_page : r.num_lines_in_page ≡ chunk_size p / p.stride_size_b

init_pattern-page :
    (rand : Rand) (pattern : ℕ) (r : MemRegion) (m : Memory)
    → pattern ≢ 0
    → pattern ≢ 2
    → init_pattern rand pattern r m ≡ page_random_init rand r m
unfolding init_pattern
init_pattern-page rand pattern r m not_stride not_random = ground arith

init_pattern-all :
    (rand : Rand) (pattern : ℕ) (r : MemRegion) (m : Memory)
    → pattern ≡ 2
    → init_pattern rand pattern r m ≡ all_random_init rand r m
unfolding init_pattern
init_pattern-all rand pattern r m random = ground arith

module _ (os : Os) (p : Packet) (a : ℕ) (ok : IsAllocated os p a) where
  made : Returns (IsMade p a) (
      construct os
        (region_size p)
        (region_size p)
        (chunk_size p)
        p.stride_size_b
        p.mem_type
        (hugepage_of p.use_hugepage))
  made =
      let (real, got) = ok.given in
      let used : used_page (region_size p) (chunk_size p) ≡ chunk_size p =
        ground (arith, ok.chunks) in
      mono
        (construct-IsRegion os (region_size p) (region_size p) (chunk_size p) p.stride_size_b
          p.mem_type (hugepage_of p.use_hugepage) a real
          (omega (arith, ok.wide, ok.lines, ok.chunks)) (omega (arith, ok.wide, ok.lines)) ok.wide
          (omega arith) ok.fits got)
        λ r (is_region, size, active, line, page, pages, in_page, real_size). record {
          is_region = is_region;
          active = active;
          line = line;
          page = page ∙ used;
          pages = pages ∙ ap (λ t. region_size p / t) used;
          in_page = in_page ∙ ap (λ t. t / p.stride_size_b) used;
        }

  some_pages : 0 < region_size p / chunk_size p
  some_pages = div-pos _ _ (omega (arith, ok.wide, ok.lines)) ok.chunks

  some_lines : 0 < chunk_size p / p.stride_size_b
  some_lines = div-pos _ _ (omega (arith, ok.wide)) ok.lines

  lines_pos : 0 < packet_lines p
  lines_pos = omega (
    arith,
    some_lines,
    mul-le-mul_right {m = 1} {n = region_size p / chunk_size p} (chunk_size p / p.stride_size_b)
        some_pages,
  )

  in_page_few : chunk_size p / p.stride_size_b < 2 ^ 32
  unfolding chunk_size
  in_page_few = omega (arith, div-le_self (chunk_size p) p.stride_size_b)

  lines_made : (r : MemRegion) → IsMade p a r → active_lines r ≡ packet_lines p
  lines_made r h =
      ap (λ t. t * r.num_lines_in_page) h.pages
      ∙ ap (λ t. region_size p / chunk_size p * t) h.in_page

  -- For a packet with full-random access whose lines fit into its chunks and its chunks into its
  -- region, with fewer than 2^32 lines and memory given by the system, mem_region_alloc_lat makes
  -- a well-formed region with the sizes of the packet, whose chase meets each line exactly once
  -- and closes.
  pub mem_region_alloc_lat-IsCycle :
      (rand : Rand) (m : Memory)
      → p.access_pattern ≡ 2
      → packet_lines p < 2 ^ 32
      → Returns
          (λ (r, m'). IsMade p a r × IsCycle a (packet_lines p) (λ i. i * p.stride_size_b) m')
          (mem_region_alloc_lat os rand p m)
  unfolding mem_region_alloc_lat
  mem_region_alloc_lat-IsCycle rand m pattern few = bind made λ r h.
      let n = lines_made r h in
      rw (init_pattern-all rand p.access_pattern r (memory_of r m) pattern) (
        bind
          (all_random_init-IsCycle r a h.is_region rand (memory_of r m)
            (omega (arith, n, lines_pos)) (omega (arith, n, few)))
          λ m' c. returns (
            h,
            subst (λ t. IsCycle a t (λ i. i * p.stride_size_b) m') n
                (subst (λ l. IsCycle a (active_lines r) (λ i. i * l) m') h.line c),
          ))

  -- For a packet with random access in a chunk, or with a number that no pattern has, whose lines
  -- fit into its chunks and its chunks into its region, and with memory given by the system,
  -- mem_region_alloc_lat makes a well-formed region with the sizes of the packet, a page of it a
  -- chunk, whose chase meets each line exactly once, closes, and stays in a page until all its
  -- lines are met.
  pub mem_region_alloc_lat-InPages :
      (rand : Rand) (m : Memory)
      → p.access_pattern ≢ 0
      → p.access_pattern ≢ 2
      → Returns
          (λ (r, m'). IsMade p a r × IsCycle a (packet_lines p) (page_cell r) m' × InPages r a m')
          (mem_region_alloc_lat os rand p m)
  unfolding mem_region_alloc_lat
  mem_region_alloc_lat-InPages rand m not_stride not_random = bind made λ r h.
      rw (init_pattern-page rand p.access_pattern r (memory_of r m) not_stride not_random) (
        bind
          (page_random_init-IsCycle r a h.is_region (omega (arith, h.pages, some_pages))
            (omega (arith, h.in_page, some_lines)) (omega (arith, h.in_page, in_page_few)) rand
            (memory_of r m))
          λ m' (c, inside).
            returns (h, subst (λ t. IsCycle a t (page_cell r) m') (lines_made r h) c, inside))
