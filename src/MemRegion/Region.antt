-- ===== src/MemRegion/Region.antt =====
-- The class `MemRegion` of common/mem_region.h: its types, constructor, allocation and release.
-- What the operating system answers (page size, `set_mempolicy`, `mmap`, `aligned_alloc`) is a
-- parameter. A fault is a division by zero, which traps, or a call of `error_`, which exits.
pub mod Construct
pub mod Alloc
use mm_mem.Base.{
  ℕ, suc, ◌+◌, ◌-◌, ◌*◌, ◌/◌, ◌%◌, ◌^◌, Bool, true, false, ◌&&◌, Option, none, some, ◌>>=◌, ltb,
  leb, ◌==◌, if◌then◌else◌,
}
use mm_mem.Base.Int.{ℤ, pos, negsuc, ltb_ℤ}
use mm_mem.MemRegion.Memory.{Memory}

-- The underlying `int` of `enum class MemType`: NATIVE = 0, NODE0 = 1, …, NODE7 = 8, INTERLEAVE.
abbrev pub native : ℕ
native = 0

abbrev pub node0 : ℕ
node0 = 1

abbrev pub interleave : ℕ
interleave = 9

-- The underlying `int` of `enum class HugePageType`: NONE = 0, HGPG_2MB, HGPG_512MB, HGPG_1GB,
-- HGPG_16GB. It can have any value of an `int`.
abbrev pub no_hugepage : ℤ
no_hugepage = pos 0

pub data Policy : Type 0 where
  mpol_bind mpol_interleave : Policy

-- The answers of the operating system.
pub record Os : Type 0 where
  -- `getpagesize()`
  pub page_size : ℕ
  -- `numa_max_node()`
  pub max_node : ℕ
  -- whether `set_mempolicy(mode, &nodemask, maxnode)` succeeds
  pub set_mempolicy : Policy → (nodemask maxnode : ℕ) → Bool
  -- the address that `mmap` of this size with huge pages of this log2 returns, if any
  pub mmap : (size log2 : ℕ) → Option ℕ
  -- the address that `aligned_alloc` of this size returns, if any
  pub aligned_alloc : ℕ → Option ℕ

pub record MemRegion : Type 0 where
  pub size : ℕ
  pub active_size : ℕ
  pub os_page_size : ℕ
  pub page_size : ℕ
  pub line_size : ℕ
  pub mem_type : ℕ
  pub hugepage_type : ℤ
  -- `none` is the null pointer
  pub addr : Option ℕ
  pub real_size : ℕ
  pub num_all_pages : ℕ
  pub num_active_pages : ℕ
  pub num_lines_in_page : ℕ

-- `a / b` on unsigned integers, which traps where `b` is zero
unfoldable pub div_or_trap : ℕ → ℕ → Option ℕ
div_or_trap a b = if b == 0 then none else some (a / b)

-- The policy that `allocNative_` sets, with its node mask; `none` where it sets none.
unfoldable pub mem_policy : (max_node mem_type : ℕ) → Option (Policy × ℕ)
mem_policy max_node mem_type =
    if leb node0 mem_type && leb mem_type interleave
    then (if mem_type == interleave
        then some (mpol_interleave, (2 ^ (max_node + 1) + 2 ^ 64 - 1) % 2 ^ 64)
        else some (mpol_bind, 2 ^ (mem_type - node0) % 2 ^ 64))
    else none

-- `hugepage_size_log2`
unfoldable pub hugepage_size_log2 : ℤ → ℕ
hugepage_size_log2 (negsuc n) = 0
hugepage_size_log2 (pos hugepage_type) =
    if hugepage_type == 1
    then 21
    else if hugepage_type == 2
    then 29
    else if hugepage_type == 3
    then 30
    else if hugepage_type == 4
    then 34
    else 0

-- `((size >> log2) + padding) << log2`
unfoldable pub round_up : (size log2 : ℕ) → ℕ
round_up size log2 =
    let padding : ℕ = if ltb 0 (size % 2 ^ log2) then 1 else 0 in
    (size / 2 ^ log2 + padding) * 2 ^ log2 % 2 ^ 64

-- `allocNative_`: the address, and the new `real_size_`
unfoldable pub alloc_native :
    Os → (mem_type : ℕ) → (hugepage_type : ℤ) → (size : ℕ) → Option (ℕ × ℕ)
alloc_native os mem_type hugepage_type size =
    let placed : Bool = elim (mem_policy os.max_node mem_type) [
      | none ↦ true
      | some (mode, nodemask) ↦ os.set_mempolicy mode nodemask (os.max_node + 1 + 1)
    ] in
    if placed
    then (if ltb_ℤ no_hugepage hugepage_type
        then (let log2 = hugepage_size_log2 hugepage_type in
            os.mmap size log2 >>= λ addr. some (addr, round_up size log2))
        else (os.aligned_alloc size >>= λ addr. some (addr, size)))
    else none

-- The constructor: the member initialisers divide first, with the page size as it is given.
unfoldable pub construct :
    Os
    → (size active_size page_size line_size mem_type : ℕ) → (hugepage_type : ℤ) → Option MemRegion
construct os size active_size page_size line_size mem_type hugepage_type = do
  _ ← div_or_trap size page_size
  _ ← div_or_trap active_size page_size
  _ ← div_or_trap page_size line_size
  let page : ℕ = if ltb active_size page_size then 4096 else page_size
  all_pages ← div_or_trap size page
  active_pages ← div_or_trap active_size page
  lines_in_page ← div_or_trap page line_size
  let region : MemRegion = record {
    size = size;
    active_size = active_size;
    os_page_size = os.page_size;
    page_size = page;
    line_size = line_size;
    mem_type = mem_type;
    hugepage_type = hugepage_type;
    addr = none;
    real_size = 0;
    num_all_pages = all_pages;
    num_active_pages = active_pages;
    num_lines_in_page = lines_in_page;
  }
  if ltb 0 size
      then (alloc_native os mem_type hugepage_type size >>= λ (addr, real_size).
          some (record region { addr = some addr; real_size = real_size }))
      else some region

-- `memset(addr1_, 0, size_)`
unfoldable pub cleared : (addr size : ℕ) → Memory → Memory
cleared addr size m b = if leb addr b && ltb b (addr + size) then 0 else m b

-- What the destructor does with the allocation.
pub data Release : Type 0 where
  munmap : (addr size : ℕ) → Release
  free : (addr : ℕ) → Release
  nothing : Release

unfoldable pub destruct : MemRegion → Release
destruct r = elim r.addr [
  | none ↦ nothing
  | some addr ↦ if ltb_ℤ no_hugepage r.hugepage_type then munmap addr r.real_size else free addr
]

unfoldable pub num_all_lines : MemRegion → ℕ
num_all_lines r = r.num_all_pages * r.num_lines_in_page % 2 ^ 64

unfoldable pub num_active_lines : MemRegion → ℕ
num_active_lines r = r.num_active_pages * r.num_lines_in_page % 2 ^ 64

-- `getOffsetAddr_`; the null pointer is address 0
unfoldable pub get_offset_addr : MemRegion → ℕ → ℕ
get_offset_addr r offset = elim r.addr [ none ↦ offset | some addr ↦ addr + offset ]

unfoldable pub get_start_point : MemRegion → ℕ
unfolding get_offset_addr
get_start_point r = get_offset_addr r 0

unfoldable pub get_half_point : MemRegion → ℕ
unfolding get_offset_addr
get_half_point r = get_offset_addr r (r.active_size / 2)
