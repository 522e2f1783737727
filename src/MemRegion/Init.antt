-- ===== src/MemRegion/Init.antt =====
-- The three patterns of common/mem_region.cc: `stride_init`, `page_random_init` and
-- `all_random_init`. A store outside of the region's memory is a fault, and so is `vector::at` out
-- of range.
use mm_mem.Base.{
  ℕ, zero, suc, ◌+◌, true, false, Option, none, some, ◌>>=◌, List, ltb, leb, ◌==◌, if◌then◌else◌,
  add64, sub64, get_elem?, replicate,
}
use mm_mem.MemRegion.Memory.{Memory, write64}
use mm_mem.MemRegion.Region.{MemRegion, get_offset_addr, num_active_lines}
use mm_mem.MemRegion.Sequence.{Rand, randomize_sequence}

-- `*(char**)getOffsetAddr_(from) = (char*)getOffsetAddr_(to)`
unfoldable pub link : MemRegion → (from to : ℕ) → Memory → Option Memory
unfolding get_offset_addr
link r from to m =
    if leb (from + 8) r.size
    then some (write64 m (get_offset_addr r from) (get_offset_addr r to))
    else none

-- `for (i = line_size_; i < active_size_; i += line_size_)`, and the store behind it. Without a
-- line size the loop does not end.
unfoldable pub stride_loop : (fuel : ℕ) → MemRegion → (i : ℕ) → Memory → Option Memory
unfolding link
stride_loop zero r i m = none
stride_loop (suc fuel) r i m =
    let rest = λ (m' : Memory). stride_loop fuel r (add64 i r.line_size) m' in
    if ltb i r.active_size
    then (link r (sub64 i r.line_size) i m >>= rest)
    else link r (sub64 i r.line_size) 0 m

unfoldable pub stride_init : MemRegion → Memory → Option Memory
unfolding stride_loop
stride_init r m = stride_loop (r.active_size + 1) r r.line_size m

-- `for (j = 0; j < num_lines_in_page_ - 1; ++j)` with `n` rounds left, within the page at `page`.
-- With `page` zero it is the loop of `all_random_init` too.
unfoldable pub chain_loop : (n j : ℕ) → MemRegion → (page : ℕ) → List ℕ → Memory → Option Memory
unfolding link
chain_loop zero j r page lines m = some m
chain_loop (suc n) j r page lines m = do
  from ← get_elem? lines j
  to ← get_elem? lines (j + 1)
  m' ← link r (add64 page from) (add64 page to) m
  chain_loop n (j + 1) r page lines m'

-- `for (i = 0; i < num_active_pages_; ++i)` with `n` rounds left
unfoldable pub page_loop : (n i : ℕ) → MemRegion → (pages lines : List ℕ) → Memory → Option Memory
unfolding link chain_loop
page_loop zero i r pages lines m = some m
page_loop (suc n) i r pages lines m = do
  page ← get_elem? pages i
  m' ← chain_loop (sub64 r.num_lines_in_page 1) 0 r page lines m
  let next_page : ℕ = if i == sub64 r.num_active_pages 1 then 0 else i + 1
  last ← get_elem? lines (sub64 r.num_lines_in_page 1)
  next ← get_elem? pages next_page
  first ← get_elem? lines 0
  m'' ← link r (add64 page last) (add64 next first) m'
  page_loop n (i + 1) r pages lines m''

unfoldable pub page_random_init : Rand → MemRegion → Memory → Option Memory
unfolding randomize_sequence page_loop
page_random_init rand r m = do
  pages ←
      randomize_sequence rand (replicate r.num_active_pages 0) r.num_active_pages r.page_size true
  lines ←
      randomize_sequence rand (replicate r.num_lines_in_page 0) r.num_lines_in_page r.line_size
        false
  page_loop r.num_active_pages 0 r pages lines m

unfoldable pub all_random_init : Rand → MemRegion → Memory → Option Memory
unfolding num_active_lines randomize_sequence chain_loop
all_random_init rand r m = do
  let num_lines = num_active_lines r
  lines ← randomize_sequence rand (replicate num_lines 0) num_lines r.line_size false
  m' ← chain_loop (sub64 num_lines 1) 0 r 0 lines m
  last ← get_elem? lines (sub64 num_lines 1)
  first ← get_elem? lines 0
  link r last first m'
