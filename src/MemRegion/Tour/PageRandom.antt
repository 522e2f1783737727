-- ===== src/MemRegion/Tour/PageRandom.antt =====
-- `MemRegion::page_random_init`: page after page, at random within each page.
mod Places
mod Loop
use mm_mem.Base.{
  ℕ, zero, suc, ◌+◌, ◌-◌, ◌*◌, ◌/◌, ◌%◌, ◌^◌, ◌≤◌, ◌<◌, ◌≡◌, ◌≢◌, sym, ap, ◌∙◌, some, List, arith,
  get_elem?, get_or, get_elem?-get_or, replicate, length-replicate, add64, add64-lt, sub64-le, ◌==◌,
  if◌then◌else◌,
}
use mm_mem.Base.Returns.{Returns, returns, bind, mono}
use mathlib.Core.Path.{ap₂}
use native.Mathlib.Decide.{dec_lt, ℕ_discrete}
use native.Mathlib.Nat.{
  zero-add, zero-div, zero-mod, mod-lt, mod_self, mod-eq_of_lt, div-lt_iff_lt-mul, div-add-mod',
}
use mm_mem.MemRegion.Memory.{Memory}
use mm_mem.MemRegion.Region.{MemRegion}
use mm_mem.MemRegion.Init.{link, chain_loop, page_loop, page_random_init}
use mm_mem.MemRegion.Sequence.{Rand}
use mm_mem.MemRegion.Sequence.Fill.{multiples, length-multiples, get_or-multiples}
use mm_mem.MemRegion.Sequence.Randomize.{
  IsArrangement, randomize_sequence-in_order, randomize_sequence-IsArrangement,
}
use mm_mem.MemRegion.Tour.{
  chase, Apart, active_lines, IsCycle, IsRegion, IsTour, IsTour-IsCycle, chase-IsTour,
}
use mm_mem.MemRegion.Tour.Link.{Linked, link-Linked, chain_loop-Linked}
use mm_mem.MemRegion.Tour.Arrangement.{mul_le, mul_step, onto, value-lt, apart}
use mm_mem.MemRegion.Tour.PageRandom.Places.{
  div_unique, mod_unique, place, page_lt, place_in_page, place_inside, place-Apart, place_at,
  place-zero,
}
use mm_mem.MemRegion.Tour.PageRandom.Loop.{line_lt, page_loop-IsTour}

-- The offset of a line: its page, and its number within the page.
abbrev pub page_cell : MemRegion → ℕ → ℕ
page_cell r i = (i / r.num_lines_in_page) * r.page_size + (i % r.num_lines_in_page) * r.line_size

-- The first steps of the chase are in the first page, those behind them in the second, and so on.
abbrev pub InPages : MemRegion → (a : ℕ) → Memory → Type 0
InPages r a m =
    (k : ℕ)
    → k < active_lines r
    → (a + (k / r.num_lines_in_page) * r.page_size ≤ chase m k a)
      × (chase m k a < a + (k / r.num_lines_in_page + 1) * r.page_size)

module _ (r : MemRegion) (a : ℕ) (ok : IsRegion r a) (some_pages : 0 < r.num_active_pages)
    (pos : 0 < r.num_lines_in_page) (t : List ℕ)
    (arr : IsArrangement r.num_lines_in_page r.line_size t) where
  abbrev pages : ℕ
  pages = r.num_active_pages

  abbrev l : ℕ
  l = r.num_lines_in_page

  abbrev n : ℕ
  n = active_lines r

  positive : 0 < n
  positive = omega (arith, line_lt r a ok some_pages pos t arr 0 0 some_pages pos)

  page_le : (k : ℕ) → (k / l) * r.page_size ≤ place r t k
  unfolding place
  page_le k = omega arith

  onto_cells :
      (i : ℕ)
      → i < n
      → (k : ℕ) × (k < n) × (place r t k ≡ (i / l) * r.page_size + (i % l) * r.line_size)
  unfolding place
  onto_cells i h =
      let (j, hj, e) = onto l r.line_size t arr (i % l) (mod-lt i pos) in
      let page = page_lt r a ok some_pages pos t arr i h in
      (
        (i / l) * l + j,
        (line_lt r a ok some_pages pos t arr) (i / l) j page hj,
        rw (div_unique (i / l) j l hj, mod_unique (i / l) j l hj, e),
      )

  cycle : (m : Memory) → IsTour a n (place r t) m → IsCycle a n (page_cell r) m
  cycle m tour =
      IsTour-IsCycle a n (place r t) m positive tour (page_cell r)
        (place-zero r a ok some_pages pos t arr) onto_cells
        (place-Apart r a ok some_pages pos t arr)

  in_page : (m : Memory) → IsTour a n (place r t) m → InPages r a m
  in_page m tour k h =
      let e : chase m k a ≡ a + place r t k =
        chase-IsTour a n (place r t) m positive tour (place-zero r a ok some_pages pos t arr) k
        ∙ ap (λ x. a + place r t x) (mod-eq_of_lt h) in
      (
        omega (arith, e, page_le k),
        omega (arith, e, place_in_page r a ok some_pages pos t arr k, ok.wide),
      )

module _ (r : MemRegion) (a : ℕ) (ok : IsRegion r a) (some_pages : 0 < r.num_active_pages)
    (pos : 0 < r.num_lines_in_page) (few : r.num_lines_in_page < 2 ^ 32) where
  -- On a well-formed region with an active page and between 1 and 2^32 - 1 lines in a page,
  -- page_random_init succeeds, the chase from its start meets each line of the active pages
  -- exactly once, closes, and stays in a page until all its lines are met.
  pub page_random_init-IsCycle :
      (rand : Rand) (m : Memory)
      → Returns
          (λ m'. IsCycle a (active_lines r) (page_cell r) m' × InPages r a m')
          (page_random_init rand r m)
  unfolding page_random_init
  page_random_init-IsCycle rand m =
      let pages = r.num_active_pages in
      let l = r.num_lines_in_page in
      rw
        (randomize_sequence-in_order rand (replicate pages 0) pages r.page_size
          (length-replicate pages 0)
          (λ k h. omega (arith, mul_step k pages r.page_size h, ok.pages, ok.within, ok.fits)))
        (bind
          (randomize_sequence-IsArrangement rand (replicate l 0) l r.line_size
            (length-replicate l 0)
            (λ k h. omega (
              arith,
              mul_step k l r.line_size h,
              ok.lines,
              mul_step 0 pages r.page_size some_pages,
              ok.pages,
              ok.within,
              ok.fits,
            ))
            pos few)
          λ t arr.
            mono
              (page_loop-IsTour r a ok some_pages pos t arr pages 0 m (omega arith)
                (λ j h. absurd (omega arith)))
              λ m' tour. (
                cycle r a ok some_pages pos t arr m' tour,
                in_page r a ok some_pages pos t arr m' tour,
              ))
