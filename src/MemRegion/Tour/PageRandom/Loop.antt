-- ===== src/MemRegion/Tour/PageRandom/Loop.antt =====
-- The loops of `MemRegion::page_random_init` link the lines in the order of their places.
use mm_mem.Base.{
  ℕ, zero, suc, ◌+◌, ◌-◌, ◌*◌, ◌%◌, ◌^◌, ◌<◌, ◌≡◌, ap, ◌∙◌, some, List, arith, get_elem?, get_or,
  get_elem?-get_or, add64, sub64-le, ◌==◌, if◌then◌else◌,
}
use mm_mem.Base.Returns.{Returns, returns, bind, mono}
use native.Mathlib.Decide.{ℕ_discrete}
use native.Mathlib.Nat.{zero-add, mod_self, mod-eq_of_lt}
use mm_mem.MemRegion.Memory.{Memory}
use mm_mem.MemRegion.Region.{MemRegion}
use mm_mem.MemRegion.Init.{link, chain_loop, page_loop}
use mm_mem.MemRegion.Sequence.Fill.{multiples, length-multiples, get_or-multiples}
use mm_mem.MemRegion.Sequence.Randomize.{IsArrangement}
use mm_mem.MemRegion.Tour.{active_lines, IsRegion, IsTour}
use mm_mem.MemRegion.Tour.Link.{Linked, link-Linked, chain_loop-Linked}
use mm_mem.MemRegion.Tour.Arrangement.{mul_le, mul_step}
use mm_mem.MemRegion.Tour.PageRandom.Places.{place, place_inside, place-Apart, place_at}

module _ (r : MemRegion) (a : ℕ) (ok : IsRegion r a) (some_pages : 0 < r.num_active_pages)
    (pos : 0 < r.num_lines_in_page) (t : List ℕ)
    (arr : IsArrangement r.num_lines_in_page r.line_size t) where
  abbrev pages : ℕ
  pages = r.num_active_pages

  abbrev l : ℕ
  l = r.num_lines_in_page

  abbrev n : ℕ
  n = active_lines r

  abbrev LinkedTo : ℕ → Memory → Type 0
  LinkedTo =
      Linked r a ok (place r t) n (place_inside r a ok some_pages pos t arr)
        (place-Apart r a ok some_pages pos t arr)

  -- The page behind page `i`.
  abbrev next_page : ℕ → ℕ
  next_page i = if i == pages - 1 then 0 else i + 1

  next_page-lt : (i : ℕ) → i < pages → next_page i < pages
  next_page-lt i h = ground arith

  next_page_line : (i : ℕ) → i < pages → (i * l + (l - 1) + 1) % n ≡ next_page i * l + 0
  next_page_line i h =
      let step : i * l + (l - 1) + 1 ≡ (i + 1) * l = omega arith in
      elim (ℕ_discrete (i + 1) pages) [
        | yes last ↦
            let back : next_page i ≡ 0 = ground arith in
            ap (λ x. x % n) (step ∙ ap (λ x. x * l) last)
            ∙ mod_self n
            ∙ omega (arith, ap (λ x. x * l) back)
        | no other ↦
            let on : next_page i ≡ i + 1 = ground arith in
            let e : (i + 1) * l < n = omega (arith, mul_step (i + 1) pages l (omega arith)) in
            rw (step, mod-eq_of_lt e) (omega (arith, ap (λ x. x * l) on))
      ]

  abbrev page_starts : List ℕ
  page_starts = multiples pages 0 r.page_size

  page_start : (i : ℕ) → i < pages → get_elem? page_starts i ≡ some (i * r.page_size)
  page_start i h =
      get_elem?-get_or page_starts i 0 (omega (arith, length-multiples pages 0 r.page_size))
      ∙ ap some (get_or-multiples pages 0 r.page_size i h ∙ ap (λ x. x * r.page_size) (zero-add i))

  line_at : (j : ℕ) → j < l → get_elem? t j ≡ some (get_or t j 0)
  line_at j h = get_elem?-get_or t j 0 (omega (arith, arr.len))

  pub line_lt : (i j : ℕ) → i < pages → j < l → i * l + j < n
  line_lt i j hi hj = omega (arith, mul_step i pages l hi)

  -- The inner loop links the cells of one page.
  page_chain :
      (i : ℕ) (m : Memory)
      → i < pages
      → LinkedTo (i * l) m
      → Returns (LinkedTo (i * l + (0 + (l - 1)))) (chain_loop (l - 1) 0 r (i * r.page_size) t m)
  page_chain i m h linked =
      chain_loop-Linked r a ok (place r t) n (place_inside r a ok some_pages pos t arr)
        (place-Apart r a ok some_pages pos t arr) (i * r.page_size) (i * l) t
        (omega (arith, mul_step i pages l h, arr.len))
        (λ j hj. (place_at r a ok some_pages pos t arr) i j h (omega (arith, arr.len))) (l - 1) 0 m
        (omega (arith, arr.len)) (λ j hj. linked j (omega arith))

  -- The store behind it links the last cell of the page to the next page.
  page_link :
      (i : ℕ) (m : Memory)
      → i < pages
      → LinkedTo (i * l + (0 + (l - 1))) m
      → Returns (LinkedTo ((i + 1) * l)) (
          link r
            (add64 (i * r.page_size) (get_or t (l - 1) 0))
            (add64 (next_page i * r.page_size) (get_or t 0 0))
            m)
  page_link i m h linked =
      rw
        (
          place_at r a ok some_pages pos t arr i (l - 1) h (omega arith),
          place_at r a ok some_pages pos t arr (next_page i) 0 (next_page-lt i h) pos,
          ← next_page_line i h,
        )
        (mono
          (link-Linked r a ok (place r t) n (place_inside r a ok some_pages pos t arr)
            (place-Apart r a ok some_pages pos t arr) (i * l + (l - 1)) m
            (line_lt i (l - 1) h (omega arith)) (λ j hj. linked j (omega arith)))
          λ m' done j hj. done j (omega arith))

  page_pos : 0 < r.page_size
  page_pos = omega (arith, ok.lines, ok.wide, mul_le l r.line_size (omega (arith, ok.wide)))

  small_l : l < 2 ^ 64
  small_l = omega (
    arith,
    mul_le l r.line_size (omega (arith, ok.wide)),
    ok.lines,
    mul_step 0 pages r.page_size some_pages,
    ok.pages,
    ok.within,
    ok.fits,
  )

  small_pages : pages < 2 ^ 64
  small_pages = omega (arith, mul_le pages r.page_size page_pos, ok.pages, ok.within, ok.fits)

  pub page_loop-IsTour :
      (rounds i : ℕ) (m : Memory)
      → i + rounds ≡ pages
      → LinkedTo (i * l) m
      → Returns (IsTour a n (place r t)) (page_loop rounds i r page_starts t m)
  unfolding page_loop
  page_loop-IsTour zero i m e linked = returns λ k h. linked k (omega (arith, ap (λ x. x * l) e))
  page_loop-IsTour (suc rounds) i m e linked =
      let h : i < pages = omega arith in
      rw
        (
          page_start i h,
          sub64-le l 1 pos small_l,
          sub64-le pages 1 (omega arith) small_pages,
          line_at (l - 1) (omega arith),
          page_start (next_page i) (next_page-lt i h),
          line_at 0 pos,
        )
        (bind (page_chain i m h linked) λ m' linked'.
          bind (page_link i m' h linked')
            λ m'' done. page_loop-IsTour rounds (i + 1) m'' (omega arith) done)
