-- ===== src/MemRegion/Tour/PageRandom/Places.antt =====
-- Where `MemRegion::page_random_init` puts the lines in the order in which they are met.
use mm_mem.Base.{
  ℕ, ◌+◌, ◌*◌, ◌/◌, ◌%◌, ◌≤◌, ◌<◌, ◌≡◌, ◌≢◌, sym, ◌∙◌, List, arith, get_or, add64, add64-lt,
}
use mathlib.Core.Path.{ap₂}
use native.Mathlib.Decide.{dec_lt}
use native.Mathlib.Nat.{zero-div, zero-mod, mod-lt, div-lt_iff_lt-mul, div-add-mod'}
use mm_mem.MemRegion.Region.{MemRegion}
use mm_mem.MemRegion.Sequence.Randomize.{IsArrangement}
use mm_mem.MemRegion.Tour.{Apart, active_lines, IsRegion}
use mm_mem.MemRegion.Tour.Arrangement.{mul_step, value-lt, apart}

pub div_unique : (i j l : ℕ) → j < l → (i * l + j) / l ≡ i
div_unique i j l h = grind arith

pub mod_unique : (i j l : ℕ) → j < l → (i * l + j) % l ≡ j
mod_unique i j l h = grind arith

-- Where the arrangement of a page puts the line that is met after `k` steps.
unfoldable pub place : MemRegion → List ℕ → ℕ → ℕ
place r t k = (k / r.num_lines_in_page) * r.page_size + get_or t (k % r.num_lines_in_page) 0

module _ (r : MemRegion) (a : ℕ) (ok : IsRegion r a) (some_pages : 0 < r.num_active_pages)
    (pos : 0 < r.num_lines_in_page) (t : List ℕ)
    (arr : IsArrangement r.num_lines_in_page r.line_size t) where
  abbrev pages : ℕ
  pages = r.num_active_pages

  abbrev l : ℕ
  l = r.num_lines_in_page

  abbrev n : ℕ
  n = active_lines r

  pub page_lt : (k : ℕ) → k < n → k / l < pages
  page_lt k h = (div-lt_iff_lt-mul pos).1 h

  -- A place stays within its page.
  pub place_in_page : (k : ℕ) → place r t k + r.line_size ≤ (k / l) * r.page_size + r.page_size
  unfolding place
  place_in_page k = omega (arith, value-lt l r.line_size t arr (k % l) (mod-lt k pos), ok.lines)

  pub place_inside : (k : ℕ) → k < n → place r t k + 8 ≤ r.size
  place_inside k h = omega (
    arith,
    place_in_page k,
    mul_step (k / l) pages r.page_size (page_lt k h),
    ok.pages,
    ok.wide,
    ok.within,
  )

  earlier_page : (j k : ℕ) → j / l < k / l → Apart (place r t j) (place r t k)
  earlier_page j k h =
      omega (arith, place_in_page j, at_page, mul_step (j / l) (k / l) r.page_size h, ok.wide)
    where
      at_page : (k / l) * r.page_size ≤ place r t k
      at_page = unfold place in omega arith

  pub place-Apart : (j k : ℕ) → j < n → k < n → j ≢ k → Apart (place r t j) (place r t k)
  place-Apart j k hj hk d = elim (dec_lt (j / l) (k / l)) [
    | yes p ↦ earlier_page j k p
    | no p ↦ elim (dec_lt (k / l) (j / l)) [
      | yes q ↦ omega (arith, earlier_page k j q)
      | no q ↦
          let same : j / l ≡ k / l = omega arith in
          let other : j % l ≢ k % l =
            λ e. d (sym (div-add-mod' j l) ∙ ap₂ (λ x y. x * l + y) same e ∙ div-add-mod' k l) in
          let within =
            apart l r.line_size t arr (omega (arith, ok.wide)) (j % l) (k % l) (mod-lt j pos)
              (mod-lt k pos) other in
          unfold place in rw same (omega (arith, within, ok.wide))
    ]
  ]

  pub place_at :
      (i j : ℕ) → i < pages → j < l → add64 (i * r.page_size) (get_or t j 0) ≡ place r t (i * l + j)
  unfolding place
  place_at i j hi hj =
      let room = value-lt l r.line_size t arr j hj in
      let below = mul_step i pages r.page_size hi in
      rw (div_unique i j l hj, mod_unique i j l hj)
        (add64-lt (i * r.page_size) (get_or t j 0)
          (omega (arith, room, below, ok.pages, ok.lines, ok.within, ok.fits, ok.wide)))

  pub place-zero : place r t 0 ≡ 0
  unfolding place
  place-zero =
      let e : 0 / l ≡ 0 = zero-div l in
      let e' : 0 % l ≡ 0 = zero-mod l in rw (e, e', arr.start) (omega arith)
