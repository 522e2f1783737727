-- ===== src/MemRegion/Tour/AllRandom.antt =====
-- `MemRegion::all_random_init`: one cycle through all lines of the active region.
use mm_mem.Base.{
  ℕ, ◌+◌, ◌-◌, ◌*◌, ◌^◌, ◌≤◌, ◌<◌, ◌≡◌, ◌≢◌, ap, ◌∙◌, ◌>>=◌, List, arith, sub64-le, add64, add64-lt,
  length, get_or, get_elem?-get_or, replicate, length-replicate,
}
use mm_mem.Base.Returns.{Returns, bind, mono}
use native.Mathlib.Nat.{mod-eq_of_lt, zero-add, le_trans, le_of_eq, mul_assoc, mul-le-mul_left}
use mm_mem.MemRegion.Memory.{Memory}
use mm_mem.MemRegion.Region.{MemRegion, num_active_lines}
use mm_mem.MemRegion.Init.{link, chain_loop, all_random_init}
use mm_mem.MemRegion.Sequence.{Rand}
use mm_mem.MemRegion.Sequence.Randomize.{IsArrangement, randomize_sequence-IsArrangement}
use mm_mem.MemRegion.Tour.{Apart, active_lines, IsTour, IsCycle, IsRegion, IsTour-IsCycle}
use mm_mem.MemRegion.Tour.Link.{link-last, chain_loop-Linked}
use mm_mem.MemRegion.Tour.Arrangement.{mul_le, mul_step, onto, value-lt, apart}

-- The active lines fit into the active size.
lines_fit : (p l line page active : ℕ) → p * page ≤ active → l * line ≤ page → p * l * line ≤ active
lines_fit p l line page active h k =
    le_trans (le_of_eq (mul_assoc p l line)) (le_trans (mul-le-mul_left p k) h)

module _ (r : MemRegion) (a : ℕ) (ok : IsRegion r a) where
  abbrev n : ℕ
  n = active_lines r

  fit : n * r.line_size ≤ r.active_size
  fit =
      lines_fit r.num_active_pages r.num_lines_in_page r.line_size r.page_size r.active_size
        ok.pages ok.lines

  small : n < 2 ^ 64
  small = omega (arith, fit, mul_le n r.line_size (omega (arith, ok.wide)), ok.within, ok.fits)

  num_active_lines-eq : num_active_lines r ≡ n
  unfolding num_active_lines
  num_active_lines-eq = mod-eq_of_lt small

  module _ (pos : 0 < n) (t : List ℕ) (arr : IsArrangement n r.line_size t) where
    inside : (k : ℕ) → k < n → get_or t k 0 + 8 ≤ r.size
    inside k h = omega (arith, value-lt n r.line_size t arr k h, fit, ok.wide, ok.within)

    distant : (j k : ℕ) → j < n → k < n → j ≢ k → Apart (get_or t j 0) (get_or t k 0)
    distant j k hj hk d =
        omega (arith, apart n r.line_size t arr (omega (arith, ok.wide)) j k hj hk d, ok.wide)

    at_zero : (j : ℕ) → j < length t → add64 0 (get_or t j 0) ≡ get_or t (0 + j) 0
    at_zero j h =
        let below = inside j (omega (arith, arr.len)) in
        let sum : add64 0 (get_or t j 0) ≡ 0 + get_or t j 0 =
          add64-lt 0 (get_or t j 0) (omega (arith, below, ok.fits)) in
        let same : j ≡ 0 + j = omega arith in
        sum ∙ zero-add (get_or t j 0) ∙ ap (λ x. get_or t x 0) same

    links :
        (m : Memory)
        → Returns
            (IsTour a n (λ k. get_or t k 0))
            (chain_loop (n - 1) 0 r 0 t m >>= λ m'. link r (get_or t (n - 1) 0) (get_or t 0 0) m')
    links m =
        bind
          (chain_loop-Linked r a ok (λ k. get_or t k 0) n inside distant 0 0 t
            (omega (arith, arr.len)) at_zero (n - 1) 0 m (omega (arith, arr.len))
            (λ j h. absurd (omega arith)))
          λ m' linked.
            link-last r a ok (λ k. get_or t k 0) n inside distant (n - 1) m' (omega arith)
              (λ j h. linked j (omega arith))

    cycle : (m : Memory) → IsTour a n (λ k. get_or t k 0) m → IsCycle a n (λ i. i * r.line_size) m
    cycle m tour =
        IsTour-IsCycle a n (λ k. get_or t k 0) m pos tour (λ i. i * r.line_size) arr.start
          (onto n r.line_size t arr) distant

  -- On a well-formed region with between 1 and 2^32 - 1 active lines, all_random_init succeeds for
  -- every sequence of random numbers, and the chase from its start meets each active line exactly
  -- once and closes.
  pub all_random_init-IsCycle :
      (rand : Rand) (m : Memory)
      → 0 < active_lines r
      → active_lines r < 2 ^ 32
      → Returns (IsCycle a (active_lines r) (λ i. i * r.line_size)) (all_random_init rand r m)
  unfolding all_random_init
  all_random_init-IsCycle rand m pos few = rw num_active_lines-eq (
      bind
        (randomize_sequence-IsArrangement rand (replicate n 0) n r.line_size (length-replicate n 0)
          (λ k h. omega (arith, mul_step k n r.line_size h, fit, ok.within, ok.fits)) pos few)
        λ t arr.
          let l = arr.len in
          rw
            (
              sub64-le n 1 pos small,
              get_elem?-get_or t (n - 1) 0 (omega arith),
              get_elem?-get_or t 0 0 (omega arith),
            )
            (mono (links pos t arr m) (cycle pos t arr)))
