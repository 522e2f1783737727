-- ===== src/MemRegion/Tour/Stride.antt =====
-- `MemRegion::stride_init`: one cycle through the lines in ascending order.
use mm_mem.Base.{
  ℕ, zero, suc, ◌+◌, ◌-◌, ◌*◌, ◌%◌, ◌^◌, ◌≤◌, ◌<◌, ◌≡◌, ◌≢◌, sym, ap, ◌∙◌, arith, lt→ltb, le→ltb,
  sub64, sub64-le, add64, add64-lt,
}
use mm_mem.Base.Returns.{Returns, bind, mono}
use mathlib.Core.Path.{subst}
use native.Mathlib.Decide.{dec_lt}
use native.Mathlib.Nat.{mod-eq_of_lt, mul-le-mul_right}
use mm_mem.MemRegion.Memory.{Memory}
use mm_mem.MemRegion.Region.{MemRegion}
use mm_mem.MemRegion.Init.{link, stride_loop, stride_init}
use mm_mem.MemRegion.Tour.{chase, Apart, IsRegion, IsTour, chase-IsTour}
use mm_mem.MemRegion.Tour.Link.{Linked, link-Linked, link-last}
use mm_mem.MemRegion.Tour.Arrangement.{mul_le, mul_step}

lt_of_mul : (x y u : ℕ) → x * u < y * u → x < y
lt_of_mul x y u h = elim (dec_lt x y) [
  | yes l ↦ l
  | no l ↦ absurd (omega (arith, mul-le-mul_right u (let e : y ≤ x = omega arith in e)))
]

module _ (r : MemRegion) (a : ℕ) (ok : IsRegion r a) (n : ℕ) (pos : 0 < n)
    (least : (n - 1) * r.line_size + 8 ≤ r.active_size) (all : r.active_size ≤ n * r.line_size)
    (no_wrap : r.active_size + r.line_size < 2 ^ 64) where
  place : ℕ → ℕ
  place k = k * r.line_size

  place_inside : (k : ℕ) → k < n → place k + 8 ≤ r.size
  unfolding place
  place_inside k h =
      omega (
        arith,
        mul-le-mul_right r.line_size (let e : k ≤ n - 1 = omega arith in e),
        least,
        ok.within,
      )

  place-Apart : (j k : ℕ) → j < n → k < n → j ≢ k → Apart (place j) (place k)
  unfolding place
  place-Apart j k hj hk d = elim (dec_lt j k) [
    | yes l ↦ omega (arith, mul_step j k r.line_size l, ok.wide)
    | no l ↦ omega (arith, mul_step k j r.line_size (let e : k < j = omega arith in e), ok.wide)
  ]

  LinkedTo : ℕ → Memory → Type 0
  LinkedTo = Linked r a ok place n place_inside place-Apart

  place-zero : place 0 ≡ 0
  unfolding place
  place-zero = omega arith

  n_small : n ≤ r.active_size
  n_small = omega (arith, mul_le (n - 1) r.line_size (omega (arith, ok.wide)), least)

  place-suc : (k : ℕ) → place (k + 1) ≡ place k + r.line_size
  unfolding place
  place-suc k = omega arith

  place-le : (k : ℕ) → k < n → place k ≤ r.active_size
  unfolding place
  place-le k h =
      omega (arith, mul-le-mul_right r.line_size (let e : k ≤ n - 1 = omega arith in e), least)

  more : (k : ℕ) → place (k + 1) < r.active_size → k + 1 < n
  unfolding place
  more k h = lt_of_mul (k + 1) n r.line_size (omega arith)

  last : (k : ℕ) → k < n → r.active_size ≤ place (k + 1) → k + 1 ≡ n
  unfolding place
  last k h past =
      let l : n - 1 < k + 1 = lt_of_mul (n - 1) (k + 1) r.line_size (omega arith) in omega arith

  link_next :
      (k i : ℕ) (m : Memory)
      → i ≡ place (k + 1)
      → k + 1 < n
      → LinkedTo k m
      → Returns (LinkedTo (k + 1)) (link r (place k) i m)
  unfolding LinkedTo
  link_next k i m at h linked =
      let e : place ((k + 1) % n) ≡ i = ap place (mod-eq_of_lt h) ∙ sym at in
      subst (λ t. Returns (LinkedTo (k + 1)) (link r (place k) t m)) e
        (link-Linked r a ok place n place_inside place-Apart k m (omega arith) linked)

  -- With `k` cells linked the loop is at the offset `(k + 1) * line_size_`.
  loop-IsTour :
      (fuel k i : ℕ) (m : Memory)
      → i ≡ place (k + 1)
      → k < n
      → n ≤ k + fuel
      → LinkedTo k m
      → Returns (IsTour a n place) (stride_loop fuel r i m)
  unfolding stride_loop LinkedTo
  loop-IsTour zero k i m at h enough linked = absurd (omega arith)
  loop-IsTour (suc fuel) k i m at h enough linked =
      let here : i ≡ place k + r.line_size = at ∙ place-suc k in
      let before : sub64 i r.line_size ≡ place k =
        sub64-le i r.line_size (omega arith) (omega (arith, place-le k h)) ∙ omega arith in
      elim (dec_lt i r.active_size) [
        | yes below ↦
            let h' : k + 1 < n = more k (omega arith) in
            let after : add64 i r.line_size ≡ place (k + 1 + 1) =
              add64-lt i r.line_size (omega arith) ∙ omega (arith, place-suc (k + 1)) in
            rw (lt→ltb i r.active_size below, before)
              (bind (link_next k i m at h' linked)
                λ m' linked'. loop-IsTour fuel (k + 1) _ m' after h' (omega arith) linked')
        | no past ↦
            rw (le→ltb i r.active_size (omega arith), before)
              (subst (λ t. Returns (IsTour a n place) (link r (place k) t m)) place-zero
                (link-last r a ok place n place_inside place-Apart k m (last k h (omega arith))
                  linked))
      ]

  stride_init-IsTour : (m : Memory) → Returns (IsTour a n place) (stride_init r m)
  unfolding stride_init LinkedTo place
  stride_init-IsTour m =
      loop-IsTour (r.active_size + 1) 0 r.line_size m (omega arith) pos
        (omega (arith, place-le (n - 1) (omega arith), n_small)) (λ j h. absurd (omega arith))

  -- On a well-formed region of a positive number of lines, the last of which has room for a
  -- pointer, whose sizes do not wrap around, stride_init succeeds and the chase meets the lines in
  -- ascending order, round and round.
  pub stride_init-chase :
      (m : Memory)
      → Returns (λ m'. (k : ℕ) → chase m' k a ≡ a + (k % n) * r.line_size) (stride_init r m)
  unfolding place
  stride_init-chase m =
      mono (stride_init-IsTour m) λ m' tour. chase-IsTour a n place m' pos tour place-zero
