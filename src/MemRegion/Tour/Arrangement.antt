-- ===== src/MemRegion/Tour/Arrangement.antt =====
-- An arrangement of the multiples of a unit is one of them at each place, each at one place.
use mm_mem.Base.{
  ℕ, zero, suc, ◌+◌, ◌*◌, ◌≤◌, ◌<◌, ◌≡◌, ◌≢◌, refl, sym, ap, ◌∙◌, ◌⊎◌, inl, inr, List, [], ◌∷◌,
  arith, ◌==◌, ==_iff, Bool-cases, length, get_or, count, count-pos_of_get_or, index_of,
}
use native.Mathlib.Decide.{dec_lt, ℕ_discrete}
use mm_mem.MemRegion.Sequence.Fill.{multiples, length-multiples, get_or-multiples}
use mm_mem.MemRegion.Sequence.Randomize.{IsArrangement}

module _ (unit : ℕ) (pos : 0 < unit) where
  count-multiples_below : (n i a : ℕ) → a < i * unit → count a (multiples n i unit) ≡ 0
  unfolding multiples
  count-multiples_below zero i a h = refl
  count-multiples_below (suc n) i a h =
      ground (arith, count-multiples_below n (i + 1) a (omega arith))

  count-multiples-le : (n i a : ℕ) → count a (multiples n i unit) ≤ 1
  unfolding multiples
  count-multiples-le zero i a = omega arith
  count-multiples-le (suc n) i a = elim (Bool-cases (a == i * unit)) [
    | inl here ↦
        let e : a ≡ i * unit = (==_iff a (i * unit)).0 here in
        rw here (omega (arith, count-multiples_below n (i + 1) a (omega arith)))
    | inr there ↦ rw there (omega (arith, count-multiples-le n (i + 1) a))
  ]

distinct_of_count :
    (xs : List ℕ)
    → ((a : ℕ) → count a xs ≤ 1)
    → (j k : ℕ) → j < k
    → k < length xs
    → get_or xs j 0 ≢ get_or xs k 0
distinct_of_count [] once j k h l e = absurd (omega arith)
distinct_of_count (x ∷ xs) once zero zero h l e = absurd (omega arith)
distinct_of_count (x ∷ xs) once zero (suc k) h l e =
    ground (arith, once x, count-pos_of_get_or xs k (omega arith))
distinct_of_count (x ∷ xs) once (suc j) zero h l e = absurd (omega arith)
distinct_of_count (x ∷ xs) once (suc j) (suc k) h l e =
    distinct_of_count xs (λ a. omega (arith, once a)) j k (omega arith) (omega arith) e

pub mul_le : (x u : ℕ) → 0 < u → x ≤ x * u
mul_le x u h = grind arith

pub mul_step : (x y unit : ℕ) → x < y → x * unit + unit ≤ y * unit
mul_step x y unit h = grind arith

pub multiples_apart :
    (x y unit : ℕ)
    → x * unit ≢ y * unit
    → (x * unit + unit ≤ y * unit) ⊎ (y * unit + unit ≤ x * unit)
multiples_apart x y unit ne = elim (dec_lt x y) [
  | yes l ↦ inl (mul_step x y unit l)
  | no l ↦ elim (ℕ_discrete x y) [
    | yes e ↦ absurd (ne (ap (λ t. t * unit) e))
    | no d ↦ inr (mul_step y x unit (omega arith))
  ]
]

module _ (size unit : ℕ) (t : List ℕ) (arr : IsArrangement size unit t) where
  -- Each multiple stands at some place.
  pub onto : (i : ℕ) → i < size → (k : ℕ) × (k < size) × (get_or t k 0 ≡ i * unit)
  onto i h =
      let l = length-multiples size 0 unit in
      let there : 0 < count (i * unit) t = ground (
        arith,
        arr.same (i * unit),
        get_or-multiples size 0 unit i h,
        count-pos_of_get_or (multiples size 0 unit) i (omega arith),
      ) in
      let (k, hk, e) = index_of t (i * unit) there in (k, omega (arith, arr.len), e)

  -- At each place stands a multiple.
  pub value : (k : ℕ) → k < size → (i : ℕ) × (i < size) × (get_or t k 0 ≡ i * unit)
  value k h =
      let there : 0 < count (get_or t k 0) (multiples size 0 unit) =
        omega (arith, arr.same (get_or t k 0), count-pos_of_get_or t k (omega (arith, arr.len))) in
      let (i, hi, e) = index_of (multiples size 0 unit) (get_or t k 0) there in
      let hi' : i < size = omega (arith, length-multiples size 0 unit) in
      (i, hi', sym e ∙ get_or-multiples size 0 unit i hi' ∙ ap (λ x. x * unit) (omega arith))

  pub value-lt : (k : ℕ) → k < size → get_or t k 0 + unit ≤ size * unit
  value-lt k h = let (i, hi, e) = value k h in rw e (grind arith)

  module _ (pos : 0 < unit) where
    distinct : (j k : ℕ) → j < k → k < size → get_or t j 0 ≢ get_or t k 0
    distinct j k h l =
        distinct_of_count t (λ a. omega (arith, arr.same a, count-multiples-le unit pos size 0 a)) j
          k h (omega (arith, arr.len))

    -- Entries at different places are at least a unit apart.
    pub apart :
        (j k : ℕ)
        → j < size
        → k < size
        → j ≢ k
        → (get_or t j 0 + unit ≤ get_or t k 0) ⊎ (get_or t k 0 + unit ≤ get_or t j 0)
    apart j k hj hk differ =
        let (x, hx, ex) = value j hj in
        let (y, hy, ey) = value k hk in
        let ne : x * unit ≢ y * unit = λ e. elim (dec_lt j k) [
          | yes l ↦ distinct j k l hk (ex ∙ e ∙ sym ey)
          | no l ↦ distinct k j (omega arith) hj (ey ∙ sym e ∙ sym ex)
        ] in
        rw (ex, ey) (multiples_apart x y unit ne)
