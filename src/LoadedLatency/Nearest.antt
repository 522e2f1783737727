-- ===== src/LoadedLatency/Nearest.antt =====
-- What `build_delays_and_kernels` chooses.
use mm_mem.Base.{
  ℕ, zero, suc, ◌≤◌, ◌<◌, ◌≡◌, refl, inl, inr, true, none, [], ◌∷◌, arith, ltb, ltb→lt, All,
  Bool-cases,
}
use mathlib.Core.Path.{subst}
use mathlib.Core.List.{Mem, mem-cons_self, mem-cons_of_mem}
use mm_mem.Base.Int.{ℤ, pos, ltb_ℤ}
use mm_mem.Base.Returns.{Returns, returns}
use mm_mem.Kernels.Code.{Code}
use mm_mem.Kernels.Delays.{get_kernels_with_delays}
use mm_mem.LoadedLatency.{
  DelayKernelList, distance, nearest_loop, repeat_front, build_delays_and_kernels,
}

-- `item` is in the list, and no item of the list is nearer to the wanted delay.
pub record IsNearest (wanted : ℤ) (item : ℕ × Code) (raw : DelayKernelList) : Type 0 where
  pub listed : Mem item raw
  pub least : All (λ other. distance wanted item ≤ distance wanted other) raw

-- The loop keeps what it was given if nothing is nearer than the gap, and else has the nearest.
data Outcome (wanted : ℤ) (raw : DelayKernelList) (gap : ℕ) (out : DelayKernelList)
    : DelayKernelList → Type 0 where
  kept : All (λ other. gap ≤ distance wanted other) raw → Outcome wanted raw gap out out
  found :
      (item : ℕ × Code)
      → distance wanted item < gap
      → IsNearest wanted item raw
      → Outcome wanted raw gap out (item ∷ [])

All-weaken :
    (wanted : ℤ) (a b : ℕ) (raw : DelayKernelList)
    → a ≤ b
    → All (λ other. b ≤ distance wanted other) raw
    → All (λ other. a ≤ distance wanted other) raw
All-weaken wanted a b [] h all = tt
All-weaken wanted a b (x ∷ rest) h (first, all) = (omega arith, All-weaken wanted a b rest h all)

module _ (wanted : ℤ) (item : ℕ × Code) (rest : DelayKernelList) (gap : ℕ)
    (out : DelayKernelList) where
  closer_step :
      {result : DelayKernelList}
      → distance wanted item < gap
      → Outcome wanted rest (distance wanted item) (item ∷ []) result
      → Outcome wanted (item ∷ rest) gap out result
  closer_step h (kept all) =
      found item h (record { listed = mem-cons_self; least = (omega arith, all) })
  closer_step h (found x near best) =
      found x (omega arith)
        (record { listed = mem-cons_of_mem item best.listed; least = (omega arith, best.least) })

  farther_step :
      {result : DelayKernelList}
      → gap ≤ distance wanted item
      → Outcome wanted rest gap out result
      → Outcome wanted (item ∷ rest) gap out result
  farther_step h (kept all) = kept (h, all)
  farther_step h (found x near best) =
      found x near
        (record { listed = mem-cons_of_mem item best.listed; least = (omega arith, best.least) })

nearest_loop-Outcome :
    (wanted : ℤ) (raw : DelayKernelList) (gap : ℕ) (out : DelayKernelList)
    → Outcome wanted raw gap out (nearest_loop wanted raw gap out)
unfolding nearest_loop
nearest_loop-Outcome wanted [] gap out = kept tt
nearest_loop-Outcome wanted (item ∷ rest) gap out =
    elim (Bool-cases (ltb (distance wanted item) gap)) [
      | inl closer ↦ rw closer (
          closer_step wanted item rest gap out (ltb→lt (distance wanted item) gap closer)
            (nearest_loop-Outcome wanted rest (distance wanted item) (item ∷ [])))
      | inr farther ↦ rw farther (
          farther_step wanted item rest gap out (ground arith)
            (nearest_loop-Outcome wanted rest gap out))
    ]

-- The list starts with a kernel of delay 1, which is nearer than any positive delay to itself.
starts_with_one :
    (mix : ℕ)
    → mix < 4
    → (k : Code) × (rest : DelayKernelList) × (get_kernels_with_delays mix ≡ (1, k) ∷ rest)
unfolding get_kernels_with_delays
starts_with_one zero h = (_, _, refl)
starts_with_one (suc zero) h = (_, _, refl)
starts_with_one (suc (suc zero)) h = (_, _, refl)
starts_with_one (suc (suc (suc zero))) h = (_, _, refl)
starts_with_one (suc (suc (suc (suc mix)))) h = absurd (omega arith)

distance_one : (g : ℕ) (k : Code) → 0 < g → distance (pos g) (1, k) < g
unfolding distance
distance_one g k h = ground arith

choose :
    (g : ℕ) (raw : DelayKernelList) {out : DelayKernelList}
    → ¬ All (λ other. g ≤ distance (pos g) other) raw
    → Outcome (pos g) raw g [] out
    → Returns
        (λ chosen. (item : ℕ × Code) × (chosen ≡ item ∷ item ∷ []) × IsNearest (pos g) item raw)
        (repeat_front out)
unfolding repeat_front
choose g raw some_near (kept all) = absurd (some_near all)
choose g raw some_near (found item near best) = returns (item, refl, best)

-- For one of the four mixes and a positive delay, the list is the kernel whose delay is nearest to
-- the wanted one, twice.
pub build_delays_and_kernels-IsNearest :
    (mix g : ℕ)
    → mix < 4
    → 0 < g
    → Returns
        (λ chosen.
          (item : ℕ × Code) × (chosen ≡ item ∷ item ∷ [])
          × IsNearest (pos g) item (get_kernels_with_delays mix))
        (build_delays_and_kernels mix (pos g))
unfolding build_delays_and_kernels nearest_loop
build_delays_and_kernels-IsNearest mix g h pos_g =
    let raw = get_kernels_with_delays mix in
    let (k, rest, e) = starts_with_one mix h in
    rw test (
      choose g raw (λ all. absurd (omega (arith, distance_one g k pos_g, (subst (All _) e all).0)))
        (nearest_loop-Outcome (pos g) raw g []))
  where
    test : ltb_ℤ (pos 0) (pos g) ≡ true
    test = ground arith

-- For any other mix and a positive delay, the front of an empty list is taken.
pub build_delays_and_kernels-other_mix :
    (mix g : ℕ) → 4 ≤ mix → 0 < g → build_delays_and_kernels mix (pos g) ≡ none
unfolding build_delays_and_kernels get_kernels_with_delays nearest_loop repeat_front distance
build_delays_and_kernels-other_mix mix g h pos_g = ground arith
