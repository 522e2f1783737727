-- ===== src/Programs/Bandwidth/Kernels.antt =====
-- The list that the test of the peak bandwidth goes through: there is a kernel to start with for every mix.
use mm_mem.Base.{ℕ, ◌<◌, ◌≡◌, refl, some, List, [], ◌∷◌, arith, length}
use mm_mem.Kernels.Bandwidth.{get_kernels_with_wrmix}
use mm_mem.Programs.Bandwidth.{first_again}

pub first_again-some {ℓ} :
    {A : Type ℓ} (items : List A)
    → 0 < length items
    → (again : List A) × (first_again items ≡ some again)
unfolding first_again
first_again-some [] h = absurd (omega arith)
first_again-some (a ∷ rest) h = (_, refl)

pub some_kernel : (mix : ℕ) → 0 < length (get_kernels_with_wrmix mix)
unfolding get_kernels_with_wrmix
some_kernel mix = ground arith
