-- ===== src/Kernels/Bandwidth/Traffic.antt =====
-- What the bandwidth kernels move: accesses per call, and the share of the lines that are written.
use mm_mem.Base.{
  ℕ, zero, suc, ◌+◌, ◌*◌, ◌≤◌, ◌<◌, ◌≡◌, refl, Bool, ◌||◌, List, [], ◌∷◌, arith, length, ◌==◌,
  if◌then◌else◌,
}
use mm_mem.Kernels.Code.{Code, accesses}
use mm_mem.Kernels.Macros.{lp1, lp2, lp3, lp4, lp5, lp8, lp16, lp32, lp42, lp64, lp128, lp256}
use mm_mem.Kernels.Bandwidth.{
  kernel_bw_r1w0_sequential, kernel_bw_r1w1_sequential, kernel_bw_r2w1_sequential,
  kernel_bw_r3w1_sequential, get_write_fraction,
}

-- The 64-byte lines of a run that starts at a line: two accesses of 32 bytes to each. The count is
-- of the lines that are written.
unfoldable pub dirty_lines : List Bool → ℕ
dirty_lines [] = 0
dirty_lines (w ∷ []) = if w then 1 else 0
dirty_lines (w ∷ w' ∷ rest) = (if w || w' then 1 else 0) + dirty_lines rest

-- The kernel of a mix.
abbrev pub bandwidth_kernel : ℕ → Code
bandwidth_kernel mix =
    if mix == 1
    then kernel_bw_r1w1_sequential
    else if mix == 2
    then kernel_bw_r2w1_sequential
    else if mix == 3
    then kernel_bw_r3w1_sequential
    else kernel_bw_r1w0_sequential

-- For the four mixes, a call of the kernel makes 256 accesses, and the write fraction is the share
-- of its 64-byte lines that it writes, up to three in a thousand for the mix 3.
pub dirty_lines-get_write_fraction :
    (mix : ℕ)
    → mix < 4
    → (length (accesses (bandwidth_kernel mix)) ≡ 256)
      × (get_write_fraction mix * 128 ≤ dirty_lines (accesses (bandwidth_kernel mix)) * 10000)
      × (dirty_lines (accesses (bandwidth_kernel mix)) * 10000
          ≤ get_write_fraction mix * 128 + (if mix == 3 then 3 * 128 * 10 else 0))
unfolding accesses get_write_fraction dirty_lines kernel_bw_r1w0_sequential
    kernel_bw_r1w1_sequential kernel_bw_r2w1_sequential kernel_bw_r3w1_sequential lp1 lp2 lp3 lp4
    lp5 lp8 lp16 lp32 lp42 lp64 lp128 lp256
dirty_lines-get_write_fraction zero h = (refl, omega arith, omega arith)
dirty_lines-get_write_fraction (suc zero) h = (refl, omega arith, omega arith)
dirty_lines-get_write_fraction (suc (suc zero)) h = (refl, omega arith, omega arith)
dirty_lines-get_write_fraction (suc (suc (suc zero))) h = (refl, omega arith, omega arith)
dirty_lines-get_write_fraction (suc (suc (suc (suc mix)))) h = absurd (omega arith)
