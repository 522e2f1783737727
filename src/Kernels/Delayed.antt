-- ===== src/Kernels/Delayed.antt =====
-- The `nop` runs between the accesses: how long they are, and that they change nothing else.
pub mod Runs
pub mod Paced
use mm_mem.Base.{ℕ, ◌+◌, ◌*◌, ◌≡◌, refl, ap, ◌∙◌, arith}
use mathlib.Core.Path.{ap₂}
use mm_mem.Kernels.Code.{Code, nop, ◌▹◌, State, run, nops}
use mm_mem.Kernels.Macros.{lp2, lp3, lp4, lp5, lp8, lp16, lp32, lp42, lp64, lp128, lp256}

-- `c` does to the registers and the memory what `d` does, and executes `n` more `nop`s.
pub record Delays (c d : Code) (n : ℕ) : Type 0 where
  pub same : run c ≡ run d
  pub more : nops c ≡ nops d + n

-- `c` executes `n` `nop`s and does nothing else.
pub record IsIdle (n : ℕ) (c : Code) : Type 0 where
  pub skips : run c ≡ (λ s. s)
  pub counts : nops c ≡ n

pub Delays-▹ :
    {c d c' d' : Code} {n m : ℕ} → Delays c d n → Delays c' d' m → Delays (c ▹ c') (d ▹ d') (n + m)
unfolding run nops
Delays-▹ h k = record {
  same = ap₂ (λ f g s. g (f s)) h.same k.same;
  more = omega (arith, h.more, k.more);
}

pub Delays-refl : (c : Code) → Delays c c 0
Delays-refl c = record { same = refl; more = omega arith }

pub Delays-eq : {c d : Code} {n m : ℕ} → Delays c d n → n ≡ m → Delays c d m
Delays-eq h e = record { same = h.same; more = omega (arith, h.more) }

-- `nop`s behind `c`.
pub Delays-pad : (c : Code) {k : Code} {n : ℕ} → IsIdle n k → Delays (c ▹ k) c n
unfolding run nops
Delays-pad c h = record { same = ap (λ f s. f (run c s)) h.skips; more = omega (arith, h.counts) }

pub IsIdle-nop : IsIdle 1 nop
unfolding run nops
IsIdle-nop = record { skips = refl; counts = refl }

pub IsIdle-▹ : {c d : Code} {n m : ℕ} → IsIdle n c → IsIdle m d → IsIdle (n + m) (c ▹ d)
unfolding run nops
IsIdle-▹ h k = record {
  skips = ap₂ (λ f g s. g (f s)) h.skips k.skips;
  counts = omega (arith, h.counts, k.counts);
}

pub IsIdle-eq : {c : Code} {n m : ℕ} → IsIdle n c → n ≡ m → IsIdle m c
IsIdle-eq h e = record { skips = h.skips; counts = omega (arith, h.counts) }

module _ {c d : Code} {n : ℕ} (h : Delays c d n) where
  pub lp2-Delays : Delays (lp2 c) (lp2 d) (2 * n)
  unfolding lp2
  lp2-Delays = Delays-eq (Delays-▹ h h) (omega arith)

  pub lp3-Delays : Delays (lp3 c) (lp3 d) (3 * n)
  unfolding lp3
  lp3-Delays = Delays-eq (Delays-▹ h (Delays-▹ h h)) (omega arith)

  pub lp4-Delays : Delays (lp4 c) (lp4 d) (4 * n)
  unfolding lp4
  lp4-Delays = Delays-eq (Delays-▹ lp2-Delays lp2-Delays) (omega arith)

  pub lp5-Delays : Delays (lp5 c) (lp5 d) (5 * n)
  unfolding lp5
  lp5-Delays = Delays-eq (Delays-▹ lp3-Delays lp2-Delays) (omega arith)

  pub lp8-Delays : Delays (lp8 c) (lp8 d) (8 * n)
  unfolding lp8
  lp8-Delays = Delays-eq (Delays-▹ lp4-Delays lp4-Delays) (omega arith)

  pub lp16-Delays : Delays (lp16 c) (lp16 d) (16 * n)
  unfolding lp16
  lp16-Delays = Delays-eq (Delays-▹ lp8-Delays lp8-Delays) (omega arith)

  pub lp32-Delays : Delays (lp32 c) (lp32 d) (32 * n)
  unfolding lp32
  lp32-Delays = Delays-eq (Delays-▹ lp16-Delays lp16-Delays) (omega arith)

  pub lp42-Delays : Delays (lp42 c) (lp42 d) (42 * n)
  unfolding lp42
  lp42-Delays = Delays-eq (Delays-▹ lp32-Delays (Delays-▹ lp8-Delays lp2-Delays)) (omega arith)

  pub lp64-Delays : Delays (lp64 c) (lp64 d) (64 * n)
  unfolding lp64
  lp64-Delays = Delays-eq (Delays-▹ lp32-Delays lp32-Delays) (omega arith)

  pub lp128-Delays : Delays (lp128 c) (lp128 d) (128 * n)
  unfolding lp128
  lp128-Delays = Delays-eq (Delays-▹ lp64-Delays lp64-Delays) (omega arith)

  pub lp256-Delays : Delays (lp256 c) (lp256 d) (256 * n)
  unfolding lp256
  lp256-Delays = Delays-eq (Delays-▹ lp128-Delays lp128-Delays) (omega arith)

module _ {c : Code} {n : ℕ} (h : IsIdle n c) where
  pub lp2-IsIdle : IsIdle (2 * n) (lp2 c)
  unfolding lp2
  lp2-IsIdle = IsIdle-eq (IsIdle-▹ h h) (omega arith)

  pub lp3-IsIdle : IsIdle (3 * n) (lp3 c)
  unfolding lp3
  lp3-IsIdle = IsIdle-eq (IsIdle-▹ h (IsIdle-▹ h h)) (omega arith)

  pub lp4-IsIdle : IsIdle (4 * n) (lp4 c)
  unfolding lp4
  lp4-IsIdle = IsIdle-eq (IsIdle-▹ lp2-IsIdle lp2-IsIdle) (omega arith)

  pub lp8-IsIdle : IsIdle (8 * n) (lp8 c)
  unfolding lp8
  lp8-IsIdle = IsIdle-eq (IsIdle-▹ lp4-IsIdle lp4-IsIdle) (omega arith)
