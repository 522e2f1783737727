-- ===== src/Workers/Sharing.antt =====
-- What the code of a worker does to the memory is to write words into given regions, one after the
-- other.
pub mod Traffic
use mm_mem.Base.{ℕ, zero, suc, ◌+◌, ◌≤◌, ◌≡◌, ap, ◌∙◌, some, List, arith, get_elem?}
use mm_mem.MemRegion.Memory.{Memory, read64, write64, word_bytes}
use mm_mem.MemRegion.Tour.{chase}

-- The first address of a region and its size.
pub record Extent : Type 0 where
  pub start : ℕ
  pub size : ℕ

-- The memories that are reached by writes into these regions, word by word.
pub data Reach (regions : List Extent) : Memory → Memory → Type 0 where
  still : (m : Memory) → Reach regions m m
  write :
      {m m' : Memory} (owner : ℕ) (r : Extent) (p v : ℕ)
      → get_elem? regions owner ≡ some r
      → r.start ≤ p
      → p + word_bytes ≤ r.start + r.size
      → Reach regions (write64 m p v) m'
      → Reach regions m m'

pub Reach-trans :
    {regions : List Extent} {m m' m'' : Memory}
    → Reach regions m m'
    → Reach regions m' m''
    → Reach regions m m''
Reach-trans (still m) rest = rest
Reach-trans (write owner r p v there low high first) rest =
    write owner r p v there low high (Reach-trans first rest)

pub chase-add : (m : Memory) (j k p : ℕ) → chase m k (chase m j p) ≡ chase m (j + k) p
unfolding chase
chase-add m zero k p = let e : k ≡ 0 + k = omega arith in ap (λ n. chase m n p) e
chase-add m (suc j) k p =
    chase-add m j k (read64 m p)
    ∙ ap (λ n. chase m n p) (let e : suc (j + k) ≡ suc j + k = omega arith in e)
