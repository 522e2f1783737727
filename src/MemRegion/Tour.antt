-- ===== src/MemRegion/Tour.antt =====
-- What the patterns of common/mem_region.cc are for: a pointer chase that goes round the region.
pub mod Link
pub mod PageRandom
pub mod Stride
pub mod AllRandom
pub mod Arrangement
use mm_mem.Base.{
  ℕ, zero, suc, ◌+◌, ◌*◌, ◌%◌, ◌^◌, ◌≤◌, ◌<◌, ◌≡◌, ◌≢◌, refl, sym, ap, ◌∙◌, ◌⊎◌, some, arith,
}
use native.Mathlib.Decide.{ℕ_discrete}
use native.Mathlib.Nat.{mod-eq_of_lt, mod-lt, mod_self, mod-add-mod}
use mm_mem.MemRegion.Memory.{Memory, read64}
use mm_mem.MemRegion.Region.{MemRegion}

-- `p = *p`, `k` times
unfoldable pub chase : Memory → (k p : ℕ) → ℕ
chase m zero p = p
chase m (suc k) p = chase m k (read64 m p)

-- The cells at `a + place 0`, …, `a + place (n - 1)` point each to the next, the last to the first.
abbrev pub IsTour : (a n : ℕ) → (place : ℕ → ℕ) → Memory → Type 0
IsTour a n place m = (k : ℕ) → k < n → read64 m (a + place k) ≡ a + place ((k + 1) % n)

-- The chase from `a` meets each of the `n` cells once, then is back at `a`.
pub record IsCycle (a n : ℕ) (cell : ℕ → ℕ) (m : Memory) : Type 0 where
  pub closes : chase m n a ≡ a
  pub covers : (i : ℕ) → i < n → (k : ℕ) × (k < n) × (chase m k a ≡ a + cell i)
  pub separate : (j k : ℕ) → j < n → k < n → chase m j a ≡ chase m k a → j ≡ k

-- Two words at these offsets do not overlap.
abbrev pub Apart : ℕ → ℕ → Type 0
Apart x y = (x + 8 ≤ y) ⊎ (y + 8 ≤ x)

-- A region whose memory starts at address `a` and whose counts fit its sizes.
pub record IsRegion (r : MemRegion) (a : ℕ) : Type 0 where
  pub located : r.addr ≡ some a
  pub fits : a + r.size < 2 ^ 64
  pub within : r.active_size ≤ r.size
  pub pages : r.num_active_pages * r.page_size ≤ r.active_size
  pub lines : r.num_lines_in_page * r.line_size ≤ r.page_size
  pub wide : 8 ≤ r.line_size

-- The lines of the active pages.
abbrev pub active_lines : MemRegion → ℕ
active_lines r = r.num_active_pages * r.num_lines_in_page

module _ (a n : ℕ) (place : ℕ → ℕ) (m : Memory) (pos : 0 < n) (tour : IsTour a n place m) where
  chase-from : (k i : ℕ) → chase m k (a + place (i % n)) ≡ a + place ((i + k) % n)
  unfolding chase
  chase-from zero i = ap (λ t. a + place (t % n)) (omega arith)
  chase-from (suc k) i =
      rw (tour (i % n) (mod-lt i pos), mod-add-mod i n 1)
        (chase-from k (i + 1) ∙ ap (λ t. a + place (t % n)) (omega arith))

  -- After `k` steps the chase is at the cell with number `k`, modulo the number of cells.
  pub chase-IsTour : place 0 ≡ 0 → (k : ℕ) → chase m k a ≡ a + place (k % n)
  chase-IsTour start k =
      let first : a + place (0 % n) ≡ a = rw (mod-eq_of_lt pos) (rw start (omega arith)) in
      ap (chase m k) (sym first) ∙ chase-from k 0 ∙ ap (λ t. a + place (t % n)) (omega arith)

  -- A tour whose places are the cells, each once, is a cycle.
  pub IsTour-IsCycle :
      (cell : ℕ → ℕ)
      → place 0 ≡ 0
      → ((i : ℕ) → i < n → (k : ℕ) × (k < n) × (place k ≡ cell i))
      → ((j k : ℕ) → j < n → k < n → j ≢ k → Apart (place j) (place k))
      → IsCycle a n cell m
  IsTour-IsCycle cell start onto apart = record {
    closes = chase-IsTour start n ∙ rw (mod_self n, start) (omega arith);
    covers = λ i h.
        let (k, below, e) = onto i h in
        (k, below, chase-IsTour start k ∙ rw (mod-eq_of_lt below, e));
    separate = λ j k hj hk e.
        let same : a + place j ≡ a + place k =
          ap (λ t. a + place t) (sym (mod-eq_of_lt hj))
          ∙ sym (chase-IsTour start j)
          ∙ e
          ∙ chase-IsTour start k
          ∙ ap (λ t. a + place t) (mod-eq_of_lt hk) in
        elim (ℕ_discrete j k) [
          | yes p ↦ p
          | no differ ↦ absurd (omega (arith, apart j k hj hk differ))
        ];
  }
