-- ===== src/MemRegion/Tour/Link.antt =====
-- One store of a pattern, and the loop of stores along a list of lines.
use mm_mem.Base.{
  ℕ, zero, suc, ◌+◌, ◌%◌, ◌^◌, ◌≤◌, ◌<◌, ◌≡◌, ◌≢◌, ap, ◌∙◌, some, List, arith, le→leb, add64,
  length, get_or, get_elem?-get_or,
}
use mm_mem.Base.Returns.{Returns, returns, bind}
use mathlib.Core.Path.{subst, sym}
use native.Mathlib.Decide.{ℕ_discrete}
use native.Mathlib.Nat.{mod-eq_of_lt, mod-lt, mod_self}
use mm_mem.MemRegion.Memory.{Memory, read64, write64, read64-write64, read64-write64_apart}
use mm_mem.MemRegion.Region.{MemRegion, get_offset_addr}
use mm_mem.MemRegion.Init.{link, chain_loop}
use mm_mem.MemRegion.Tour.{Apart, IsRegion}

pub get_offset_addr-add :
    (r : MemRegion) {a : ℕ} → r.addr ≡ some a → (x : ℕ) → get_offset_addr r x ≡ a + x
unfolding get_offset_addr
get_offset_addr-add r at x = rw (at, get_offset_addr)

module _ (r : MemRegion) (a : ℕ) (ok : IsRegion r a) (place : ℕ → ℕ) (n : ℕ)
    (inside : (k : ℕ) → k < n → place k + 8 ≤ r.size)
    (apart : (j k : ℕ) → j < n → k < n → j ≢ k → Apart (place j) (place k)) where
  -- The first `k` cells of the tour are linked.
  abbrev pub Linked : ℕ → Memory → Type 0
  Linked k m = (j : ℕ) → j < k → read64 m (a + place j) ≡ a + place ((j + 1) % n)

  pub link-Linked :
      (k : ℕ) (m : Memory)
      → k < n
      → Linked k m
      → Returns (Linked (k + 1)) (link r (place k) (place ((k + 1) % n)) m)
  unfolding link
  link-Linked k m hk linked =
      let to = place ((k + 1) % n) in
      let small : a + to < 2 ^ 64 =
        omega (arith, inside ((k + 1) % n) (mod-lt (k + 1) (omega arith)), ok.fits) in
      rw
        (
          le→leb (place k + 8) r.size (inside k hk),
          get_offset_addr-add r ok.located (place k),
          get_offset_addr-add r ok.located to,
        )
        (returns λ j hj. elim (ℕ_discrete j k) [
          | yes same ↦
              subst
                (λ t.
                  read64 (write64 m (a + place k) (a + to)) (a + place t) ≡ a + place ((t + 1) % n))
                (sym same) (read64-write64 m (a + place k) (a + to) small)
          | no differ ↦
              read64-write64_apart m (a + place k) (a + to) (a + place j)
                (omega (arith, apart j k (omega arith) hk differ))
              ∙ linked j (omega arith)
        ])

  -- The store that closes the tour.
  pub link-last :
      (k : ℕ) (m : Memory)
      → k + 1 ≡ n
      → Linked k m
      → Returns (Linked n) (link r (place k) (place 0) m)
  link-last k m e linked =
      let first : (k + 1) % n ≡ 0 = ap (λ t. t % n) e ∙ mod_self n in
      subst (λ t. Returns (Linked n) (link r (place k) (place t) m)) first
        (subst (λ t. Returns (Linked t) (link r (place k) (place ((k + 1) % n)) m)) e
          (link-Linked k m (omega arith) linked))

  module _ (page base : ℕ) (lines : List ℕ) (room : base + length lines ≤ n)
      (matches : (j : ℕ)
        → j < length lines
        → add64 page (get_or lines j 0) ≡ place (base + j)) where
    pub chain_loop-Linked :
        (rounds j : ℕ) (m : Memory)
        → j + rounds < length lines
        → Linked (base + j) m
        → Returns (Linked (base + (j + rounds))) (chain_loop rounds j r page lines m)
    unfolding chain_loop
    chain_loop-Linked zero j m h linked = returns (subst (λ t. Linked t m) (omega arith) linked)
    chain_loop-Linked (suc rounds) j m h linked =
        let next : (base + j + 1) % n ≡ base + (j + 1) = mod-eq_of_lt (omega arith) ∙ omega arith in
        rw
          (
            get_elem?-get_or lines j 0 (omega arith),
            get_elem?-get_or lines (j + 1) 0 (omega arith),
            matches j (omega arith),
            matches (j + 1) (omega arith),
            ← next,
          )
          (bind (link-Linked (base + j) m (omega arith) linked) λ m' linked'.
            subst (λ t. Returns (Linked t) (chain_loop rounds (j + 1) r page lines m'))
              (omega arith)
              (chain_loop-Linked rounds (j + 1) m' (omega arith)
                (subst (λ t. Linked t m') (omega arith) linked')))
