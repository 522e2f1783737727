-- ===== src/MemRegion/Sequence/Randomize.antt =====
-- `randomizeSequence_` as a whole: an arrangement of the multiples that starts at zero.
use mm_mem.Base.{
  ℕ, zero, suc, ◌+◌, ◌-◌, ◌*◌, ◌%◌, ◌^◌, ◌≤◌, ◌<◌, ◌≡◌, ◌≢◌, refl, ◌∙◌, true, false, inl, inr, some,
  List, arith, ltb, ltb→lt, ◌==◌, ==_iff, Bool-cases, length, get_or, get_elem?-get_or, set,
  set_elem?-set, length-set, get_or-set_self, SameItems, count, count-pos_of_get_or, index_of,
}
use mm_mem.Base.Returns.{Returns, returns, bind, mono}
use mathlib.Core.Path.{subst}
use native.Mathlib.Decide.{ℕ_discrete}
use native.Mathlib.Nat.{mod-eq_of_lt}
use mm_mem.MemRegion.Sequence.{Rand, put_start, restore_loop, randomize_sequence}
use mm_mem.MemRegion.Sequence.Fill.{
  multiples, length-multiples, get_or-multiples, fill_loop-multiples,
}
use mm_mem.MemRegion.Sequence.Shuffle.{swap, length-swap, swap-SameItems, shuffle_loop-SameItems}

-- A rearrangement of `s` that begins with zero.
pub record IsRestored (s t : List ℕ) : Type 0 where
  pub len : length t ≡ length s
  pub same : SameItems t s
  pub start : get_or t 0 0 ≡ 0

module _ (i : ℕ) (s : List ℕ) (hi : i < length s) (at_i : get_or s i 0 ≡ 0) where
  put_start-swap : put_start i s ≡ some (swap i 0 s)
  unfolding put_start swap
  put_start-swap =
      rw (get_elem?-get_or s 0 0 (omega arith), set_elem?-set s i (get_or s 0 0) hi, at_i)
        (set_elem?-set _ 0 0 (omega (arith, length-set s i (get_or s 0 0))))

  swap-IsRestored : IsRestored s (swap i 0 s)
  unfolding swap
  swap-IsRestored = record {
    len = length-swap i 0 s;
    same = swap-SameItems i 0 s hi (omega arith);
    start =
        get_or-set_self (set s i (get_or s 0 0)) 0 (get_or s i 0) 0
          (omega (arith, length-set s i (get_or s 0 0)))
        ∙ at_i;
  }

module _ (s : List ℕ) (small : length s < 2 ^ 32) (k : ℕ) (hk : k < length s)
    (at_k : get_or s k 0 ≡ 0) where
  wrap : {i : ℕ} → i < length s → (i + 1) % 2 ^ 32 ≡ i + 1
  wrap lt = mod-eq_of_lt (omega arith)

  restore_loop-IsRestored :
      (fuel i : ℕ)
      → 0 < i
      → i ≤ length s
      → length s < i + fuel
      → ((j : ℕ) → 0 < j → j < i → get_or s j 0 ≢ 0)
      → Returns (IsRestored s) (restore_loop fuel i (length s) s)
  unfolding restore_loop
  restore_loop-IsRestored zero i pos hi enough none_yet = absurd (omega arith)
  restore_loop-IsRestored (suc fuel) i pos hi enough none_yet =
      elim (Bool-cases (ltb i (length s))) [
        | inl below ↦
            let lt : i < length s = ltb→lt i (length s) below in
            elim (Bool-cases (get_or s i 0 == 0)) [
              | inl found ↦
                  let at_i : get_or s i 0 ≡ 0 = (==_iff (get_or s i 0) 0).0 found in
                  rw (below, get_elem?-get_or s i 0 lt, found, put_start-swap i s lt at_i)
                    (returns (swap-IsRestored i s lt at_i))
              | inr other ↦
                  rw (below, get_elem?-get_or s i 0 lt, other, wrap lt)
                    (restore_loop-IsRestored fuel (i + 1) (omega arith) (omega arith) (omega arith)
                      λ j p q. elim (ℕ_discrete j i) [
                        | yes same ↦ ground arith
                        | no differ ↦ none_yet j p (omega arith)
                      ])
            ]
        | inr past ↦
            let at_0 : get_or s 0 0 ≡ 0 = elim (ℕ_discrete k 0) [
              | yes first ↦ subst (λ n. get_or s n 0 ≡ 0) first at_k
              | no later ↦ absurd (none_yet k (omega arith) (ground arith) at_k)
            ] in
            rw past (returns (record { len = refl; same = λ a. refl; start = at_0 }))
      ]

-- The multiples of the unit, in some order, with zero first.
pub record IsArrangement (size unit : ℕ) (t : List ℕ) : Type 0 where
  pub len : length t ≡ size
  pub same : SameItems t (multiples size 0 unit)
  pub start : get_or t 0 0 ≡ 0

module _ (rand : Rand) (s : List ℕ) (size unit : ℕ) (len : length s ≡ size)
    (fits : (k : ℕ) → k < size → k * unit < 2 ^ 64) where
  -- In order, the routine writes the multiples of the unit.
  pub randomize_sequence-in_order :
      randomize_sequence rand s size unit true ≡ some (multiples size 0 unit)
  unfolding randomize_sequence
  randomize_sequence-in_order =
      rw (
        fill_loop-multiples size unit fits size 0 s len (omega arith) (λ k l. absurd (omega arith)))

  -- For a positive size below 2^32, a sequence of that length and multiples below 2^64, the
  -- randomised sequence is an arrangement of the multiples of the unit that starts at zero, for
  -- every sequence of random numbers.
  pub randomize_sequence-IsArrangement :
      0 < size
      → size < 2 ^ 32
      → Returns (IsArrangement size unit) (randomize_sequence rand s size unit false)
  unfolding randomize_sequence
  randomize_sequence-IsArrangement pos small =
      let ordered = multiples size 0 unit in
      let l = length-multiples size 0 unit in
      let last : (size + 2 ^ 64 - 1) % 2 ^ 64 ≡ size - 1 = omega arith in
      rw
        (
          fill_loop-multiples size unit fits size 0 s len (omega arith)
              (λ k l. absurd (omega arith)),
          last,
        )
        (bind (shuffle_loop-SameItems rand (size - 1) 2 _ ordered (omega arith) (omega arith))
          λ u (l', same).
            let (k, hk, at_k) = index_of u 0 (zero_there u (same 0)) in
            let size_u : length u ≡ size = l' ∙ l in
            let restored = restore_loop-IsRestored u (omega arith) k hk at_k (size + 1) 1 in
            mono
              (subst (λ n. Returns (IsRestored u) (restore_loop (size + 1) 1 n u)) size_u
                (restored (omega arith) (omega arith) (omega arith)
                  (λ j p q. absurd (omega arith))))
              λ t done. record {
                len = done.len ∙ size_u;
                same = λ a. done.same a ∙ same a;
                start = done.start;
              })
    where
      zero_there : (u : List ℕ) → count 0 u ≡ count 0 (multiples size 0 unit) → 0 < count 0 u
      zero_there u same = ground (
        arith,
        count-pos_of_get_or (multiples size 0 unit) 0 (omega (arith, length-multiples size 0 unit)),
        get_or-multiples size 0 unit 0 pos,
      )
