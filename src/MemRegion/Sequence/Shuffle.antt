-- ===== src/MemRegion/Sequence/Shuffle.antt =====
-- The shuffle of `randomizeSequence_` rearranges, whatever `rand()` returns.
use mm_mem.Base.{
  ℕ, zero, suc, ◌+◌, ◌*◌, ◌%◌, ◌^◌, ◌<◌, ◌≡◌, refl, ◌∙◌, some, List, arith, length, get_or,
  get_elem?-get_or, set, set_elem?-set, length-set, get_or-set_self, get_or-set_ne, SameItems,
  count-set,
}
use mm_mem.Base.Returns.{Returns, returns, mono}
use Prim.Native.Nat.{bit_xor}
use native.Mathlib.Decide.{ℕ_discrete}
use native.Mathlib.Nat.{mod-lt, mod-eq_of_lt}
use mm_mem.MemRegion.Sequence.{Rand, mod_or_trap, exchange, shuffle_loop}

unfoldable pub swap : (j i : ℕ) → List ℕ → List ℕ
swap j i s = set (set s j (get_or s i 0)) i (get_or s j 0)

pub length-swap : (j i : ℕ) (s : List ℕ) → length (swap j i s) ≡ length s
unfolding swap
length-swap j i s = length-set _ i _ ∙ length-set s j _

module _ (j i : ℕ) (s : List ℕ) (hj : j < length s) (hi : i < length s) where
  pub exchange-swap : exchange j i s ≡ some (swap j i s)
  unfolding exchange swap
  exchange-swap =
      rw (get_elem?-get_or s j 0 hj, get_elem?-get_or s i 0 hi, set_elem?-set s j (get_or s i 0) hj)
        (set_elem?-set _ i _ (omega (arith, length-set s j (get_or s i 0))))

  pub swap-SameItems : SameItems (swap j i s) s
  unfolding swap
  swap-SameItems a =
      let v = get_or s i 0 in
      let first = count-set s j v a hj in
      let second = count-set (set s j v) i (get_or s j 0) a (omega (arith, length-set s j v)) in
      elim (ℕ_discrete j i) [
        | yes same ↦ ground (arith, first, second, get_or-set_self s j v 0 hj)
        | no differ ↦ ground (arith, first, second, get_or-set_ne s j i v 0 differ)
      ]

mod_or_trap-some : (r m : ℕ) → 0 < m → mod_or_trap r m ≡ some (r % m)
unfolding mod_or_trap
mod_or_trap-some r m h = ground arith

pub shuffle_loop-SameItems :
    (rand : Rand) (i call r : ℕ) (s : List ℕ)
    → i < length s
    → length s < 2 ^ 64
    → Returns (λ t. (length t ≡ length s) × SameItems t s) (shuffle_loop rand i call r s)
unfolding shuffle_loop
shuffle_loop-SameItems rand zero call r s hi fits = returns (refl, λ a. refl)
shuffle_loop-SameItems rand (suc i) call r s hi fits =
    let r' = bit_xor (r * 2 % 2 ^ 64) (rand call) in
    let m = (suc i + 1) % 2 ^ 64 in
    let small : m ≡ suc i + 1 = mod-eq_of_lt (omega arith) in
    let j = r' % m in
    let hj : j < length s = let below : r' % m < m = mod-lt r' (omega arith) in omega arith in
    let len = length-swap j (suc i) s in
    rw (mod_or_trap-some r' m (omega arith), exchange-swap j (suc i) s hj hi)
      (mono
        (shuffle_loop-SameItems rand i (call + 1) r' (swap j (suc i) s) (omega arith) (omega arith))
        λ t (len', same). (len' ∙ len, λ a. same a ∙ swap-SameItems j (suc i) s hj hi a))
