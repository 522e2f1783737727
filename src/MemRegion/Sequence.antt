-- ===== src/MemRegion/Sequence.antt =====
-- `MemRegion::randomizeSequence_` of common/mem_region.cc: fill, shuffle, and put the start back.
pub mod Fill
pub mod Shuffle
pub mod Randomize
use Prim.Native.Nat.{bit_xor}
use mm_mem.Base.{
  ℕ, zero, suc, ◌+◌, ◌-◌, ◌*◌, ◌%◌, ◌^◌, Bool, true, false, Option, none, some, ◌>>=◌, List, ltb,
  ◌==◌, if◌then◌else◌, get_elem?, set_elem?,
}

-- The results of `rand()` after `srand(0)`, by the number of the call.
abbrev pub Rand : Type 0
Rand = ℕ → ℕ

-- `for (i = 0; i < size; ++i) sequence[i] = i * unit;` with `n` rounds left
unfoldable pub fill_loop : (n i unit : ℕ) → List ℕ → Option (List ℕ)
fill_loop zero i unit s = some s
fill_loop (suc n) i unit s = do s' ← set_elem? s i (i * unit % 2 ^ 64); fill_loop n (i + 1) unit s'

-- `r % m`, which traps where `m` is zero
unfoldable pub mod_or_trap : ℕ → ℕ → Option ℕ
mod_or_trap r m = if m == 0 then none else some (r % m)

-- `tmp = sequence[j]; sequence[j] = sequence[i]; sequence[i] = tmp;`
unfoldable pub exchange : (j i : ℕ) → List ℕ → Option (List ℕ)
exchange j i s = do tmp ← get_elem? s j; v ← get_elem? s i; s' ← set_elem? s j v; set_elem? s' i tmp

-- `for (i = size - 1; i > 0; --i)`: `call` is the number of the next call of `rand()`
unfoldable pub shuffle_loop : Rand → (i call r : ℕ) → List ℕ → Option (List ℕ)
shuffle_loop rand zero call r s = some s
shuffle_loop rand (suc i) call r s = do
  let r' = bit_xor (r * 2 % 2 ^ 64) (rand call)
  j ← mod_or_trap r' ((suc i + 1) % 2 ^ 64)
  s' ← exchange j (suc i) s
  shuffle_loop rand i (call + 1) r' s'

-- `sequence[i] = sequence[0]; sequence[0] = 0;`
unfoldable pub put_start : ℕ → List ℕ → Option (List ℕ)
put_start i s = do first ← get_elem? s 0; s' ← set_elem? s i first; set_elem? s' 0 0

-- `for (uint32_t i = 1; i < size; ++i)`: the counter has 32 bits and `size` has 64
unfoldable pub restore_loop : (fuel i size : ℕ) → List ℕ → Option (List ℕ)
restore_loop zero i size s = none
restore_loop (suc fuel) i size s =
    let rest = restore_loop fuel ((i + 1) % 2 ^ 32) size s in
    if ltb i size then (get_elem? s i >>= λ v. if v == 0 then put_start i s else rest) else some s

-- The whole routine. With `size` zero and no `in_order` the shuffle starts at 2^64 - 1.
unfoldable pub randomize_sequence : Rand → List ℕ → (size unit : ℕ) → Bool → Option (List ℕ)
unfolding fill_loop mod_or_trap exchange shuffle_loop put_start restore_loop
randomize_sequence rand s size unit in_order = do
  filled ← fill_loop size 0 unit s
  if in_order then some filled else do
    let r = bit_xor (rand 0) (rand 1 * 2 ^ 10 % 2 ^ 64)
    shuffled ← shuffle_loop rand ((size + 2 ^ 64 - 1) % 2 ^ 64) 2 r filled
    restore_loop (size + 1) 1 size shuffled
