-- ===== src/MemRegion/Sequence/Fill.antt =====
-- The fill of `randomizeSequence_`: the multiples of the unit in order.
use mm_mem.Base.{
  ℕ, zero, suc, ◌+◌, ◌*◌, ◌%◌, ◌^◌, ◌<◌, ◌≡◌, refl, sym, ap, ◌∙◌, some, List, [], ◌∷◌, arith,
  length, get_or, set, set_elem?-set, length-set, get_or-set_self, get_or-set_ne,
}
use native.Mathlib.Decide.{ℕ_discrete}
use native.Mathlib.Nat.{mod-eq_of_lt}
use mm_mem.MemRegion.Sequence.{fill_loop}

-- `i * unit`, `(i + 1) * unit`, … : `n` of them
unfoldable pub multiples : (n i unit : ℕ) → List ℕ
multiples zero i unit = []
multiples (suc n) i unit = i * unit ∷ multiples n (i + 1) unit

pub length-multiples : (n i unit : ℕ) → length (multiples n i unit) ≡ n
unfolding multiples
length-multiples zero i unit = refl
length-multiples (suc n) i unit = ap suc (length-multiples n (i + 1) unit)

pub get_or-multiples : (n i unit k : ℕ) → k < n → get_or (multiples n i unit) k 0 ≡ (i + k) * unit
unfolding multiples
get_or-multiples zero i unit k h = elim h [ ]
get_or-multiples (suc n) i unit zero h = ap (λ t. t * unit) (omega arith)
get_or-multiples (suc n) i unit (suc k) h =
    get_or-multiples n (i + 1) unit k (omega arith) ∙ ap (λ t. t * unit) (omega arith)

-- Two lists with the same entries are one list.
pub ext :
    (xs ys : List ℕ)
    → length xs ≡ length ys
    → ((k : ℕ) → k < length xs → get_or xs k 0 ≡ get_or ys k 0)
    → xs ≡ ys
ext [] [] h e = refl
ext [] (y ∷ ys) h e = absurd (omega arith)
ext (x ∷ xs) [] h e = absurd (omega arith)
ext (x ∷ xs) (y ∷ ys) h e =
    cc (e 0 (omega arith), ext xs ys (omega arith) (λ k l. e (suc k) (omega arith)))

module _ (size unit : ℕ) (fits : (k : ℕ) → k < size → k * unit < 2 ^ 64) where
  pub fill_loop-multiples :
      (n i : ℕ) (s : List ℕ)
      → length s ≡ size
      → i + n ≡ size
      → ((k : ℕ) → k < i → get_or s k 0 ≡ k * unit)
      → fill_loop n i unit s ≡ some (multiples size 0 unit)
  unfolding fill_loop
  fill_loop-multiples zero i s len rounds done = ap some (
      ext s (multiples size 0 unit) (omega (arith, length-multiples size 0 unit)) λ k l.
        done k (omega arith)
        ∙ ap (λ t. t * unit) (omega arith)
        ∙ sym (get_or-multiples size 0 unit k (omega arith)))
  fill_loop-multiples (suc n) i s len rounds done =
      let v = i * unit % 2 ^ 64 in
      rw (set_elem?-set s i v (omega arith)) (
        fill_loop-multiples n (i + 1) (set s i v) (length-set s i v ∙ len) (omega arith) λ k l.
          elim (ℕ_discrete i k) [
            | yes same ↦
                rw (← same)
                  (get_or-set_self s i v 0 (omega arith) ∙ mod-eq_of_lt (fits i (omega arith)))
            | no differ ↦ get_or-set_ne s i k v 0 differ ∙ done k (omega arith)
          ])
