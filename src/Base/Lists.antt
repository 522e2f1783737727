-- ===== src/Base/Lists.antt =====
-- Lists measured, indexed and counted by native numbers, under the library's names.
use Prim.Native.Nat.{ℕ, zero, suc, ◌+◌, ◌<◌}
use mathlib.Core.Path.{◌≡◌, refl, sym, ap, subst}
use mathlib.Core.Logic.{◌≢◌, inl, inr}
use mathlib.Core.List.{List, [], ◌∷◌, ◌++◌}
use mathlib.Core.Option.{Option, none, some, some-injective}
use native.Mathlib.Omega.{arith}
use mm_mem.Base.Tests.{ltb, lt→ltb, ◌==◌, ==_iff, if◌then◌else◌, Bool-cases}

module _ {ℓ} {A : Type ℓ} where
  abbrev pub length : List A → ℕ
  length [] = 0
  length (x ∷ xs) = suc (length xs)

  abbrev pub get_elem? : List A → ℕ → Option A
  get_elem? [] i = none
  get_elem? (x ∷ xs) zero = some x
  get_elem? (x ∷ xs) (suc i) = get_elem? xs i

  abbrev pub get_or : List A → ℕ → A → A
  get_or [] i d = d
  get_or (x ∷ xs) zero d = x
  get_or (x ∷ xs) (suc i) d = get_or xs i d

  -- A write out of range changes nothing.
  abbrev pub set : List A → ℕ → A → List A
  set [] i v = []
  set (x ∷ xs) zero v = v ∷ xs
  set (x ∷ xs) (suc i) v = x ∷ set xs i v

  -- A write that faults out of range.
  abbrev pub set_elem? : List A → ℕ → A → Option (List A)
  set_elem? xs i v = if ltb i (length xs) then some (set xs i v) else none

  abbrev pub replicate : ℕ → A → List A
  replicate zero a = []
  replicate (suc n) a = a ∷ replicate n a

  pub length-append : (xs ys : List A) → length (xs ++ ys) ≡ length xs + length ys
  length-append [] ys = omega arith
  length-append (x ∷ xs) ys = omega (arith, length-append xs ys)

  pub length-set : (xs : List A) (i : ℕ) (v : A) → length (set xs i v) ≡ length xs
  length-set [] i v = refl
  length-set (x ∷ xs) zero v = refl
  length-set (x ∷ xs) (suc i) v = ap suc (length-set xs i v)

  pub length-replicate : (n : ℕ) (a : A) → length (replicate n a) ≡ n
  length-replicate zero a = refl
  length-replicate (suc n) a = ap suc (length-replicate n a)

  pub get_elem?-get_or :
      (xs : List A) (i : ℕ) (d : A) → i < length xs → get_elem? xs i ≡ some (get_or xs i d)
  get_elem?-get_or [] i d h = elim h [ ]
  get_elem?-get_or (x ∷ xs) zero d h = refl
  get_elem?-get_or (x ∷ xs) (suc i) d h = get_elem?-get_or xs i d (omega arith)

  pub set_elem?-set :
      (xs : List A) (i : ℕ) (v : A) → i < length xs → set_elem? xs i v ≡ some (set xs i v)
  set_elem?-set xs i v h = rw (lt→ltb i (length xs) h)

  pub get_or-set_self :
      (xs : List A) (i : ℕ) (v d : A) → i < length xs → get_or (set xs i v) i d ≡ v
  get_or-set_self [] i v d h = elim h [ ]
  get_or-set_self (x ∷ xs) zero v d h = refl
  get_or-set_self (x ∷ xs) (suc i) v d h = get_or-set_self xs i v d (omega arith)

  pub get_or-set_ne :
      (xs : List A) (i j : ℕ) (v d : A) → i ≢ j → get_or (set xs i v) j d ≡ get_or xs j d
  get_or-set_ne [] i j v d h = refl
  get_or-set_ne (x ∷ xs) zero zero v d h = absurd (h refl)
  get_or-set_ne (x ∷ xs) zero (suc j) v d h = refl
  get_or-set_ne (x ∷ xs) (suc i) zero v d h = refl
  get_or-set_ne (x ∷ xs) (suc i) (suc j) v d h = get_or-set_ne xs i j v d (λ e. h (ap suc e))

abbrev pub All {ℓ κ} : {A : Type ℓ} → (A → Type κ) → List A → Type κ
All P [] = Unit
All P (x ∷ xs) = P x × All P xs

pub get_elem?-All {ℓ κ} :
    {A : Type ℓ} (P : A → Type κ) (xs : List A) (i : ℕ) (a : A)
    → All P xs
    → get_elem? xs i ≡ some a
    → P a
get_elem?-All P [] i a ok e = cc e
get_elem?-All P (x ∷ xs) zero a ok e = subst P (some-injective x a e) ok.0
get_elem?-All P (x ∷ xs) (suc i) a ok e = get_elem?-All P xs i a ok.1 e

-- How often a number occurs.
abbrev pub count : ℕ → List ℕ → ℕ
count a [] = 0
count a (x ∷ xs) = (if a == x then 1 else 0) + count a xs

-- A write exchanges one occurrence.
pub count-set :
    (xs : List ℕ) (i v a : ℕ)
    → i < length xs
    → count a (set xs i v) + (if a == get_or xs i 0 then 1 else 0)
      ≡ count a xs + (if a == v then 1 else 0)
count-set [] i v a h = elim h [ ]
count-set (x ∷ xs) zero v a h = omega arith
count-set (x ∷ xs) (suc i) v a h = omega (arith, count-set xs i v a (omega arith))

-- Two lists hold the same numbers, as often.
abbrev pub SameItems : List ℕ → List ℕ → Type 0
SameItems xs ys = (a : ℕ) → count a xs ≡ count a ys

pub count-pos_of_get_or : (xs : List ℕ) (i : ℕ) → i < length xs → 0 < count (get_or xs i 0) xs
count-pos_of_get_or [] i h = elim h [ ]
count-pos_of_get_or (x ∷ xs) zero h = ground arith
count-pos_of_get_or (x ∷ xs) (suc i) h = omega (arith, count-pos_of_get_or xs i (omega arith))

-- What occurs stands at some place.
pub index_of :
    (xs : List ℕ) (a : ℕ) → 0 < count a xs → (i : ℕ) × (i < length xs) × (get_or xs i 0 ≡ a)
index_of [] a h = elim h [ ]
index_of (x ∷ xs) a h = elim (Bool-cases (a == x)) [
  | inl e ↦ (0, omega arith, sym ((==_iff a x).0 e))
  | inr n ↦
      let (i, p, q) = index_of xs a (let e : 0 < count a xs = ground (arith) in e) in
      (suc i, omega arith, q)
]
