-- ===== src/CommandLine/Parse/Fits.antt =====
-- What `parse` can assign: only values of an option's type.
use mm_mem.Base.{
  ℕ, zero, suc, ◌+◌, ◌≡◌, refl, sym, ap, ◌⊎◌, inl, inr, Bool, true, false, Option, none, some, List,
  [], ◌∷◌, arith, get_elem?, get_or, set, Bool-cases,
}
use mathlib.Core.Path.{subst}
use mm_mem.Base.Returns.{Option-cases}
use mm_mem.Text.{Text}
use mm_mem.CommandLine.{
  parse_integer, Kind, flag, integer, OptionSpec, Value, bool, int, CommandLine,
}
use mm_mem.CommandLine.Integer.{InRange, parse_integer_sound}
use mm_mem.CommandLine.Parse.{
  Error, invalid_value, Result, ok, err, State, is_dashes, is_unexpected, Spelled, matches,
  find_option, spelled, option_text, assign, record_value, round, parse_loop, none_seen, parse,
}

-- A value that an option of the kind can have.
abbrev pub IsOf : Kind → Value → Type 0
IsOf flag (bool b) = Unit
IsOf (integer type) (int n) = InRange type n
IsOf kind value = ⊥

-- Each variable has a value of the kind of its option.
abbrev pub Fits : List OptionSpec → List Value → Type 0
Fits [] [] = Unit
Fits (spec ∷ options) (v ∷ values) = IsOf spec.kind v × Fits options values
Fits options values = ⊥

-- What holds of the result of a parse that throws nothing.
pub data OnOk {ℓ κ} {A : Type ℓ} (P : A → Type κ) : Result A → Type (ℓ ⊔ κ) where
  on_ok : {a : A} → P a → OnOk P (ok a)
  on_err : {e : Error} → OnOk P (err e)

Result-cases {ℓ} :
    {A : Type ℓ} (r : Result A) → ((a : A) × (r ≡ ok a)) ⊎ ((e : Error) × (r ≡ err e))
Result-cases (ok a) = inl (a, refl)
Result-cases (err e) = inr (e, refl)

Fits-set :
    (options : List OptionSpec) (values : List Value) (i : ℕ) (spec : OptionSpec) (v : Value)
    → Fits options values
    → get_elem? options i ≡ some spec
    → IsOf spec.kind v
    → Fits options (set values i v)
Fits-set [] [] i spec v fits at is_of = tt
Fits-set [] (w ∷ values) i spec v fits at is_of = elim fits [ ]
Fits-set (s ∷ options) [] i spec v fits at is_of = elim fits [ ]
Fits-set (s ∷ options) (w ∷ values) zero spec v (first, fits) at is_of =
    (subst (λ o. IsOf o.kind v) (sym (some-inj at)) is_of, fits)
  where
    some-inj : some s ≡ some spec → s ≡ spec
    some-inj e = cc
Fits-set (s ∷ options) (w ∷ values) (suc i) spec v (first, fits) at is_of =
    (first, Fits-set options values i spec v fits at is_of)

pair_inj :
    {a b : ℕ} {x y : OptionSpec}
    → ◌≡◌ {A = Option (ℕ × OptionSpec)} (some (a, x)) (some (b, y))
    → (a ≡ b) × (x ≡ y)
pair_inj h = (cc, cc)

find_option_lem :
    (s : Spelled) (index : ℕ) (options : List OptionSpec) {i : ℕ} {spec : OptionSpec}
    → find_option s index options ≡ some (i, spec)
    → (j : ℕ) × (index + j ≡ i) × (get_elem? options j ≡ some spec)
unfolding find_option
find_option_lem s index [] = λ h. absurd (none-ne-some h)
  where
    none-ne-some : {A : Type 0} {a : A} → none ≡ some a → ⊥
    none-ne-some h = cc
find_option_lem s index (o ∷ rest) {i} {spec} = elim (Bool-cases (matches s o)) [
  | inl here ↦
      rw here λ h. let (same, is_spec) = pair_inj h in (0, omega (arith, same), ap some is_spec)
  | inr later ↦ rw later λ h.
      let (j, at, found) = find_option_lem s (suc index) rest h in (suc j, omega (arith, at), found)
]

assign-IsOf : (spec : OptionSpec) (text : Text) → OnOk (IsOf spec.kind) (assign spec text)
unfolding assign
assign-IsOf spec text =
    elim spec.kind
      as (λ k. OnOk (IsOf k) (elim k [
        | flag ↦ ok (bool true)
        | integer type ↦ elim (parse_integer type text) [
          | none ↦ err (invalid_value spec.name text)
          | some n ↦ ok (int n)
        ]
      ])) [
        | flag ↦ on_ok tt
        | integer type ↦ elim (Option-cases (parse_integer type text)) [
          | inl refused ↦ rw refused on_err
          | inr (n, got) ↦ rw got (on_ok (parse_integer_sound type text got).1)
        ]
      ]

record_value-Fits :
    (options : List OptionSpec) (i : ℕ) (spec : OptionSpec) {r : Result Value} (s : State)
    → get_elem? options i ≡ some spec
    → Fits options s.values
    → OnOk (IsOf spec.kind) r
    → OnOk (λ t. Fits options t.values) (record_value i r s)
unfolding record_value
record_value-Fits options i spec s at fits (on_ok {a = v} is_of) =
    on_ok (Fits-set options s.values i spec v fits at is_of)
record_value-Fits options i spec s at fits on_err = on_err

-- What a round keeps.
map_used :
    {P : State → Type 0} {r : Result State} (used : Bool)
    → OnOk P r
    → OnOk (λ (t, u). P t) (elim r [ err e ↦ err e | ok t ↦ ok (t, used) ])
map_used used (on_ok p) = on_ok p
map_used used on_err = on_err

round-Fits :
    (options : List OptionSpec) (arg : Text) (rest : List Text) (s : State)
    → Fits options s.values
    → OnOk (λ (t, used). Fits options t.values) (round options arg rest s)
unfolding round
round-Fits options arg rest s fits = elim (Bool-cases (is_unexpected arg)) [
  | inl bad ↦ rw bad on_err
  | inr good ↦ elim (Option-cases (find_option (spelled arg) 0 options)) [
    | inl unknown ↦ rw (good, unknown) on_err
    | inr ((i, spec), found) ↦ elim (Bool-cases (get_or s.seen i false)) [
      | inl again ↦ rw (good, found, again) on_err
      | inr first ↦ elim (Result-cases (option_text spec (spelled arg).attached rest)) [
        | inr (e, missing) ↦ rw (good, found, first, missing) on_err
        | inl ((text, used), there) ↦
            let (j, at, is_spec) = find_option_lem (spelled arg) 0 options found in
            let here : j ≡ i = omega (arith, at) in
            rw (good, found, first, there)
              (map_used used (
                record_value-Fits options i spec s
                  (subst (λ k. get_elem? options k ≡ some spec) here is_spec) fits
                  (assign-IsOf spec text)))
      ]
    ]
  ]
]

-- A round that is not the last.
abbrev go_on : List OptionSpec → (next : Text) → List Text → Result (State × Bool) → Result State
go_on options next rest r = elim r [
  | err e ↦ err e
  | ok (t, used) ↦ elim used [
    | true ↦ parse_loop options rest t
    | false ↦ parse_loop options (next ∷ rest) t
  ]
]

parse_loop-cons :
    (options : List OptionSpec) (arg next : Text) (rest : List Text) (s : State)
    → parse_loop options (arg ∷ next ∷ rest) s
      ≡ go_on options next rest (round options arg (next ∷ rest) s)
unfolding parse_loop
parse_loop-cons options arg next rest s = refl

go_on-OnOk :
    (options : List OptionSpec) (next : Text) (rest : List Text) {r : Result (State × Bool)}
    → ((t : State)
        → Fits options t.values
        → OnOk (λ u. Fits options u.values) (parse_loop options rest t))
    → ((t : State)
        → Fits options t.values
        → OnOk (λ u. Fits options u.values) (parse_loop options (next ∷ rest) t))
    → OnOk (λ (t, used). Fits options t.values) r
    → OnOk (λ u. Fits options u.values) (go_on options next rest r)
go_on-OnOk options next rest skip keep (on_ok {a = (t, true)} fits) = skip t fits
go_on-OnOk options next rest skip keep (on_ok {a = (t, false)} fits) = keep t fits
go_on-OnOk options next rest skip keep on_err = on_err

parse_loop-Fits :
    (options : List OptionSpec) (args : List Text) (s : State)
    → Fits options s.values
    → OnOk (λ t. Fits options t.values) (parse_loop options args s)
unfolding parse_loop
parse_loop-Fits options [] s fits = on_ok fits
parse_loop-Fits options (arg ∷ []) s fits = elim (Bool-cases (is_dashes arg)) [
  | inl last ↦ rw last (on_ok fits)
  | inr more ↦ rw more (after_last (round-Fits options arg [] s fits))
]
  where
    after_last :
        {r : Result (State × Bool)}
        → OnOk (λ (t, used). Fits options t.values) r
        → OnOk (λ t. Fits options t.values) (elim r [ err e ↦ err e | ok (t, used) ↦ ok t ])
    after_last (on_ok p) = on_ok p
    after_last on_err = on_err
parse_loop-Fits options (arg ∷ next ∷ rest) s fits = rw (parse_loop-cons options arg next rest s) (
    go_on-OnOk options next rest (parse_loop-Fits options rest)
      (parse_loop-Fits options (next ∷ rest)) (round-Fits options arg (next ∷ rest) s fits))

-- Where the variables start with values of the kinds of their options, they have such values after
-- every parse that throws nothing, so an integer never leaves the range of its type.
pub parse-Fits :
    (c : CommandLine) (args : List Text)
    → Fits c.options c.values
    → OnOk (Fits c.options) (parse c args)
unfolding parse
parse-Fits c args fits =
    values_of (
      parse_loop-Fits c.options args (record { seen = none_seen c.options; values = c.values })
        fits)
  where
    values_of :
        {r : Result State}
        → OnOk (λ t. Fits c.options t.values) r
        → OnOk (Fits c.options) (elim r [ err e ↦ err e | ok t ↦ ok t.values ])
    values_of (on_ok p) = on_ok p
    values_of on_err = on_err
