-- ===== src/CommandLine/Parse/RoundTrip.antt =====
-- A command line that is written for some choices is read back as these choices.
use mm_mem.Base.{
  ℕ, zero, suc, ◌≡◌, ◌≢◌, refl, ap, ◌∙◌, true, false, List, [], ◌∷◌, map, get_or, set,
  get_or-set_ne, All,
}
use mm_mem.Text.{Text}
use mm_mem.CommandLine.{OptionSpec, Value, CommandLine}
use mm_mem.CommandLine.Parse.{ok, State, round, parse_loop, none_seen, parse}
use mm_mem.CommandLine.Parse.Render.{
  Distinct, Choice, IsChoice, render, chosen, round-render, long_arg_expected, attachment,
}

-- No option is chosen twice.
abbrev pub Separate : List Choice → Type 0
Separate [] = Unit
Separate (c ∷ rest) = All (λ (d : Choice). c.index ≢ d.index) rest × Separate rest

-- The variables with what is chosen for them.
abbrev pub put_all : List Choice → List Value → List Value
put_all [] values = values
put_all (c ∷ rest) values = put_all rest (set values c.index c.value)

abbrev after : List Choice → State → State
after [] s = s
after (c ∷ rest) s = after rest (chosen c s)

after_values :
    (choices : List Choice) (s : State) → (after choices s).values ≡ put_all choices s.values
after_values [] s = refl
after_values (c ∷ rest) s = after_values rest (chosen c s)

-- The options of these choices have not been seen.
abbrev New : State → List Choice → Type 0
New s choices = All (λ (c : Choice). get_or s.seen c.index false ≡ false) choices

New-chosen :
    (c : Choice) (rest : List Choice) (s : State)
    → All (λ (d : Choice). c.index ≢ d.index) rest
    → New s rest
    → New (chosen c s) rest
New-chosen c [] s others new = tt
New-chosen c (d ∷ rest) s (other, others) (first, new) =
    (get_or-set_ne s.seen c.index d.index true false other ∙ first, New-chosen c rest s others new)

parse_loop_step :
    (options : List OptionSpec) (arg next : Text) (rest : List Text) (s t : State)
    → round options arg (next ∷ rest) s ≡ ok (t, false)
    → parse_loop options (arg ∷ next ∷ rest) s ≡ parse_loop options (next ∷ rest) t
unfolding parse_loop
parse_loop_step options arg next rest s t e = rw (e, parse_loop) refl

parse_loop-render :
    (options : List OptionSpec) (choices : List Choice) (s : State)
    → Distinct options
    → All (IsChoice options) choices
    → Separate choices
    → New s choices
    → parse_loop options (map render choices) s ≡ ok (after choices s)
unfolding parse_loop
parse_loop-render options [] s distinct are separate new = refl
parse_loop-render options (c ∷ []) s distinct (choice, are) separate (first, new) =
    rw
      (
        (long_arg_expected c.spec.name (attachment c.value) choice.some_name).1,
        round-render options c [] s distinct choice first,
      )
      refl
parse_loop-render options (c ∷ d ∷ rest) s distinct (choice, are) (others, separate) (first, new) =
    parse_loop_step options (render c) (render d) (map render rest) s (chosen c s)
      (round-render options c (render d ∷ map render rest) s distinct choice first)
    ∙ parse_loop-render options (d ∷ rest) (chosen c s) distinct are separate
        (New-chosen c (d ∷ rest) s others new)

none_seen_new : (options : List OptionSpec) (i : ℕ) → get_or (none_seen options) i false ≡ false
unfolding none_seen
none_seen_new [] i = refl
none_seen_new (o ∷ options) zero = refl
none_seen_new (o ∷ options) (suc i) = none_seen_new options i

start-New :
    (options : List OptionSpec) (values : List Value) (choices : List Choice)
    → New (record { seen = none_seen options; values = values }) choices
start-New options values [] = tt
start-New options values (c ∷ rest) = (none_seen_new options c.index, start-New options values rest)

-- Where no two options share a name, and for options that are chosen at most once each, in any
-- order, by names that are not empty and have no =, flags to be set and numbers of at most 64 bits
-- in the range of their types, parse reads the command line that is written for them, --name or
-- --name=value, as these values: it throws nothing, gives each chosen variable its value and
-- leaves all others alone.
pub parse-render :
    (c : CommandLine) (choices : List Choice)
    → Distinct c.options
    → All (IsChoice c.options) choices
    → Separate choices
    → parse c (map render choices) ≡ ok (put_all choices c.values)
unfolding parse
parse-render c choices distinct are separate =
    let start : State = record { seen = none_seen c.options; values = c.values } in
    rw
      (
        parse_loop-render c.options choices start distinct are separate
            (start-New c.options c.values choices),
        parse,
      )
      (ap ok (after_values choices start))
