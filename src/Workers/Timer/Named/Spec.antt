-- ===== src/Workers/Timer/Named/Spec.antt =====
-- What the timers with a name promise: an abstract machine that knows only when each name was
-- started.
use mm_mem.Base.{ℕ, ◌+◌, ◌-◌, Option, none, some, List, [], ◌∷◌, ◌++◌, if◌then◌else◌}
use mm_mem.Text.{Text, text_eq}
use mm_mem.Workers.Timer.{Clock}
use mm_mem.Workers.Timer.Named.{
  Timers, message, start_timer, end_timer, elapsed_time_str, Show, Call, start_of, end_of,
}

-- What the calls write to their streams.
unfoldable pub outputs : Show → (what : Text) → Clock → List Call → Timers → Text
unfolding start_timer end_timer
outputs show what clock [] g = []
outputs show what clock (start_of key ∷ rest) g =
    outputs show what clock rest (start_timer clock key g)
outputs show what clock (end_of key ∷ rest) g =
    let (after, out, err) = end_timer show what clock key g in
    out ++ outputs show what clock rest after

-- The abstract machine: the number of the next reading, and when each name was started.
pub record Spec : Type 0 where
  pub reading : ℕ
  pub since : Text → Option ℕ

unfoldable pub change : Text → Option ℕ → (Text → Option ℕ) → Text → Option ℕ
change key value since k = if text_eq key k then value else since k

unfoldable pub spec_outputs : Show → Clock → List Call → Spec → Text
unfolding change
spec_outputs show clock [] a = []
spec_outputs show clock (start_of key ∷ rest) a =
    spec_outputs show clock rest
      (record { reading = a.reading + 1; since = change key (some (clock a.reading)) a.since })
spec_outputs show clock (end_of key ∷ rest) a = elim (a.since key) [
  | none ↦ message key [] ++ spec_outputs show clock rest a
  | some begun ↦
      message key (elapsed_time_str show (clock a.reading - begun))
      ++ spec_outputs show clock rest
          (record { reading = a.reading + 1; since = change key none a.since })
]
