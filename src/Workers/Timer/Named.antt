-- ===== src/Workers/Timer/Named.antt =====
-- The timers with a name of common/timing.cc. Each function holds the lock while it uses the map, so
-- the functions run one after the other; the readings of all timers are those of one clock.
pub mod Entries
pub mod Spec
pub mod Refines
use mm_mem.Base.{ℕ, Bool, true, false, Option, none, some, List, [], ◌∷◌, ◌++◌, ltb, if◌then◌else◌}
use mm_mem.Text.{Text, codes, to_string, text_eq}
use mm_mem.Workers.Timer.{Clock, Timer, new_timer}
use mm_mem.Workers.Timer

-- `g_timer_map`, an entry for each name in it, and the number of the clock's next reading.
pub record Timers : Type 0 where
  pub reading : ℕ
  pub entries : List (Text × Timer)

-- `map.at(key)`; `none` is the exception.
unfoldable pub find : Text → List (Text × Timer) → Option Timer
find key [] = none
find key ((k, t) ∷ rest) = if text_eq k key then some t else find key rest

-- `map[key] = t`
unfoldable pub put : Text → Timer → List (Text × Timer) → List (Text × Timer)
put key t [] = (key, t) ∷ []
put key t ((k, old) ∷ rest) = if text_eq k key then (k, t) ∷ rest else (k, old) ∷ put key t rest

unfoldable pub erase : Text → List (Text × Timer) → List (Text × Timer)
erase key [] = []
erase key ((k, t) ∷ rest) = if text_eq k key then erase key rest else (k, t) ∷ erase key rest

unfoldable pub start_timer : Clock → Text → Timers → Timers
unfolding new_timer put
start_timer clock key g =
    let t = Timer.start_timer clock (record new_timer { reading = g.reading }) in
    record { reading = t.reading; entries = put key t g.entries }

-- How a stream prints the quotient with four digits
abbrev pub Show : Type 0
Show = (n unit : ℕ) → Text

-- `getElapsedTimeStr`, for a time that is not negative
unfoldable pub elapsed_time_str : Show → (elapsed_time_ns : ℕ) → Text
elapsed_time_str show ns =
    if ltb 1000000000 ns
    then show ns 1000000000 ++ codes " sec"
    else if ltb 1000000 ns
    then show ns 1000000 ++ codes " ms"
    else if ltb 1000 ns
    then show ns 1000 ++ codes " us"
    else to_string ns ++ codes " ns"

-- `out_str`
unfoldable pub message : (timer_key elapsed_time_str : Text) → Text
message timer_key elapsed_time_str =
    codes "timer <" ++ timer_key ++ codes "> elapsed: " ++ elapsed_time_str ++ codes "\n"

-- What `end_timer` writes to its stream, and to the standard error; `what` is the text of the exception.
unfoldable pub end_timer : Show → (what : Text) → Clock → Text → Timers → Timers × Text × Text
unfolding find erase elapsed_time_str message
end_timer show what clock key g = elim (find key g.entries) [
  | none ↦
      (g, message key [], codes "Out of range error: " ++ what ++ codes " on " ++ key ++ codes "\n")
  | some t ↦
      let t' = Timer.end_timer clock (record t { reading = g.reading }) in
      (
        record { reading = t'.reading; entries = erase key g.entries },
        message key (elapsed_time_str show t'.elapsed_time_ns),
        [],
      )
]

-- The calls of a program.
pub data Call : Type 0 where
  start_of : Text → Call
  end_of : Text → Call
