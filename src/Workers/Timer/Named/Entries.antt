-- ===== src/Workers/Timer/Named/Entries.antt =====
-- The entries of the map of timers: what is put and erased under a name, and under another one.
use mm_mem.Base.{
  ◌≡◌, refl, ap, ◌∙◌, inl, inr, false, none, some, List, [], ◌∷◌, if◌then◌else◌, Bool-cases,
}
use mm_mem.Text.{Text, text_eq}
use mm_mem.Text.Equal.{text_eq_refl, text_eq-≡}
use mm_mem.Workers.Timer.{Clock, Timer}
use mm_mem.Workers.Timer
use mm_mem.Workers.Timer.Named.{
  Timers, message, find, put, erase, end_timer, elapsed_time_str, Show,
}

pub find-put : (key : Text) (t : Timer) (m : List (Text × Timer)) → find key (put key t m) ≡ some t
unfolding find put
find-put key t [] = rw (text_eq_refl key) refl
find-put key t ((k, old) ∷ rest) = elim (Bool-cases (text_eq k key)) [
  | inl here ↦ rw (here, here) refl
  | inr later ↦ rw (later, later) (find-put key t rest)
]

pub find-put_other :
    (key other : Text) (t : Timer) (m : List (Text × Timer))
    → text_eq other key ≡ false
    → find key (put other t m) ≡ find key m
unfolding find put
find-put_other key other t [] h = rw h refl
find-put_other key other t ((k, old) ∷ rest) h = elim (Bool-cases (text_eq k other)) [
  | inl here ↦
      let differ : text_eq k key ≡ false = ap (λ u. text_eq u key) (text_eq-≡ k other here) ∙ h in
      rw (here, differ) refl
  | inr later ↦
      rw later (ap (λ o. if text_eq k key then some old else o) (find-put_other key other t rest h))
]

pub find-erase : (key : Text) (m : List (Text × Timer)) → find key (erase key m) ≡ none
unfolding find erase
find-erase key [] = refl
find-erase key ((k, old) ∷ rest) = elim (Bool-cases (text_eq k key)) [
  | inl here ↦ rw here (find-erase key rest)
  | inr later ↦ rw (later, later) (find-erase key rest)
]

pub find-erase_other :
    (key other : Text) (m : List (Text × Timer))
    → text_eq other key ≡ false
    → find key (erase other m) ≡ find key m
unfolding find erase
find-erase_other key other [] h = refl
find-erase_other key other ((k, old) ∷ rest) h = elim (Bool-cases (text_eq k other)) [
  | inl here ↦
      let differ : text_eq k key ≡ false = ap (λ u. text_eq u key) (text_eq-≡ k other here) ∙ h in
      rw (here, differ) (find-erase_other key other rest h)
  | inr later ↦
      rw later (ap (λ o. if text_eq k key then some old else o) (find-erase_other key other rest h))
]

-- What an end does with a timer that is there.
pub end_timer_there :
    (show : Show) (what : Text) (clock : Clock) (key : Text) (g : Timers) (t : Timer)
    → find key g.entries ≡ some t
    → end_timer show what clock key g ≡ (
      record {
        reading = (Timer.end_timer clock (record t { reading = g.reading })).reading;
        entries = erase key g.entries;
      },
      message key (
          elapsed_time_str show
            (Timer.end_timer clock (record t { reading = g.reading })).elapsed_time_ns),
      [],
    )
unfolding end_timer
end_timer_there show what clock key g t there = rw (there, end_timer) refl
