-- ===== src/Workers/Timer/Named/Refines.antt =====
-- The timers with a name do what the abstract machine does, whatever the order of the calls.
use mm_mem.Base.{
  ℕ, suc, ◌+◌, ◌-◌, ◌≤◌, ◌≡◌, refl, sym, ap, ◌∙◌, inl, inr, true, Option, none, some, List, [], ◌∷◌,
  ◌++◌, arith, Bool-cases, sub64, add64-lt, sub64-le,
}
use mathlib.Core.Path.{subst}
use mathlib.Core.Option.{some-injective}
use mm_mem.Base.Returns.{Option-cases}
use mm_mem.Text.{Text, text_eq}
use mm_mem.Workers.Timer.{Clock, Timer}
use mm_mem.Workers.Timer
use mm_mem.Workers.Timer.Elapsed.{IsClock}
use mm_mem.Workers.Timer.Named.{
  Timers, message, find, put, erase, start_timer, end_timer, elapsed_time_str, Show, Call, start_of,
  end_of,
}
use mm_mem.Text.Equal.{text_eq-≡}
use mm_mem.Workers.Timer.Named.Entries.{
  find-put, find-put_other, find-erase, find-erase_other, end_timer_there,
}
use mm_mem.Workers.Timer.Named.Spec.{outputs, Spec, change, spec_outputs}

begin_of : Option Timer → Option ℕ
begin_of none = none
begin_of (some t) = some t.time_point_begin

-- A timer that runs since an earlier time.
record IsRunning (clock : Clock) (reading : ℕ) (t : Timer) : Type 0 where
  fresh : t.elapsed_time_ns ≡ 0
  earlier : t.time_point_begin ≤ clock reading

record Refines (clock : Clock) (g : Timers) (a : Spec) : Type 0 where
  same_reading : g.reading ≡ a.reading
  same_begin : (k : Text) → a.since k ≡ begin_of (find k g.entries)
  running : (k : Text) (t : Timer) → find k g.entries ≡ some t → IsRunning clock g.reading t

find-put_same :
    (key k : Text) (t : Timer) (m : List (Text × Timer))
    → text_eq key k ≡ true
    → find k (put key t m) ≡ some t
find-put_same key k t m h =
    ap (λ u. find u (put key t m)) (sym (text_eq-≡ key k h)) ∙ find-put key t m

find-erase_same :
    (key k : Text) (m : List (Text × Timer)) → text_eq key k ≡ true → find k (erase key m) ≡ none
find-erase_same key k m h =
    ap (λ u. find u (erase key m)) (sym (text_eq-≡ key k h)) ∙ find-erase key m

module _ (show : Show) (what : Text) (clock : Clock) (ok : IsClock clock) where
  later : (reading : ℕ) (t : Timer) → IsRunning clock reading t → IsRunning clock (reading + 1) t
  later reading t h = record {
    fresh = h.fresh;
    earlier = omega (
      arith,
      h.earlier,
      ok.onward reading,
      ap clock (let e : suc reading ≡ reading + 1 = omega arith in e),
    );
  }

  -- The timer of a start.
  begun : ℕ → Timer
  begun reading = Timer.start_timer clock (record Timer.new_timer { reading = reading })

  begun-IsRunning : (reading : ℕ) → IsRunning clock (reading + 1) (begun reading)
  unfolding begun Timer.start_timer Timer.new_timer
  begun-IsRunning reading = record {
    fresh = refl;
    earlier =
        omega (
          arith,
          ok.onward reading,
          ap clock (let e : suc reading ≡ reading + 1 = omega arith in e),
        );
  }

  start_timer-Refines :
      (key : Text) (g : Timers) (a : Spec)
      → Refines clock g a
      → Refines clock
          (start_timer clock key g)
          (record { reading = a.reading + 1; since = change key (some (clock a.reading)) a.since })
  unfolding start_timer change begun Timer.start_timer begin_of
  start_timer-Refines key g a h = record {
    same_reading = ap (λ n. n + 1) h.same_reading;
    same_begin = λ k. elim (Bool-cases (text_eq key k)) [
      | inl here ↦
          rw (here, find-put_same key k (begun g.reading) g.entries here)
            (ap (λ n. some (clock n)) (sym h.same_reading))
      | inr other ↦
          rw (other, find-put_other k key (begun g.reading) g.entries other) (h.same_begin k)
    ];
    running = λ k t e. elim (Bool-cases (text_eq key k)) [
      | inl here ↦
          subst (IsRunning clock (g.reading + 1))
            (some-injective _ _ (sym (find-put_same key k (begun g.reading) g.entries here) ∙ e))
            (begun-IsRunning g.reading)
      | inr other ↦
          later g.reading t
            (h.running k t (sym (find-put_other k key (begun g.reading) g.entries other) ∙ e))
    ];
  }

  elapsed : (reading : ℕ) → Timer → Text
  elapsed reading t = elapsed_time_str show (clock reading - t.time_point_begin)

  -- A map without the name.
  erased-Refines :
      (key : Text) (g : Timers) (a : Spec)
      → Refines clock g a
      → Refines clock
          (record { reading = g.reading + 1; entries = erase key g.entries })
          (record { reading = a.reading + 1; since = change key none a.since })
  unfolding change begin_of
  erased-Refines key g a h = record {
    same_reading = ap (λ n. n + 1) h.same_reading;
    same_begin = λ k. elim (Bool-cases (text_eq key k)) [
      | inl here ↦ rw (here, find-erase_same key k g.entries here) refl
      | inr other ↦ rw (other, find-erase_other k key g.entries other) (h.same_begin k)
    ];
    running = λ k t e. elim (Bool-cases (text_eq key k)) [
      | inl here ↦ cc (e, find-erase_same key k g.entries here)
      | inr other ↦
          later g.reading t (h.running k t (sym (find-erase_other k key g.entries other) ∙ e))
    ];
  }

  -- The time that an end finds.
  ended_elapsed :
      (reading : ℕ) (t : Timer)
      → IsRunning clock reading t
      → (Timer.end_timer clock (record t { reading = reading })).elapsed_time_ns
        ≡ clock reading - t.time_point_begin
  unfolding Timer.end_timer
  ended_elapsed reading t h =
      let e : sub64 (clock reading) t.time_point_begin ≡ clock reading - t.time_point_begin =
        sub64-le (clock reading) t.time_point_begin h.earlier (omega (arith, ok.bounded reading)) in
      rw (h.fresh, e)
        (add64-lt 0 (clock reading - t.time_point_begin) (omega (arith, ok.bounded reading))
          ∙ omega arith)

  -- An end for a name that is not in the map changes nothing.
  end_timer_missing :
      (key : Text) (g : Timers)
      → find key g.entries ≡ none
      → ((end_timer show what clock key g).0 ≡ g)
        × ((end_timer show what clock key g).1 ≡ message key [])
  unfolding end_timer
  end_timer_missing key g missing = rw (missing, end_timer) (refl, refl)

  -- An end for a name that is in the map.
  end_timer_running :
      (key : Text) (g : Timers) (t : Timer)
      → IsRunning clock g.reading t
      → find key g.entries ≡ some t
      → ((end_timer show what clock key g).0
          ≡ record { reading = g.reading + 1; entries = erase key g.entries })
        × ((end_timer show what clock key g).1
            ≡ message key (elapsed_time_str show (clock g.reading - t.time_point_begin)))
  unfolding Timer.end_timer
  end_timer_running key g t running there =
      let e = end_timer_there show what clock key g t there in
      (
        ap (λ r. r.0) e,
        ap (λ r. r.1) e
            ∙ ap (λ ns. message key (elapsed_time_str show ns)) (ended_elapsed g.reading t running),
      )

  outputs-Refines :
      (calls : List Call) (g : Timers) (a : Spec)
      → Refines clock g a
      → outputs show what clock calls g ≡ spec_outputs show clock calls a
  unfolding outputs spec_outputs elapsed begin_of
  outputs-Refines [] g a h = refl
  outputs-Refines (start_of key ∷ rest) g a h =
      outputs-Refines rest (start_timer clock key g) _ (start_timer-Refines key g a h)
  outputs-Refines (end_of key ∷ rest) g a h = elim (Option-cases (find key g.entries)) [
    | inl missing ↦
        let none_begun : a.since key ≡ none = h.same_begin key ∙ ap begin_of missing in
        let (unchanged, out) = end_timer_missing key g missing in
        rw (none_begun, spec_outputs)
          (ap (λ text. text ++ outputs show what clock rest (end_timer show what clock key g).0) out
            ∙ ap (λ g'. message key [] ++ outputs show what clock rest g') unchanged
            ∙ ap (λ text. message key [] ++ text) (outputs-Refines rest g a h))
    | inr (t, there) ↦
        let some_begun : a.since key ≡ some t.time_point_begin =
          h.same_begin key ∙ ap begin_of there in
        let (after, out) = end_timer_running key g t (h.running key t there) there in
        rw (some_begun, spec_outputs)
          (ap (λ text. text ++ outputs show what clock rest (end_timer show what clock key g).0) out
            ∙ ap (λ g'. message key (elapsed g.reading t) ++ outputs show what clock rest g') after
            ∙ ap (λ text. message key (elapsed g.reading t) ++ text)
                (outputs-Refines rest _ _ (erased-Refines key g a h))
            ∙ ap
                (λ n.
                  message key (elapsed n t)
                  ++ spec_outputs show clock rest
                      (record { reading = a.reading + 1; since = change key none a.since }))
                h.same_reading)
  ]

  -- On a clock that does not go back and stays below 2^63, any sequence of calls of start_timer
  -- and end_timer from an empty map prints what the abstract machine prints that knows only when
  -- each name was started: an end prints the time since the last start of its name, or an empty
  -- time if there is none.
  pub outputs-spec_outputs :
      (calls : List Call) (reading : ℕ)
      → outputs show what clock calls (record { reading = reading; entries = [] })
        ≡ spec_outputs show clock calls (record { reading = reading; since = λ k. none })
  unfolding find begin_of
  outputs-spec_outputs calls reading =
      outputs-Refines calls _ _
        (record { same_reading = refl; same_begin = λ k. refl; running = λ k t e. cc e })
