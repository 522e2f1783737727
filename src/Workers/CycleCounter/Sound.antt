-- ===== src/Workers/CycleCounter/Sound.antt =====
-- What a use of the counter reports.
use mm_mem.Base.{
  ℕ, ◌<◌, ◌≡◌, ◌≢◌, refl, inl, inr, ◌⊎◌, not, ◌&&◌, ◌||◌, none, some, [], arith, ◌==◌,
  if◌then◌else◌, Bool-cases, ==_iff,
}
use mm_mem.Base.Returns.{Option-cases}
use mm_mem.Workers.CycleCounter.{Perf, CycleCounter, open_counter, start, stop}

-- A counter from its constructor on, as a worker uses it: started, and stopped if it counts.
unfoldable pub count_cycles : Perf → CycleCounter × ℕ
count_cycles perf =
    let (c, counting) = start perf (open_counter perf) in if counting then stop perf c else (c, 0)

-- The errors of the system have a text.
pub record IsTelling (perf : Perf) : Type 0 where
  pub open_told : perf.open_error ≢ []
  pub start_told : perf.start_error ≢ []

-- The counter counted all of the time.
pub record IsMeasured (perf : Perf) (n : ℕ) : Type 0 where
  pub same : n ≡ perf.cycles
  pub whole : perf.running ≡ perf.enabled
  pub some_cycles : 0 < n

-- What a stop reports, with an opened counter.
stop_sound :
    (perf : Perf) (c : CycleCounter) (fd : ℕ)
    → c.fd ≡ some fd
    → c.error ≡ []
    → (IsMeasured perf (stop perf c).1 × ((stop perf c).0.error ≡ []))
      ⊎ (((stop perf c).1 ≡ 0) × ((stop perf c).0.error ≢ []))
unfolding stop
stop_sound perf c fd opened fine = elim (Bool-cases (not perf.disable || not perf.whole_read)) [
  | inl failed ↦ rw (opened, failed, stop) (inr (refl, λ e. cc))
  | inr read ↦ elim (Bool-cases (perf.cycles == 0 || perf.running == 0)) [
    | inl idle ↦ rw (opened, read, idle, stop) (inr (refl, λ e. cc))
    | inr ran ↦ elim (Bool-cases (perf.running == perf.enabled)) [
      | inr shared ↦ rw (opened, read, ran, shared, stop) (inr (refl, λ e. cc))
      | inl whole ↦
          rw (opened, read, ran, whole, stop)
            (inl (
              record {
                same = refl;
                whole = (==_iff perf.running perf.enabled).0 whole;
                some_cycles = ground (arith, ran);
              },
              fine,
            ))
    ]
  ]
]

opened_counter :
    (perf : Perf) (fd : ℕ)
    → perf.fd ≡ some fd
    → open_counter perf ≡ record { fd = some fd; error = [] }
unfolding open_counter
opened_counter perf fd opened = rw (opened, open_counter) refl

failed_counter :
    (perf : Perf)
    → perf.fd ≡ none
    → open_counter perf ≡ record { fd = none; error = perf.open_error }
unfolding open_counter
failed_counter perf failed = rw (failed, open_counter) refl

-- If the errors of the system have a text, a counter gives either its cycles without an error,
-- which are more than zero and were counted all of the time, or zero and an error.
pub count_cycles_sound :
    (perf : Perf)
    → IsTelling perf
    → (IsMeasured perf (count_cycles perf).1 × ((count_cycles perf).0.error ≡ []))
      ⊎ (((count_cycles perf).1 ≡ 0) × ((count_cycles perf).0.error ≢ []))
unfolding count_cycles start
count_cycles_sound perf told = elim (Option-cases perf.fd) [
  | inl failed ↦ rw (failed_counter perf failed, count_cycles) (inr (refl, told.open_told))
  | inr (fd, opened) ↦ elim (Bool-cases (perf.reset && perf.enable)) [
    | inl begun ↦
        rw (opened_counter perf fd opened, begun, count_cycles)
          (stop_sound perf (record { fd = some fd; error = [] }) fd refl refl)
    | inr failed ↦
        rw (opened_counter perf fd opened, failed, count_cycles) (inr (refl, told.start_told))
  ]
]
