-- ===== src/Programs/Bandwidth/Lines.antt =====
-- What the test of the peak bandwidth prints.
use mm_mem.Base.{ℕ, ◌≡◌, refl, ap, ◌∙◌, Bool, true, List, [], ◌∷◌, ◌++◌, map}
use mathlib.Core.List.{append-nil}
use mm_mem.Base.Returns.{Returns, returns, value_of}
use mm_mem.Text.{Text}
use mm_mem.Kernels.Code.{Code}
use mm_mem.Configuration.Settings.{Settings}
use mm_mem.Configuration.Strings.{get_str_rw_mix}
use mm_mem.NumaConfig.{NumaConfig}
use mm_mem.Programs.{Floats, Team, Session, Run, Done, run_team, assign_routine, Routine}
use mm_mem.WorkerThreads.{set_routine}
use mm_mem.Programs.Teams.{IsAssigned, assign_routine-IsAssigned}
use mm_mem.Programs.Bandwidth.{
  bandwidth_job, bandwidth_mbps, bandwidth_line, measure_peak_bandwidth,
}

abbrev pub labels : List (ℕ × Code) → List Text
labels [] = []
labels ((mix, kernel) ∷ rest) = get_str_rw_mix mix ∷ labels rest

module _ (x : Floats) (W : Type 0) (run : Run x.F W) (s : Settings) (numa : NumaConfig) where
  -- The bandwidth that a measurement returns, in GB/s
  abbrev pub rounded : (threads : ℕ) → List (Done x.F) → ℕ
  rounded threads done =
      x.to_uint32 (x.div (bandwidth_mbps x W run s numa threads done) (x.of_nat 1024))

  -- Every run that measures the bandwidth by a team of this size returns, with a rounded bandwidth as
  -- the test wants it.
  unfoldable pub Measures : (threads : ℕ) → (test : ℕ → Bool) → Type 0
  Measures threads test =
      (t : Team) (w : W)
      → t.manager.num_threads ≡ threads
      → IsAssigned Routine.bw_sequential t
      → Returns (λ (done, w'). test (rounded threads done) ≡ true) (run t w)

  -- What a measurement gives.
  pub record IsMeasured (test : ℕ → Bool) (threads mix last : ℕ) (before after : Session x.F W)
      (m : ℕ) (t : Team) : Type 0 where
    pub tested : test m ≡ true
    pub size : t.manager.num_threads ≡ threads
    pub mbps : x.F
    pub gbps : x.F
    pub printed : after.out ≡ before.out ++ bandwidth_line x W run s numa mix last mbps gbps

  pub measure-IsMeasured :
      (test : ℕ → Bool) (threads : ℕ) (t : Team) (kernel : Code) (mix last : ℕ)
      (session : Session x.F W)
      → Measures threads test
      → t.manager.num_threads ≡ threads
      → Returns
          (λ (r, session'). IsMeasured test threads mix last session session' r.0 r.1)
          (measure_peak_bandwidth x W run s numa t kernel mix last session)
  unfolding measure_peak_bandwidth Measures assign_routine set_routine
  measure-IsMeasured test threads t kernel mix last session measures size =
      let jobs = map (bandwidth_job x W run s numa kernel mix last) t.jobs in
      let team = assign_routine Routine.bw_sequential (record t { jobs = jobs }) in
      let (r, e, tested) = value_of (
        measures team session.world size
          (assign_routine-IsAssigned Routine.bw_sequential (record t { jobs = jobs }))) in
      rw (e, run_team)
        (returns (record {
          tested = ap (λ n. test (rounded n r.0)) size ∙ tested;
          size = size;
          mbps = bandwidth_mbps x W run s numa t.manager.num_threads r.0;
          gbps = _;
          printed = refl;
        }))

  pub calibration-silent :
      (mix : ℕ) (mbps gbps : x.F) (session : Session x.F W)
      → session.out ++ bandwidth_line x W run s numa mix 0 mbps gbps ≡ session.out
  unfolding bandwidth_line
  calibration-silent mix mbps gbps session = append-nil session.out
