-- ===== src/Programs/Bandwidth/Silent.antt =====
-- What the test of the peak bandwidth prints where the bandwidth is zero in whole GB/s.
use mm_mem.Base.{
  ℕ, ◌≡◌, refl, sym, ap, ◌∙◌, Bool, false, not, if_false, List, [], ◌∷◌, ◌++◌, ◌==◌, ==_iff,
}
use mathlib.Core.List.{append_assoc}
use mathlib.Core.Path.{subst}
use mm_mem.Base.Returns.{Returns, returns, value_of, mono, via}
use mm_mem.Base.Int.{negsuc}
use mm_mem.Text.{codes}
use mm_mem.Kernels.Code.{Code}
use mm_mem.Kernels.Bandwidth.{get_kernels_with_wrmix}
use mm_mem.Configuration.Settings.{Settings}
use mm_mem.NumaConfig.{NumaConfig}
use mm_mem.WorkerThreads.{binding_lines, make_manager, set_routine}
use mm_mem.Programs.{
  Floats, Item, text, Team, Session, Run, Routine, run_team, assign_routine, make_team,
  prepare_team, setup_line,
}
use mm_mem.Programs.Matrix.{Step}
use mm_mem.Programs.Teams.{go_on-Returns, IsAssigned, assign_routine-IsAssigned}
use mm_mem.Programs.Bandwidth.{
  run_mixes, run_bandwidth, setup_memory_regions_peak_bandwidth, single_bandwidth,
  run_peak_bandwidth,
}
use mm_mem.Programs.Bandwidth.Kernels.{first_again-some, some_kernel}
use mm_mem.Programs.Bandwidth.Lines.{Measures, measure-IsMeasured, calibration-silent}

module _ (x : Floats) (W : Type 0) (run : Run x.F W) (s : Settings) (numa : NumaConfig) where
  -- Nothing is printed while the measurements come out as zero.
  run_mixes-silent :
      (threads : ℕ) (items : List (ℕ × Code)) (t : Team) (session : Session x.F W)
      → Measures x W run s numa threads (λ n. n == 0)
      → t.manager.num_threads ≡ threads
      → Returns
          (λ (u, session'). session'.out ≡ session.out)
          (run_mixes x W run s numa items t 0 session)
  unfolding run_mixes
  run_mixes-silent threads [] t session measures size = returns refl
  run_mixes-silent threads ((mix, kernel) ∷ rest) t session measures size =
      go_on-Returns
        (measure-IsMeasured x W run s numa (λ n. n == 0) threads t kernel mix 0 session measures
          size)
        λ r s2 h.
          let zero_again : r.0 ≡ 0 = (==_iff r.0 0).0 h.tested in
          subst
            (λ m.
              Returns (λ (u, session'). session'.out ≡ session.out)
                (run_mixes x W run s numa rest r.1 m s2))
            (sym zero_again)
            (mono (run_mixes-silent threads rest r.1 s2 measures h.size)
              λ r' e. e ∙ h.printed ∙ calibration-silent x W run s numa mix h.mbps h.gbps session)

  run_bandwidth-silent :
      (t : Team) (session : Session x.F W)
      → Measures x W run s numa t.manager.num_threads (λ n. n == 0)
      → Returns
          (λ (u, session'). session'.out ≡ session.out)
          (run_bandwidth x W run s numa t session)
  unfolding run_bandwidth
  run_bandwidth-silent t session measures =
      let (items, found) =
        first_again-some (get_kernels_with_wrmix s.read_write_mix) (some_kernel s.read_write_mix) in
      rw found (run_mixes-silent t.manager.num_threads items t session measures refl)

  -- Every run that allocates the regions of a team of this size returns.
  unfoldable pub Allocates : (threads : ℕ) → Type 0
  Allocates threads =
      (t : Team) (w : W)
      → t.manager.num_threads ≡ threads
      → IsAssigned Routine.mem_region_alloc_bw t
      → Returns (λ r. Unit {0}) (run t w)

  setup-Returns :
      (t : Team) (session : Session x.F W)
      → Allocates t.manager.num_threads
      → Returns
          (λ (t', session').
            (t'.manager.num_threads ≡ t.manager.num_threads) × (session'.out ≡ session.out))
          (setup_memory_regions_peak_bandwidth x W run s numa t (negsuc 0) session)
  unfolding setup_memory_regions_peak_bandwidth Allocates assign_routine set_routine prepare_team
  setup-Returns t session allocates =
      let placed = prepare_team s (negsuc 0) t in
      let team = assign_routine Routine.mem_region_alloc_bw placed in
      let (r, e, done) = value_of (
        allocates team session.world refl
          (assign_routine-IsAssigned Routine.mem_region_alloc_bw placed)) in
      rw (e, run_team) (returns (refl, refl))

  -- What the test prints in front of its measurements.
  abbrev pub set_up_lines : List (Item x.F)
  set_up_lines =
      text (
        binding_lines numa.num_cpus s.num_threads numa.all_allowed_cpus (not s.no_binding)
          s.verbose)
      ∷ setup_line x
      ∷ []

  team_size :
      (hardware_concurrency threads : ℕ) (cpus : List ℕ) (do_binding : Bool)
      → (make_team hardware_concurrency threads cpus do_binding).manager.num_threads ≡ threads
  unfolding make_team make_manager
  team_size hardware_concurrency threads cpus do_binding = refl

  single_bandwidth-silent :
      (session : Session x.F W)
      → Allocates s.num_threads
      → Measures x W run s numa s.num_threads (λ n. n == 0)
      → Returns
          (λ (u, session'). session'.out ≡ session.out ++ set_up_lines)
          (single_bandwidth x W run s numa session)
  unfolding single_bandwidth
  single_bandwidth-silent session allocates measures =
      let team = make_team numa.num_cpus s.num_threads numa.all_allowed_cpus (not s.no_binding) in
      let size = team_size numa.num_cpus s.num_threads numa.all_allowed_cpus (not s.no_binding) in
      go_on-Returns (setup-Returns team _ (subst Allocates (sym size) allocates))
        λ t s2 (size', same).
          mono
            (run_bandwidth-silent t (record s2 { out = s2.out ++ setup_line x ∷ [] })
              (subst (λ n. Measures x W run s numa n (λ k. k == 0)) (sym (size' ∙ size)) measures))
            λ r e.
              e
              ∙ ap (λ out. out ++ setup_line x ∷ []) same
              ∙ append_assoc session.out _ (setup_line x ∷ [])

  -- Without the matrix, if every run of a team of the configured size that allocates its regions
  -- returns, and every one that measures returns with a bandwidth that is zero when converted to
  -- whole GB/s, the test of the peak bandwidth returns and prints no result: only the lines of the
  -- manager's constructor and of the setup timer, and the end of the line.
  pub run_peak_bandwidth-silent :
      (session : Session x.F W)
      → s.bandwidth_matrix ≡ false
      → Allocates s.num_threads
      → Measures x W run s numa s.num_threads (λ n. n == 0)
      → Returns
          (λ (u, session'). session'.out ≡ (session.out ++ set_up_lines) ++ text (codes "\n") ∷ [])
          (run_peak_bandwidth x W run s numa session)
  unfolding run_peak_bandwidth
  run_peak_bandwidth-silent session single allocates measures =
      go_on-Returns
        (via (ap (λ (test : Step x.F W). test session) (if_false _ single))
          (single_bandwidth-silent session allocates measures))
        λ u s3 e. returns (ap (λ out. out ++ text (codes "\n") ∷ []) e)
