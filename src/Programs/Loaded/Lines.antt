-- ===== src/Programs/Loaded/Lines.antt =====
-- The table of the latency under load.
use mm_mem.Base.{ℕ, ◌<◌, ◌≡◌, List, [], ◌∷◌, ◌++◌}
use mm_mem.Base.Returns.{Returns}
use mm_mem.Text.{Text, codes, to_string}
use mm_mem.Kernels.Code.{Code}
use mm_mem.LoadedLatency.{DelayKernelList}
use mm_mem.Configuration.Settings.{Settings}
use mm_mem.NumaConfig.{NumaConfig}
use mm_mem.Programs.{Floats, Team, Session, Run, Done}
use mm_mem.Programs.Loaded.{loaded_latency, loaded_line}
use mm_mem.Programs.Loaded.Roles.{HasRoles}

-- The delays of the list
abbrev pub delay_labels : DelayKernelList → List Text
delay_labels [] = []
delay_labels ((delay, kernel) ∷ rest) = to_string delay ∷ delay_labels rest

-- The head of the table, in front of the other fields
abbrev pub heads : List Text → List Text
heads rest = codes "delay" ∷ codes "bandwidth" ∷ codes "latency" ∷ rest

module _ (x : Floats) (W : Type 0) (run : Run x.F W) (s : Settings) (numa : NumaConfig)
    (n : ℕ) where
  -- Every run of a team with these roles returns the results of its threads, and the latency that the
  -- first one measured is not zero in picoseconds.
  pub data HasLatency : List (Done x.F) → Type 0 where
    with_first :
        (first : Done x.F) (others : List (Done x.F))
        → 0 < x.to_uint32 (x.mul (loaded_latency x W run s numa first) (x.of_nat 1000))
        → HasLatency (first ∷ others)

  unfoldable pub Responds : Type 0
  Responds =
      (t : Team) (w : W)
      → HasRoles n t.manager.start_routines
      → Returns (λ (done, w'). HasLatency done) (run t w)

  -- After a measurement: a line with the delay, unless it was a calibration.
  record IsMeasured (lat bw delay : ℕ) (before after : Session x.F W) (m : ℕ × ℕ) : Type 0 where
    positive : 0 < m.0
    mem_bw_gbps : x.F
    latency : x.F
    printed : after.out ≡ before.out ++ loaded_line x W run s numa lat bw delay mem_bw_gbps latency
