-- ===== src/Programs/Main/Configured.antt =====
-- What the `main` of a test program does where its command line gives a configuration.
use mm_mem.Base.{◌≡◌, refl, List, [], ◌∷◌, ◌++◌, length}
use mm_mem.Base.Returns.{Returns, returns}
use mm_mem.Text.{Text}
use mm_mem.Configuration.{TestingType, configure}
use mm_mem.Configuration.Settings.{Settings, configured, parse_options, dump}
use mm_mem.NumaConfig.{Numa, query}
use mm_mem.Programs.{Floats, text, Session}
use mm_mem.Programs.Teams.{go_on-Returns}
use mm_mem.Programs.Matrix.{Step}
use mm_mem.Programs.Main.{Main, dump_and_run, with_options}

pub with_options-configured :
    (x : Floats) (W : Type 0) (numa : Numa) (type : TestingType) (args : List Text) (s : Settings)
    (test : Settings → Main x W numa) (session : Session x.F W)
    → parse_options (configure type (length (query numa).all_allowed_cpus)) args ≡ configured s
    → with_options x W numa type args test session ≡ test s session
unfolding with_options
with_options-configured x W numa type args s test session e = rw (e, with_options) refl

-- Behind the dump the test is run.
pub dump_and_run-Returns :
    (x : Floats) (W : Type 0) (P : Session x.F W → Type 0) (numa : Numa) (type : TestingType)
    (s : Settings) (test : Step x.F W) (session : Session x.F W)
    → Returns
        (λ (u, session'). P session')
        (test (record session { out = session.out ++ text (dump type s) ∷ [] }))
    → Returns
        (λ (status, session'). (status ≡ 0) × P session')
        (dump_and_run x W numa type s test session)
unfolding dump_and_run
dump_and_run-Returns x W P numa type s test session h =
    go_on-Returns h λ u session' p. returns (refl, p)
