-- ===== src/Supervisor/Reaper.antt =====
-- The reaper thread over its whole life (`reaper_main` of engine.c).
use os_jackfruit.Prelude.{true, false, List, [], ◌∷◌}
use os_jackfruit.Start.{World}
use os_jackfruit.Lifecycle.{reap}
use os_jackfruit.Lifecycle.Steps.{Run, here, next, reaps, Run-trans}
use os_jackfruit.Supervisor.{WaitResult, reaped, no_child, interrupted, other_error, reaper_main}

-- Whatever `waitpid` gives it, what the reaper thread does to the world is a run of the
-- supervisor's steps.
pub reaper_main-Run : (results : List WaitResult) (w : World) → Run w (reaper_main results w).0
unfolding reaper_main
reaper_main-Run [] w = here
reaper_main-Run (reaped pid status device ∷ rest) w =
    Run-trans (next here (reaps device pid status))
      (reaper_main-Run rest (reap device pid status w))
reaper_main-Run (no_child false ∷ rest) w = here
reaper_main-Run (no_child true ∷ rest) w = reaper_main-Run rest w
reaper_main-Run (interrupted ∷ rest) w = reaper_main-Run rest w
reaper_main-Run (other_error ∷ rest) w = reaper_main-Run rest w
