-- ===== src/Scheduler/Started.antt =====
-- What a started scheduler does (internal/scheduler/scheduler.go).
use gitlab_elt.Common.{ℕ, String, Bool, true, List, [], ◌∷◌, ◌≡◌, ◌↔◌, arith, All}
use gitlab_elt.Repository.{Db}
use gitlab_elt.Scheduler.{
  Scheduler, Job, Cron, new_cron, run_sync, peak_job, off_peak_job, discovery_job, start,
}

-- The jobs of a scheduler, by their schedules.
abbrev pub jobs : Scheduler → List (String × Job)
jobs s =
    (s.config.sync_peak, peak_job s)
    ∷ (s.config.sync_off_peak, off_peak_job s)
    ∷ (s.config.discovery, discovery_job s)
    ∷ []

-- The sync runs once at this hour, in whichever order the two schedules fire.
abbrev pub SyncsOnce : Scheduler → ℕ → Db → Type 0
SyncsOnce s hour d =
    (off_peak_job s hour (peak_job s hour d) ≡ run_sync s d)
    × (peak_job s hour (off_peak_job s hour d) ≡ run_sync s d)

pub syncs_once : (s : Scheduler) (hour : ℕ) (d : Db) → SyncsOnce s hour d
unfolding peak_job off_peak_job
syncs_once s hour d = (ground arith, ground arith)

pub start_iff :
    (accepts : String → Bool) (s : Scheduler)
    → (start accepts s new_cron ≡ (true, record { entries = jobs s; running = true }))
      ↔ All (λ j. accepts j.0 ≡ true) (jobs s)
unfolding start
start_iff accepts s = (ground arith, ground arith)

-- The cron of a start that succeeds.
pub start-eq :
    (accepts : String → Bool) (s : Scheduler) (c : Cron)
    → start accepts s new_cron ≡ (true, c)
    → c ≡ record { entries = jobs s; running = true }
unfolding start
start-eq accepts s c h = ground arith
