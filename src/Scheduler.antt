-- ===== src/Scheduler.antt =====
-- internal/scheduler/scheduler.go. The cron library, which calls the jobs, and the logs are left out.
pub mod Started
use gitlab_elt.Common.{
  ℕ, String, Bool, true, false, not, ◌&&◌, List, [], ◌∷◌, ◌++◌, leb, ltb, if◌then◌else◌,
}
use gitlab_elt.Repository.{Db, Action}

pub record Config : Type 0 where
  pub sync_peak : String
  pub sync_off_peak : String
  pub discovery : String

-- `syncFunc` and `discoverFunc`, with the configuration.
pub record Scheduler : Type 0 where
  pub config : Config
  pub sync_func : Action (Unit {0})
  pub discover_func : Action (Unit {0})

-- A job, at the hour that the clock shows.
abbrev pub Job : Type 0
Job = ℕ → Db → Db

-- The state of the cron library: the jobs by their schedules, and whether it runs.
pub record Cron : Type 0 where
  pub entries : List (String × Job)
  pub running : Bool

abbrev pub new_cron : Cron
new_cron = record { entries = []; running = false }

unfoldable pub is_peak_hour : ℕ → Bool
is_peak_hour hour = leb 8 hour && ltb hour 20

module _ (s : Scheduler) where
  -- An error of a job is logged and dropped.
  abbrev pub run_sync : Db → Db
  run_sync d = (s.sync_func d).1

  abbrev pub run_discovery : Db → Db
  run_discovery d = (s.discover_func d).1

  -- The two jobs of the sync, and that of the discovery.
  unfoldable pub peak_job : Job
  unfolding is_peak_hour
  peak_job hour d = if not (is_peak_hour hour) then d else run_sync d

  unfoldable pub off_peak_job : Job
  unfolding is_peak_hour
  off_peak_job hour d = if is_peak_hour hour then d else run_sync d

  unfoldable pub discovery_job : Job
  discovery_job hour d = run_discovery d

  abbrev pub run_sync_now : Db → Db
  run_sync_now = run_sync

  abbrev pub run_discovery_now : Db → Db
  run_discovery_now = run_discovery

-- `AddFunc` of the library, which refuses an expression that it does not read, and then the rest of
-- the body.
module _ (accepts : String → Bool) where
  abbrev pub add_func : String → Job → Cron → (Cron → Bool × Cron) → Bool × Cron
  add_func spec job c rest =
      if accepts spec
      then rest (record c { entries = c.entries ++ ((spec, job) ∷ []) })
      else (false, c)

  -- `Start`: `true` where there is no error. An error leaves the cron as it is by then.
  unfoldable pub start : Scheduler → Cron → Bool × Cron
  start s cron = add_func s.config.sync_peak (peak_job s) cron λ c1.
      add_func s.config.sync_off_peak (off_peak_job s) c1 λ c2.
        add_func s.config.discovery (discovery_job s) c2 λ c3. (true, record c3 { running = true })

-- `Stop`: the jobs that run are waited for, and no other begins.
abbrev pub stop : Cron → Cron
stop c = record c { running = false }
