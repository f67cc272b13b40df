-- ===== src/Worker/Startup/Lifetime.antt =====
-- The jobs of a worker over the time that it runs (cmd/worker/main.go), one after the other.
use gitlab_elt.Common.{ℕ, String, true, List, [], ◌∷◌, Bool-cases, ◌⊎◌, inl, inr, ◌≡◌, subst, sym}
use gitlab_elt.Repository.{Db}
use gitlab_elt.Repository.Keys.{IsConsistent}
use gitlab_elt.Repository.Silent.{SameSilver-IsConsistent}
use gitlab_elt.Scheduler.{Job, Cron, is_peak_hour, peak_job, off_peak_job, discovery_job}
use gitlab_elt.Scheduler.Started.{jobs}
use gitlab_elt.Config.Types.{Config}
use gitlab_elt.Config.Telemetry.{Floats}
use gitlab_elt.Transformer.Frame.Rows.{KeepsRows, KeepsRows-IsFrame, SameSilver-KeepsRows}
use gitlab_elt.Worker.{Worker}
use gitlab_elt.Worker.Runs.{synced, discovered, Reaches, start, step, Reaches-IsConsistent}
use gitlab_elt.Worker.Startup.{Outside, running, scheduler, start_worker}
use gitlab_elt.Worker.Startup.Ready.{start_worker-IsReady}

abbrev pub In : String × Job → List (String × Job) → Type 0
In entry [] = ⊥
In entry (x ∷ xs) = (entry ≡ x) ⊎ In entry xs

-- The cron library fires its jobs, in any order and at any hours. The discovery that the start runs
-- once does what the job of the discovery does.
pub data Fires (cron : Cron) (d : Db) : Db → Type 0 where
  rests : Fires cron d d
  fires :
      (e f : Db) (hour : ℕ) (entry : String × Job)
      → Fires cron d e
      → In entry cron.entries
      → entry.1 hour e ≡ f
      → Fires cron d f

module _ (out : Outside) (cfg : Config) (w : Worker) where
  peak-Reaches :
      {d e : Db} (hour : ℕ) → Reaches d e → Reaches d (peak_job (scheduler out cfg w) hour e)
  unfolding peak_job scheduler
  peak-Reaches {d} {e} hour before = elim (Bool-cases (is_peak_hour hour)) [
    | inl peak ↦ rw peak (step e _ before (synced w e))
    | inr other ↦ rw other before
  ]

  off_peak-Reaches :
      {d e : Db} (hour : ℕ) → Reaches d e → Reaches d (off_peak_job (scheduler out cfg w) hour e)
  unfolding off_peak_job scheduler
  off_peak-Reaches {d} {e} hour before = elim (Bool-cases (is_peak_hour hour)) [
    | inl peak ↦ rw peak before
    | inr other ↦ rw other (step e _ before (synced w e))
  ]

  discovery-Reaches :
      {d e : Db} (hour : ℕ) → Reaches d e → Reaches d (discovery_job (scheduler out cfg w) hour e)
  unfolding discovery_job scheduler
  discovery-Reaches {d} {e} hour before = step e _ before (discovered w e)

  entry-Reaches :
      {d e : Db} (hour : ℕ) (entry : String × Job)
      → Reaches d e
      → In entry (jobs (scheduler out cfg w))
      → Reaches d (entry.1 hour e)
  entry-Reaches {d} {e} hour entry before (inl same) =
      subst (λ (x : String × Job). Reaches d (x.1 hour e)) (sym same) (peak-Reaches hour before)
  entry-Reaches {d} {e} hour entry before (inr (inl same)) =
      subst (λ (x : String × Job). Reaches d (x.1 hour e)) (sym same) (off_peak-Reaches hour before)
  entry-Reaches {d} {e} hour entry before (inr (inr (inl same))) =
      subst (λ (x : String × Job). Reaches d (x.1 hour e)) (sym same)
        (discovery-Reaches hour before)
  entry-Reaches hour entry before (inr (inr (inr h))) = absurd h

  Fires-Reaches :
      (cron : Cron) {d f : Db}
      → cron ≡ record { entries = jobs (scheduler out cfg w); running = true }
      → Fires cron d f
      → Reaches d f
  Fires-Reaches cron {d} scheduled rests = start
  Fires-Reaches cron {d} scheduled (fires e f hour entry before among at) =
      let listed : In entry (jobs (scheduler out cfg w)) =
        subst (λ (c : Cron). In entry c.entries) scheduled among in
      subst (Reaches d) at (entry-Reaches hour entry (Fires-Reaches cron scheduled before) listed)

-- Whatever the worker finds outside, if it starts and runs, then after any jobs that its cron fires,
-- at any hours and in any order, the unique keys hold, if they held before the start; and no issue
-- event, comment or issue that was there is lost: the events and comments stand unchanged where they
-- stood, the issues with their project and number.
pub Fires-IsConsistent :
    (out : Outside) (floats : Floats) (d : Db) (cfg : Config) (w : Worker) (cron : Cron) {e f : Db}
    → start_worker out floats d ≡ running cfg w cron e
    → Fires cron e f
    → IsConsistent d
    → IsConsistent f × KeepsRows d f
unfolding scheduler
Fires-IsConsistent out floats d cfg w cron {e} {f} started run c =
    let ready = start_worker-IsReady out floats d cfg w cron e started in
    let (consistent, rows) =
      Reaches-IsConsistent (Fires-Reaches out cfg w cron ready.scheduled run)
        (SameSilver-IsConsistent d e ready.silver c) in
    (consistent, KeepsRows-IsFrame.then_also d e f (SameSilver-KeepsRows d e ready.silver) rows)
