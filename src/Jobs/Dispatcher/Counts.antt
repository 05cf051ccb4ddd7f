-- ===== src/Jobs/Dispatcher/Counts.antt =====
-- The metrics of the dispatcher (backend/app/jobs/dispatcher.py) and the state of the job that it
-- leaves.
use network_operations_platf.Common.{
  ℕ, suc, ◌+◌, ◌≡◌, Bool, true, false, String, Option, none, some, is_none,
}
use network_operations_platf.Jobs.State.{
  JobStatus, completed, failed, cancelled, timed_out, JobMetrics,
}
use network_operations_platf.Jobs.Dispatcher.{Job, cancel, started_at}

-- How many jobs have ended.
abbrev pub ended_jobs : JobMetrics → ℕ
ended_jobs m = m.completed_jobs + m.failed_jobs + m.cancelled_jobs + m.timed_out_jobs

abbrev pub is_final : JobStatus → Bool
is_final completed = true
is_final failed = true
is_final cancelled = true
is_final timed_out = true
is_final _ = false

-- One end is counted, the job is at an end with its time, and nothing else changed.
pub record IsConcluded (now : ℕ) (j j' : Job) : Type 0 where
  pub one_more : ended_jobs j'.metrics ≡ suc (ended_jobs j.metrics)
  pub starts : j'.metrics.started_jobs ≡ j.metrics.started_jobs
  pub final : is_final j'.state.status ≡ true
  pub finished : j'.state.finished_at ≡ some now
  pub attempts : j'.state.attempts ≡ j.state.attempts

-- One start and one attempt are counted, and no end.
pub record IsStarted (j j' : Job) : Type 0 where
  pub no_end : ended_jobs j'.metrics ≡ ended_jobs j.metrics
  pub one_start : j'.metrics.started_jobs ≡ suc j.metrics.started_jobs
  pub one_attempt : j'.state.attempts ≡ suc j.state.attempts

-- One start, one attempt and one end are counted, and the job is at its end.
pub record IsDone (j j' : Job) : Type 0 where
  pub one_end : ended_jobs j'.metrics ≡ suc (ended_jobs j.metrics)
  pub one_start : j'.metrics.started_jobs ≡ suc j.metrics.started_jobs
  pub one_attempt : j'.state.attempts ≡ suc j.state.attempts
  pub final : is_final j'.state.status ≡ true
  pub finished : is_none j'.state.finished_at ≡ false

-- The job when the engine has run.
ran : ℕ → ℕ → Option String → Job → Job
ran start end none j = started_at start j
ran start end (some why) j = cancel end why (started_at start j)

-- The job when it has waited.
waited : ℕ → Option String → Job → Job
waited start none j = j
waited start (some why) j = cancel start why j
