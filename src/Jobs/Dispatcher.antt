-- ===== src/Jobs/Dispatcher.antt =====
-- `JobDispatcher.dispatch` of backend/app/jobs/dispatcher.py. The orchestration engine is known by
-- what its run returns or raises; that the job is cancelled while it runs is an argument, and so is
-- the clock at the start and at the end. What the publisher does with an event is a parameter: it may
-- raise, as `EventDispatcher.publish` (backend/app/events/dispatcher.py) does when a handler fails; the
-- events of a job are the calls of the publisher.
pub mod Counts
mod Examples
use network_operations_platf.Common.{
  ℕ, suc, Bool, true, false, String, Option, none, some, List, [], ◌∷◌, ◌++◌, str_eq, not,
  if◌then◌else◌,
}
use network_operations_platf.Jobs.State.{
  JobStatus, running, completed, failed, cancelled, timed_out, JobState, mark_running, mark_ended,
  increment_attempts, is_cancelled, JobMetrics,
}

pub record Event : Type 0 where
  pub name : String
  pub status : JobStatus
  pub attempts : ℕ

-- A job, with the metrics and the events of the dispatcher.
pub record Job : Type 0 where
  pub state : JobState
  pub reason : Option String
  pub metrics : JobMetrics
  pub events : List Event

pub data OrchestrationStatus : Type 0 where
  pending_run running_run retrying_run succeeded_run failed_run cancelled_run : OrchestrationStatus

-- How the run of the engine ends, by itself or at the timeout of the request.
pub data Run : Type 0 where
  returned : OrchestrationStatus → Option String → Run
  raised_timeout raised_error : String → Run
  raised_cancelled : Run

-- What `dispatch` does with it.
pub data Dispatched : Type 0 where
  returns : OrchestrationStatus → Dispatched
  raises_timeout raises_cancelled raises_error raises_event_error : Dispatched

-- What comes of publishing an event: a handler may fail, and the task may be cancelled meanwhile.
pub data Published : Type 0 where
  delivered event_error interrupted : Published

-- The event is published, and an exception of its publication takes the place of what follows.
pub publish : (String → Published) → String → Job × Dispatched → Job × Dispatched
publish publisher name (j, next) =
    let event : Event = record {
      name = name;
      status = j.state.status;
      attempts = j.state.attempts;
    } in
    (
      record j { events = j.events ++ event ∷ [] },
      elim (publisher name) [
        | delivered ↦ next
        | event_error ↦ raises_event_error
        | interrupted ↦ raises_cancelled
      ],
    )

-- `reason or default`: an empty text counts as none.
abbrev or_text : Option String → String → String
or_text none d = d
or_text (some t) d = if str_eq t "" then d else t

-- `Job.cancel`.
unfoldable pub cancel : ℕ → String → Job → Job
unfolding mark_ended
cancel now why j = record j {
  reason = some why;
  state = mark_ended cancelled now (some why) j.state;
}

-- The job when its start is published.
started_at : ℕ → Job → Job
unfolding mark_running increment_attempts
started_at now j =
    let state = mark_running now (increment_attempts now j.state) in
    record j {
      state = state;
      metrics = record j.metrics { started_jobs = suc j.metrics.started_jobs };
      events =
          j.events
          ++ record { name = "job.started"; status = state.status; attempts = state.attempts } ∷ [];
    }

module _ (publisher : String → Published) where
  cancelled_at : ℕ → Option String → Dispatched → Job → Job × Dispatched
  unfolding mark_ended publish
  cancelled_at now message next j = publish publisher "job.cancelled" (
    record j {
      state = mark_ended cancelled now message j.state;
      metrics = record j.metrics { cancelled_jobs = suc j.metrics.cancelled_jobs };
    },
    next,
  )

  failed_at : ℕ → String → Dispatched → Job → Job × Dispatched
  unfolding mark_ended publish
  failed_at now message next j = publish publisher "job.failed" (
    record j {
      state = mark_ended failed now (some message) j.state;
      metrics = record j.metrics { failed_jobs = suc j.metrics.failed_jobs };
    },
    next,
  )

  timed_out_at : ℕ → String → Job → Job × Dispatched
  unfolding mark_ended publish
  timed_out_at now message j = publish publisher "job.timed_out" (
    record j {
      state = mark_ended timed_out now (some message) j.state;
      metrics = record j.metrics { timed_out_jobs = suc j.metrics.timed_out_jobs };
    },
    raises_timeout,
  )

  completed_at : ℕ → OrchestrationStatus → Job → Job × Dispatched
  unfolding mark_ended publish
  completed_at now status j = publish publisher "job.completed" (
    record j {
      state = mark_ended completed now (some "Job completed successfully.") j.state;
      metrics = record j.metrics { completed_jobs = suc j.metrics.completed_jobs };
    },
    returns status,
  )

  -- What follows the run of the engine.
  concluded : ℕ → Run → Job → Job × Dispatched
  unfolding cancelled_at failed_at timed_out_at completed_at
  concluded now (returned cancelled_run message) j =
      cancelled_at now message (returns cancelled_run) j
  concluded now (returned failed_run message) j =
      failed_at now (or_text message "Job failed.") (returns failed_run) j
  concluded now (returned status message) j = completed_at now status j
  concluded now (raised_timeout message) j = timed_out_at now message j
  concluded now raised_cancelled j =
      cancelled_at now (some (or_text j.reason "Job cancelled.")) raises_cancelled j
  concluded now (raised_error message) j = failed_at now message raises_error j

  -- In the semaphore: the start is published before the `try`.
  run_in_slot : ℕ → ℕ → Run → Option String → Job → Job × Dispatched
  unfolding started_at concluded cancel
  run_in_slot start end run asked j = elim (publisher "job.started") [
    | delivered ↦
        concluded end run (elim asked [
          | none ↦ started_at start j
          | some why ↦ cancel end why (started_at start j)
        ])
    | event_error ↦ (started_at start j, raises_event_error)
    | interrupted ↦ (started_at start j, raises_cancelled)
  ]

  -- `waiting` and `asked` are the reasons of a cancellation of the job while the semaphore is awaited
  -- and while the engine runs; the task itself may be cancelled while it waits.
  unfoldable pub dispatch :
      ℕ → ℕ → Option String → Bool → Run → Option String → Job → Job × Dispatched
  unfolding cancelled_at run_in_slot cancel
  dispatch start end waiting admitted run asked j =
      let waited : Job = elim waiting [ none ↦ j | some why ↦ cancel start why j ] in
      if is_cancelled j.reason
      then cancelled_at start (some (or_text j.reason "Job cancelled.")) raises_cancelled j
      else if not admitted
      then (waited, raises_cancelled)
      else run_in_slot start end run asked waited
