-- ===== src/Jobs/Dispatcher/Examples.antt =====
-- A job that the theorem about backend/app/jobs/dispatcher.py applies to.
use network_operations_platf.Common.{String, none, some, [], str_eq, if◌then◌else◌}
use network_operations_platf.Jobs.State.{queued}
use network_operations_platf.Jobs.Dispatcher.{
  Job, Run, Published, delivered, event_error, raised_timeout,
}

abbrev nightly : Job
nightly = record {
  state = record {
    status = queued;
    attempts = 1;
    message = none;
    queued_at = some 5;
    started_at = none;
    finished_at = none;
    updated_at = 5;
  };
  reason = none;
  metrics = record {
    submitted_jobs = 3;
    queued_jobs = 3;
    started_jobs = 2;
    completed_jobs = 1;
    failed_jobs = 0;
    cancelled_jobs = 1;
    timed_out_jobs = 0;
  };
  events = [];
}

-- A publisher with a handler that fails on ends that were not asked for.
abbrev strict : String → Published
strict name = if str_eq name "job.timed_out" then event_error else delivered

abbrev late : Run
late = raised_timeout "late"
