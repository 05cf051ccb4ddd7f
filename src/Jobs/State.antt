-- ===== src/Jobs/State.antt =====
-- backend/app/jobs/state.py, cancellation.py and metrics.py. Every method reads the clock once in the
-- model; an instant is a number.
use network_operations_platf.Common.{ℕ, suc, Bool, true, false, String, Option, none, some}

pub data JobStatus : Type 0 where
  pending queued running retrying completed failed cancelled timed_out : JobStatus

pub record JobState : Type 0 where
  pub status : JobStatus
  pub attempts : ℕ
  pub message : Option String
  pub queued_at : Option ℕ
  pub started_at : Option ℕ
  pub finished_at : Option ℕ
  pub updated_at : ℕ

-- `x or now` of an instant.
abbrev at_first : Option ℕ → ℕ → Option ℕ
at_first none now = some now
at_first (some t) now = some t

abbrev pub mark_queued : ℕ → JobState → JobState
mark_queued now s = record s {
  status = queued;
  queued_at = at_first s.queued_at now;
  updated_at = now;
}

unfoldable pub mark_running : ℕ → JobState → JobState
mark_running now s = record s {
  status = running;
  started_at = at_first s.started_at now;
  updated_at = now;
}

abbrev pub mark_retrying : ℕ → String → JobState → JobState
mark_retrying now message s = record s {
  status = retrying;
  message = some message;
  updated_at = now;
}

-- The end of a job: `mark_completed`, `mark_failed`, `mark_cancelled`, `mark_timed_out`.
unfoldable pub mark_ended : JobStatus → ℕ → Option String → JobState → JobState
mark_ended status now message s = record s {
  status = status;
  message = message;
  finished_at = some now;
  updated_at = now;
}

unfoldable pub increment_attempts : ℕ → JobState → JobState
increment_attempts now s = record s { attempts = suc s.attempts; updated_at = now }

-- `CancellationToken` is its reason.
abbrev pub is_cancelled : Option String → Bool
is_cancelled none = false
is_cancelled (some _) = true

pub record JobMetrics : Type 0 where
  pub submitted_jobs : ℕ
  pub queued_jobs : ℕ
  pub started_jobs : ℕ
  pub completed_jobs : ℕ
  pub failed_jobs : ℕ
  pub cancelled_jobs : ℕ
  pub timed_out_jobs : ℕ
