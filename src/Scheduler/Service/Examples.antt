-- ===== src/Scheduler/Service/Examples.antt =====
-- Runs of the scheduler (backend/app/scheduler/service.py) at concrete inputs.
use network_operations_platf.Common.{
  ◌≡◌, refl, true, false, none, some, List, [], ◌∷◌, any, keep, map, All, not, pos, negsuc, ◌==◌,
  ◌&&◌, arith,
}
use network_operations_platf.Scheduler.Service.{
  Schedule, Scheduler, ScheduleCreateRequest, value_error, discovery, one_time, interval, active,
  paused, register_schedule, get_schedule, update_schedule, pause_schedule, dispatch_due_jobs,
  is_due, result_of, parse_kind,
}
use network_operations_platf.Scheduler.Service.Dispatch.{
  IsRound, after_round, dispatch_due_jobs_lem,
}
use network_operations_platf.Scheduler.Service.Rounds.{
  has_stuck, rounds, dispatches_once, repeats_forever,
}
use network_operations_platf.Scheduler.Service.Paused.{rename_hides_pause}
use network_operations_platf.Scheduler.Service.States.{
  IsConsistent, registers, serve, serve-IsConsistent, pause_stops,
}

abbrev hourly : Schedule
hourly = record {
  id = 1;
  name = "hourly";
  kind = discovery;
  schedule_type = interval;
  enabled = true;
  interval_seconds = some (pos 3600);
  start_at = some 0;
  next_run_at = some (pos 50);
  last_run_at = none;
  created_at = 0;
  updated_at = 0;
  state = active;
  metadata = "{}";
}

abbrev once : Schedule
once = record hourly { id = 2; name = "once"; schedule_type = one_time; interval_seconds = none }

abbrev sleeping : Schedule
sleeping = record hourly { enabled = false; state = paused }

abbrev holding : List Schedule → Scheduler
holding ss = record { schedules = ss; executions = []; job_manager = true; submitted = [] }

abbrev weekly_request : ScheduleCreateRequest
weekly_request = record {
  name = "w";
  kind = "discovery";
  schedule_type = "weekly";
  enabled = true;
  interval_seconds = none;
  start_at = none;
  metadata = "{}";
}

bad_kind_test :
    register_schedule 9 5 (record weekly_request { kind = "backup" }) (holding [])
    ≡ (holding [], value_error)
unfolding register_schedule parse_kind
bad_kind_test = refl

dispatch_due_jobs_lem_example :
    ((dispatch_due_jobs 60 (holding (hourly ∷ once ∷ []))).0.schedules
      ≡ map (after_round 60) (hourly ∷ once ∷ []))
    × IsRound 60
        (hourly ∷ once ∷ [])
        (holding (hourly ∷ once ∷ []))
        (dispatch_due_jobs 60 (holding (hourly ∷ once ∷ [])))
dispatch_due_jobs_lem_example =
    dispatch_due_jobs_lem 60 (holding (hourly ∷ once ∷ [])) (refl, (refl, tt))

dispatches_once_example :
    (dispatch_due_jobs 70 (dispatch_due_jobs 60 (holding (hourly ∷ []))).0).1
    ≡ map result_of (keep (λ s. is_due 70 s && not (is_due 60 s)) (hourly ∷ []))
dispatches_once_example =
    dispatches_once 60 70 (holding (hourly ∷ [])) (refl, tt) (refl, tt) (omega arith)

-- An interval of minus a minute.
abbrev backwards : Schedule
backwards = record hourly { id = 3; name = "backwards"; interval_seconds = some (negsuc 59) }

backwards_due : has_stuck 3 60 (hourly ∷ backwards ∷ once ∷ []) ≡ true
unfolding is_due
backwards_due = refl

repeats_forever_example :
    All
      (λ results. any (λ r. r.schedule_id == 3) results ≡ true)
      (rounds (60 ∷ 60 ∷ 90 ∷ []) (holding (hourly ∷ backwards ∷ once ∷ [])))
repeats_forever_example =
    repeats_forever 3 60 (60 ∷ 90 ∷ []) (holding (hourly ∷ backwards ∷ once ∷ []))
      (refl, (refl, (refl, tt))) backwards_due (omega arith, (omega arith, tt))

serve-IsConsistent_example :
    All IsConsistent (serve (registers 9 5 weekly_request) (holding (hourly ∷ []))).schedules
serve-IsConsistent_example =
    serve-IsConsistent (registers 9 5 weekly_request) (holding (hourly ∷ [])) refl (refl, tt)

found : get_schedule 1 (holding (once ∷ hourly ∷ [])) ≡ some hourly
unfolding get_schedule
found = refl

rename_hides_pause_example :
    let renamed =
      (update_schedule 80 1
        (record { name = some "n"; enabled = none })
        (pause_schedule 70 1 (holding (once ∷ hourly ∷ []))).0).0 in
    ((r : Schedule) × (get_schedule 1 renamed ≡ some r) × (r.state ≡ active) × (r.enabled ≡ false))
    × All
        (λ results. any (λ r. r.schedule_id == 1) results ≡ false)
        (rounds (90 ∷ 200 ∷ []) renamed)
rename_hides_pause_example =
    rename_hides_pause 70 80 1 (some "n") (90 ∷ 200 ∷ []) (holding (once ∷ hourly ∷ [])) hourly
      (refl, (refl, tt)) found

pause_stops_example :
    any
      (λ r. r.schedule_id == 1)
      (dispatch_due_jobs 60 (pause_schedule 55 1 (holding (hourly ∷ once ∷ []))).0).1
    ≡ false
pause_stops_example = pause_stops 55 60 1 (holding (hourly ∷ once ∷ [])) (refl, (refl, tt))
