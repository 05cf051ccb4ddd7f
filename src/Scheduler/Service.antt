-- ===== src/Scheduler/Service.antt =====
-- `SchedulerService` of backend/app/scheduler/service.py over the in-memory repository of
-- backend/app/scheduler/repository.py. Instants are microseconds, intervals whole seconds; an
-- interval may be negative, so that the next run of a schedule is an integer. `now` is the clock
-- reading of a method, a fresh identifier is an argument, and a metadata mapping is its text. The calls
-- of one service are taken one after another. Left out: the last instants that a `datetime` can hold,
-- and a job manager that raises, which ends a round of `dispatch_due_jobs` where it stands.
pub mod Dispatch
pub mod Rounds
pub mod States
pub mod Paused
mod Examples
use network_operations_platf.Common.{
  ℕ, ◌+◌, ◌*◌, Bool, true, false, String, Option, none, some, List, [], ◌∷◌, ◌++◌, any, keep, first,
  ℤ, pos, negsuc, pos_part, neg_part, sub_ℕ, leb_ℤ, str_eq, is_none, or_else, not, ◌==◌, ◌&&◌,
  if◌then◌else◌,
}

pub data ScheduleState : Type 0 where
  active paused disabled : ScheduleState

pub data ScheduleKind : Type 0 where
  discovery reporting : ScheduleKind

pub data ScheduleType : Type 0 where
  interval one_time daily weekly monthly : ScheduleType

pub record Schedule : Type 0 where
  pub id : ℕ
  pub name : String
  pub kind : ScheduleKind
  pub schedule_type : ScheduleType
  pub enabled : Bool
  pub interval_seconds : Option ℤ
  pub start_at : Option ℕ
  pub next_run_at : Option ℤ
  pub last_run_at : Option ℕ
  pub created_at : ℕ
  pub updated_at : ℕ
  pub state : ScheduleState
  pub metadata : String

pub record ScheduleExecution : Type 0 where
  pub schedule_id : ℕ
  pub executed_at : ℕ
  pub status : String
  pub detail : String

pub record ExecutionResult : Type 0 where
  pub schedule_id : ℕ
  pub executed : Bool
  pub status : String
  pub detail : String

pub record ScheduleCreateRequest : Type 0 where
  pub name : String
  pub kind : String
  pub schedule_type : String
  pub enabled : Bool
  pub interval_seconds : Option ℤ
  pub start_at : Option ℕ
  pub metadata : String

pub record ScheduleUpdateRequest : Type 0 where
  pub name : Option String
  pub enabled : Option Bool

-- The repository's schedules in the order of their insertion, its executions, whether there is a job
-- manager, and the metadata of the jobs submitted to it.
pub record Scheduler : Type 0 where
  pub schedules : List Schedule
  pub executions : List ScheduleExecution
  pub job_manager : Bool
  pub submitted : List String

pub data Result (A : Type 0) : Type 0 where
  ok : A → Result A
  value_error : Result A
  key_error : ℕ → Result A

-- The dictionary entry of the schedule's identifier is replaced in its place, or added at the end.
pub put : Schedule → List Schedule → List Schedule
put s [] = s ∷ []
put s (x ∷ xs) = let rest = put s xs in if x.id == s.id then s ∷ xs else x ∷ rest

pub save_schedule : Schedule → Scheduler → Scheduler
unfolding put
save_schedule s st = record st { schedules = put s st.schedules }

pub get_schedule : ℕ → Scheduler → Option Schedule
get_schedule id st = first (λ s. s.id == id) st.schedules

-- Whether there was such a schedule.
pub delete_schedule : ℕ → Scheduler → Scheduler × Bool
delete_schedule id st = (
  record st { schedules = keep (λ s. not (s.id == id)) st.schedules },
  any (λ s. s.id == id) st.schedules,
)

kind_value : ScheduleKind → String
kind_value discovery = "discovery"
kind_value reporting = "reporting"

-- `ScheduleKind(text)` and `ScheduleType(text)`.
parse_kind : String → Option ScheduleKind
parse_kind t =
    if str_eq t "discovery"
    then some discovery
    else if str_eq t "reporting"
    then some reporting
    else none

parse_type : String → Option ScheduleType
parse_type t =
    if str_eq t "interval"
    then some interval
    else if str_eq t "one_time"
    then some one_time
    else if str_eq t "daily"
    then some daily
    else if str_eq t "weekly"
    then some weekly
    else if str_eq t "monthly"
    then some monthly
    else none

abbrev pub seconds : ℕ → ℕ
seconds n = n * 1000000

abbrev pub days : ℕ → ℕ
days n = seconds (n * 86400)

-- `interval_seconds or 60`.
abbrev pub interval_or_default : Option ℤ → ℤ
interval_or_default none = pos 60
interval_or_default (some (pos n)) = if n == 0 then pos 60 else pos n
interval_or_default (some (negsuc n)) = negsuc n

-- `instant + timedelta(seconds=n)`.
abbrev pub after_seconds : ℕ → ℤ → ℤ
after_seconds instant n = sub_ℕ (instant + seconds (pos_part n)) (seconds (neg_part n))

compute_next_run : ScheduleCreateRequest → ℕ → ℤ
compute_next_run payload start_at =
    if str_eq payload.schedule_type "one_time"
    then pos (or_else payload.start_at start_at)
    else if str_eq payload.schedule_type "daily"
    then pos (or_else payload.start_at start_at + days 1)
    else if str_eq payload.schedule_type "weekly"
    then pos (or_else payload.start_at start_at + days 7)
    else if str_eq payload.schedule_type "monthly"
    then pos (or_else payload.start_at start_at + days 30)
    else after_seconds start_at (interval_or_default payload.interval_seconds)

pub next_run_of : ScheduleType → Schedule → ℕ → ℤ
next_run_of one_time s current = or_else s.next_run_at (pos current)
next_run_of daily s current = pos (current + days 1)
next_run_of weekly s current = pos (current + days 7)
next_run_of monthly s current = pos (current + days 30)
next_run_of interval s current = after_seconds current (interval_or_default s.interval_seconds)

pub compute_next_run_from_existing : Schedule → ℕ → ℤ
unfolding next_run_of
compute_next_run_from_existing s current = next_run_of s.schedule_type s current

registered : ℕ → ℕ → ScheduleCreateRequest → ScheduleKind → ScheduleType → Schedule
unfolding compute_next_run
registered id now payload kind type = record {
  id = id;
  name = payload.name;
  kind = kind;
  schedule_type = type;
  enabled = payload.enabled;
  interval_seconds = payload.interval_seconds;
  start_at = some (or_else payload.start_at now);
  next_run_at = some (compute_next_run payload (or_else payload.start_at now));
  last_run_at = none;
  created_at = now;
  updated_at = now;
  state = if payload.enabled then active else disabled;
  metadata = payload.metadata;
}

pub register_schedule : ℕ → ℕ → ScheduleCreateRequest → Scheduler → Scheduler × Result Schedule
unfolding parse_kind parse_type registered save_schedule
register_schedule id now payload st = elim (parse_kind payload.kind) [
  | none ↦ (st, value_error)
  | some kind ↦ elim (parse_type payload.schedule_type) [
    | none ↦ (st, value_error)
    | some type ↦ (
      save_schedule (registered id now payload kind type) st,
      ok (registered id now payload kind type),
    )
  ]
]

-- The schedule of the identifier is rewritten by `f`, or there is none.
pub modify : (Schedule → Schedule) → ℕ → Scheduler → Scheduler × Result Schedule
unfolding save_schedule get_schedule
modify f id st = elim (get_schedule id st) [
  | none ↦ (st, key_error id)
  | some existing ↦ (save_schedule (f existing) st, ok (f existing))
]

-- `payload.name or existing.name`.
renamed : Option String → String → String
renamed none old = old
renamed (some n) old = if str_eq n "" then old else n

pub with_update : ℕ → ScheduleUpdateRequest → Schedule → Schedule
unfolding renamed
with_update now payload s = record s {
  name = renamed payload.name s.name;
  enabled = or_else payload.enabled s.enabled;
  updated_at = now;
  state = elim payload.enabled [ none ↦ active | some e ↦ if e then active else disabled ];
}

pub update_schedule : ℕ → ℕ → ScheduleUpdateRequest → Scheduler → Scheduler × Result Schedule
unfolding with_update modify
update_schedule now id payload st = modify (with_update now payload) id st

pub paused_at : ℕ → Schedule → Schedule
paused_at now s = record s { enabled = false; updated_at = now; state = paused }

pub pause_schedule : ℕ → ℕ → Scheduler → Scheduler × Result Schedule
unfolding paused_at modify
pause_schedule now id st = modify (paused_at now) id st

resumed_at : ℕ → Schedule → Schedule
unfolding compute_next_run_from_existing
resumed_at now s = record s {
  enabled = true;
  next_run_at = some (compute_next_run_from_existing s now);
  updated_at = now;
  state = active;
}

pub resume_schedule : ℕ → ℕ → Scheduler → Scheduler × Result Schedule
unfolding resumed_at modify
resume_schedule now id st = modify (resumed_at now) id st

pub is_due : ℕ → Schedule → Bool
is_due current s =
    s.enabled && elim s.next_run_at [ none ↦ false | some next ↦ leb_ℤ next (pos current) ]

pub advanced : ℕ → Schedule → Schedule
unfolding compute_next_run_from_existing
advanced current s = record s {
  next_run_at = some (compute_next_run_from_existing s current);
  last_run_at = some current;
  updated_at = current;
}

pub execution_of : ℕ → Schedule → ScheduleExecution
unfolding kind_value
execution_of current s = record {
  schedule_id = s.id;
  executed_at = current;
  status = "dispatched";
  detail = kind_value s.kind;
}

pub result_of : Schedule → ExecutionResult
unfolding kind_value
result_of s = record {
  schedule_id = s.id;
  executed = true;
  status = "dispatched";
  detail = kind_value s.kind;
}

-- The body of the loop of `dispatch_due_jobs`.
dispatch : ℕ → Schedule → Scheduler → Scheduler
unfolding execution_of advanced save_schedule
dispatch current s st = save_schedule (advanced current s) (record st {
  submitted = if st.job_manager then st.submitted ++ s.metadata ∷ [] else st.submitted;
  executions = st.executions ++ execution_of current s ∷ [];
})

pub dispatch_loop : ℕ → List Schedule → Scheduler → Scheduler × List ExecutionResult
unfolding is_due dispatch result_of
dispatch_loop current [] st = (st, [])
dispatch_loop current (s ∷ ss) st =
    let due = dispatch_loop current ss (dispatch current s st) in
    let rest = dispatch_loop current ss st in
    if is_due current s then (due.0, result_of s ∷ due.1) else rest

pub dispatch_due_jobs : ℕ → Scheduler → Scheduler × List ExecutionResult
unfolding dispatch_loop
dispatch_due_jobs current st = dispatch_loop current st.schedules st
