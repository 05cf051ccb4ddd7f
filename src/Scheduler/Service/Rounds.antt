-- ===== src/Scheduler/Service/Rounds.antt =====
-- Several rounds of `dispatch_due_jobs` (backend/app/scheduler/service.py), one after another.
use network_operations_platf.Common.{
  ℕ, ◌+◌, ◌<◌, ◌≤◌, ◌≡◌, refl, sym, ap, ◌∙◌, subst, Bool, true, false, Option, some, List, [], ◌∷◌,
  any, keep, map, ◌==◌, ◌&&◌, arith, Bool-cases, inl, inr, All, not, ℤ, negsuc,
}
use network_operations_platf.Scheduler.Service.{
  Schedule, ScheduleType, ExecutionResult, Scheduler, one_time, interval, seconds, next_run_of,
  compute_next_run_from_existing, is_due, advanced, result_of, dispatch_due_jobs,
}
use network_operations_platf.Scheduler.Service.Dispatch.{
  HasUniqueIds, after_round, after_round-HasUniqueIds, dispatch_due_jobs_lem,
}

-- The next run does not come after the present one: that of a one-time schedule, and that after a
-- negative interval.
abbrev stands : ScheduleType → Option ℤ → Bool
stands one_time seconds = true
stands interval (some (negsuc n)) = true
stands _ _ = false

abbrev pub is_stuck : Schedule → Bool
is_stuck s = stands s.schedule_type s.interval_seconds

-- The results of rounds at the given instants, and the service after them.
unfoldable pub rounds : List ℕ → Scheduler → List (List ExecutionResult)
rounds [] st = []
rounds (current ∷ times) st =
    (dispatch_due_jobs current st).1 ∷ rounds times (dispatch_due_jobs current st).0

pub round-HasUniqueIds :
    (current : ℕ) (st : Scheduler)
    → HasUniqueIds st.schedules
    → HasUniqueIds (dispatch_due_jobs current st).0.schedules
round-HasUniqueIds current st u =
    subst HasUniqueIds (sym (dispatch_due_jobs_lem current st u).0)
      (after_round-HasUniqueIds current st.schedules u)

-- The results of a second round.
second_round :
    (current later : ℕ) (st : Scheduler)
    → HasUniqueIds st.schedules
    → (dispatch_due_jobs later (dispatch_due_jobs current st).0).1
      ≡ map result_of (keep (is_due later) (map (after_round current) st.schedules))
second_round current later st u =
    let schedules = (dispatch_due_jobs_lem current st u).0 in
    let again =
      dispatch_due_jobs_lem later (dispatch_due_jobs current st).0
        (round-HasUniqueIds current st u) in
    again.1.results ∙ ap (λ ss. map result_of (keep (is_due later) ss)) schedules

rested_one :
    (current later : ℕ) (s : Schedule)
    → is_stuck s ≡ false
    → later < current + seconds 1
    → is_due later (advanced current s) ≡ false
unfolding is_due advanced compute_next_run_from_existing next_run_of
rested_one current later s h lt = ground arith

rested :
    (current later : ℕ) (ss : List Schedule)
    → All (λ s. is_stuck s ≡ false) ss
    → later < current + seconds 1
    → keep (is_due later) (map (after_round current) ss)
      ≡ keep (λ s. is_due later s && not (is_due current s)) ss
rested current later [] h lt = refl
rested current later (s ∷ ss) h lt = elim (Bool-cases (is_due current s)) [
  | inl y ↦ ground (arith, rested current later ss h.1 lt, rested_one current later s h.0 lt, y)
  | inr n ↦ ground (arith, rested current later ss h.1 lt, n)
]

-- Without one-time schedules and negative intervals, nothing is dispatched twice: a second round that
-- starts less than a second after the first one dispatches only schedules that were not due in the
-- first.
pub dispatches_once :
    (current later : ℕ) (st : Scheduler)
    → HasUniqueIds st.schedules
    → All (λ s. is_stuck s ≡ false) st.schedules
    → later < current + seconds 1
    → (dispatch_due_jobs later (dispatch_due_jobs current st).0).1
      ≡ map result_of (keep (λ s. is_due later s && not (is_due current s)) st.schedules)
dispatches_once current later st u h lt =
    second_round current later st u ∙ ap (map result_of) (rested current later st.schedules h lt)

due_again :
    (current later : ℕ) (s : Schedule)
    → current ≤ later
    → is_stuck s ≡ true
    → is_due current s ≡ true
    → is_due later (advanced current s) ≡ true
unfolding is_due advanced compute_next_run_from_existing next_run_of
due_again current later s le h due = ground arith

-- Some schedule of the identifier is stuck and due.
abbrev pub has_stuck : ℕ → ℕ → List Schedule → Bool
has_stuck id current ss = any (λ s. s.id == id && (is_stuck s && is_due current s)) ss

after_round-stuck :
    (id current later : ℕ) (ss : List Schedule)
    → current ≤ later
    → has_stuck id current ss ≡ true
    → has_stuck id later (map (after_round current) ss) ≡ true
after_round-stuck id current later [] le h = ground (arith, h)
after_round-stuck id current later (s ∷ ss) le h =
    elim (Bool-cases (s.id == id && (is_stuck s && is_due current s))) [
      | inl y ↦
          let due : is_due current s ≡ true = ground (arith, y) in
          let stuck : is_stuck s ≡ true = ground (arith, y) in
          let again = due_again current later s le stuck due in
          rw due (unfold advanced in ground (arith, y, again, stuck))
      | inr n ↦ ground (arith, after_round-stuck id current later ss le, n, h)
    ]

pub any-results :
    (current id : ℕ) (ss : List Schedule)
    → any (λ r. r.schedule_id == id) (map result_of (keep (is_due current) ss))
      ≡ any (λ q. q.id == id && is_due current q) ss
unfolding result_of
any-results current id [] = refl
any-results current id (s ∷ ss) = ground (arith, any-results current id ss)

stuck-due :
    (id current : ℕ) (ss : List Schedule)
    → has_stuck id current ss ≡ true
    → any (λ q. q.id == id && is_due current q) ss ≡ true
stuck-due id current [] h = h
stuck-due id current (s ∷ ss) h = ground (arith, stuck-due id current ss)

-- None of the instants is before the one in front of it.
abbrev pub Ascending : ℕ → List ℕ → Type 0
Ascending current [] = Unit
Ascending current (later ∷ times) = (current ≤ later) × Ascending later times

stuck_round :
    (id current : ℕ) (st : Scheduler)
    → HasUniqueIds st.schedules
    → has_stuck id current st.schedules ≡ true
    → any (λ r. r.schedule_id == id) (dispatch_due_jobs current st).1 ≡ true
stuck_round id current st u h =
    ap (any (λ r. r.schedule_id == id)) (dispatch_due_jobs_lem current st u).1.results
    ∙ any-results current id st.schedules
    ∙ stuck-due id current st.schedules h

-- One-time schedules and those with a negative interval are dispatched again and again: when a
-- schedule of an identifier is due and is such a schedule, then every one of any number of rounds, now
-- and later, has a result for the identifier, whatever else the service holds. This holds if no two
-- schedules have one identifier.
pub repeats_forever :
    (id current : ℕ) (times : List ℕ) (st : Scheduler)
    → HasUniqueIds st.schedules
    → has_stuck id current st.schedules ≡ true
    → Ascending current times
    → All (λ results. any (λ r. r.schedule_id == id) results ≡ true) (rounds (current ∷ times) st)
unfolding rounds
repeats_forever id current [] st u h up = (stuck_round id current st u h, tt)
repeats_forever id current (later ∷ times) st u h up = (
  stuck_round id current st u h,
  repeats_forever id later times (dispatch_due_jobs current st).0 (round-HasUniqueIds current st u)
      (subst (λ ss. has_stuck id later ss ≡ true) (sym (dispatch_due_jobs_lem current st u).0)
        (after_round-stuck id current later st.schedules up.0 h))
      up.1,
)
