-- ===== src/Scheduler/Service/Dispatch.antt =====
-- What one round of `dispatch_due_jobs` (backend/app/scheduler/service.py) does to all schedules.
use network_operations_platf.Common.{
  ℕ, ◌≡◌, refl, sym, ap, ◌∙◌, subst, true, false, List, [], ◌∷◌, ◌++◌, any, keep, map, ◌==◌,
  ==_refl, if◌then◌else◌, arith, append_assoc, append-nil, Bool-cases, inl, inr,
}
use network_operations_platf.Scheduler.Service.{
  Schedule, ExecutionResult, Scheduler, put, save_schedule, is_due, advanced, execution_of,
  result_of, dispatch, dispatch_loop, dispatch_due_jobs,
}

-- The dictionary has one schedule per identifier.
abbrev pub HasUniqueIds : List Schedule → Type 0
HasUniqueIds [] = Unit
HasUniqueIds (s ∷ ss) = (any (λ q. q.id == s.id) ss ≡ false) × HasUniqueIds ss

-- What a round makes of one schedule.
abbrev pub after_round : ℕ → Schedule → Schedule
after_round current s = if is_due current s then advanced current s else s

map-snoc :
    (f : Schedule → Schedule) (pre ss : List Schedule) (s : Schedule)
    → map f (pre ++ s ∷ []) ++ ss ≡ map f pre ++ f s ∷ ss
map-snoc f [] ss s = refl
map-snoc f (p ∷ pre) ss s = ap (λ zs. f p ∷ zs) (map-snoc f pre ss s)

put-middle :
    (s x : Schedule) (pre ss : List Schedule)
    → any (λ q. q.id == s.id) pre ≡ false
    → x.id ≡ s.id
    → put s (pre ++ x ∷ ss) ≡ pre ++ s ∷ ss
unfolding put
put-middle s x [] ss h e = ground (arith, ==_refl s.id)
put-middle s x (p ∷ pre) ss h e = ground (arith, put-middle s x pre ss)

any-middle :
    (p s : Schedule) (pre ss : List Schedule)
    → any (λ q. q.id == p.id) (pre ++ s ∷ ss) ≡ false
    → (s.id == p.id) ≡ false
any-middle p s [] ss h = ground arith
any-middle p s (q ∷ pre) ss h = any-middle p s pre ss (ground arith)

any-before :
    (s : Schedule) (pre ss : List Schedule)
    → HasUniqueIds (pre ++ s ∷ ss)
    → any (λ q. q.id == s.id) pre ≡ false
any-before s [] ss u = refl
any-before s (p ∷ pre) ss u =
    let here = any-middle p s pre ss u.0 in ground (arith, any-before s pre ss u.1)

any-after_round :
    (current k : ℕ) (ss : List Schedule)
    → any (λ q. q.id == k) (map (after_round current) ss) ≡ any (λ q. q.id == k) ss
unfolding advanced
any-after_round current k [] = refl
any-after_round current k (s ∷ ss) = ground (arith, any-after_round current k ss)

-- The schedule that a loop step saves goes where the schedule stood.
dispatch-schedules :
    (current : ℕ) (s : Schedule) (pre ss : List Schedule) (st : Scheduler)
    → HasUniqueIds (pre ++ s ∷ ss)
    → is_due current s ≡ true
    → st.schedules ≡ map (after_round current) pre ++ s ∷ ss
    → (dispatch current s st).schedules ≡ map (after_round current) (pre ++ s ∷ []) ++ ss
unfolding dispatch save_schedule
dispatch-schedules current s pre ss st u due e =
    ap (put (advanced current s)) e
    ∙ put-middle (advanced current s) s (map (after_round current) pre) ss
        (unfold advanced in any-after_round current s.id pre ∙ any-before s pre ss u)
        (unfold advanced in refl)
    ∙ sym (
        map-snoc (after_round current) pre ss s
        ∙ ap (λ x. map (after_round current) pre ++ x ∷ ss)
            (let e' : after_round current s ≡ advanced current s = rw due refl in e'))

-- One round of the loop, written without the loop: the due schedules advance and the others stay,
-- each due schedule has one execution and one result, in the order of the schedules, and one job if
-- there is a job manager.
pub record IsRound (current : ℕ) (ss : List Schedule) (st : Scheduler)
    (q : Scheduler × List ExecutionResult) : Type 0 where
  pub results : q.1 ≡ map result_of (keep (is_due current) ss)
  pub executions :
      q.0.executions ≡ st.executions ++ map (execution_of current) (keep (is_due current) ss)
  pub submitted :
      q.0.submitted
      ≡ st.submitted
        ++ (if st.job_manager then map (λ s. s.metadata) (keep (is_due current) ss) else [])

loop-schedules :
    (current : ℕ) (pre ss : List Schedule) (st : Scheduler)
    → HasUniqueIds (pre ++ ss)
    → st.schedules ≡ map (after_round current) pre ++ ss
    → (dispatch_loop current ss st).0.schedules ≡ map (after_round current) (pre ++ ss)
unfolding dispatch_loop
loop-schedules current pre [] st u e =
    e ∙ append-nil _ ∙ ap (map (after_round current)) (sym (append-nil pre))
loop-schedules current pre (s ∷ ss) st u e =
    let assoc = append_assoc pre (s ∷ []) ss in
    let u' : HasUniqueIds ((pre ++ s ∷ []) ++ ss) = subst HasUniqueIds (sym assoc) u in
    elim (Bool-cases (is_due current s)) [
      | inl y ↦
          let rest =
            loop-schedules current (pre ++ s ∷ []) ss (dispatch current s st) u'
              (dispatch-schedules current s pre ss st u y e) in
          rw y (rest ∙ ap (map (after_round current)) assoc)
      | inr n ↦
          let stays : after_round current s ≡ s = rw n refl in
          let rest = loop-schedules current (pre ++ s ∷ []) ss st u' (
            e
            ∙ sym (
                map-snoc (after_round current) pre ss s
                ∙ ap (λ x. map (after_round current) pre ++ x ∷ ss) stays)) in
          rw n (rest ∙ ap (map (after_round current)) assoc)
    ]

dispatch-submitted :
    (current : ℕ) (s : Schedule) (st : Scheduler) (due : List Schedule)
    → (dispatch current s st).submitted
        ++ (if (dispatch current s st).job_manager then map (λ s. s.metadata) due else [])
      ≡ st.submitted ++ (if st.job_manager then map (λ s. s.metadata) (s ∷ due) else [])
unfolding dispatch save_schedule
dispatch-submitted current s st due = elim (Bool-cases st.job_manager) [
  | inl y ↦ rw y (append_assoc st.submitted (s.metadata ∷ []) (map (λ s. s.metadata) due))
  | inr n ↦ rw n refl
]

pub loop-IsRound :
    (current : ℕ) (ss : List Schedule) (st : Scheduler)
    → IsRound current ss st (dispatch_loop current ss st)
unfolding dispatch_loop
loop-IsRound current [] st = record {
  results = refl;
  executions = sym (append-nil _);
  submitted = ground (arith, append-nil st.submitted);
}
loop-IsRound current (s ∷ ss) st = elim (Bool-cases (is_due current s)) [
  | inl y ↦
      let rest = loop-IsRound current ss (dispatch current s st) in
      record {
        results = ground (arith, rest.results, y);
        executions = rw y (
            unfold dispatch save_schedule in
            rest.executions
            ∙ append_assoc st.executions (execution_of current s ∷ [])
                (map (execution_of current) (keep (is_due current) ss)));
        submitted =
            rw y (rest.submitted ∙ dispatch-submitted current s st (keep (is_due current) ss));
      }
  | inr n ↦
      let rest = loop-IsRound current ss st in
      record {
        results = ground (arith, rest.results, n);
        executions = ground (arith, rest.executions, n);
        submitted = ground (arith, rest.submitted, n);
      }
]

-- With one schedule per identifier, a round advances exactly the due schedules, each in its place,
-- and leaves the others as they are; every due schedule has one execution, one result and, if there
-- is a job manager, one submitted job, in the order of the schedules.
pub dispatch_due_jobs_lem :
    (current : ℕ) (st : Scheduler)
    → HasUniqueIds st.schedules
    → ((dispatch_due_jobs current st).0.schedules ≡ map (after_round current) st.schedules)
      × IsRound current st.schedules st (dispatch_due_jobs current st)
unfolding dispatch_due_jobs
dispatch_due_jobs_lem current st u =
    (loop-schedules current [] st.schedules st u refl, loop-IsRound current st.schedules st)

pub after_round-HasUniqueIds :
    (current : ℕ) (ss : List Schedule)
    → HasUniqueIds ss
    → HasUniqueIds (map (after_round current) ss)
unfolding advanced
after_round-HasUniqueIds current [] u = tt
after_round-HasUniqueIds current (s ∷ ss) u =
    (ground (arith, any-after_round current s.id ss, u.0), after_round-HasUniqueIds current ss u.1)
