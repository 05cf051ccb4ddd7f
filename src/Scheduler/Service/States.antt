-- ===== src/Scheduler/Service/States.antt =====
-- Whether a schedule is enabled and the state it shows (backend/app/scheduler/service.py).
use network_operations_platf.Common.{
  ℕ, ◌≡◌, refl, subst, sym, ap, ◌∙◌, Bool, true, false, none, some, List, [], ◌∷◌, any, first, not,
  is_none, ◌==◌, ◌&&◌, arith, Bool-cases, Option-cases, inl, inr, All, All-keep,
}
use network_operations_platf.Scheduler.Service.{
  Schedule, ScheduleCreateRequest, ScheduleUpdateRequest, Scheduler, ok, key_error, value_error,
  ScheduleKind, ScheduleType, active, put, save_schedule, get_schedule, delete_schedule, parse_kind,
  parse_type, registered, register_schedule, modify, with_update, update_schedule, paused_at,
  pause_schedule, resumed_at, resume_schedule, is_due, advanced, dispatch, dispatch_loop,
  dispatch_due_jobs,
}
use network_operations_platf.Scheduler.Service.Dispatch.{HasUniqueIds, loop-IsRound}
use network_operations_platf.Scheduler.Service.Rounds.{any-results}

-- The state says active exactly if the schedule is enabled.
abbrev pub IsConsistent : Schedule → Type 0
IsConsistent s = elim s.state [ active ↦ true | _ ↦ false ] ≡ s.enabled

put-All :
    (P : Schedule → Type 0) (s : Schedule) (ss : List Schedule) → P s → All P ss → All P (put s ss)
unfolding put
put-All P s [] p a = (p, tt)
put-All P s (x ∷ xs) p a =
    let rest = put-All P s xs p a.1 in
    elim (Bool-cases (x.id == s.id)) [ inl y ↦ rw y (p, a.1) | inr n ↦ rw n (a.0, rest) ]

first-All :
    (P : Schedule → Type 0) (p : Schedule → Bool) (ss : List Schedule) (s : Schedule)
    → All P ss
    → first p ss ≡ some s
    → P s
first-All P p [] s a h = cc
first-All P p (x ∷ xs) s a h = elim (Bool-cases (p x)) [
  | inl y ↦ subst P (let e : x ≡ s = ground (arith, h) in e) a.0
  | inr n ↦ first-All P p xs s a.1 (ground (arith, h, n))
]

modify-none :
    (f : Schedule → Schedule) (id : ℕ) (st : Scheduler)
    → get_schedule id st ≡ none
    → modify f id st ≡ (st, key_error id)
unfolding modify
modify-none f id st e = ground (arith, e)

pub modify-some :
    (f : Schedule → Schedule) (id : ℕ) (st : Scheduler) (s : Schedule)
    → get_schedule id st ≡ some s
    → modify f id st ≡ (save_schedule (f s) st, ok (f s))
unfolding modify
modify-some f id st s e = ground (arith, e)

modify-All :
    (P : Schedule → Type 0) (f : Schedule → Schedule) (id : ℕ) (st : Scheduler)
    → ((s : Schedule) → P s → P (f s))
    → All P st.schedules
    → All P (modify f id st).0.schedules
modify-All P f id st h a = elim (Option-cases (get_schedule id st)) [
  | inl n ↦ subst (λ q. All P q.0.schedules) (sym (modify-none f id st n)) a
  | inr (s, e) ↦
      subst (λ q. All P q.0.schedules) (sym (modify-some f id st s e))
        (unfold save_schedule in
          put-All P (f s) st.schedules
            (h s (first-All P (λ s. s.id == id) st.schedules s a (unfold get_schedule in e))) a)
]

register-All :
    (P : Schedule → Type 0) (id now : ℕ) (payload : ScheduleCreateRequest) (st : Scheduler)
    → ((kind : ScheduleKind) → (type : ScheduleType) → P (registered id now payload kind type))
    → All P st.schedules
    → All P (register_schedule id now payload st).0.schedules
unfolding register_schedule
register-All P id now payload st h a = elim (Option-cases (parse_kind payload.kind)) [
  | inl n ↦
      let e : register_schedule id now payload st ≡ (st, value_error) = ground (arith, n) in
      subst (λ q. All P q.0.schedules) (sym e) a
  | inr (kind, m) ↦ elim (Option-cases (parse_type payload.schedule_type)) [
    | inl n ↦
        let e : register_schedule id now payload st ≡ (st, value_error) = ground (arith, m, n) in
        subst (λ q. All P q.0.schedules) (sym e) a
    | inr (type, n) ↦
        let new = registered id now payload kind type in
        let e : register_schedule id now payload st ≡ (save_schedule new st, ok new) =
          ground (arith, m, n) in
        subst (λ q. All P q.0.schedules) (sym e)
          (unfold save_schedule in put-All P new st.schedules (h kind type) a)
  ]
]

-- The calls of the service that change its schedules.
pub data Call : Type 0 where
  registers : ℕ → ℕ → ScheduleCreateRequest → Call
  updates : ℕ → ℕ → ScheduleUpdateRequest → Call
  pauses : ℕ → ℕ → Call
  resumes : ℕ → ℕ → Call
  deletes : ℕ → Call
  dispatches : ℕ → Call

pub serve : Call → Scheduler → Scheduler
unfolding register_schedule update_schedule pause_schedule resume_schedule delete_schedule
    dispatch_due_jobs
serve (registers id now payload) st = (register_schedule id now payload st).0
serve (updates now id payload) st = (update_schedule now id payload st).0
serve (pauses now id) st = (pause_schedule now id st).0
serve (resumes now id) st = (resume_schedule now id st).0
serve (deletes id) st = (delete_schedule id st).0
serve (dispatches current) st = (dispatch_due_jobs current st).0

-- An update says whether the schedule is to be enabled.
abbrev pub says_enabled : Call → Bool
says_enabled (updates now id payload) = not (is_none payload.enabled)
says_enabled _ = true

loop-All :
    (P : Schedule → Type 0) (current : ℕ) (ss : List Schedule) (st : Scheduler)
    → ((s : Schedule) → P s → P (advanced current s))
    → All P ss
    → All P st.schedules
    → All P (dispatch_loop current ss st).0.schedules
unfolding dispatch_loop dispatch save_schedule
loop-All P current [] st h a b = b
loop-All P current (s ∷ ss) st h a b =
    let due =
      loop-All P current ss (dispatch current s st) h a.1
        (put-All P (advanced current s) st.schedules (h s a.0) b) in
    let rest = loop-All P current ss st h a.1 b in
    elim (Bool-cases (is_due current s)) [ inl y ↦ rw y due | inr n ↦ rw n rest ]

-- Every call keeps the states of all schedules in agreement with their enabled flags, an update
-- under the condition that it says whether the schedule is to be enabled.
pub serve-IsConsistent :
    (c : Call) (st : Scheduler)
    → says_enabled c ≡ true
    → All IsConsistent st.schedules
    → All IsConsistent (serve c st).schedules
unfolding serve
serve-IsConsistent (registers id now payload) st h a =
    unfold register_schedule in
    register-All IsConsistent id now payload st (λ k t. unfold registered in ground arith) a
serve-IsConsistent (updates now id payload) st h a =
    unfold update_schedule in
    modify-All IsConsistent (with_update now payload) id st
      (λ s c. unfold with_update in ground (arith, h)) a
serve-IsConsistent (pauses now id) st h a =
    unfold pause_schedule in
    modify-All IsConsistent (paused_at now) id st (λ s c. unfold paused_at in refl) a
serve-IsConsistent (resumes now id) st h a =
    unfold resume_schedule in
    modify-All IsConsistent (resumed_at now) id st (λ s c. unfold resumed_at in refl) a
serve-IsConsistent (deletes id) st h a =
    unfold delete_schedule in All-keep IsConsistent (λ s. not (s.id == id)) st.schedules a
serve-IsConsistent (dispatches current) st h a =
    unfold dispatch_due_jobs in
    loop-All IsConsistent current st.schedules st (λ s c. unfold advanced in c) a a

pub absent :
    (p : Schedule → Bool) (id : ℕ) (ss : List Schedule)
    → any (λ q. q.id == id) ss ≡ false
    → any (λ q. q.id == id && p q) ss ≡ false
absent p id [] h = refl
absent p id (x ∷ xs) h = ground (arith, absent p id xs)

pub put-alone :
    (p : Schedule → Bool) (s : Schedule) (ss : List Schedule)
    → HasUniqueIds ss
    → p s ≡ false
    → any (λ q. q.id == s.id && p q) (put s ss) ≡ false
unfolding put
put-alone p s [] u h = ground arith
put-alone p s (x ∷ xs) u h =
    let rest = put-alone p s xs u.1 h in
    elim (Bool-cases (x.id == s.id)) [
      | inl y ↦
          rw y
            (ground (arith, h, absent p s.id xs (let e : s.id ≡ x.id = ground arith in rw e u.0)))
      | inr n ↦ rw n (ground (arith, rest, n))
    ]

first-none :
    (id : ℕ) (ss : List Schedule)
    → first (λ q. q.id == id) ss ≡ none
    → any (λ q. q.id == id) ss ≡ false
first-none id [] h = refl
first-none id (x ∷ xs) h = ground (arith, first-none id xs)

pub first-id :
    (id : ℕ) (ss : List Schedule) (s : Schedule) → first (λ q. q.id == id) ss ≡ some s → s.id ≡ id
first-id id [] s h = cc
first-id id (x ∷ xs) s h = ground (arith, first-id id xs s)

paused_not_due :
    (now current id : ℕ) (st : Scheduler)
    → HasUniqueIds st.schedules
    → any (λ q. q.id == id && is_due current q) (modify (paused_at now) id st).0.schedules ≡ false
paused_not_due now current id st u = elim (Option-cases (get_schedule id st)) [
  | inl n ↦ rw (modify-none (paused_at now) id st n) (
      absent (is_due current) id st.schedules
        (first-none id st.schedules (unfold get_schedule in n)))
  | inr (s, e) ↦
      let same : s.id ≡ id = first-id id st.schedules s (unfold get_schedule in e) in
      rw (modify-some (paused_at now) id st s e) (
        unfold save_schedule in
        subst
          (λ k.
            any (λ q. q.id == k && is_due current q) (put (paused_at now s) st.schedules) ≡ false)
          same
          (unfold paused_at is_due in
            put-alone (is_due current) (paused_at now s) st.schedules u refl))
]

-- A paused schedule is not dispatched: right after pausing, with one schedule per identifier, no
-- round has a result for it, whether there was such a schedule or not.
pub pause_stops :
    (now current id : ℕ) (st : Scheduler)
    → HasUniqueIds st.schedules
    → any (λ r. r.schedule_id == id) (dispatch_due_jobs current (pause_schedule now id st).0).1
      ≡ false
unfolding pause_schedule
pause_stops now current id st u =
    unfold dispatch_due_jobs in
    ap (any (λ r. r.schedule_id == id))
      (loop-IsRound current (pause_schedule now id st).0.schedules
        (pause_schedule now id st).0).results
    ∙ any-results current id (pause_schedule now id st).0.schedules
    ∙ paused_not_due now current id st u
