-- ===== src/Scheduler/Service/Paused.antt =====
-- What a rename makes of a paused schedule (backend/app/scheduler/service.py).
use network_operations_platf.Common.{
  ℕ, ◌≡◌, refl, sym, ap, ◌∙◌, subst, false, String, Option, none, some, List, [], ◌∷◌, any, first,
  map, ◌==◌, ==_refl, ◌&&◌, arith, Bool-cases, inl, inr, All,
}
use network_operations_platf.Scheduler.Service.{
  Schedule, Scheduler, active, put, save_schedule, get_schedule, with_update, update_schedule,
  paused_at, pause_schedule, is_due, advanced, dispatch_due_jobs,
}
use network_operations_platf.Scheduler.Service.Dispatch.{
  HasUniqueIds, after_round, dispatch_due_jobs_lem,
}
use network_operations_platf.Scheduler.Service.Rounds.{rounds, round-HasUniqueIds, any-results}
use network_operations_platf.Scheduler.Service.States.{put-alone, first-id, modify-some}

-- No schedule of the identifier is enabled.
abbrev IsOff : ℕ → List Schedule → Type 0
IsOff id ss = any (λ s. s.id == id && s.enabled) ss ≡ false

any-put :
    (k : ℕ) (s : Schedule) (ss : List Schedule)
    → any (λ q. q.id == k) ss ≡ false
    → (s.id == k) ≡ false
    → any (λ q. q.id == k) (put s ss) ≡ false
unfolding put
any-put k s [] h n = ground (arith, n)
any-put k s (x ∷ xs) h n = ground (arith, any-put k s xs, n, h)

put-HasUniqueIds : (s : Schedule) (ss : List Schedule) → HasUniqueIds ss → HasUniqueIds (put s ss)
unfolding put
put-HasUniqueIds s [] u = (refl, tt)
put-HasUniqueIds s (x ∷ xs) u =
    let rest = put-HasUniqueIds s xs u.1 in
    elim (Bool-cases (x.id == s.id)) [
      | inl y ↦
          let same : x.id ≡ s.id = ground arith in
          rw y (subst (λ k. any (λ q. q.id == k) xs ≡ false) same u.0, u.1)
      | inr n ↦ rw n (any-put x.id s xs u.0 (ground (arith, n)), rest)
    ]

first-put : (s : Schedule) (ss : List Schedule) → first (λ q. q.id == s.id) (put s ss) ≡ some s
unfolding put
first-put s [] = ground (arith, ==_refl s.id)
first-put s (x ∷ xs) = ground (arith, ==_refl s.id, first-put s xs)

never_due :
    (id current : ℕ) (ss : List Schedule)
    → IsOff id ss
    → any (λ q. q.id == id && is_due current q) ss ≡ false
unfolding is_due
never_due id current [] h = refl
never_due id current (s ∷ ss) h = ground (arith, never_due id current ss)

after_round-IsOff :
    (id current : ℕ) (ss : List Schedule) → IsOff id ss → IsOff id (map (after_round current) ss)
unfolding advanced
after_round-IsOff id current [] h = refl
after_round-IsOff id current (s ∷ ss) h = ground (arith, after_round-IsOff id current ss)

off_rounds :
    (id : ℕ) (times : List ℕ) (st : Scheduler)
    → HasUniqueIds st.schedules
    → IsOff id st.schedules
    → All (λ results. any (λ r. r.schedule_id == id) results ≡ false) (rounds times st)
unfolding rounds
off_rounds id [] st u h = tt
off_rounds id (current ∷ times) st u h =
    let (schedules, round) = dispatch_due_jobs_lem current st u in
    (
      ap (any (λ r. r.schedule_id == id)) round.results
          ∙ any-results current id st.schedules
          ∙ never_due id current st.schedules h,
      off_rounds id times (dispatch_due_jobs current st).0 (round-HasUniqueIds current st u)
          (subst (IsOff id) (sym schedules) (after_round-IsOff id current st.schedules h)),
    )

-- A rename starts nothing, but it hides a pause: when a schedule is paused and then renamed by an
-- update that does not say whether it is to be enabled, it is shown as active, and yet it has no result
-- in any number of rounds at any instants. This holds if no two schedules have one identifier.
pub rename_hides_pause :
    (now later id : ℕ) (name : Option String) (times : List ℕ) (st : Scheduler) (s : Schedule)
    → HasUniqueIds st.schedules
    → get_schedule id st ≡ some s
    → let renamed =
        (update_schedule later id
          (record { name = name; enabled = none })
          (pause_schedule now id st).0).0 in
      ((r : Schedule) × (get_schedule id renamed ≡ some r)
        × (r.state ≡ active)
        × (r.enabled ≡ false))
      × All (λ results. any (λ r. r.schedule_id == id) results ≡ false) (rounds times renamed)
unfolding update_schedule pause_schedule
rename_hides_pause now later id name times st s u e =
    let same : s.id ≡ id = first-id id st.schedules s (unfold get_schedule in e) in
    let update : Schedule → Schedule = with_update later (record { name = name; enabled = none }) in
    let slept = paused_at now s in
    let paused_st = save_schedule slept st in
    let final_st = save_schedule (update slept) paused_st in
    let u1 : HasUniqueIds paused_st.schedules =
      unfold save_schedule in put-HasUniqueIds slept st.schedules u in
    let u2 : HasUniqueIds final_st.schedules =
      unfold save_schedule in put-HasUniqueIds (update slept) paused_st.schedules u1 in
    let found : get_schedule id paused_st ≡ some slept =
      unfold get_schedule save_schedule paused_at in
      subst (λ k. first (λ q. q.id == k) (put slept st.schedules) ≡ some slept) same
        (first-put slept st.schedules) in
    let shown : get_schedule id final_st ≡ some (update slept) =
      unfold get_schedule save_schedule with_update paused_at in
      subst
        (λ k. first (λ q. q.id == k) (put (update slept) paused_st.schedules) ≡ some (update slept))
        same (first-put (update slept) paused_st.schedules) in
    let off : IsOff id final_st.schedules =
      unfold save_schedule with_update paused_at in
      subst
        (λ k. any (λ q. q.id == k && q.enabled) (put (update slept) paused_st.schedules) ≡ false)
        same (put-alone (λ q. q.enabled) (update slept) paused_st.schedules u1 refl) in
    rw (modify-some (paused_at now) id st s e) (
      rw (modify-some update id paused_st slept found) (
        (update slept, shown, unfold with_update in refl, unfold with_update paused_at in refl),
        off_rounds id times final_st u2 off,
      ))
