-- ===== src/Transports/CircuitBreaker/Laws.antt =====
-- What holds of a circuit breaker (backend/app/transports/circuit_breaker.py) after any calls.
use network_operations_platf.Common.{
  ◌++◌, length, length-append, sym, subst, replicate, zero, suc, ◌+◌, ◌≤◌, true, false, some, refl,
  All, map, ap, ◌∙◌, if◌then◌else◌, leb, ℕ, ◌<◌, ◌≡◌, ◌≢◌, none, List, [], ◌∷◌, arith,
}
use network_operations_platf.Transports.CircuitBreaker.{
  allow_request, allow, success, failure, CircuitBreaker, closed, open_, half_open, fresh, Call,
  step, run,
}

-- Settings that make the breaker useful, and what its counters say in each state.
pub record IsSound (b : CircuitBreaker) : Type 0 where
  pub threshold_pos : 0 < b.failure_threshold
  pub successes_pos : 0 < b.half_open_success_threshold
  pub closed_below : b.state ≡ closed → b.failure_count < b.failure_threshold
  pub closed_reset : b.state ≡ closed → b.half_open_success_count ≡ 0
  pub open_dated : b.state ≡ open_ → b.opened_at ≢ none
  pub half_open_below :
      b.state ≡ half_open → b.half_open_success_count < b.half_open_success_threshold

step-IsSound : (b : CircuitBreaker) (c : Call) → IsSound b → IsSound (step b c)
unfolding step
step-IsSound b c h = ground arith

run-IsSound : (b : CircuitBreaker) (cs : List Call) → IsSound b → IsSound (run b cs)
unfolding run
run-IsSound b [] h = h
run-IsSound b (c ∷ cs) h = run-IsSound (step b c) cs (step-IsSound b c h)

-- A breaker with positive thresholds keeps its invariant through every sequence of calls: closed
-- means fewer failures in a row than the threshold and no half-open successes, open means that
-- the opening time is set, half-open means fewer successes than needed to close.
pub run-fresh-IsSound :
    (threshold timeout successes : ℕ) (cs : List Call)
    → 0 < threshold
    → 0 < successes
    → IsSound (run (fresh threshold timeout successes) cs)
unfolding fresh
run-fresh-IsSound threshold timeout successes cs h k = run-IsSound _ cs (ground arith)

run-append : (b : CircuitBreaker) (xs ys : List Call) → run b (xs ++ ys) ≡ run (run b xs) ys
unfolding run
run-append b [] ys = refl
run-append b (x ∷ xs) ys = run-append (step b x) xs ys

failures-append :
    (ts : List ℕ) (t : ℕ) → map failure (ts ++ t ∷ []) ≡ map failure ts ++ failure t ∷ []
failures-append [] t = refl
failures-append (x ∷ ts) t = ap (λ cs. failure x ∷ cs) (failures-append ts t)

-- What a row of failures leaves of a breaker.
record HasFailed (n : ℕ) (b c : CircuitBreaker) : Type 0 where
  count : c.failure_count ≡ b.failure_count + n
  threshold : c.failure_threshold ≡ b.failure_threshold
  timeout : c.recovery_timeout ≡ b.recovery_timeout
  below : b.failure_count + n < b.failure_threshold → c.state ≡ b.state

one_more :
    (n now : ℕ) (b c : CircuitBreaker)
    → HasFailed n (step b (failure now)) c
    → HasFailed (suc n) b c
unfolding step
one_more n now b c h = record {
  count = h.count ∙ ground arith;
  threshold = h.threshold ∙ ground arith;
  timeout = h.timeout ∙ ground arith;
  below = λ lt. h.below (ground arith) ∙ ground arith;
}

failures : (ts : List ℕ) (b : CircuitBreaker) → HasFailed (length ts) b (run b (map failure ts))
unfolding run
failures [] b = record { count = omega arith; threshold = refl; timeout = refl; below = λ lt. refl }
failures (t ∷ ts) b = one_more (length ts) t b _ (failures ts (step b (failure t)))

refuse_once :
    (b : CircuitBreaker) (t now : ℕ)
    → b.state ≡ open_
    → b.opened_at ≡ some t
    → now < t + b.recovery_timeout
    → (allow_request now b ≡ (b, false)) × (step b (allow now) ≡ b)
unfolding step
refuse_once b t now h o lt = (ground arith, ground arith)

refuses_while_open :
    (b : CircuitBreaker) (t : ℕ) (nows : List ℕ)
    → b.state ≡ open_
    → b.opened_at ≡ some t
    → All (λ now. now < t + b.recovery_timeout) nows
    → (run b (map allow nows) ≡ b) × All (λ now. allow_request now b ≡ (b, false)) nows
unfolding run
refuses_while_open b t [] h o a = (refl, tt)
refuses_while_open b t (now ∷ nows) h o a =
    let r = refuse_once b t now h o a.0 in
    let rest = refuses_while_open b t nows h o a.1 in
    (ap (λ c. run c (map allow nows)) r.1 ∙ rest.0, (r.0, rest.1))

-- The last failure of a row that reaches the threshold opens the breaker at its instant.
last_failure :
    (t : ℕ) (b : CircuitBreaker)
    → b.failure_threshold ≤ b.failure_count + 1
    → ((step b (failure t)).state ≡ open_) × ((step b (failure t)).opened_at ≡ some t)
unfolding step
last_failure t b h = (ground arith, ground arith)

lets_through :
    (b : CircuitBreaker) (nows : List ℕ)
    → b.state ≡ closed
    → All (λ now. allow_request now b ≡ (b, true)) nows
unfolding step
lets_through b [] h = tt
lets_through b (now ∷ nows) h = (ground arith, lets_through b nows h)

-- A closed breaker trips exactly at its threshold. After a row of failures at any instants, counted
-- together with those it had: if they are fewer than the threshold, every request is let through. If
-- they reach it, every request earlier than the recovery time after the last failure is refused, however
-- many are made, and none of them changes the breaker.
pub trips_at_threshold :
    (b : CircuitBreaker) (ts : List ℕ) (t : ℕ) (nows : List ℕ)
    → b.state ≡ closed
    → let c = run b (map failure (ts ++ t ∷ [])) in
      (b.failure_count + suc (length ts) < b.failure_threshold
        → All (λ now. allow_request now c ≡ (c, true)) nows)
      × (b.failure_threshold ≤ b.failure_count + suc (length ts)
          → All (λ now. now < t + b.recovery_timeout) nows
          → (run c (map allow nows) ≡ c) × All (λ now. allow_request now c ≡ (c, false)) nows)
trips_at_threshold b ts t nows closed_before =
    let all = failures (ts ++ t ∷ []) b in
    let front = failures ts b in
    let c = run b (map failure (ts ++ t ∷ [])) in
    let here : c ≡ step (run b (map failure ts)) (failure t) =
      ap (run b) (failures-append ts t)
      ∙ run-append b (map failure ts) (failure t ∷ [])
      ∙ (unfold run in refl) in
    let size : length (ts ++ t ∷ []) ≡ suc (length ts) = omega (arith, length-append ts (t ∷ [])) in
    (
      λ lt. lets_through c nows (all.below (omega (arith, lt, size)) ∙ closed_before),
      λ le early.
          let open_now =
            last_failure t (run b (map failure ts))
              (omega (arith, le, front.count, front.threshold)) in
          refuses_while_open c t nows (ap (λ x. x.state) here ∙ open_now.0)
            (ap (λ x. x.opened_at) here ∙ open_now.1)
            (subst (λ n. All (λ now. now < t + n) nows) (sym all.timeout) early),
    )

step-success_half :
    (b : CircuitBreaker)
    → b.state ≡ half_open
    → ((step b success).state ≡ (
        if leb b.half_open_success_threshold (b.half_open_success_count + 1)
        then closed
        else half_open))
      × ((step b success).failure_count ≡ 0)
      × ((step b success).half_open_success_threshold ≡ b.half_open_success_threshold)
      × (b.half_open_success_count + 1 < b.half_open_success_threshold
          → (step b success).half_open_success_count ≡ b.half_open_success_count + 1)
unfolding step
step-success_half b h = ground arith

closes_after :
    (n : ℕ) (b : CircuitBreaker)
    → b.state ≡ half_open
    → b.half_open_success_count + suc n ≡ b.half_open_success_threshold
    → ((run b (replicate (suc n) success)).state ≡ closed)
      × ((run b (replicate (suc n) success)).failure_count ≡ 0)
unfolding run
closes_after zero b h e = ground (arith, step-success_half b h)
closes_after (suc n) b h e =
    let s = step-success_half b h in
    closes_after n (step b success) (ground (arith, s)) (ground (arith, s))

-- An open breaker recovers: once the recovery time has passed a request is let through, and as
-- many successes as the half-open threshold asks for close it and clear its failure count.
pub recovers :
    (b : CircuitBreaker) (t now n : ℕ)
    → b.state ≡ open_
    → b.opened_at ≡ some t
    → t + b.recovery_timeout ≤ now
    → b.half_open_success_threshold ≡ suc n
    → ((allow_request now b).1 ≡ true)
      × ((run b (allow now ∷ replicate (suc n) success)).state ≡ closed)
      × ((run b (allow now ∷ replicate (suc n) success)).failure_count ≡ 0)
recovers b t now n h o le e =
    let c =
      closes_after n (step b (allow now)) (unfold step in ground arith)
        (unfold step in ground arith) in
    (unfold step in ground arith, unfold run in c.0, unfold run in c.1)
