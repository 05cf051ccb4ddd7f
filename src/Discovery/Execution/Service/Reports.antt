-- ===== src/Discovery/Execution/Service/Reports.antt =====
-- What an execution reports of its job (backend/app/discovery/execution.py), against the committed table.
use network_operations_platf.Common.{
  ℕ, ◌≡◌, refl, sym, subst, true, false, String, Option, none, some, arith, Bool-cases,
  Option-cases, inl, inr, List-cases, or_else, ◌∷◌,
}
use network_operations_platf.Discovery.Contracts.{unsupported_capability, value}
use network_operations_platf.Discovery.MultiTransport.{
  Fields, MultiTransportDiscoveryResult, discover_with_fallback,
}
use network_operations_platf.Discovery.ResultStates.{discovered, is_discovered}
use network_operations_platf.Persistence.Tables.{DiscoveryJobRecord, Session, alone, commit}
use network_operations_platf.Persistence.Jobs.Updates.{HasUniqueIds}
use network_operations_platf.Persistence.Jobs.Settled.{
  IsSettled, Settles, transition-Settles, mark_failed-Settles,
}
use network_operations_platf.Persistence.Jobs.{
  DiscoveryPersistenceError, Result, ok, err, transition, record_selection,
  mark_failed_after_rollback,
}
use network_operations_platf.Persistence.Evidence.{finish_attempt, create_evidence}
use network_operations_platf.Discovery.Execution.Policy.Permitted.{resolve_transport_policy_lem}
use network_operations_platf.Discovery.Execution.Failures.{
  ExecutionError, cancellation_signal, lease_lost, failure_of, persistence, execution_failure,
  raised,
}
use network_operations_platf.Discovery.Execution.Devices.{
  finalize_single_device_run, TargetView, payload_string, record_device_result, upsert_result,
  ensure_device_result_for_failure,
}
use network_operations_platf.Discovery.Execution.Calls.{
  Done, returns, raises, and_next, Environment, outside, lift,
}
use network_operations_platf.Discovery.Execution.Single.{
  check, await, transport_of, build_evidence, success_change, process_payload, store_payload,
  conclude, DiscoveryExecutionOutcome, closing, run_attempt,
}
use network_operations_platf.Discovery.Execution.Multi.{
  build_transport_configs, check_again, succeeded_with, succeed, process_discovered,
  store_discovered, fail_transports, after_discovered, conclude_transports, with_attempts,
  run_transports, execute_multi_transport,
}

-- An execution that is reported as carried out has ended its job: the reported row is terminal and the
-- committed row of the job, if no two committed rows have one identifier.
abbrev pub Reports : String → ℕ → Session × Done DiscoveryExecutionOutcome → Type 0
Reports t k (s, raises e) = Unit
Reports t k (s, returns o) =
    o.executed ≡ true → HasUniqueIds s.committed → IsSettled t k s.committed o.job

pub record IsTrue (t : String) (k : ℕ) (q : Session × Done DiscoveryExecutionOutcome) : Type 0 where
  pub reports : Reports t k q

and_next-IsTrue :
    {A : Type 0} (t : String) (k : ℕ) (q : Session × Done A)
    (f : A → Session → Session × Done DiscoveryExecutionOutcome)
    → ((a : A) → (s : Session) → IsTrue t k (f a s))
    → IsTrue t k (and_next q f)
unfolding and_next
and_next-IsTrue t k (s, returns a) f h = h a s
and_next-IsTrue t k (s, raises e) f h = record { reports = tt }

-- The row that a method gave back is reported after a commit; in between only other tables change.
pub closing-IsTrue :
    (text_of : DiscoveryPersistenceError → String) (t : String) (k n : ℕ)
    (q : Session × Result (Option DiscoveryJobRecord)) (g : Session → Session)
    → Settles t k q
    → ((s : Session) → (g s).working ≡ s.working)
    → IsTrue t k (and_next (lift text_of q) (λ o s. closing n o (g s)))
unfolding and_next lift closing commit
closing-IsTrue text_of t k n (s, ok o) g h same_rows = record {
  reports = λ x u.
      subst (λ rows. IsSettled t k rows o) (sym (same_rows s))
        (h (subst HasUniqueIds (same_rows s) u));
}
closing-IsTrue text_of t k n (s, err e) g h same_rows = record { reports = tt }

module _ (env : Environment) (t : String) (parent : Option ℕ) (job : DiscoveryJobRecord) where
  conclude-IsTrue :
      (owner : ℕ) (target : TargetView) (s : Session)
      → IsTrue t job.id (conclude env t parent owner job target s)
  unfolding conclude
  conclude-IsTrue owner target s =
      let c = success_change (some owner) in
      closing-IsTrue env.text_of t job.id 1 (transition alone env.now t job.id c s) (λ next. next)
        (transition-Settles env.now t job.id c s (unfold success_change in refl)) (λ next. refl)

  process_payload-IsTrue :
      (owner : ℕ) (target : TargetView) (payload : Fields) (s : Session)
      → IsTrue t job.id (process_payload env t parent owner job target payload s)
  unfolding process_payload
  process_payload-IsTrue owner target payload s =
      and_next-IsTrue t job.id (check env t parent owner job target 4 s) _ (λ _ s.
        and_next-IsTrue t job.id (outside (env.process payload) s) _ (λ device s.
          and_next-IsTrue t job.id (check env t parent owner job target 5 s) _ (λ _ s.
            and_next-IsTrue t job.id (outside env.add_live_snapshot s) _ (λ _ s.
              let recorded =
                record_device_result env.now job target device
                  (transport_of env t parent owner job target payload) discovered s in
              and_next-IsTrue t job.id (check env t parent owner job target 6 recorded) _
                (λ _ s. conclude-IsTrue owner target s)))))

  store_payload-IsTrue :
      (owner : ℕ) (target : TargetView) (collector : String) (payload : Fields) (s : Session)
      → IsTrue t job.id (store_payload env t parent owner job target collector payload s)
  unfolding store_payload
  store_payload-IsTrue owner target collector payload s =
      let done = finish_attempt env.now env.attempt_id "success" none none s in
      let transport = transport_of env t parent owner job target payload in
      let platform = payload_string env.str payload "platform_family" target.platform_family in
      let e = build_evidence env job target collector payload in
      and_next-IsTrue t job.id
        (lift env.text_of (record_selection env.now t job.id transport platform done)) _
        (λ _ s. and_next-IsTrue t job.id (check env t parent owner job target 3 s) _ (λ _ s.
          and_next-IsTrue t job.id (lift env.text_of (create_evidence env.hash e s)) _
            (λ _ s. process_payload-IsTrue owner target payload (commit s))))

  pub run_attempt-IsTrue :
      (owner : ℕ) (target : TargetView) (collector : String) (s : Session)
      → IsTrue t job.id (run_attempt env t parent owner job target collector s)
  unfolding run_attempt
  run_attempt-IsTrue owner target collector s =
      and_next-IsTrue t job.id (check env t parent owner job target 1 s) _ (λ _ s.
        and_next-IsTrue t job.id
          (await env t parent owner job target env.while_checking env.health_check s) _
          (λ _ s. and_next-IsTrue t job.id (check env t parent owner job target 2 s) _ (λ _ s.
            and_next-IsTrue t job.id
              (await env t parent owner job target env.while_collecting env.collect s) _
              (λ payload s. store_payload-IsTrue owner target collector payload s))))

  fail_transports-IsTrue :
      (target : TargetView) (r : MultiTransportDiscoveryResult) (s : Session)
      → IsTrue t job.id (fail_transports env t parent job target r s)
  unfolding fail_transports
  fail_transports-IsTrue target r s =
      let code = (failure_of r).0 in
      let message = (failure_of r).1 in
      closing-IsTrue env.text_of t job.id 0
        (mark_failed_after_rollback alone env.now t job.id (value code) message none s)
        (λ next.
          ensure_device_result_for_failure env.now job target code message r.selected_transport
            (finalize_single_device_run env.now job.run_id r.result_state next))
        (mark_failed-Settles env.now t job.id (value code) message none s)
        (unfold ensure_device_result_for_failure upsert_result finalize_single_device_run in
          λ next. refl)

  succeeded-IsTrue :
      (target : TargetView) (q : Session × Result (Option DiscoveryJobRecord))
      → Settles t job.id q
      → IsTrue t job.id (
          and_next
            (lift env.text_of q)
            (λ completed next. succeeded_with env t parent job target completed next))
  unfolding and_next lift succeeded_with commit finalize_single_device_run upsert_result
  succeeded-IsTrue target (s, ok o) h = record { reports = λ x u. h u }
  succeeded-IsTrue target (s, err e) h = record { reports = tt }

  succeed-IsTrue :
      (target : TargetView) (s : Session) → IsTrue t job.id (succeed env t parent job target s)
  unfolding succeed
  succeed-IsTrue target s =
      let c = success_change none in
      succeeded-IsTrue target (transition alone env.now t job.id c s)
        (transition-Settles env.now t job.id c s (unfold success_change in refl))

  process_discovered-IsTrue :
      (target : TargetView) (r : MultiTransportDiscoveryResult) (payload : Fields) (s : Session)
      → IsTrue t job.id (process_discovered env t parent job target r payload s)
  unfolding process_discovered
  process_discovered-IsTrue target r payload s =
      and_next-IsTrue t job.id (check_again env t parent job target 2 s) _ (λ _ s.
        and_next-IsTrue t job.id (outside (env.process payload) s) _ (λ device s.
          and_next-IsTrue t job.id (check_again env t parent job target 3 s) _ (λ _ s.
            and_next-IsTrue t job.id (outside env.add_live_snapshot s) _ (λ _ s.
              succeed-IsTrue target (
                record_device_result env.now job target device r.selected_transport r.result_state
                  s)))))

  store_discovered-IsTrue :
      (target : TargetView) (r : MultiTransportDiscoveryResult) (payload : Fields) (s : Session)
      → IsTrue t job.id (store_discovered env t parent job target r payload s)
  unfolding store_discovered
  store_discovered-IsTrue target r payload s =
      let platform = payload_string env.str payload "platform_family" target.platform_family in
      let e = build_evidence env job target (env.collector_of r.selected_transport) payload in
      and_next-IsTrue t job.id
        (lift env.text_of (record_selection env.now t job.id r.selected_transport platform s)) _
        (λ _ s. and_next-IsTrue t job.id (check_again env t parent job target 1 s) _ (λ _ s.
          and_next-IsTrue t job.id (lift env.text_of (create_evidence env.hash e s)) _
            (λ _ s. process_discovered-IsTrue target r payload (commit s))))

  after_discovered-IsTrue :
      (target : TargetView) (r : MultiTransportDiscoveryResult)
      (q : Session × Done DiscoveryExecutionOutcome)
      → IsTrue t job.id q
      → IsTrue t job.id (after_discovered env t parent job target r q)
  unfolding after_discovered
  after_discovered-IsTrue target r (s, returns o) k = k
  after_discovered-IsTrue target r (s, raises cancellation_signal) k = k
  after_discovered-IsTrue target r (s, raises lease_lost) k = k
  after_discovered-IsTrue target r (s, raises (persistence e m)) k =
      fail_transports-IsTrue target r s
  after_discovered-IsTrue target r (s, raises (execution_failure c m)) k =
      fail_transports-IsTrue target r s
  after_discovered-IsTrue target r (s, raises (raised c m)) k = fail_transports-IsTrue target r s

  conclude_transports-IsTrue :
      (target : TargetView) (r : MultiTransportDiscoveryResult) (s : Session)
      → IsTrue t job.id (conclude_transports env t parent job target r s)
  conclude_transports-IsTrue target r s =
      let P : Session × Done DiscoveryExecutionOutcome → Type 0 = λ q. IsTrue t job.id q in
      let call = conclude_transports env t parent job target r s in
      let failing = fail_transports env t parent job target r s in
      elim (Bool-cases (is_discovered r.result_state)) [
        | inr n ↦
            let e : call ≡ failing = unfold conclude_transports in ground (arith, n) in
            subst P (sym e) (fail_transports-IsTrue target r s)
        | inl y ↦ elim (Option-cases r.discovery_payload) [
          | inl x ↦
              let e : call ≡ failing = unfold conclude_transports in ground (arith, y, x) in
              subst P (sym e) (fail_transports-IsTrue target r s)
          | inr (payload, x) ↦
              let stored = store_discovered env t parent job target r payload s in
              let e : call ≡ after_discovered env t parent job target r stored =
                unfold conclude_transports in ground (arith, y, x) in
              subst P (sym e) (
                after_discovered-IsTrue target r stored
                  (store_discovered-IsTrue target r payload s))
        ]
      ]

  pub execute_multi-IsTrue :
      (target : TargetView) (s : Session)
      → IsTrue t job.id (execute_multi_transport env t parent job target s)
  execute_multi-IsTrue target s =
      let P : Session × Done DiscoveryExecutionOutcome → Type 0 = λ q. IsTrue t job.id q in
      let call = execute_multi_transport env t parent job target s in
      let (policy, made, _, _) =
        resolve_transport_policy_lem env.uuid env.find_profile target.policy in
      let ready = upsert_result (or_else parent job.id) job target (λ r. r) s in
      let built =
        build_transport_configs env t parent job target policy 0 policy.transports ready in
      elim (List-cases built.1) [
        | inl x ↦
            let nothing : ExecutionError =
              execution_failure unsupported_capability
                "No transport configurations available for the credential profile." in
            let e : call ≡ (commit built.0, raises nothing) =
              unfold execute_multi_transport run_transports in ground (arith, made, x) in
            subst P (sym e) (record { reports = tt })
        | inr (c, cs, x) ↦
            let r =
              discover_with_fallback env.redact false false none env.recording target.address
                (c ∷ cs) in
            let begun = with_attempts env t parent job target r built.0 in
            let e : call ≡ conclude_transports env t parent job target r begun =
              unfold execute_multi_transport run_transports in ground (arith, made, x) in
            subst P (sym e) (conclude_transports-IsTrue target r begun)
      ]
