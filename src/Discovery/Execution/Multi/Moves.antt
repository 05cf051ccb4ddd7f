-- ===== src/Discovery/Execution/Multi/Moves.antt =====
-- The multi-transport path of an execution (backend/app/discovery/execution.py) makes steps of the row
-- machine only.
use network_operations_platf.Common.{
  ℕ, suc, ◌≡◌, refl, sym, subst, ◌∙◌, Bool, true, false, String, Option, none, some, List, [], ◌∷◌,
  not, ◌||◌, arith, Bool-cases, Option-cases, List-cases, inl, inr, or_else, ◌&&◌, if◌then◌else◌,
}
use network_operations_platf.Discovery.Contracts.{
  value, telnet, http, capability_eq, unsupported_capability,
}
use network_operations_platf.Discovery.ResultStates.{is_discovered}
use network_operations_platf.Discovery.TransportPolicy.{TransportPolicyEntry, MultiTransportPolicy}
use network_operations_platf.Discovery.MultiTransport.{
  Fields, Collection, Validation, TransportAttemptConfig, MultiTransportDiscoveryResult,
  discover_with_fallback,
}
use network_operations_platf.Persistence.Tables.{
  DiscoveryJobRecord, Session, alone, commit, interleave,
}
use network_operations_platf.Persistence.Jobs.{
  record_selection, transition, mark_failed_after_rollback,
}
use network_operations_platf.Persistence.Evidence.{create_evidence, start_attempt, finish_attempt}
use network_operations_platf.Persistence.Steps.{Effects}
use network_operations_platf.Persistence.Steps.Follows.{Follows, commit-Follows}
use network_operations_platf.Persistence.Steps.Selections.{
  record_selection-Ended, transition-Ended, mark_failed-Follows,
}
use network_operations_platf.Discovery.Execution.Policy.Permitted.{resolve_transport_policy_lem}
use network_operations_platf.Discovery.Execution.Failures.{
  ExecutionError, cancellation_signal, lease_lost, persistence, execution_failure, raised,
  failure_of,
}
use network_operations_platf.Discovery.Execution.Devices.{
  TargetView, payload_string, upsert_result, record_device_result, ensure_device_result_for_failure,
  finalize_single_device_run,
}
use network_operations_platf.Discovery.Execution.Calls.{Done, returns, raises, Environment}
use network_operations_platf.Discovery.Execution.Calls.Moves.{
  Steady, Steady-Follows, IsLawful, interleave-Steady, Keeps, kept, and_next-Keeps, lift-Keeps,
  lifted-Keeps, outside-Keeps, Checked, Checked-Keeps, raise_if_cancelled-Checked,
}
use network_operations_platf.Discovery.Execution.Single.{
  DiscoveryExecutionOutcome, build_evidence, success_change,
}
use network_operations_platf.Discovery.Execution.Single.Moves.{create_evidence-Ended, closing-Keeps}
use network_operations_platf.Discovery.Execution.Multi.{
  with_config, record_unsupported, build_transport_configs, check_again, succeeded_with, succeed,
  process_discovered, store_discovered, fail_transports, after_discovered, conclude_transports,
  with_attempts, run_transports, execute_multi_transport,
}

module _ (env : Environment) (t : String) (parent : Option ℕ) (job : DiscoveryJobRecord)
    (target : TargetView) (start : List DiscoveryJobRecord) where
  again-Checked : (n : ℕ) (s : Session) → Checked s (check_again env t parent job target n s)
  unfolding check_again
  again-Checked n s = raise_if_cancelled-Checked env t job.id n parent s

  succeed-Keeps : (s : Session) → Follows start s → Keeps start (succeed env t parent job target s)
  unfolding succeed
  succeed-Keeps s h =
      let c = success_change none in
      and_next-Keeps start _ _
        (lift-Keeps start env.text_of s (transition alone env.now t job.id c s) h
          (transition-Ended env.now t job.id c s))
        (λ completed next g.
          unfold succeeded_with upsert_result finalize_single_device_run in
          kept start _ _ (unfold commit in commit-Follows start next g))

  process_discovered-Keeps :
      (r : MultiTransportDiscoveryResult) (payload : Fields) (s : Session)
      → Follows start s
      → Keeps start (process_discovered env t parent job target r payload s)
  unfolding process_discovered
  process_discovered-Keeps r payload s h =
      and_next-Keeps start _ _ (Checked-Keeps start s _ h (again-Checked 2 s)) (λ _ s h.
        and_next-Keeps start _ _ (outside-Keeps start (env.process payload) s h) (λ device s h.
          and_next-Keeps start _ _ (Checked-Keeps start s _ h (again-Checked 3 s)) (λ _ s h.
            and_next-Keeps start _ _ (outside-Keeps start env.add_live_snapshot s h) (λ _ s h.
              succeed-Keeps
                (record_device_result env.now job target device r.selected_transport r.result_state
                  s)
                (unfold record_device_result upsert_result in h)))))

  store_discovered-Keeps :
      (r : MultiTransportDiscoveryResult) (payload : Fields) (s : Session)
      → Follows start s
      → Keeps start (store_discovered env t parent job target r payload s)
  unfolding store_discovered
  store_discovered-Keeps r payload s h =
      let platform = payload_string env.str payload "platform_family" target.platform_family in
      let e = build_evidence env job target (env.collector_of r.selected_transport) payload in
      and_next-Keeps start _ _
        (lift-Keeps start env.text_of s
          (record_selection env.now t job.id r.selected_transport platform s) h
          (record_selection-Ended env.now t job.id r.selected_transport platform s))
        (λ _ s h. and_next-Keeps start _ _ (Checked-Keeps start s _ h (again-Checked 1 s)) (λ _ s h.
          and_next-Keeps start _ _
            (lift-Keeps start env.text_of s (create_evidence env.hash e s) h
              (create_evidence-Ended env.hash e s))
            (λ _ s h. process_discovered-Keeps r payload (commit s) (commit-Follows start s h))))

  fail_transports-Keeps :
      (r : MultiTransportDiscoveryResult) (s : Session)
      → Follows start s
      → Keeps start (fail_transports env t parent job target r s)
  unfolding fail_transports
  fail_transports-Keeps r s h =
      let code = value (failure_of r).0 in
      let message = (failure_of r).1 in
      and_next-Keeps start _ _
        (lifted-Keeps start env.text_of
          (mark_failed_after_rollback alone env.now t job.id code message none s)
          (mark_failed-Follows start env.now t job.id code message none s h))
        (λ job_failed next g.
          closing-Keeps start 0 job_failed
            (ensure_device_result_for_failure env.now job target (failure_of r).0 message
              r.selected_transport
              (finalize_single_device_run env.now job.run_id r.result_state next))
            (unfold ensure_device_result_for_failure upsert_result finalize_single_device_run in g))

  after_discovered-Keeps :
      (r : MultiTransportDiscoveryResult) (q : Session × Done DiscoveryExecutionOutcome)
      → Keeps start q
      → Keeps start (after_discovered env t parent job target r q)
  unfolding after_discovered
  after_discovered-Keeps r (s, returns o) k = k
  after_discovered-Keeps r (s, raises cancellation_signal) k = k
  after_discovered-Keeps r (s, raises lease_lost) k = k
  after_discovered-Keeps r (s, raises (persistence e m)) k = fail_transports-Keeps r s k.follows
  after_discovered-Keeps r (s, raises (execution_failure c m)) k =
      fail_transports-Keeps r s k.follows
  after_discovered-Keeps r (s, raises (raised c m)) k = fail_transports-Keeps r s k.follows

  conclude_transports-Keeps :
      (r : MultiTransportDiscoveryResult) (s : Session)
      → Follows start s
      → Keeps start (conclude_transports env t parent job target r s)
  conclude_transports-Keeps r s h =
      let P : Session × Done DiscoveryExecutionOutcome → Type 0 = λ q. Keeps start q in
      let call = conclude_transports env t parent job target r s in
      let failing = fail_transports env t parent job target r s in
      elim (Bool-cases (is_discovered r.result_state)) [
        | inr n ↦
            let e : call ≡ failing = unfold conclude_transports in ground (arith, n) in
            subst P (sym e) (fail_transports-Keeps r s h)
        | inl y ↦ elim (Option-cases r.discovery_payload) [
          | inl x ↦
              let e : call ≡ failing = unfold conclude_transports in ground (arith, y, x) in
              subst P (sym e) (fail_transports-Keeps r s h)
          | inr (payload, x) ↦
              let stored = store_discovered env t parent job target r payload s in
              let e : call ≡ after_discovered env t parent job target r stored =
                unfold conclude_transports in ground (arith, y, x) in
              subst P (sym e)
                (after_discovered-Keeps r stored (store_discovered-Keeps r payload s h))
        ]
      ]

  -- The jobs are left alone.
  abbrev SameJobs : Session → Session → Type 0
  SameJobs s s' = (s'.committed ≡ s.committed) × (s'.working ≡ s.working)

  unsupported-SameJobs :
      (id : ℕ) (entry : TransportPolicyEntry) (s : Session)
      → SameJobs s (record_unsupported env t parent job target id entry s)
  unfolding record_unsupported start_attempt finish_attempt
  unsupported-SameJobs id entry s = ground arith

  SameJobs-if :
      (s : Session) (b : Bool) (p q : Session × List TransportAttemptConfig)
      → SameJobs s p.0
      → SameJobs s q.0
      → SameJobs s (if b then p else q).0
  SameJobs-if s true p q x y = x
  SameJobs-if s false p q x y = y

  SameJobs-config :
      (s : Session) (entry : TransportPolicyEntry)
      (o : Option (Collection × Option (Fields → Validation)))
      (skipped : Session × List TransportAttemptConfig)
      → SameJobs s skipped.0
      → SameJobs s (with_config entry o skipped).0
  unfolding with_config
  SameJobs-config s entry none skipped x = x
  SameJobs-config s entry (some (collection, validate)) skipped x = x

  build-SameJobs :
      (policy : MultiTransportPolicy) (n : ℕ) (entries : List TransportPolicyEntry) (s : Session)
      → SameJobs s (build_transport_configs env t parent job target policy n entries s).0
  unfolding build_transport_configs
  build-SameJobs policy n [] s = (refl, refl)
  build-SameJobs policy n (entry ∷ rest) s =
      let refused = record_unsupported env t parent job target (env.unsupported_ids n) entry s in
      let tried = unsupported-SameJobs (env.unsupported_ids n) entry s in
      let after_refusal = build-SameJobs policy (suc n) rest refused in
      let after_all = build-SameJobs policy (suc n) rest s in
      SameJobs-if s (not entry.credential_compatible) _ _
        (after_refusal.0 ∙ tried.0, after_refusal.1 ∙ tried.1)
        (SameJobs-if s
          (capability_eq entry.capability telnet && not policy.allow_insecure
            || capability_eq entry.capability http && not policy.allow_insecure_http)
          _ _ after_all (SameJobs-config s entry (env.select entry) _ after_all))

  with_attempts-Follows :
      (r : MultiTransportDiscoveryResult) (s : Session)
      → IsLawful env.while_collecting
      → Steady start s
      → Follows start (with_attempts env t parent job target r s)
  unfolding with_attempts upsert_result commit
  with_attempts-Follows r s lawful h =
      let g = interleave-Steady start env.while_collecting s lawful h in
      commit-Follows start (interleave env.while_collecting s)
        (Steady-Follows start (interleave env.while_collecting s) g)

  run_transports-Keeps :
      (policy : MultiTransportPolicy) (s : Session)
      → IsLawful env.while_collecting
      → Steady start s
      → Keeps start (run_transports env t parent job target policy s)
  run_transports-Keeps policy s lawful h =
      let P : Session × Done DiscoveryExecutionOutcome → Type 0 = λ q. Keeps start q in
      let call = run_transports env t parent job target policy s in
      let ready = upsert_result (or_else parent job.id) job target (λ r. r) s in
      let built =
        build_transport_configs env t parent job target policy 0 policy.transports ready in
      let jobs = build-SameJobs policy 0 policy.transports ready in
      let committed : built.0.committed ≡ s.committed = unfold upsert_result in jobs.0 in
      let working : built.0.working ≡ s.working = unfold upsert_result in jobs.1 in
      let g : Steady start built.0 =
        (subst (Effects start) (sym committed) h.0, working ∙ h.1 ∙ sym committed) in
      elim (List-cases built.1) [
        | inl x ↦
            let nothing : ExecutionError =
              execution_failure unsupported_capability
                "No transport configurations available for the credential profile." in
            let e : call ≡ (commit built.0, raises nothing) =
              unfold run_transports in ground (arith, x) in
            subst P (sym e) (
              kept start (commit built.0) (raises nothing)
                (commit-Follows start built.0 (Steady-Follows start built.0 g)))
        | inr (c, cs, x) ↦
            let r =
              discover_with_fallback env.redact false false none env.recording target.address
                (c ∷ cs) in
            let e : call
                ≡ conclude_transports env t parent job target r
                    (with_attempts env t parent job target r built.0) =
              unfold run_transports in ground (arith, x) in
            subst P (sym e) (
              conclude_transports-Keeps r (with_attempts env t parent job target r built.0)
                (with_attempts-Follows r built.0 lawful g))
      ]

  pub execute_multi-Keeps :
      (s : Session)
      → IsLawful env.while_collecting
      → Steady start s
      → Keeps start (execute_multi_transport env t parent job target s)
  execute_multi-Keeps s lawful h =
      let (policy, made, _, _) =
        resolve_transport_policy_lem env.uuid env.find_profile target.policy in
      let P : Session × Done DiscoveryExecutionOutcome → Type 0 = λ q. Keeps start q in
      let e : execute_multi_transport env t parent job target s
          ≡ run_transports env t parent job target policy s =
        unfold execute_multi_transport in ground (arith, made) in
      subst P (sym e) (run_transports-Keeps policy s lawful h)
