-- ===== src/Discovery/Execution/Single/Moves.antt =====
-- The single-transport path of an execution (backend/app/discovery/execution.py) makes steps of the row
-- machine only.
use network_operations_platf.Common.{
  ℕ, ◌≡◌, sym, subst, String, Option, none, some, List, arith, inl,
}
use network_operations_platf.Discovery.ResultStates.{discovered}
use network_operations_platf.Discovery.MultiTransport.{Fields}
use network_operations_platf.Persistence.Tables.{
  DiscoveryJobRecord, Session, alone, commit, interleave,
}
use network_operations_platf.Persistence.Jobs.{record_selection, transition}
use network_operations_platf.Persistence.Evidence.{
  DiscoveryEvidence, create_evidence, finish_attempt,
}
use network_operations_platf.Persistence.Steps.{Effects, stays, Ended}
use network_operations_platf.Persistence.Steps.Follows.{Follows, commit-Follows}
use network_operations_platf.Persistence.Steps.Selections.{record_selection-Ended, transition-Ended}
use network_operations_platf.Discovery.Execution.Devices.{
  TargetView, payload_string, upsert_result, record_device_result,
}
use network_operations_platf.Discovery.Execution.Calls.{
  Done, returns, raises, and_next, Environment,
}
use network_operations_platf.Discovery.Execution.Calls.Moves.{
  Steady, Steady-Follows, IsLawful, interleave-Steady, Keeps, kept, and_next-Keeps, lift-Keeps,
  outside-Keeps, Checked, Checked-Keeps, Checked-Steady, raise_if_cancelled-Checked,
}
use network_operations_platf.Discovery.Execution.Single.{
  closing, build_evidence, success_change, check, await, transport_of, conclude, process_payload,
  store_payload, run_attempt,
}

-- Evidence leaves the jobs alone.
pub create_evidence-Ended :
    (hash : String → String) (e : DiscoveryEvidence) (s : Session)
    → Ended s (create_evidence hash e s)
create_evidence-Ended hash e s =
    let q = (create_evidence hash e s).0 in
    let jobs : (q.committed ≡ s.committed) × (q.working ≡ s.working) =
      unfold create_evidence in ground arith in
    inl (jobs.0, inl (subst (Effects s.working) (sym jobs.1) stays))

pub closing-Keeps :
    (start : List DiscoveryJobRecord) (n : ℕ) (o : Option DiscoveryJobRecord) (s : Session)
    → Follows start s
    → Keeps start (closing n o s)
unfolding closing
closing-Keeps start n o s h = kept start (commit s) _ (commit-Follows start s h)

module _ (env : Environment) (t : String) (parent : Option ℕ) (owner : ℕ) (job : DiscoveryJobRecord)
    (target : TargetView) (start : List DiscoveryJobRecord) where
  check-Checked : (n : ℕ) (s : Session) → Checked s (check env t parent owner job target n s)
  unfolding check
  check-Checked n s = raise_if_cancelled-Checked env t job.id n parent s

  conclude-Keeps :
      (s : Session) → Follows start s → Keeps start (conclude env t parent owner job target s)
  unfolding conclude
  conclude-Keeps s h =
      let c = success_change (some owner) in
      and_next-Keeps start _ _
        (lift-Keeps start env.text_of s (transition alone env.now t job.id c s) h
          (transition-Ended env.now t job.id c s))
        (λ completed next g. closing-Keeps start 1 completed next g)

  process_payload-Keeps :
      (payload : Fields) (s : Session)
      → Follows start s
      → Keeps start (process_payload env t parent owner job target payload s)
  unfolding process_payload
  process_payload-Keeps payload s h =
      and_next-Keeps start _ _ (Checked-Keeps start s _ h (check-Checked 4 s)) (λ _ s h.
        and_next-Keeps start _ _ (outside-Keeps start (env.process payload) s h) (λ device s h.
          and_next-Keeps start _ _ (Checked-Keeps start s _ h (check-Checked 5 s)) (λ _ s h.
            and_next-Keeps start _ _ (outside-Keeps start env.add_live_snapshot s h) (λ _ s h.
              let recorded =
                record_device_result env.now job target device
                  (transport_of env t parent owner job target payload) discovered s in
              let g : Follows start recorded = unfold record_device_result upsert_result in h in
              and_next-Keeps start _ _ (Checked-Keeps start recorded _ g (check-Checked 6 recorded))
                (λ _ s h. conclude-Keeps s h)))))

  store_payload-Keeps :
      (collector : String) (payload : Fields) (s : Session)
      → Follows start s
      → Keeps start (store_payload env t parent owner job target collector payload s)
  unfolding store_payload
  store_payload-Keeps collector payload s h =
      let done = finish_attempt env.now env.attempt_id "success" none none s in
      let g : Follows start done = unfold finish_attempt in h in
      let transport = transport_of env t parent owner job target payload in
      let platform = payload_string env.str payload "platform_family" target.platform_family in
      let e = build_evidence env job target collector payload in
      and_next-Keeps start _ _
        (lift-Keeps start env.text_of done
          (record_selection env.now t job.id transport platform done) g
          (record_selection-Ended env.now t job.id transport platform done))
        (λ _ s h. and_next-Keeps start _ _ (Checked-Keeps start s _ h (check-Checked 3 s)) (λ _ s h.
          and_next-Keeps start _ _
            (lift-Keeps start env.text_of s (create_evidence env.hash e s) h
              (create_evidence-Ended env.hash e s))
            (λ _ s h. process_payload-Keeps payload (commit s) (commit-Follows start s h))))

  -- What other sessions commit while a collector is awaited follows the row machine too.
  pub run_attempt-Keeps :
      (collector : String) (s : Session)
      → IsLawful env.while_checking
      → IsLawful env.while_collecting
      → Steady start s
      → Keeps start (run_attempt env t parent owner job target collector s)
  unfolding run_attempt
  run_attempt-Keeps collector s checking collecting h =
      Checked-Steady start s _ _ h (check-Checked 1 s) (λ _ h.
        awaited env.while_checking env.health_check s checking h (λ _ s h.
          Checked-Steady start s _ _ h (check-Checked 2 s) (λ _ h.
            awaited env.while_collecting env.collect s collecting h
              (λ payload s h. store_payload-Keeps collector payload s (Steady-Follows start s h)))))
    where
      awaited :
          {A B : Type 0} (meanwhile : List DiscoveryJobRecord → List DiscoveryJobRecord)
          (result : Done A) (s : Session) {f : A → Session → Session × Done B}
          → IsLawful meanwhile
          → Steady start s
          → ((a : A) → (s : Session) → Steady start s → Keeps start (f a s))
          → Keeps start (and_next (await env t parent owner job target meanwhile result s) f)
      awaited meanwhile (returns a) s {f} lawful h next =
          unfold await and_next in
          next a (interleave meanwhile s) (interleave-Steady start meanwhile s lawful h)
      awaited meanwhile (raises e) s {f} lawful h next =
          unfold await and_next in
          kept start (interleave meanwhile s) (raises e) (
            Steady-Follows start (interleave meanwhile s)
              (interleave-Steady start meanwhile s lawful h))
