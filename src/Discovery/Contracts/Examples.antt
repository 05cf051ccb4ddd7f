-- ===== src/Discovery/Contracts/Examples.antt =====
-- The discovery contracts (backend/app/discovery/contracts.py) at concrete inputs.
use network_operations_platf.Common.{
  none, any, false, ◌≤◌, ◌≡◌, ◌↔◌, refl, true, some, List, [], ◌∷◌,
}
use network_operations_platf.Discovery.Contracts.{
  TransportCapability, DiscoveryJobStatus, queued, running, cancelled, succeeded, is_terminal,
  transition_job, drive, ssh, snmp, telnet, capability_eq, DiscoveryTransportPolicy, unique_from,
  configured, ordered,
}
use network_operations_platf.Discovery.Contracts.Transitions.{
  Legal, transition_job_iff, drive_bounded,
}
use network_operations_platf.Discovery.Contracts.Ordered.{HasNoRepeat, ordered_lem}

transition_job_iff_example :
    (transition_job queued succeeded ≡ some succeeded)
    ↔ (Legal queued succeeded × (succeeded ≡ succeeded))
transition_job_iff_example = transition_job_iff queued succeeded succeeded

abbrev requests : List DiscoveryJobStatus
requests = running ∷ queued ∷ succeeded ∷ cancelled ∷ []

two_of_four : drive queued requests ≡ (succeeded, 2)
unfolding drive transition_job
two_of_four = refl

drive_bounded_example :
    ((drive queued requests).1 ≤ 2)
    × ((drive queued requests).1 ≡ 2 → is_terminal (drive queued requests).0 ≡ true)
    × (is_terminal queued ≡ true → drive queued requests ≡ (queued, 0))
drive_bounded_example = drive_bounded queued requests

abbrev policy : DiscoveryTransportPolicy
policy = record {
  preferred = some ssh;
  fallbacks = snmp ∷ ssh ∷ telnet ∷ snmp ∷ [];
  allow_insecure_telnet = true;
}

policy_order : ordered policy ≡ some (ssh ∷ snmp ∷ telnet ∷ [])
unfolding ordered unique_from capability_eq
policy_order = refl

ordered_lem_example :
    ((ordered policy ≡ none) ↔ (
      (policy.allow_insecure_telnet ≡ false)
      × (any (capability_eq telnet) (configured policy) ≡ true)))
    × ((cs : List TransportCapability)
        → ordered policy ≡ some cs
        → HasNoRepeat cs
          × ((c : TransportCapability)
              → any (capability_eq c) cs ≡ any (capability_eq c) (configured policy))
          × (policy.allow_insecure_telnet ≡ false → any (capability_eq telnet) cs ≡ false)
          × ((c : TransportCapability)
              → policy.preferred ≡ some c
              → cs ≡ c ∷ unique_from (c ∷ []) policy.fallbacks))
ordered_lem_example = ordered_lem policy
