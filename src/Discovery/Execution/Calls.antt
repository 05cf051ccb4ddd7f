-- ===== src/Discovery/Execution/Calls.antt =====
-- The frame of an execution in backend/app/discovery/execution.py: its exceptions, what it is given from
-- outside, and its checks for a lost lease and for cancellation.
pub mod Moves
use network_operations_platf.Common.{
  ℕ, Bool, true, false, String, Option, none, some, List, not, if◌then◌else◌,
}
use network_operations_platf.Discovery.Scopes.{IpAddress}
use network_operations_platf.Discovery.Fanout.{Fresh}
use network_operations_platf.Discovery.TransportPolicy.{TransportPolicyEntry, CredentialProfile}
use network_operations_platf.Discovery.MultiTransport.{
  Value, Fields, Collection, Validation, Recording,
}
use network_operations_platf.Persistence.Tables.{DiscoveryJobRecord, Session, alone, get}
use network_operations_platf.Persistence.Jobs.{
  DiscoveryPersistenceError, Result, ok, err, reason_or_default, cancellation_requested,
}
use network_operations_platf.Persistence.Trees.{request_cancellation}
use network_operations_platf.Discovery.Execution.Failures.{
  ExecutionError, cancellation_signal, lease_lost, persistence,
}
use network_operations_platf.Discovery.Execution.Devices.{Device}

pub data Done (A : Type 0) : Type 0 where
  returns : A → Done A
  raises : ExecutionError → Done A

-- A statement, and what follows it unless it raised.
unfoldable pub and_next :
    {A B : Type 0} → Session × Done A → (A → Session → Session × Done B) → Session × Done B
and_next (s, returns a) f = f a s
and_next (s, raises e) f = (s, raises e)

-- What the code does not compute. All clock readings of one execution are one instant.
-- `while_checking` and `while_collecting` are what other sessions commit to the jobs while a
-- collector is awaited; a cancellation that the collector's own callback asks for counts as one of
-- these.
pub record Environment : Type 0 where
  pub now : ℕ
  pub attempt_id : ℕ
  pub evidence_id : ℕ
  -- Whether the lease is found lost at a check, by the number of the check.
  pub lease_is_lost : ℕ → Bool
  -- Collectors, parsers and snapshots.
  pub collector : Done String
  pub collector_of : Option String → String
  pub health_check : Done Unit
  pub collect : Done Fields
  pub process : Fields → Done (Option Device)
  pub add_live_snapshot : Done Unit
  pub while_checking : List DiscoveryJobRecord → List DiscoveryJobRecord
  pub while_collecting : List DiscoveryJobRecord → List DiscoveryJobRecord
  -- Several transports.
  pub uuid : String → Option ℕ
  pub find_profile : ℕ → Option CredentialProfile
  pub select : TransportPolicyEntry → Option (Collection × Option (Fields → Validation))
  pub unsupported_ids : ℕ → ℕ
  pub row_ids : ℕ → ℕ
  pub recording : Recording
  pub redact : String → String
  -- Texts.
  pub metadata : String → Fields
  pub str : Value → String
  pub json : Fields → String
  pub hash : String → String
  pub text_of : DiscoveryPersistenceError → String
  pub safe_message : ExecutionError → String
  -- The children of a job that is cancelled.
  pub ip : IpAddress
  pub synchronised : Bool
  pub fresh : ℕ → Fresh

-- What is called outside the tables, and comes back at once.
unfoldable pub outside : {A : Type 0} → Done A → Session → Session × Done A
outside result s = (s, result)

-- A method of a repository.
unfoldable pub lift :
    {A : Type 0} → (DiscoveryPersistenceError → String) → Session × Result A → Session × Done A
lift text_of (s, ok a) = (s, returns a)
lift text_of (s, err e) = (s, raises (persistence e (text_of e)))

module _ (env : Environment) where
  -- The parent job was asked to stop: its child is asked too.
  unfoldable pub cancel_with_parent :
      String → ℕ → Option DiscoveryJobRecord → Session → Session × Done Unit
  unfolding request_cancellation and_next lift reason_or_default
  cancel_with_parent tenant_id job_id none s = (s, raises cancellation_signal)
  cancel_with_parent tenant_id job_id (some parent) s = elim parent.cancellation_requested_by [
    | none ↦ (s, raises cancellation_signal)
    | some by ↦
        and_next
          (lift env.text_of (
            request_cancellation env.ip env.synchronised alone env.now env.fresh tenant_id job_id by
              (reason_or_default parent.cancellation_reason) s))
          (λ _ next. (next, raises cancellation_signal))
  ]

  -- `_raise_if_cancelled`, at the check with the number.
  unfoldable pub raise_if_cancelled : ℕ → String → ℕ → Option ℕ → Session → Session × Done Unit
  unfolding cancellation_requested cancel_with_parent get
  raise_if_cancelled n tenant_id job_id parent_job_id s =
      if env.lease_is_lost n
      then (s, raises lease_lost)
      else if cancellation_requested tenant_id job_id s
      then (s, raises cancellation_signal)
      else elim parent_job_id [
        | none ↦ (s, returns tt)
        | some parent_id ↦
            if not (cancellation_requested tenant_id parent_id s)
            then (s, returns tt)
            else cancel_with_parent tenant_id job_id (get tenant_id parent_id s.working) s
      ]
