-- ===== src/Discovery/MultiTransport/Exceptions.antt =====
-- `_classify_exception` and `_safe_failure_message` of backend/app/discovery/multi_transport.py.
use network_operations_platf.Common.{
  ℕ, zero, suc, String, Option, none, some, [], ◌∷◌, any, str_eq, ◌||◌, lower, strip, contains,
  if◌then◌else◌,
}
use network_operations_platf.Discovery.Contracts.{DiscoveryFailureCode}

-- The classes that are told apart by `isinstance`.
pub data ExceptionClass : Type 0 where
  credential_resolution authentication dependency unavailable other : ExceptionClass

pub record Exception : Type 0 where
  pub class : ExceptionClass
  pub type_name : String
  pub message : String

-- The tests on the text of an exception, in lower case, and on the name of its type.
classify_text : String → String → DiscoveryFailureCode
unfolding contains
classify_text message exc_type =
    if any (λ term. contains term message)
      ("authentication" ∷ "unauthorized" ∷ "credential" ∷ "login" ∷ "auth" ∷ [])
    then DiscoveryFailureCode.authentication_failed
    else if contains "refused" message || str_eq exc_type "connectionrefusederror"
    then DiscoveryFailureCode.connection_refused
    else if any (λ term. contains term message) ("timeout" ∷ "timed out" ∷ [])
        || any (str_eq exc_type) ("timeouterror" ∷ "asyncio.timeouterror" ∷ [])
    then DiscoveryFailureCode.connection_timeout
    else if any (λ term. contains term message) ("connection" ∷ "network" ∷ "unreachable" ∷ [])
    then DiscoveryFailureCode.connection_failed
    else if contains "transport" message
    then DiscoveryFailureCode.transport_unavailable
    else DiscoveryFailureCode.discovery_failed

classify_class : ExceptionClass → String → String → DiscoveryFailureCode
unfolding classify_text lower
classify_class credential_resolution message type_name =
    DiscoveryFailureCode.credential_resolution_failed
classify_class authentication message type_name = DiscoveryFailureCode.authentication_failed
classify_class dependency message type_name = DiscoveryFailureCode.transport_unavailable
classify_class unavailable message type_name = DiscoveryFailureCode.transport_unavailable
classify_class other message type_name = classify_text (lower message) (lower type_name)

unfoldable pub classify_exception : Exception → DiscoveryFailureCode
unfolding classify_class
classify_exception exc = classify_class exc.class exc.message exc.type_name

-- `text[:n]`
take_text : ℕ → String → String
take_text zero s = ""
take_text (suc n) String.[] = ""
take_text (suc n) (String.◌∷◌ c s) = String.◌∷◌ c (take_text n s)

-- `message or None`
none_if_empty : String → Option String
none_if_empty s = if str_eq s "" then none else some s

trimmed : Option String → String
unfolding strip
trimmed none = ""
trimmed (some s) = strip s

unfoldable pub safe_failure_message : (String → String) → Option String → Option String
unfolding take_text none_if_empty trimmed
safe_failure_message redact message =
    if str_eq (trimmed message) ""
    then none
    else none_if_empty (take_text 500 (redact (trimmed message)))
