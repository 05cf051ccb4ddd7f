-- ===== src/Discovery/TransportPolicy/Examples.antt =====
-- A credential profile that the theorem about backend/app/discovery/transport_policy.py applies to.
use network_operations_platf.Common.{◌≡◌, true, false, some, [], ◌∷◌, All, keep}
use network_operations_platf.Discovery.TransportPolicy.{
  MultiTransportPolicy, CredentialProfile, get_compatible_transports, types_of,
  from_credential_profile,
}
use network_operations_platf.Discovery.TransportPolicy.Allowed.{
  IsAllowed, HasDistinctNames, from_credential_profile_lem,
}

-- Its credentials fit SSH and Telnet; one name is unknown, one stands twice.
abbrev field_engineers : CredentialProfile
field_engineers = record {
  id = 4;
  credential_type = some "ssh_password";
  transport_types = "SNMP" ∷ "ssh" ∷ "serial" ∷ "telnet" ∷ "Ssh" ∷ [];
}

from_credential_profile_lem_example :
    (p : MultiTransportPolicy) × (from_credential_profile false true field_engineers ≡ some p)
    × HasDistinctNames [] p.transports
    × All
        (IsAllowed false true field_engineers.credential_type (types_of field_engineers))
        p.transports
    × (get_compatible_transports field_engineers.credential_type p
        ≡ keep (λ e. e.credential_compatible) p.transports)
from_credential_profile_lem_example = from_credential_profile_lem false true field_engineers
