-- ===== src/Discovery/Contracts/Codes.antt =====
-- The texts of the failure codes (backend/app/discovery/contracts.py).
use network_operations_platf.Common.{◌≡◌, refl, some}
use network_operations_platf.Discovery.Contracts.{DiscoveryFailureCode, value, failure_code}

pub failure_code-value : (c : DiscoveryFailureCode) → failure_code (value c) ≡ some c
unfolding failure_code
failure_code-value DiscoveryFailureCode.target_not_found = refl
failure_code-value _ = refl
