-- ===== src/Persistence/Histories/Examples.antt =====
-- Runs of transactions on discovery jobs (backend/app/persistence/discovery_repositories.py) that the
-- theorems about them apply to.
use network_operations_platf.Common.{◌≡◌, refl, false, none, some, List, [], ◌∷◌, true}
use network_operations_platf.Discovery.Contracts.{cancelled}
use network_operations_platf.Persistence.Tables.{get}
use network_operations_platf.Persistence.Jobs.{Change}
use network_operations_platf.Persistence.Steps.{IsClean, Effects}
use network_operations_platf.Persistence.Histories.{
  creates, claims, transitions, Call, does, cancels, recovers, serve, history,
}
use network_operations_platf.Persistence.Histories.Calls.{serve-Effects}
use network_operations_platf.Persistence.Histories.Frozen.{terminal_frozen}
use network_operations_platf.Persistence.Histories.Soundness.{AllSound, history-IsSound}
use network_operations_platf.Persistence.Histories.Uniqueness.{
  IsExclusive, empty_IsExclusive, history-IsExclusive,
}
use network_operations_platf.Persistence.Samples.{
  core_switch, waiting_job, cancelled_job, holding, scanning, next_ids, small_network,
}

abbrev cancelling : Change
cancelling = record {
  target_state = cancelled;
  failure_code = none;
  failure_message = none;
  require_no_cancellation = false;
  expected_execution_owner = none;
}

abbrev busy_day : List Call
busy_day =
    does (creates false 100 core_switch)
    ∷ does (claims 110 "acme" 11 5 30)
    ∷ cancels 115 next_ids "acme" 11 2 "maintenance"
    ∷ does (transitions 120 "acme" 11 cancelling)
    ∷ recovers 150 next_ids "acme" 11 160
    ∷ []

cancelled_here : get "acme" 11 (cancelled_job ∷ []) ≡ some cancelled_job
unfolding get
cancelled_here = refl

terminal_frozen_example :
    get "acme" 11 (history small_network true busy_day (holding (cancelled_job ∷ []))).committed
    ≡ some cancelled_job
terminal_frozen_example =
    terminal_frozen small_network true busy_day "acme" 11 (holding (cancelled_job ∷ []))
      cancelled_job (refl, refl) cancelled_here refl

empty_AllSound : AllSound []
unfolding get
empty_AllSound t k r h = cc

history-IsSound_example : AllSound (history small_network true busy_day (holding [])).committed
history-IsSound_example =
    history-IsSound small_network true busy_day (holding []) (refl, refl) empty_AllSound

history-IsExclusive_example :
    IsExclusive (history small_network true busy_day (holding [])).committed
history-IsExclusive_example =
    history-IsExclusive small_network true busy_day (holding []) (refl, refl) empty_IsExclusive

serve-Effects_example :
    Effects
      (waiting_job ∷ [])
      (serve small_network true
        (cancels 115 next_ids "acme" 11 2 "maintenance")
        (scanning (waiting_job ∷ []))).committed
    × IsClean (
        serve small_network true
          (cancels 115 next_ids "acme" 11 2 "maintenance")
          (scanning (waiting_job ∷ [])))
serve-Effects_example =
    serve-Effects small_network true (cancels 115 next_ids "acme" 11 2 "maintenance")
      (scanning (waiting_job ∷ [])) (refl, refl)
