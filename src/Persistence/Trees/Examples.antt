-- ===== src/Persistence/Trees/Examples.antt =====
-- Runs of `request_cancellation` (backend/app/persistence/discovery_repositories.py) that the theorems
-- about it apply to.
use network_operations_platf.Common.{ℕ, ◌≡◌, ◌⊎◌, refl, true, Option, none, some, ◌∷◌, []}
use network_operations_platf.Discovery.Contracts.{cancelled}
use network_operations_platf.Persistence.Tables.{DiscoveryJobRecord, alone, get}
use network_operations_platf.Persistence.Jobs.{
  DiscoveryPersistenceError, invalid_transition, ok, err, ended, requested, claim, Change,
  transition, finalise_cancellation,
}
use network_operations_platf.Persistence.Samples.{
  waiting_job, taken_job, scanning, holding, small_network, next_ids,
}
use network_operations_platf.Persistence.Trees.{request_cancellation}
use network_operations_platf.Persistence.Trees.Cancellation.{stopped, queued_cancelled}
use network_operations_platf.Persistence.Trees.Cancellation.Running.{running_asked}

waiting_here : get "acme" 11 (waiting_job ∷ []) ≡ some waiting_job
unfolding get
waiting_here = refl

taken_here : get "acme" 11 (taken_job ∷ []) ≡ some taken_job
unfolding get
taken_here = refl

-- A queued range: its run stays open and no result is written.
queued_cancelled_example :
    ((request_cancellation small_network true alone 115 next_ids "acme" 11 2 "maintenance"
        (scanning (waiting_job ∷ []))).1
      ≡ ok (
        some (ended (stopped 115 "maintenance") (requested 115 2 "maintenance" waiting_job)),
        true,
      ))
    × ((request_cancellation small_network true alone 115 next_ids "acme" 11 2 "maintenance"
          (scanning (waiting_job ∷ []))).0.others
        ≡ (scanning (waiting_job ∷ [])).others)
    × ((later owner lease : ℕ)
        → (e : DiscoveryPersistenceError) × ((claim alone later "acme" 11 owner lease
              (request_cancellation small_network true alone 115 next_ids "acme" 11 2 "maintenance"
                (scanning (waiting_job ∷ []))).0).1
            ≡ err e))
queued_cancelled_example =
    queued_cancelled small_network 115 next_ids "acme" 11 2 "maintenance"
      (scanning (waiting_job ∷ [])) waiting_job waiting_here refl refl

running_asked_example :
    ((request_cancellation small_network true alone 115 next_ids "acme" 11 2 "maintenance"
        (holding (taken_job ∷ []))).1
      ≡ ok (some (requested 115 2 "maintenance" taken_job), true))
    × ((later : ℕ) (c : Change)
        → c.require_no_cancellation ≡ true
        → (transition alone later "acme" 11 c
            (request_cancellation small_network true alone 115 next_ids "acme" 11 2 "maintenance"
              (holding (taken_job ∷ []))).0).1
          ≡ err invalid_transition)
    × ((later : ℕ) (owner : Option ℕ)
        → (owner ≡ none) ⊎ ((w : ℕ) × (owner ≡ some w) × (taken_job.execution_owner ≡ some w))
        → (r : DiscoveryJobRecord) × ((finalise_cancellation alone later "acme" 11 owner
              (request_cancellation small_network true alone 115 next_ids "acme" 11 2 "maintenance"
                (holding (taken_job ∷ []))).0).1
            ≡ ok (some r))
          × (r.state ≡ cancelled)
          × (r.execution_owner ≡ none))
running_asked_example =
    running_asked small_network true 115 next_ids "acme" 11 2 "maintenance"
      (holding (taken_job ∷ [])) taken_job taken_here refl refl
