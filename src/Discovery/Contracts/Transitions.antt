-- ===== src/Discovery/Contracts/Transitions.antt =====
-- The discovery job life cycle (`_ALLOWED_TRANSITIONS` of backend/app/discovery/contracts.py).
use network_operations_platf.Common.{
  ℕ, ◌+◌, ◌≤◌, ◌≡◌, ◌↔◌, inl, inr, refl, true, some, List, [], ◌∷◌, arith, Option-cases,
}
use network_operations_platf.Discovery.Contracts.{
  DiscoveryJobStatus, queued, running, cancelled, is_terminal, transition_job, drive,
}

-- The life cycle as a relation: work starts, ends in one of four ways, or is cancelled unstarted.
pub data Legal : DiscoveryJobStatus → DiscoveryJobStatus → Type 0 where
  start : Legal queued running
  drop : Legal queued cancelled
  finish : {s : DiscoveryJobStatus} → is_terminal s ≡ true → Legal running s

Legal→transition : {c t : DiscoveryJobStatus} → Legal c t → transition_job c t ≡ some t
unfolding transition_job
Legal→transition start = refl
Legal→transition drop = refl
Legal→transition (finish {s = t} h) = ground arith

transition→Legal : (c t u : DiscoveryJobStatus) → transition_job c t ≡ some u → Legal c t × (u ≡ t)
unfolding transition_job
transition→Legal queued t u h = grind (arith, start, drop)
transition→Legal running t u h = grind (arith, finish)
transition→Legal c t u h = ground arith

-- A transition is accepted exactly when the life cycle has it, and then gives the state asked for.
pub transition_job_iff :
    (c t u : DiscoveryJobStatus) → (transition_job c t ≡ some u) ↔ (Legal c t × (u ≡ t))
transition_job_iff c t u = (transition→Legal c t u, λ h. rw h.1 (Legal→transition h.0))

-- How many transitions a job has before it at most.
abbrev rank : DiscoveryJobStatus → ℕ
rank queued = 2
rank running = 1
rank _ = 0

Legal-rank : {c t : DiscoveryJobStatus} → Legal c t → rank t + 1 ≤ rank c
Legal-rank start = omega arith
Legal-rank drop = omega arith
Legal-rank (finish {s = t} h) = ground arith

drive-rank :
    (s : DiscoveryJobStatus) (ts : List DiscoveryJobStatus)
    → (drive s ts).1 + rank (drive s ts).0 ≤ rank s
unfolding drive
drive-rank s [] = omega arith
drive-rank s (t ∷ ts) = elim (Option-cases (transition_job s t)) [
  | inl e ↦ ground (arith, drive-rank s ts)
  | inr (u, e) ↦
      let l = transition→Legal s t u e in ground (arith, drive-rank u ts, l.1, Legal-rank l.0)
]

drive-terminal :
    (s : DiscoveryJobStatus) (ts : List DiscoveryJobStatus)
    → is_terminal s ≡ true
    → drive s ts ≡ (s, 0)
unfolding drive transition_job
drive-terminal s [] h = refl
drive-terminal s (t ∷ ts) h = ground (arith, drive-terminal s ts h)

ranked : (s t : DiscoveryJobStatus) (n : ℕ) → n + rank t ≤ rank s → n ≡ 2 → is_terminal t ≡ true
ranked s t n h e = ground (arith, h, e)

-- However many transitions are asked for, a job makes at most two. When it has made two, it is
-- terminal; and once it is terminal it makes none and stays as it is.
pub drive_bounded :
    (s : DiscoveryJobStatus) (ts : List DiscoveryJobStatus)
    → ((drive s ts).1 ≤ 2)
      × ((drive s ts).1 ≡ 2 → is_terminal (drive s ts).0 ≡ true)
      × (is_terminal s ≡ true → drive s ts ≡ (s, 0))
drive_bounded s ts = (
  ground (arith, drive-rank s ts),
  ranked s (drive s ts).0 (drive s ts).1 (drive-rank s ts),
  drive-terminal s ts,
)
