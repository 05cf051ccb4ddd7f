-- ===== src/Persistence/Histories/Frozen.antt =====
-- What no transaction on the jobs table undoes (backend/app/persistence/discovery_repositories.py).
use network_operations_platf.Common.{
  ℕ, ◌≡◌, ◌∙◌, true, String, some, List, arith, Bool-cases, inl, inr, ◌≢◌, Bool,
}
use network_operations_platf.Discovery.Contracts.{
  DiscoveryJobStatus, is_terminal, allowed_transitions, transition_job,
}
use network_operations_platf.Discovery.Scopes.{IpAddress}
use network_operations_platf.Persistence.Tables.{DiscoveryJobRecord, Session, get}
use network_operations_platf.Persistence.Jobs.{is_active, new_record}
use network_operations_platf.Persistence.Jobs.Updates.{get-update_where, get-append}
use network_operations_platf.Persistence.Steps.{
  IsClean, RowStep, claims_row, renews_row, changes_row, selects_row, asks_row, stops_row, ends_row,
  Effect, same, updated, added,
}
use network_operations_platf.Persistence.Histories.{Call, history}
use network_operations_platf.Persistence.Histories.Calls.{history-preserve}

no_way_out : (a b : DiscoveryJobStatus) → is_terminal a ≡ true → transition_job a b ≢ some b
unfolding transition_job allowed_transitions
no_way_out a b h e = ground arith

terminal-stuck : (r r' : DiscoveryJobRecord) → is_terminal r.state ≡ true → RowStep r r' → ⊥
terminal-stuck r r' h (claims_row now owner lease q o e) = ground arith
terminal-stuck r r' h (renews_row now lease q o e) = ground arith
terminal-stuck r r' h (changes_row now c q e) = no_way_out r.state c.target_state h q
terminal-stuck r r' h (selects_row now transport platform q e) = ground arith
terminal-stuck r r' h (asks_row now by reason q e) = ground arith
terminal-stuck r r' h (stops_row now by reason ending q over e) = ground arith
terminal-stuck r r' h (ends_row ending active over e) = unfold is_active in ground arith

Effect-keeps :
    (t : String) (k : ℕ) (rows rows' : List DiscoveryJobRecord) (r : DiscoveryJobRecord)
    → Effect rows rows'
    → get t k rows ≡ some r
    → is_terminal r.state ≡ true
    → get t k rows' ≡ some r
Effect-keeps t k rows rows' r (same e) here h = rw e here
Effect-keeps t k rows rows' r (updated p f place guarded e) here h = elim (Bool-cases (p r)) [
  | inl y ↦ elim (terminal-stuck r (f r) h (guarded t k r here y)) [ ]
  | inr n ↦
      rw e
        (get-update_where t k p f rows (λ q. ((place q).0, (place q).1)) ∙ ground (arith, here, n))
]
Effect-keeps t k rows rows' r (added now n fresh free e) here h =
    rw e (get-append t k rows (new_record now n) ∙ ground (arith, here))

-- A job that reached a terminal state is frozen: whatever calls follow, from a session with nothing
-- pending, cancellations, recoveries and the reconciliation of its parent included, the row of its
-- key is the same in every column.
pub terminal_frozen :
    (ip : IpAddress) (sync : Bool) (calls : List Call) (t : String) (k : ℕ) (s : Session)
    (r : DiscoveryJobRecord)
    → IsClean s
    → get t k s.committed ≡ some r
    → is_terminal r.state ≡ true
    → get t k (history ip sync calls s).committed ≡ some r
terminal_frozen ip sync calls t k s r clean here h =
    history-preserve ip sync (λ rows. get t k rows ≡ some r)
      (λ rows rows' effect found. Effect-keeps t k rows rows' r effect found h) calls s clean here
