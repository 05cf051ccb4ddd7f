-- ===== src/Persistence/Histories/Soundness.antt =====
-- The row invariant of discovery jobs (backend/app/persistence/discovery_repositories.py): who owns a
-- job, its lease and its completion time agree with its state.
use network_operations_platf.Common.{
  ℕ, ◌≡◌, refl, sym, ap, ◌∙◌, subst, true, false, String, Option, none, some, List, is_none, not,
  arith, Bool-cases, inl, inr, Option-cases, Bool,
}
use network_operations_platf.Discovery.Contracts.{
  DiscoveryJobStatus, queued, running, is_terminal, allowed_transitions, transition_job,
}
use network_operations_platf.Discovery.Scopes.{IpAddress}
use network_operations_platf.Persistence.Tables.{DiscoveryJobRecord, Session, get}
use network_operations_platf.Persistence.Jobs.{
  NewJob, Change, new_record, claimed, renewed, changed, selected, requested, Ending, ended,
}
use network_operations_platf.Persistence.Jobs.Updates.{get-update_where, get-append}
use network_operations_platf.Persistence.Steps.{
  IsClean, RowStep, claims_row, renews_row, changes_row, selects_row, asks_row, stops_row, ends_row,
  Effect, same, updated, added,
}
use network_operations_platf.Persistence.Histories.{Call, history}
use network_operations_platf.Persistence.Histories.Calls.{history-preserve}

-- Only a running job has an owner; owner, lease and heartbeat are written and cleared together; a
-- terminal job has no owner; and a job has a completion time exactly if it is terminal.
pub record IsSound (r : DiscoveryJobRecord) : Type 0 where
  pub waiting : r.state ≡ queued → r.execution_owner ≡ none
  pub paired_lease : is_none r.lease_expires_at ≡ is_none r.execution_owner
  pub paired_heartbeat : is_none r.last_heartbeat_at ≡ is_none r.execution_owner
  pub released : is_terminal r.state ≡ true → r.execution_owner ≡ none
  pub completed : is_terminal r.state ≡ not (is_none r.completed_at)

no_way_back : (a b : DiscoveryJobStatus) → transition_job a b ≡ some b → b ≡ queued → a ≡ queued
unfolding transition_job allowed_transitions
no_way_back a b h e = ground arith

no_way_on : (a b : DiscoveryJobStatus) → transition_job a b ≡ some b → is_terminal a ≡ false
unfolding transition_job allowed_transitions
no_way_on a b h = ground arith

claimed-IsSound :
    (now owner lease : ℕ) (r : DiscoveryJobRecord)
    → r.state ≡ queued
    → IsSound r
    → IsSound (claimed now owner lease r)
unfolding claimed
claimed-IsSound now owner lease r q h = record {
  waiting = λ e. ground arith;
  paired_lease = refl;
  paired_heartbeat = refl;
  released = λ e. ground arith;
  completed = ground (arith, h.completed);
}

renewed-IsSound :
    (now lease : ℕ) (r : DiscoveryJobRecord)
    → r.state ≡ running
    → is_none r.execution_owner ≡ false
    → IsSound r
    → IsSound (renewed now lease r)
unfolding renewed
renewed-IsSound now lease r q o h = record {
  waiting = λ e. ground arith;
  paired_lease = sym o;
  paired_heartbeat = sym o;
  released = h.released;
  completed = h.completed;
}

changed-IsSound :
    (now : ℕ) (c : Change) (r : DiscoveryJobRecord)
    → transition_job r.state c.target_state ≡ some c.target_state
    → IsSound r
    → IsSound (changed now c r)
unfolding changed
changed-IsSound now c r legal h = elim (Bool-cases (is_terminal c.target_state)) [
  | inl y ↦ record {
    waiting = λ e. ground arith;
    paired_lease = ground arith;
    paired_heartbeat = ground arith;
    released = λ e. ground arith;
    completed = ground arith;
  }
  | inr n ↦ record {
    waiting = λ e. ground (arith, h.waiting (no_way_back r.state c.target_state legal e));
    paired_lease = ground (arith, h.paired_lease);
    paired_heartbeat = ground (arith, h.paired_heartbeat);
    released = λ e. ground arith;
    completed = ground (arith, h.completed, no_way_on r.state c.target_state legal);
  }
]

selected-IsSound :
    (now : ℕ) (transport platform : Option String) (r : DiscoveryJobRecord)
    → IsSound r
    → IsSound (selected now transport platform r)
unfolding selected
selected-IsSound now transport platform r h = record {
  waiting = h.waiting;
  paired_lease = h.paired_lease;
  paired_heartbeat = h.paired_heartbeat;
  released = h.released;
  completed = h.completed;
}

requested-IsSound :
    (now by : ℕ) (reason : String) (r : DiscoveryJobRecord)
    → IsSound r
    → IsSound (requested now by reason r)
unfolding requested
requested-IsSound now by reason r h = record {
  waiting = h.waiting;
  paired_lease = h.paired_lease;
  paired_heartbeat = h.paired_heartbeat;
  released = h.released;
  completed = h.completed;
}

-- Whatever the row was, its end makes it sound.
ended-IsSound :
    (e : Ending) (r : DiscoveryJobRecord) → is_terminal e.state ≡ true → IsSound (ended e r)
unfolding ended
ended-IsSound e r over = record {
  waiting = λ q. refl;
  paired_lease = refl;
  paired_heartbeat = refl;
  released = λ q. refl;
  completed = over;
}

new_record-IsSound : (now : ℕ) (n : NewJob) → IsSound (new_record now n)
unfolding new_record
new_record-IsSound now n = record {
  waiting = λ e. refl;
  paired_lease = refl;
  paired_heartbeat = refl;
  released = λ e. refl;
  completed = refl;
}

pub RowStep-IsSound : (r r' : DiscoveryJobRecord) → RowStep r r' → IsSound r → IsSound r'
RowStep-IsSound r r' (claims_row now owner lease q o e) h =
    rw e (claimed-IsSound now owner lease r q h)
RowStep-IsSound r r' (renews_row now lease q o e) h = rw e (renewed-IsSound now lease r q o h)
RowStep-IsSound r r' (changes_row now c q e) h = rw e (changed-IsSound now c r q h)
RowStep-IsSound r r' (selects_row now transport platform q e) h =
    rw e (selected-IsSound now transport platform r h)
RowStep-IsSound r r' (asks_row now by reason q e) h = rw e (requested-IsSound now by reason r h)
RowStep-IsSound r r' (stops_row now by reason ending q over e) h =
    let ends : is_terminal ending.state ≡ true = rw over refl in
    rw e (ended-IsSound ending (requested now by reason r) ends)
RowStep-IsSound r r' (ends_row ending active over e) h = rw e (ended-IsSound ending r over)

-- Every row that a key stands for is sound.
abbrev pub AllSound : List DiscoveryJobRecord → Type 0
AllSound rows = (t : String) (k : ℕ) (r : DiscoveryJobRecord) → get t k rows ≡ some r → IsSound r

some_inj : (a b : DiscoveryJobRecord) → some a ≡ some b → a ≡ b
some_inj a b h = cc

Effect-AllSound :
    (rows rows' : List DiscoveryJobRecord) → Effect rows rows' → AllSound rows → AllSound rows'
Effect-AllSound rows rows' (same e) h t k r here = h t k r (rw (sym e) here)
Effect-AllSound rows rows' (updated p f place guarded e) h t k r here =
    let after =
      sym (get-update_where t k p f rows (λ q. ((place q).0, (place q).1)))
      ∙ ap (get t k) (sym e)
      ∙ here in
    elim (Option-cases (get t k rows)) [
      | inl none_found ↦ ground (arith, after)
      | inr (q, found) ↦ elim (Bool-cases (p q)) [
        | inl y ↦
            subst IsSound (let e' : f q ≡ r = ground (arith, after) in e')
              (RowStep-IsSound q (f q) (guarded t k q found y) (h t k q found))
        | inr n ↦ subst IsSound (let e' : q ≡ r = ground (arith, after) in e') (h t k q found)
      ]
    ]
Effect-AllSound rows rows' (added now n fresh free e) h t k r here =
    let after = sym (get-append t k rows (new_record now n)) ∙ ap (get t k) (sym e) ∙ here in
    elim (Option-cases (get t k rows)) [
      | inl none_found ↦
          subst IsSound (let e' : new_record now n ≡ r = ground (arith, after) in e')
            (new_record-IsSound now n)
      | inr (q, found) ↦
          subst IsSound (let e' : q ≡ r = ground (arith, after) in e') (h t k q found)
    ]

-- Whatever calls follow, from a session with nothing pending whose rows are sound, every row that
-- can be read is sound: a queued or a terminal job has no owner, owner, lease and heartbeat are set
-- together, and exactly the terminal jobs have a completion time.
pub history-IsSound :
    (ip : IpAddress) (sync : Bool) (calls : List Call) (s : Session)
    → IsClean s
    → AllSound s.committed
    → AllSound (history ip sync calls s).committed
history-IsSound ip sync = history-preserve ip sync AllSound Effect-AllSound
