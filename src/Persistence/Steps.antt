-- ===== src/Persistence/Steps.antt =====
-- The row machine of discovery jobs: what the statements of backend/app/persistence/
-- discovery_repositories.py and backend/app/discovery/fanout.py do to a row and to the table.
pub mod Outcomes
pub mod Follows
pub mod Selections
use network_operations_platf.Common.{
  ℕ, ◌≡◌, ◌≢◌, refl, sym, subst, ◌∙◌, Bool, true, false, String, Option, none, some, List, [], ◌∷◌,
  ◌++◌, any, is_none, ◌==◌, ◌⊎◌, inl, inr,
}
use network_operations_platf.Discovery.Contracts.{
  DiscoveryJobStatus, queued, running, cancelled, is_terminal, transition_job,
}
use network_operations_platf.Persistence.Tables.{
  DiscoveryJobRecord, Session, rollback, commit, update_where, get,
}
use network_operations_platf.Persistence.Jobs.{
  is_active, is_active_for, new_record, and_then, Result, ok, err, NewJob, Change, Ending, ended,
  requested, claimed, renewed, changed, selected,
}

-- Nothing is pending.
abbrev pub IsClean : Session → Type 0
IsClean s = (s.working ≡ s.committed) × (s.others ≡ s.saved)

-- Commit after success, roll back after an error.
unfoldable pub close : {A : Type 0} → Session × Result A → Session
unfolding commit rollback
close (s, ok a) = commit s
close (s, err e) = rollback s

-- One row's life: it is claimed while queued and unowned, renewed while running and owned, changed
-- along the job life cycle, annotated while running, asked to stop while running, stopped while
-- queued, or ended from outside while active.
pub data RowStep (r r' : DiscoveryJobRecord) : Type 0 where
  claims_row :
      (now owner lease : ℕ)
      → r.state ≡ queued
      → r.execution_owner ≡ none
      → r' ≡ claimed now owner lease r
      → RowStep r r'
  renews_row :
      (now lease : ℕ)
      → r.state ≡ running
      → is_none r.execution_owner ≡ false
      → r' ≡ renewed now lease r
      → RowStep r r'
  changes_row :
      (now : ℕ) (c : Change)
      → transition_job r.state c.target_state ≡ some c.target_state
      → r' ≡ changed now c r
      → RowStep r r'
  selects_row :
      (now : ℕ) (transport platform : Option String)
      → r.state ≡ running
      → r' ≡ selected now transport platform r
      → RowStep r r'
  asks_row :
      (now by : ℕ) (reason : String)
      → r.state ≡ running
      → r' ≡ requested now by reason r
      → RowStep r r'
  stops_row :
      (now by : ℕ) (reason : String) (e : Ending)
      → r.state ≡ queued
      → e.state ≡ cancelled
      → r' ≡ ended e (requested now by reason r)
      → RowStep r r'
  ends_row :
      (e : Ending)
      → is_active r.state ≡ true
      → is_terminal e.state ≡ true
      → r' ≡ ended e r
      → RowStep r r'

-- A write that leaves the key and the target of a row alone.
abbrev pub KeepsPlace : (DiscoveryJobRecord → DiscoveryJobRecord) → Type 0
KeepsPlace f =
    (r : DiscoveryJobRecord)
    → ((f r).id ≡ r.id) × ((f r).tenant_id ≡ r.tenant_id) × ((f r).target_id ≡ r.target_id)

-- A guarded write that makes row steps only.
abbrev pub IsGuarded :
    List DiscoveryJobRecord
    → (DiscoveryJobRecord → Bool)
    → (DiscoveryJobRecord → DiscoveryJobRecord)
    → Type 0
IsGuarded rows p f =
    (t : String) (k : ℕ) (r : DiscoveryJobRecord)
    → get t k rows ≡ some r
    → p r ≡ true
    → RowStep r (f r)

-- What one statement may do to the table: nothing, row steps on guarded rows, or one new row for
-- a target without an active job.
pub data Effect (rows rows' : List DiscoveryJobRecord) : Type 0 where
  same : rows' ≡ rows → Effect rows rows'
  updated :
      (p : DiscoveryJobRecord → Bool) (f : DiscoveryJobRecord → DiscoveryJobRecord)
      → KeepsPlace f
      → IsGuarded rows p f
      → rows' ≡ update_where p f rows
      → Effect rows rows'
  added :
      (now : ℕ) (n : NewJob)
      → any (λ r. r.id == n.id) rows ≡ false
      → any (is_active_for n.tenant_id n.target_id) rows ≡ false
      → rows' ≡ rows ++ new_record now n ∷ []
      → Effect rows rows'

-- One statement after another.
pub data Effects : List DiscoveryJobRecord → List DiscoveryJobRecord → Type 0 where
  stays : {rows : List DiscoveryJobRecord} → Effects rows rows
  moves :
      {rows mid rows' : List DiscoveryJobRecord}
      → Effect rows mid
      → Effects mid rows'
      → Effects rows rows'

pub one : {rows rows' : List DiscoveryJobRecord} → Effect rows rows' → Effects rows rows'
one e = moves e stays

pub Effects-trans :
    {rows mid rows' : List DiscoveryJobRecord}
    → Effects rows mid
    → Effects mid rows'
    → Effects rows rows'
Effects-trans stays f = f
Effects-trans (moves e es) f = moves e (Effects-trans es f)

-- What every statement preserves holds after any number of them.
pub Effects-preserve :
    (P : List DiscoveryJobRecord → Type 0)
    → ((rows rows' : List DiscoveryJobRecord) → Effect rows rows' → P rows → P rows')
    → {rows rows' : List DiscoveryJobRecord} → Effects rows rows'
    → P rows
    → P rows'
Effects-preserve P step stays p = p
Effects-preserve P step (moves e es) p = Effects-preserve P step es (step _ _ e p)

-- How a method leaves the tables: uncommitted, with its statements made or rolled back, or committed.
abbrev pub Ends : Session → Session → Type 0
Ends s s' =
    ((s'.committed ≡ s.committed) × (Effects s.working s'.working ⊎ (s'.working ≡ s'.committed)))
    ⊎ (Effects s.working s'.working × (s'.committed ≡ s'.working))

-- A method that made its statements without a commit, or failed.
abbrev pub Moved : {A : Type 0} → Session → Session × Result A → Type 0
Moved s (s', ok a) = Effects s.working s'.working × (s'.committed ≡ s.committed)
Moved s (s', err e) = Ends s s'

-- A method that may commit at its end, or roll back.
abbrev pub Ended : {A : Type 0} → Session → Session × Result A → Type 0
Ended s (s', r) = Ends s s'

-- Nothing was done, or all of it was rolled back.
pub Ends-stays : (s : Session) → Ends s s
Ends-stays s = inl (refl, inl stays)

pub Ends-rollback : (s : Session) → Ends s (rollback s)
unfolding rollback
Ends-rollback s = inl (refl, inr refl)

pub Ends-commit : (s : Session) → Ends s (commit s)
unfolding commit
Ends-commit s = inr (stays, refl)

-- A method after statements that committed nothing.
pub Ends-after :
    (s mid s' : Session)
    → Effects s.working mid.working
    → mid.committed ≡ s.committed
    → Ends mid s'
    → Ends s s'
Ends-after s mid s' es kept (inl (same_rows, inl f)) =
    inl (same_rows ∙ kept, inl (Effects-trans es f))
Ends-after s mid s' es kept (inl (same_rows, inr back)) = inl (same_rows ∙ kept, inr back)
Ends-after s mid s' es kept (inr (f, done)) = inr (Effects-trans es f, done)

pub Moved-after :
    {A : Type 0} (s mid : Session) (q : Session × Result A)
    → Effects s.working mid.working
    → mid.committed ≡ s.committed
    → Moved mid q
    → Moved s q
Moved-after s mid (s', ok a) es kept m = (Effects-trans es m.0, m.1 ∙ kept)
Moved-after s mid (s', err e) es kept m = Ends-after s mid s' es kept m

pub Ended-after :
    {A : Type 0} (s mid : Session) (q : Session × Result A)
    → Effects s.working mid.working
    → mid.committed ≡ s.committed
    → Ended mid q
    → Ended s q
Ended-after s mid (s', r) es kept m = Ends-after s mid s' es kept m

pub Moved-Ended : {A : Type 0} (s : Session) (q : Session × Result A) → Moved s q → Ended s q
Moved-Ended s (s', ok a) m = inl (m.1, inl m.0)
Moved-Ended s (s', err e) m = m

pub Moved-and_then :
    {A B : Type 0} (s : Session) (q : Session × Result A) (f : A → Session → Session × Result B)
    → Moved s q
    → ((a : A) → (mid : Session) → Moved mid (f a mid))
    → Moved s (and_then q f)
unfolding and_then
Moved-and_then s (mid, ok a) f m h = Moved-after s mid (f a mid) m.0 m.1 (h a mid)
Moved-and_then s (mid, err e) f m h = m

pub Ended-and_then :
    {A B : Type 0} (s : Session) (q : Session × Result A) (f : A → Session → Session × Result B)
    → Moved s q
    → ((a : A) → (mid : Session) → Ended mid (f a mid))
    → Ended s (and_then q f)
unfolding and_then
Ended-and_then s (mid, ok a) f m h = Ended-after s mid (f a mid) m.0 m.1 (h a mid)
Ended-and_then s (mid, err e) f m h = m
