-- ===== src/Persistence/Steps/Follows.antt =====
-- What stays true of a session over several transactions of the discovery service on the jobs table
-- (backend/app/persistence/discovery_repositories.py): its committed rows follow from those at the
-- start by the row machine, and its pending rows from the committed ones.
use network_operations_platf.Common.{◌≡◌, sym, subst, List, inl, inr}
use network_operations_platf.Persistence.Tables.{DiscoveryJobRecord, Session, commit, rollback}
use network_operations_platf.Persistence.Steps.{
  Effect, same, updated, added, Effects, stays, Effects-trans, Effects-preserve, Ends,
}
use network_operations_platf.Persistence.Jobs.{new_record}
use network_operations_platf.Persistence.Jobs.Updates.{
  HasUniqueIds, update_where-HasUniqueIds, append-HasUniqueIds,
}

abbrev pub Follows : List DiscoveryJobRecord → Session → Type 0
Follows start s = Effects start s.committed × Effects s.committed s.working

pub clean-Follows :
    (start : List DiscoveryJobRecord) (s : Session)
    → Effects start s.committed
    → s.working ≡ s.committed
    → Follows start s
clean-Follows start s f clean = (f, subst (Effects s.committed) (sym clean) stays)

pub Ends-Follows :
    (start : List DiscoveryJobRecord) (s s' : Session)
    → Follows start s
    → Ends s s'
    → Follows start s'
Ends-Follows start s s' (a, b) (inl (kept, inl f)) = (
  subst (Effects start) (sym kept) a,
  subst (λ rows. Effects rows s'.working) (sym kept) (Effects-trans b f),
)
Ends-Follows start s s' (a, b) (inl (kept, inr back)) =
    clean-Follows start s' (subst (Effects start) (sym kept) a) back
Ends-Follows start s s' (a, b) (inr (f, done)) =
    clean-Follows start s' (subst (Effects start) (sym done) (Effects-trans a (Effects-trans b f)))
      (sym done)

pub commit-Follows :
    (start : List DiscoveryJobRecord) (s : Session) → Follows start s → Follows start (commit s)
unfolding commit
commit-Follows start s (a, b) = (Effects-trans a b, stays)

pub rollback-Follows :
    (start : List DiscoveryJobRecord) (s : Session) → Follows start s → Follows start (rollback s)
unfolding rollback
rollback-Follows start s (a, b) = (a, stays)

Effect-HasUniqueIds :
    (rows rows' : List DiscoveryJobRecord)
    → Effect rows rows'
    → HasUniqueIds rows
    → HasUniqueIds rows'
Effect-HasUniqueIds rows rows' (same e) u = subst HasUniqueIds (sym e) u
Effect-HasUniqueIds rows rows' (updated p f place guarded e) u =
    subst HasUniqueIds (sym e)
      (update_where-HasUniqueIds p f rows (λ q. ((place q).0, (place q).1)) u)
Effect-HasUniqueIds rows rows' (added now n fresh free e) u =
    subst HasUniqueIds (sym e)
      (append-HasUniqueIds rows (new_record now n) (unfold new_record in fresh) u)

-- No two rows get one identifier.
pub Follows-HasUniqueIds :
    (start : List DiscoveryJobRecord) (s : Session)
    → Follows start s
    → HasUniqueIds start
    → HasUniqueIds s.committed
Follows-HasUniqueIds start s h u = Effects-preserve HasUniqueIds Effect-HasUniqueIds h.0 u
