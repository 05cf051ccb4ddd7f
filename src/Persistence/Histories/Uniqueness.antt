-- ===== src/Persistence/Histories/Uniqueness.antt =====
-- At most one active job per target (backend/app/persistence/discovery_repositories.py, `create`).
use network_operations_platf.Common.{
  ℕ, ◌+◌, ◌≤◌, ◌≡◌, subst, refl, Bool, true, false, String, List, [], ◌∷◌, ◌++◌, any, ◌==◌, arith,
  if◌then◌else◌, Bool-cases, inl, inr, some, eq_iff, str_eq_refl, ==_refl, length, keep,
}
use network_operations_platf.Discovery.Contracts.{
  DiscoveryJobStatus, allowed_transitions, transition_job,
}
use network_operations_platf.Discovery.Scopes.{IpAddress}
use network_operations_platf.Persistence.Tables.{DiscoveryJobRecord, Session, update_where, get}
use network_operations_platf.Persistence.Jobs.{
  NewJob, new_record, is_active, is_active_for, claimed, renewed, changed, selected, requested,
  ended,
}
use network_operations_platf.Persistence.Jobs.Updates.{
  HasUniqueIds, update_where-HasUniqueIds, append-HasUniqueIds,
}
use network_operations_platf.Persistence.Steps.{
  IsClean, IsGuarded, RowStep, claims_row, renews_row, changes_row, selects_row, asks_row,
  stops_row, ends_row, Effect, same, updated, added,
}
use network_operations_platf.Persistence.Histories.{Call, history}
use network_operations_platf.Persistence.Histories.Calls.{history-preserve}

-- How many active jobs a target of a tenant has.
pub active_count : String → ℕ → List DiscoveryJobRecord → ℕ
active_count t k rows = length (keep (is_active_for t k) rows)

no_revival :
    (a b : DiscoveryJobStatus)
    → transition_job a b ≡ some b
    → is_active b ≡ true
    → is_active a ≡ true
unfolding transition_job allowed_transitions is_active
no_revival a b h e = ground arith

step_inactive :
    (t : String) (k : ℕ) (r r' : DiscoveryJobRecord)
    → RowStep r r'
    → is_active_for t k r' ≡ true
    → is_active_for t k r ≡ true
unfolding is_active_for is_active claimed renewed changed selected requested ended
step_inactive t k r r' (claims_row now owner lease q o e) h = ground arith
step_inactive t k r r' (renews_row now lease q o e) h = ground arith
step_inactive t k r r' (changes_row now c q e) h =
    ground (arith, no_revival r.state c.target_state q)
step_inactive t k r r' (selects_row now transport platform q e) h = ground arith
step_inactive t k r r' (asks_row now by reason q e) h = ground arith
step_inactive t k r r' (stops_row now by reason ending q over e) h = ground arith
step_inactive t k r r' (ends_row ending active over e) h = ground arith

get-any-id :
    (t : String) (k : ℕ) (rows : List DiscoveryJobRecord) (r : DiscoveryJobRecord)
    → get t k rows ≡ some r
    → any (λ q. q.id == k) rows ≡ true
unfolding get
get-any-id t k [] r h = cc
get-any-id t k (q ∷ rs) r h = ground (arith, get-any-id t k rs r)

tail-IsGuarded :
    (p : DiscoveryJobRecord → Bool) (f : DiscoveryJobRecord → DiscoveryJobRecord)
    (q : DiscoveryJobRecord) (rs : List DiscoveryJobRecord)
    → any (λ x. x.id == q.id) rs ≡ false
    → IsGuarded (q ∷ rs) p f
    → IsGuarded rs p f
unfolding get
tail-IsGuarded p f q rs fresh guarded t k r found = guarded t k r (elim (Bool-cases (q.id == k)) [
  | inl y ↦
      let same_key : q.id ≡ k = ground arith in
      let hit = get-any-id t k rs r found in
      ground (arith, subst (λ x. any (λ y. y.id == x) rs ≡ false) same_key fresh)
  | inr n ↦ ground (arith, found)
])

head-step :
    (p : DiscoveryJobRecord → Bool) (f : DiscoveryJobRecord → DiscoveryJobRecord)
    (q : DiscoveryJobRecord) (rs : List DiscoveryJobRecord)
    → IsGuarded (q ∷ rs) p f
    → p q ≡ true
    → RowStep q (f q)
unfolding get
head-step p f q rs guarded y =
    guarded q.tenant_id q.id q (ground (arith, ==_refl q.id, str_eq_refl q.tenant_id)) y

active_count-update_where :
    (t : String) (k : ℕ) (p : DiscoveryJobRecord → Bool)
    (f : DiscoveryJobRecord → DiscoveryJobRecord) (rows : List DiscoveryJobRecord)
    → HasUniqueIds rows
    → IsGuarded rows p f
    → active_count t k (update_where p f rows) ≤ active_count t k rows
unfolding update_where active_count
active_count-update_where t k p f [] u guarded = ground arith
active_count-update_where t k p f (q ∷ rs) u guarded =
    let rest = active_count-update_where t k p f rs u.1 (tail-IsGuarded p f q rs u.0 guarded) in
    elim (Bool-cases (p q)) [
      | inl y ↦
          let back = step_inactive t k q (f q) (head-step p f q rs guarded y) in
          ground (arith, rest, y)
      | inr n ↦ ground (arith, rest, n)
    ]

count_none :
    (p : DiscoveryJobRecord → Bool) (rows : List DiscoveryJobRecord)
    → any p rows ≡ false
    → length (keep p rows) ≡ 0
count_none p [] h = refl
count_none p (q ∷ rs) h = ground (arith, count_none p rs)

active_count-append :
    (t : String) (k : ℕ) (rows : List DiscoveryJobRecord) (r : DiscoveryJobRecord)
    → active_count t k (rows ++ r ∷ [])
      ≡ active_count t k rows + (if is_active_for t k r then 1 else 0)
unfolding active_count
active_count-append t k [] r = ground arith
active_count-append t k (q ∷ rs) r = ground (arith, active_count-append t k rs r)

new_active :
    (now : ℕ) (n : NewJob) (t : String) (k : ℕ)
    → is_active_for t k (new_record now n) ≡ true
    → (n.tenant_id ≡ t) × (n.target_id ≡ k)
unfolding is_active_for is_active new_record
new_active now n t k h = ground (arith, eq_iff n.tenant_id t)

-- No two rows have one identifier, and no target of a tenant has two active jobs.
pub record IsExclusive (rows : List DiscoveryJobRecord) : Type 0 where
  pub unique_ids : HasUniqueIds rows
  pub one_active : (t : String) (k : ℕ) → active_count t k rows ≤ 1

pub empty_IsExclusive : IsExclusive []
unfolding active_count
empty_IsExclusive = record { unique_ids = tt; one_active = λ t k. ground arith }

Effect-IsExclusive :
    (rows rows' : List DiscoveryJobRecord)
    → Effect rows rows'
    → IsExclusive rows
    → IsExclusive rows'
Effect-IsExclusive rows rows' (same e) h = rw e h
Effect-IsExclusive rows rows' (updated p f place guarded e) h = rw e (record {
  unique_ids = update_where-HasUniqueIds p f rows (λ q. ((place q).0, (place q).1)) h.unique_ids;
  one_active = λ t k.
      ground (arith, active_count-update_where t k p f rows h.unique_ids guarded, h.one_active t k);
})
Effect-IsExclusive rows rows' (added now n fresh free e) h = rw e (record {
  unique_ids =
      append-HasUniqueIds rows (new_record now n) (unfold new_record in fresh) h.unique_ids;
  one_active = λ t k. elim (Bool-cases (is_active_for t k (new_record now n))) [
    | inl y ↦
        let (same_tenant, same_target) = new_active now n t k y in
        let none_before : active_count t k rows ≡ 0 =
          unfold active_count in
          subst (λ a. length (keep (is_active_for a k) rows) ≡ 0) same_tenant
            (subst (λ b. length (keep (is_active_for n.tenant_id b) rows) ≡ 0) same_target
              (count_none (is_active_for n.tenant_id n.target_id) rows free)) in
        ground (arith, active_count-append t k rows (new_record now n), y, none_before)
    | inr z ↦ ground (arith, active_count-append t k rows (new_record now n), z, h.one_active t k)
  ];
})

-- Whatever calls follow, from a session with nothing pending in which no identifier occurs twice and
-- no target has two active jobs, this stays so: never two queued or running jobs for one target of a
-- tenant, not even after the reconciliation of a scope has made the jobs of its devices.
pub history-IsExclusive :
    (ip : IpAddress) (sync : Bool) (calls : List Call) (s : Session)
    → IsClean s
    → IsExclusive s.committed
    → IsExclusive (history ip sync calls s).committed
history-IsExclusive ip sync = history-preserve ip sync IsExclusive Effect-IsExclusive
