-- ===== src/Persistence/Jobs/Settled.antt =====
-- The row that a method gives back after it has ended a job (backend/app/persistence/
-- discovery_repositories.py) is the row of that job, and terminal.
use network_operations_platf.Common.{
  ℕ, ◌≡◌, refl, sym, subst, ◌∙◌, Bool, true, String, Option, some, List, [], ◌∷◌, any, is_none,
  arith, Bool-cases, Option-cases, inl, inr,
}
use network_operations_platf.Discovery.Contracts.{
  failed, cancelled, is_terminal, status_eq, transition_job,
}
use network_operations_platf.Persistence.Tables.{
  DiscoveryJobRecord, Session, alone, rollback, update_where, is_job, get,
}
use network_operations_platf.Persistence.Jobs.{
  resource_not_found, invalid_transition, Result, ok, err, Change, changed, may_change,
  cancel_change, apply_update, transition, finalise_cancellation, mark_failed_after_rollback,
}
use network_operations_platf.Persistence.Jobs.Updates.{
  KeepsKey, get-update_where, HasUniqueIds, any-get, status_eq_sound, any-id-update_where,
}

-- The row of the job, terminal and found in the table.
abbrev pub IsSettled : String → ℕ → List DiscoveryJobRecord → Option DiscoveryJobRecord → Type 0
IsSettled t k rows o =
    (j : DiscoveryJobRecord) × (o ≡ some j) × (is_terminal j.state ≡ true) × (get t k rows ≡ some j)

-- A method that raised or gave back such a row.
abbrev pub Settles : String → ℕ → Session × Result (Option DiscoveryJobRecord) → Type 0
Settles t k (s, err e) = Unit
Settles t k (s, ok o) = HasUniqueIds s.working → IsSettled t k s.working o

unique_before :
    (p : DiscoveryJobRecord → Bool) (f : DiscoveryJobRecord → DiscoveryJobRecord)
    (rows : List DiscoveryJobRecord)
    → KeepsKey f
    → HasUniqueIds (update_where p f rows)
    → HasUniqueIds rows
unfolding update_where
unique_before p f [] h u = tt
unique_before p f (r ∷ rs) h u =
    (ground (arith, h r, u.0, any-id-update_where r.id p f rs h), unique_before p f rs h u.1)

update-Settles :
    (p : DiscoveryJobRecord → Bool) (f : DiscoveryJobRecord → DiscoveryJobRecord) (t : String)
    (k : ℕ) (s : Session)
    → KeepsKey f
    → ((r : DiscoveryJobRecord) → p r ≡ true → is_job t k r ≡ true)
    → ((r : DiscoveryJobRecord) → is_terminal (f r).state ≡ true)
    → Settles t k (apply_update p f t k s)
update-Settles p f t k s keys own over = elim (Bool-cases (any p s.working)) [
  | inl y ↦
      let next = update_where p f s.working in
      let e : apply_update p f t k s ≡ (record s { working = next }, ok (get t k next)) =
        unfold apply_update in ground (arith, y) in
      subst (Settles t k) (sym e) (λ u.
        let (r, found, holds) =
          any-get p t k s.working (unique_before p f s.working keys u) own y in
        let there : get t k next ≡ some (f r) =
          get-update_where t k p f s.working keys ∙ ground (arith, found, holds) in
        (f r, there, over r, there))
  | inr n ↦
      let e : apply_update p f t k s ≡ (rollback s, err invalid_transition) =
        unfold apply_update in ground (arith, n) in
      subst (Settles t k) (sym e) tt
]

pub transition-Settles :
    (now : ℕ) (t : String) (k : ℕ) (c : Change) (s : Session)
    → is_terminal c.target_state ≡ true
    → Settles t k (transition alone now t k c s)
transition-Settles now t k c s over =
    let call = transition alone now t k c s in
    elim (Option-cases (get t k s.working)) [
      | inl n ↦
          let e : call ≡ (s, err resource_not_found) = unfold transition in ground (arith, n) in
          subst (Settles t k) (sym e) tt
      | inr (job, n) ↦ elim (Option-cases (transition_job job.state c.target_state)) [
        | inl z ↦
            let e : call ≡ (s, err invalid_transition) =
              unfold transition in ground (arith, n, z) in
            subst (Settles t k) (sym e) tt
        | inr (u, z) ↦
            let p = may_change t k job.state c in
            let e : call ≡ apply_update p (changed now c) t k s =
              unfold transition in ground (arith, n, z) in
            subst (Settles t k) (sym e) (
              update-Settles p (changed now c) t k s (unfold changed in λ r. (refl, refl))
                (unfold may_change in λ r h. ground (arith, h)) (unfold changed in λ r. over))
      ]
    ]

pub finalise-Settles :
    (now : ℕ) (t : String) (k : ℕ) (owner : Option ℕ) (s : Session)
    → Settles t k (finalise_cancellation alone now t k owner s)
finalise-Settles now t k owner s =
    let call = finalise_cancellation alone now t k owner s in
    elim (Option-cases (get t k s.working)) [
      | inl n ↦
          let e : call ≡ (s, err resource_not_found) =
            unfold finalise_cancellation in ground (arith, n) in
          subst (Settles t k) (sym e) tt
      | inr (job, n) ↦ elim (Bool-cases (status_eq job.state cancelled)) [
        | inl y ↦
            let e : call ≡ (s, ok (some job)) =
              unfold finalise_cancellation in ground (arith, n, y) in
            let over : is_terminal job.state ≡ true =
              ground (arith, status_eq_sound job.state cancelled y) in
            subst (Settles t k) (sym e) (λ u. (job, refl, over, n))
        | inr y ↦ elim (Bool-cases (is_none job.cancellation_requested_at)) [
          | inl z ↦
              let e : call ≡ (s, err invalid_transition) =
                unfold finalise_cancellation in ground (arith, n, y, z) in
              subst (Settles t k) (sym e) tt
          | inr z ↦
              let c = cancel_change job owner in
              let e : call ≡ transition alone now t k c s =
                unfold finalise_cancellation in ground (arith, n, y, z) in
              subst (Settles t k) (sym e)
                (transition-Settles now t k c s (unfold cancel_change in refl))
        ]
      ]
    ]

pub mark_failed-Settles :
    (now : ℕ) (t : String) (k : ℕ) (code message : String) (owner : Option ℕ) (s : Session)
    → Settles t k (mark_failed_after_rollback alone now t k code message owner s)
unfolding mark_failed_after_rollback
mark_failed-Settles now t k code message owner s =
    let c : Change = record {
      target_state = failed;
      failure_code = some code;
      failure_message = some message;
      require_no_cancellation = true;
      expected_execution_owner = owner;
    } in
    transition-Settles now t k c (rollback s) refl
