-- ===== src/Discovery/Execution/Calls/Moves.antt =====
-- What the frame of an execution (backend/app/discovery/execution.py) does to the jobs table.
use network_operations_platf.Common.{
  ℕ, ◌≡◌, refl, sym, subst, Bool, String, Option, none, some, List, arith, Bool-cases, Option-cases,
  inl, inr, ap,
}
use network_operations_platf.Persistence.Tables.{
  DiscoveryJobRecord, Session, alone, interleave, get,
}
use network_operations_platf.Persistence.Jobs.{
  DiscoveryPersistenceError, Result, ok, err, reason_or_default, cancellation_requested,
}
use network_operations_platf.Persistence.Steps.{Effects, Effects-trans, Ends, Ended, Ends-stays}
use network_operations_platf.Persistence.Steps.Follows.{Follows, clean-Follows, Ends-Follows}
use network_operations_platf.Persistence.Trees.{request_cancellation}
use network_operations_platf.Persistence.Trees.Moves.{request_cancellation-Ended}
use network_operations_platf.Discovery.Execution.Failures.{
  ExecutionError, cancellation_signal, lease_lost,
}
use network_operations_platf.Discovery.Execution.Calls.{
  Done, returns, raises, and_next, Environment, outside, lift, cancel_with_parent,
  raise_if_cancelled,
}

-- Nothing is pending in the jobs table.
abbrev pub Steady : List DiscoveryJobRecord → Session → Type 0
Steady start s = Effects start s.committed × (s.working ≡ s.committed)

pub Steady-Follows :
    (start : List DiscoveryJobRecord) (s : Session) → Steady start s → Follows start s
Steady-Follows start s f = clean-Follows start s f.0 f.1

-- What other sessions commit are steps of the row machine too.
abbrev pub IsLawful : (List DiscoveryJobRecord → List DiscoveryJobRecord) → Type 0
IsLawful meanwhile = (rows : List DiscoveryJobRecord) → Effects rows (meanwhile rows)

pub interleave-Steady :
    (start : List DiscoveryJobRecord)
    (meanwhile : List DiscoveryJobRecord → List DiscoveryJobRecord) (s : Session)
    → IsLawful meanwhile
    → Steady start s
    → Steady start (interleave meanwhile s)
unfolding interleave
interleave-Steady start meanwhile s lawful f =
    (Effects-trans f.0 (lawful s.committed), ap meanwhile f.1)

-- Whatever a statement comes to, the jobs table has followed the row machine.
pub record Keeps {A : Type 0} (start : List DiscoveryJobRecord) (q : Session × Done A)
    : Type 0 where
  pub follows : Follows start q.0

pub kept :
    {A : Type 0} (start : List DiscoveryJobRecord) (s : Session) (d : Done A)
    → Follows start s
    → Keeps start (s, d)
kept start s d h = record { follows = h }

pub and_next-Keeps :
    {A B : Type 0} (start : List DiscoveryJobRecord) (q : Session × Done A)
    (f : A → Session → Session × Done B)
    → Keeps start q
    → ((a : A) → (s : Session) → Follows start s → Keeps start (f a s))
    → Keeps start (and_next q f)
unfolding and_next
and_next-Keeps start (s, returns a) f h next = next a s h.follows
and_next-Keeps start (s, raises e) f h next = record { follows = h.follows }

pub lift-Keeps :
    {A : Type 0} (start : List DiscoveryJobRecord) (text_of : DiscoveryPersistenceError → String)
    (s : Session) (q : Session × Result A)
    → Follows start s
    → Ended s q
    → Keeps start (lift text_of q)
unfolding lift
lift-Keeps start text_of s (s', ok a) h m = record { follows = Ends-Follows start s s' h m }
lift-Keeps start text_of s (s', err e) h m = record { follows = Ends-Follows start s s' h m }

pub lifted-Keeps :
    {A : Type 0} (start : List DiscoveryJobRecord) (text_of : DiscoveryPersistenceError → String)
    (q : Session × Result A)
    → Follows start q.0
    → Keeps start (lift text_of q)
unfolding lift
lifted-Keeps start text_of (s', ok a) h = record { follows = h }
lifted-Keeps start text_of (s', err e) h = record { follows = h }

pub outside-Keeps :
    {A : Type 0} (start : List DiscoveryJobRecord) (result : Done A) (s : Session)
    → Follows start s
    → Keeps start (outside result s)
unfolding outside
outside-Keeps start result s h = record { follows = h }

-- How a check comes out: nothing happened, or an exception was raised.
pub data Checked (s : Session) (q : Session × Done Unit) : Type 0 where
  passes : q ≡ (s, returns tt) → Checked s q
  stops : (s' : Session) (e : ExecutionError) → q ≡ (s', raises e) → Ends s s' → Checked s q

pub Checked-Keeps :
    (start : List DiscoveryJobRecord) (s : Session) (q : Session × Done Unit)
    → Follows start s
    → Checked s q
    → Keeps start q
Checked-Keeps start s q h (passes e) = subst (Keeps start) (sym e) (kept start s (returns tt) h)
Checked-Keeps start s q h (stops s' x e m) =
    subst (Keeps start) (sym e) (kept start s' (raises x) (Ends-Follows start s s' h m))

-- After a check that passed nothing is pending still.
pub Checked-Steady :
    {B : Type 0} (start : List DiscoveryJobRecord) (s : Session) (q : Session × Done Unit)
    (f : Unit → Session → Session × Done B)
    → Steady start s
    → Checked s q
    → ((u : Unit) → Steady start s → Keeps start (f u s))
    → Keeps start (and_next q f)
Checked-Steady start s q f h (passes e) next =
    subst (λ p. Keeps start (and_next p f)) (sym e) (unfold and_next in next tt h)
Checked-Steady start s q f h (stops s' x e m) next =
    subst (λ p. Keeps start (and_next p f)) (sym e)
      (unfold and_next in
        kept start s' (raises x) (Ends-Follows start s s' (Steady-Follows start s h) m))

module _ (env : Environment) (t : String) (k : ℕ) where
  request-Checked :
      (s : Session) (q : Session × Result (Option DiscoveryJobRecord × Bool))
      → Ended s q
      → Checked s (and_next (lift env.text_of q) (λ _ next. (next, raises cancellation_signal)))
  unfolding and_next lift
  request-Checked s (s', ok a) m = stops s' cancellation_signal refl m
  request-Checked s (s', err e) m = stops s' _ refl m

  cancel_with_parent-Checked :
      (parent : Option DiscoveryJobRecord) (s : Session)
      → Checked s (cancel_with_parent env t k parent s)
  unfolding cancel_with_parent
  cancel_with_parent-Checked none s = stops s cancellation_signal refl (Ends-stays s)
  cancel_with_parent-Checked (some parent) s =
      elim (Option-cases parent.cancellation_requested_by) [
        | inl n ↦ stops s cancellation_signal (ground (arith, n)) (Ends-stays s)
        | inr (by, n) ↦
            let call =
              request_cancellation env.ip env.synchronised alone env.now env.fresh t k by
                (reason_or_default parent.cancellation_reason) s in
            let e : cancel_with_parent env t k (some parent) s
                ≡ and_next (lift env.text_of call) (λ _ next. (next, raises cancellation_signal)) =
              ground (arith, n) in
            subst (Checked s) (sym e) (
              request-Checked s call (
                request_cancellation-Ended env.ip env.synchronised env.now env.fresh t k by
                  (reason_or_default parent.cancellation_reason) s))
      ]

  pub raise_if_cancelled-Checked :
      (n : ℕ) (parent : Option ℕ) (s : Session) → Checked s (raise_if_cancelled env n t k parent s)
  unfolding raise_if_cancelled
  raise_if_cancelled-Checked n parent s = elim (Bool-cases (env.lease_is_lost n)) [
    | inl y ↦ stops s lease_lost (ground (arith, y)) (Ends-stays s)
    | inr y ↦ elim (Bool-cases (cancellation_requested t k s)) [
      | inl z ↦ stops s cancellation_signal (ground (arith, y, z)) (Ends-stays s)
      | inr z ↦ elim (Option-cases parent) [
        | inl x ↦ passes (ground (arith, y, z, x))
        | inr (p, x) ↦ elim (Bool-cases (cancellation_requested t p s)) [
          | inr w ↦ passes (ground (arith, y, z, x, w))
          | inl w ↦
              let e : raise_if_cancelled env n t k parent s
                  ≡ cancel_with_parent env t k (get t p s.working) s =
                ground (arith, y, z, x, w) in
              subst (Checked s) (sym e) (cancel_with_parent-Checked (get t p s.working) s)
        ]
      ]
    ]
  ]
